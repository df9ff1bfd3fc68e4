-- ===== src/Tests/Loads.antt =====
-- The load test against a generator in memory.
use bengali_tts_service.Base.{
  ℕ, ◌+◌, ◌-◌, ◌≡◌, refl, ◌⊎◌, arith, false, Option, none, some, List, [], ◌∷◌, ◌++◌,
}
use bengali_tts_service.Base.Int.{pos, ◌≤ℤ◌}
use bengali_tts_service.Text.{JsString, js, starts_with}
use bengali_tts_service.Text.Decimal.{decimal}
use bengali_tts_service.Errors.{ok, domain, rate_limited, error_handler}
use bengali_tts_service.LoadTest.{
  Tally, Drained, gauge, base_url, is_positive, depth_of, drain_time, teardown, key_of, send_text,
  burst_submit,
}
use bengali_tts_service.LoadTest.Client.{K6, ClockLaw, Response}
use bengali_tts_service.LoadTest.Outcomes.{Carries, is_gate, tally_thrown, burst_submit_counts}
use bengali_tts_service.LoadTest.Depth.{text_of, depth_of-text_of}
use bengali_tts_service.LoadTest.Drain.{teardown_ends}

-- The clock, and the depth of the queue.
abbrev Scene : Type 0
Scene = ℕ × ℕ

abbrev refused_response : Response
refused_response = record {
  status = 429;
  body = [];
  json = λ selector. ok (some (js "RATE_LIMITED"));
}

abbrev exposed : ℕ → Response
exposed depth = record {
  status = 200;
  body = gauge ++ (decimal depth ++ 10 ∷ []);
  json = λ selector. ok none;
}

abbrev memory_k6 : K6
memory_k6 = record {
  State = Scene;
  post = λ url body headers s. (refused_response, s);
  get = λ url (clock, depth). (exposed depth, (clock + 10, depth - 1));
  now = λ (clock, depth). clock;
  sleep = λ ms (clock, depth). (clock + ms, depth);
  b64encode = λ s. s;
}

memory_clock : ClockLaw memory_k6
memory_clock = record {
  sleep_lem = λ ms (clock, depth). omega arith;
  get_lem = λ url (clock, depth). omega arith;
}

abbrev url : JsString
url = base_url none

teardown_ends_example :
    (r : Drained) × (s' : Scene) × (teardown memory_k6 url 301 (5, 3) ≡ some (r, s'))
    × ((is_positive r.depth ≡ false) ⊎ (pos drain_time ≤ℤ r.elapsed_ms))
teardown_ends_example = teardown_ends memory_k6 memory_clock url 301 (5, 3) (omega arith)

abbrev no_responses : Tally
no_responses = record {
  accepted = 0;
  rate_limited = 0;
  pending_capped = 0;
  queue_full = 0;
  other_responses = 0;
}

abbrev one_key : List (Option JsString)
one_key = some (js "sk_live_abc") ∷ []

Carries-429 :
    Carries
      (send_text memory_k6 url (key_of 1 one_key) (5, 3)).0
      (error_handler (domain (rate_limited 4)))
unfolding error_handler
Carries-429 = record { status_lem = refl; code_lem = refl }

burst_submit_counts_example :
    ((burst_submit memory_k6 url 500 1 one_key no_responses (5, 3)).0
      ≡ ok (is_gate (domain (rate_limited 4))))
    × ((burst_submit memory_k6 url 500 1 one_key no_responses (5, 3)).1
        ≡ tally_thrown (domain (rate_limited 4)) no_responses)
burst_submit_counts_example =
    burst_submit_counts memory_k6 url 500 1 one_key no_responses (5, 3) (domain (rate_limited 4))
      Carries-429

depth_of-text_of_example :
    depth_of (text_of (js "up 1" ∷ []) ++ (gauge ++ (decimal 42 ++ 10 ∷ []))) ≡ some 42
unfolding js starts_with
depth_of-text_of_example =
    depth_of-text_of (js "up 1" ∷ []) 42 [] (((refl, (refl, (refl, (refl, tt)))), refl), tt)
