-- ===== src/LoadTest/Outcomes.antt =====
-- load/tts-load.js, submit: how the answers of the gateway (gateway/src/lib/errors.ts) are counted.
use bengali_tts_service.Base.{
  ℕ, ◌+◌, ◌≤◌, ◌≡◌, refl, Bool, true, false, Option, some, List, [], ◌∷◌, arith, inl, inr,
}
use bengali_tts_service.Text.{JsString, js, text_eq}
use bengali_tts_service.Errors.{
  Result, ok, thrown, Result-cases, Thrown, DomainError, Answer, error_handler, to_rendering,
  is_domain_error, domain, rate_limited, pending_cap_exceeded, queue_full,
}
use bengali_tts_service.LoadTest.{
  Tally, send_text, key_of, count_response, is_known_outcome, response_code, burst_submit,
}
use bengali_tts_service.LoadTest.Client.{K6, Response}

-- A response of the gateway that carries an answer.
pub record Carries (res : Response) (a : Answer) : Type 0 where
  pub status_lem : res.status ≡ a.status
  pub code_lem : res.json (js "error.code") ≡ ok (some a.code)

-- The three gates of the gateway.
abbrev pub is_gate_refusal : DomainError → Bool
is_gate_refusal (rate_limited seconds) = true
is_gate_refusal pending_cap_exceeded = true
is_gate_refusal queue_full = true
is_gate_refusal e = false

abbrev pub is_gate : Thrown → Bool
is_gate (domain e) = is_gate_refusal e
is_gate t = false

-- What a tally should make of a throw, said without codes.
abbrev pub tally_refusal : DomainError → Tally → Tally
tally_refusal (rate_limited seconds) t = record t { rate_limited = t.rate_limited + 1 }
tally_refusal pending_cap_exceeded t = record t { pending_capped = t.pending_capped + 1 }
tally_refusal queue_full t = record t { queue_full = t.queue_full + 1 }
tally_refusal e t = record t { other_responses = t.other_responses + 1 }

abbrev pub tally_thrown : Thrown → Tally → Tally
tally_thrown (domain e) t = tally_refusal e t
tally_thrown _ t = record t { other_responses = t.other_responses + 1 }

refusal_counts :
    (e : DomainError) (t : Tally)
    → let a = error_handler (domain e) in
      (count_response a.status (some a.code) t ≡ tally_refusal e t)
      × (is_known_outcome a.status (some a.code) ≡ is_gate_refusal e)
unfolding error_handler text_eq js count_response is_known_outcome to_rendering
refusal_counts e t = ground arith

thrown_counts :
    (e : Thrown) (t : Tally)
    → let a = error_handler e in
      (count_response a.status (some a.code) t ≡ tally_thrown e t)
      × (is_known_outcome a.status (some a.code) ≡ is_gate e)
unfolding error_handler text_eq js count_response is_known_outcome
thrown_counts (domain e) t = refusal_counts e t
thrown_counts e t = ground arith

-- Reading the code of an answer of the gateway to a throw.
read_code :
    (res : Response) (e : Thrown)
    → Carries res (error_handler e)
    → response_code res ≡ ok (some (error_handler e).code)
unfolding response_code error_handler to_rendering is_domain_error
read_code res e h = ground (arith, h.status_lem, h.code_lem)

module _ (k6 : K6) (url : JsString) where
  -- An iteration of the burst that the gateway answers with a refusal or a fault adds one to the
  -- counter of the gate that refused, or to the counter of the other responses if no gate did; and
  -- the check of the outcome passes exactly for the refusals of the three gates.
  pub burst_submit_counts :
      (random vu : ℕ) (keys : List (Option JsString)) (tally : Tally) (s : k6.State) (e : Thrown)
      → Carries (send_text k6 url (key_of vu keys) s).0 (error_handler e)
      → ((burst_submit k6 url random vu keys tally s).0 ≡ ok (is_gate e))
        × ((burst_submit k6 url random vu keys tally s).1 ≡ tally_thrown e tally)
  unfolding burst_submit
  burst_submit_counts random vu keys tally s e h =
      let res = (send_text k6 url (key_of vu keys) s).0 in
      rw (read_code res e h, h.status_lem, (thrown_counts e tally).1, (thrown_counts e tally).0)
        (refl, refl)

-- All responses that were counted.
abbrev pub total : Tally → ℕ
total t = t.accepted + t.rate_limited + t.pending_capped + t.queue_full + t.other_responses

-- How many iterations returned, and how many of their checks failed.
abbrev returned : Result Bool → ℕ
returned (ok b) = 1
returned (thrown t) = 0

abbrev unknown : Result Bool → ℕ
unknown (ok false) = 1
unknown _ = 0

count_one :
    (status : ℕ) (code : Option JsString) (t : Tally)
    → (total (count_response status code t) ≡ total t + 1)
      × ((count_response status code t).other_responses
          ≤ t.other_responses + unknown (ok (is_known_outcome status code)))
unfolding count_response is_known_outcome
count_one status code t = ground arith

-- An iteration of the burst: the random number and the number of the user.
abbrev pub Turn : Type 0
Turn = ℕ × ℕ

abbrev sum_of : (Result Bool → ℕ) → List (Result Bool) → ℕ
sum_of f [] = 0
sum_of f (r ∷ rs) = f r + sum_of f rs

module _ (k6 : K6) (url : JsString) (keys : List (Option JsString)) where
  -- Iterations one after another, in the order in which their responses arrive.
  abbrev pub burst : List Turn → Tally → k6.State → List (Result Bool) × Tally × k6.State
  burst [] t s = ([], t, s)
  burst ((random, vu) ∷ turns) t s =
      let (r, t', s') = burst_submit k6 url random vu keys t s in
      let (rs, t'', s'') = burst turns t' s' in (r ∷ rs, t'', s'')

  one_turn :
      (random vu : ℕ) (t : Tally) (s : k6.State)
      → let r = burst_submit k6 url random vu keys t s in
        (total r.1 ≡ total t + returned r.0)
        × (r.1.other_responses ≤ t.other_responses + unknown r.0)
  unfolding burst_submit
  one_turn random vu t s =
      let res = (send_text k6 url (key_of vu keys) s).0 in
      elim (Result-cases (response_code res)) [
        | inl (code, e) ↦ rw e (count_one res.status code t)
        | inr (x, e) ↦ rw e (omega arith, omega arith)
      ]

  -- Every iteration that does not throw is counted once, in one counter: the counters have grown by
  -- as many responses together; and no more are counted as other responses than fail their check.
  burst-total :
      (turns : List Turn) (t : Tally) (s : k6.State)
      → let r = burst turns t s in
        (total r.1 ≡ total t + sum_of returned r.0)
        × (r.1.other_responses ≤ t.other_responses + sum_of unknown r.0)
  burst-total [] t s = (omega arith, omega arith)
  burst-total ((random, vu) ∷ turns) t s =
      let r = burst_submit k6 url random vu keys t s in
      let (p, q) = one_turn random vu t s in
      let (ps, qs) = burst-total turns r.1 r.2 in (omega (arith, p, ps), omega (arith, q, qs))
