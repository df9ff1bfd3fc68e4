-- ===== src/Tests/Whole.antt =====
-- A submission from its header to its row, with keys and jobs in memory.
use bengali_tts_service.Base.{ℕ, ◌≡◌, refl, ◌&&◌, Option, none, some, List, [], ◌∷◌, if◌then◌else◌}
use bengali_tts_service.Text.{JsString, js, text_eq, starts_with, trim, code_points}
use bengali_tts_service.Text.Decimal.{decimal}
use bengali_tts_service.ApiKeys.{looks_like_api_key, hash_api_key, hashes_match}
use bengali_tts_service.Auth.{api_key_auth}
use bengali_tts_service.Jobs.Submit.{
  submit, transaction, admit_in_transaction, admit, rate_limit_gate, take_rate_limit_token,
  insert_row, hand_over, pending_gate, queue_gate,
}
use bengali_tts_service.Jobs.Shared.{read_idempotency_key, submission_body}
use bengali_tts_service.RateLimit.{rate_limit_exit, take_token, spend, refilled}
use bengali_tts_service.TtsText.{validate_tts_text, bengali_ratio, is_bengali}
use bengali_tts_service.Queue.{enqueue_tts_job, queue_depth, read_depth}
use bengali_tts_service.Errors.{ok, thrown, other, run_effect}
use bengali_tts_service.Http.{one, failure, validate}
use bengali_tts_service.Schema.{Job}
use bengali_tts_service.Deps.Prisma.{Prisma, JobTable}
use bengali_tts_service.Deps.Crypto.{KeyTable}
use bengali_tts_service.Deps.Action.{AppDeps, World}
use bengali_tts_service.Health.{answer_checks}
use bengali_tts_service.App.{serve, gen_req_id, respond}
use bengali_tts_service.App.Routes.{
  Services, Request, routers, method_routers, first_of, keys_router,
}
use bengali_tts_service.App.Accepted.{IsSubmitted, serve_accepts}
use bengali_tts_service.Tests.Memory.{memory_prisma, memory_table, ok_inj, find_row}
use bengali_tts_service.Tests.Setting.{gateway, start, bangla}
use bengali_tts_service.Tests.Keys.{plain_crypto, first_key, find_key, found_key, with_user}
use bengali_tts_service.Tests.Requests.{all_down, parsed}

-- The jobs of the one client with a key.
abbrev whole_prisma : Prisma
whole_prisma = record memory_prisma {
  api_key_find_unique = λ h l. ok (with_user (find_key h (first_key ∷ [])));
  api_key_revoke_many = λ i u l. (thrown (other (js "unused")), l);
}

never_revoked :
    (i u : JsString) (l l' : List Job) (n : ℕ)
    → ¬ (whole_prisma.api_key_revoke_many i u l ≡ (ok n, l'))
never_revoked i u l l' n h = cc

abbrev whole_keys : KeyTable whole_prisma
whole_keys = record {
  keys = λ l. first_key ∷ [];
  find_unique_lem = λ hash l k u h. found_key hash (first_key ∷ []) k u (ok_inj h);
  revoke_lem = λ i u l l' n h. absurd (never_revoked i u l l' n h);
}

abbrev whole_jobs : JobTable whole_prisma
whole_jobs = record {
  rows = memory_table.rows;
  find_first_meets = memory_table.find_first_meets;
  find_first_none = memory_table.find_first_none;
  count_lem = memory_table.count_lem;
  create_lem = memory_table.create_lem;
  create_thrown = memory_table.create_thrown;
  delete_thrown = memory_table.delete_thrown;
  delete_lem = memory_table.delete_lem;
  lock_rows = memory_table.lock_rows;
  commit_rows = memory_table.commit_rows;
  rollback_rows = memory_table.rollback_rows;
}

abbrev whole_gateway : AppDeps
whole_gateway = record gateway { prisma = whole_prisma }

abbrev whole_start : World whole_gateway
whole_start = record {
  db = start.db;
  redis = start.redis;
  queue = start.queue;
  s3 = start.s3;
  rejections = start.rejections;
}

abbrev whole_services : Services whole_gateway
whole_services = record {
  Raw = Option JsString;
  Target = JsString;
  parse_body = parsed;
  matches = λ method pattern sent target.
      if text_eq method sent && text_eq pattern target then some none else none;
  under = λ prefix target. starts_with target prefix;
  registration = λ body. failure [];
  crypto = plain_crypto;
  metrics = λ w. (ok (js "tts_queue_depth 0"), w);
  ready = λ w. answer_checks all_down;
}

abbrev submission : Request whole_services
submission = record {
  method = js "POST";
  target = js "/v1/tts";
  raw = some bangla;
  query = record { limit = 1; cursor = none };
  authorization = some (js "Bearer sk_live_abcdefghij");
  x_request_id = some (one (js "r1"));
  idempotency_key = none;
  uuid = js "u1";
  secret = js "s";
}

is_202 : (serve whole_gateway whole_services submission whole_start).response.status ≡ 202
unfolding serve respond routers method_routers first_of keys_router text_eq js starts_with
    api_key_auth looks_like_api_key trim find_key hash_api_key hashes_match submit
    read_idempotency_key admit rate_limit_gate run_effect take_rate_limit_token rate_limit_exit
    take_token spend refilled validate validate_tts_text code_points bengali_ratio is_bengali
    insert_row transaction submission_body admit_in_transaction hand_over pending_gate queue_gate
    enqueue_tts_job queue_depth read_depth decimal find_row
is_202 = refl

serve_accepts_example :
    let s = serve whole_gateway whole_services submission whole_start in
    IsSubmitted whole_gateway whole_keys whole_jobs whole_services submission whole_start bangla
      (gen_req_id (some (one (js "r1"))) (js "u1"))
      s.after
      s.response.content
unfolding text_eq starts_with js
serve_accepts_example =
    serve_accepts whole_gateway whole_keys whole_jobs whole_services submission whole_start bangla
      none refl (refl, (refl, (refl, (refl, tt)))) refl refl refl is_202
