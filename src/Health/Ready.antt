-- ===== src/Health/Ready.antt =====
-- When the gateway is ready.
use bengali_tts_service.Base.{◌≡◌, refl, ◌⊎◌, ◌↔◌, Bool, true, arith}
use bengali_tts_service.Errors.{succeed, fail, die}
use bengali_tts_service.Deps.Action.{AppDeps, World}
use bengali_tts_service.Health.{
  AtDeadline, ended, silent, CheckResult, check_ok, probe, is_ok, answer_checks, storage_check,
  readyz,
}

-- A check that has succeeded before its deadline.
abbrev pub IsUp : {A : Type 0} → AtDeadline A → Type 0
IsUp {A} c = (a : A) × (c ≡ ended (succeed a))

probe_iff : {A : Type 0} (c : AtDeadline A) → (is_ok (probe c) ≡ true) ↔ IsUp c
unfolding probe
probe_iff (ended (succeed a)) = (λ h. (a, refl), λ h. refl)
probe_iff (ended (fail t)) = (λ h. cc, λ (a, e). cc)
probe_iff (ended (die t)) = (λ h. cc, λ (a, e). cc)
probe_iff silent = (λ h. cc, λ (a, e). cc)

answered_or :
    (x y z : CheckResult)
    → let r = answer_checks (record { postgres = x; redis = y; storage = z }) in
      ((r.status ≡ 200) ⊎ (r.status ≡ 503))
      × ((r.status ≡ 200) ↔ ((is_ok x ≡ true) × (is_ok y ≡ true) × (is_ok z ≡ true)))
answered_or check_ok check_ok check_ok = ground arith
answered_or x y z = ground arith

-- The readiness route answers 200 or 503, whatever the checks do, a crash and silence past the
-- deadline included; and it answers 200 exactly when all three have succeeded in time.
pub readyz_iff :
    (deps : AppDeps) {A B : Type 0} (postgres : AtDeadline A) (redis : AtDeadline B) (late : Bool)
    (w : World deps)
    → let r = readyz deps postgres redis late w in
      ((r.status ≡ 200) ⊎ (r.status ≡ 503))
      × ((r.status ≡ 200) ↔ (IsUp postgres × IsUp redis × IsUp (storage_check deps late w)))
unfolding readyz
readyz_iff deps postgres redis late w =
    let (either, (to, from)) =
      answered_or (probe postgres) (probe redis) (probe (storage_check deps late w)) in
    (
      either,
      (
        λ h.
            let (a, b, c) = to h in
            (
              (probe_iff postgres).0 a,
              (probe_iff redis).0 b,
              (probe_iff (storage_check deps late w)).0 c,
            ),
        λ (a, b, c). from (
          (probe_iff postgres).1 a,
          (probe_iff redis).1 b,
          (probe_iff (storage_check deps late w)).1 c,
        ),
      ),
    )
