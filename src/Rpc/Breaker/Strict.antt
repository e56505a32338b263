-- ===== src/Rpc/Breaker/Strict.antt =====
-- A circuit breaker that opens at the first failure that is counted and stays open. It shows that the laws
-- that libs/cores/src/modules/circuit-breaker/circuit-breaker.service.ts relies on can hold.
use ocean_chat_private.Prelude.{
  ℕ, ◌≡◌, ◌<◌, refl, ap, ◌∙◌, Bool, true, false, Result, ok, err, ltb, lt→ltb, if◌then◌else◌, arith,
}
use ocean_chat_private.Http.Filter.{Thrown}
use ocean_chat_private.Rpc.Client.{Caught}
use ocean_chat_private.Rpc.Breaker.{
  Options, Attempt, hangs, settles, Fired, open_breaker, timed_out, settled, Opossum, IsOpossum,
}

abbrev pub Circuit : Type 0
Circuit = Options × Bool

-- Whether it stays closed after what an action came to in time.
abbrev pub stays_closed : {A : Type 0} → Options → Result (Thrown Caught) A → Bool
stays_closed o (ok a) = true
stays_closed o (err e) = o.error_filter e

abbrev pub fire_closed : (A : Type 0) → Options → Attempt A → Circuit × Fired A
fire_closed A o hangs = ((o, false), timed_out)
fire_closed A o (settles t r) =
    if ltb t o.timeout then ((o, stays_closed o r), settled r) else ((o, false), timed_out)

abbrev pub fire_strict : (A : Type 0) → ℕ → Attempt A → Circuit → Circuit × Fired A
fire_strict A now a (o, true) = fire_closed A o a
fire_strict A now a (o, false) = ((o, false), open_breaker)

abbrev pub strict : Opossum
strict = record {
  State = Circuit;
  create = λ o. (o, true);
  fire = fire_strict;
  options_of = λ b. b.0;
  IsClosed = λ b. b.1 ≡ true;
}

fire_strict-options :
    (A : Type 0) (now : ℕ) (a : Attempt A) (b : Circuit) → (fire_strict A now a b).0.0 ≡ b.0
fire_strict-options A now hangs (o, true) = refl
fire_strict-options A now (settles t r) (o, true) = ground arith
fire_strict-options A now a (o, false) = refl

strict_passes :
    (A : Type 0) (now t : ℕ) (r : Result (Thrown Caught) A) (b : Circuit)
    → b.1 ≡ true
    → t < b.0.timeout
    → fire_strict A now (settles t r) b ≡ ((b.0, stays_closed b.0 r), settled r)
strict_passes A now t r (o, true) c l = rw (lt→ltb t o.timeout l) refl
strict_passes A now t r (o, false) c l = cc

strict_opens :
    (A : Type 0) (now t later : ℕ) (e : Thrown Caught) (a : Attempt A) (o : Options)
    → t < o.timeout
    → o.error_filter e ≡ false
    → (fire_strict A later a (fire_strict A now (settles t (err e)) (o, true)).0).1 ≡ open_breaker
strict_opens A now t later e a o l f = rw (lt→ltb t o.timeout l, f) refl

pub strict-IsOpossum : IsOpossum strict
strict-IsOpossum = record {
  create_closed = λ o. refl;
  create_options = λ o. refl;
  fire_options = fire_strict-options;
  closed_passes =
      λ A now t r b c l. ap (λ (p : Circuit × Fired A). p.1) (strict_passes A now t r b c l);
  success_keeps_closed =
      λ A now t a b c l. ap (λ (p : Circuit × Fired A). p.0.1) (strict_passes A now t (ok a) b c l);
  filtered_keeps_closed = λ A now t e b c l f.
      ap (λ (p : Circuit × Fired A). p.0.1) (strict_passes A now t (err e) b c l) ∙ f;
  new_failure_opens =
      λ A now t later e a o l f threshold after soon. strict_opens A now t later e a o l f;
}
