-- ===== src/Auth/Interleaving/Effect.antt =====
-- apps/oceanchat-auth/src/oceanchat-auth.service.ts: what one awaited call of refreshToken changes.
use ocean_chat_private.Prelude.{
  ℕ, ◌≡◌, ◌≢◌, refl, ◌⊎◌, inl, inr, Option, none, some, Bool, true, false, Result, ok, err, ◌==◌,
  arith, Bool-cases, if◌then◌else◌,
}
use ocean_chat_private.Exceptions.{Exception, domain, unauthorized}
use ocean_chat_private.Auth.Sessions.{session, Stored, corrupted, hget, unless_fails}
use ocean_chat_private.Auth.Interleaving.{
  World, Point, locks, reads, collects, deletes, asks_user, stores, releases, finished, Turn,
  attempt, step, after_hget,
}
use ocean_chat_private.Auth.Interleaving.Spent.{
  Holds, Verified, Served, Spent, Spent-hset_here, Spent-none,
}

module _ (device jti : ℕ) (jti_of : ℕ → ℕ) where
  pub record Effect (i : ℕ) (w : World) (p : Point) (w' : World) (p' : Point) : Type 0 where
    pub lock_lem :
        ((w'.lock ≡ w.lock) × (Holds p' → Holds p))
        ⊎ ((w.lock ≡ none) × (w'.lock ≡ some i))
        ⊎ (Holds p × (Holds p' → ⊥))
    pub spent_lem : Spent device jti w.sessions → Spent device jti w'.sessions
    pub verified_lem :
        Verified p' → Verified p ⊎ (Holds p × (jti_of i ≡ jti → Spent device jti w.sessions → ⊥))
    pub served_lem : Served p' → Served p ⊎ (Verified p × Spent device jti w'.sessions)

  -- A step that changes nothing in the world.
  quiet :
      (i : ℕ) (w : World) (p p' : Point)
      → (Holds p' → Holds p)
      → (Verified p' → Verified p)
      → (Served p' → Served p)
      → Effect i w p w p'
  quiet i w p p' h v s = record {
    lock_lem = inl (refl, h);
    spent_lem = λ spent. spent;
    verified_lem = λ x. inl (v x);
    served_lem = λ x. inl (s x);
  }

  either_way :
      (i : ℕ) (w : World) (p : Point) (f : Option Exception) (a : World × Point)
      (b : Exception → World × Point)
      → Effect i w p a.0 a.1
      → ((e : Exception) → Effect i w p (b e).0 (b e).1)
      → Effect i w p (unless_fails f a b).0 (unless_fails f a b).1
  either_way i w p none a b x y = x
  either_way i w p (some e) a b x y = y e

  -- The same change with another point, such as that of a call whose reply is lost.
  another_point :
      (i : ℕ) (w : World) (p : Point) (w' : World) (p' q : Point)
      → Effect i w p w' p'
      → (Holds q → Holds p')
      → (Verified q → ⊥)
      → (Served q → Served p)
      → Effect i w p w' q
  another_point i w p w' p' q e h v s = record {
    lock_lem = elim e.lock_lem [
      | inl (same, keeps) ↦ inl (same, λ x. keeps (h x))
      | inr (inl taken) ↦ inr (inl taken)
      | inr (inr (held, gone)) ↦ inr (inr (held, λ x. gone (h x)))
    ];
    spent_lem = e.spent_lem;
    verified_lem = λ x. absurd (v x);
    served_lem = λ x. inl (s x);
  }

  attempt-Effect :
      (i : ℕ) (w : World) (p : Point) (fails : Option Exception) (lost : Bool)
      (done : World × Point) (failed : Exception → Point)
      → Effect i w p done.0 done.1
      → ((e : Exception) → Holds (failed e) → Holds done.1)
      → ((e : Exception) → Holds (failed e) → Holds p)
      → ((e : Exception) → Verified (failed e) → ⊥)
      → ((e : Exception) → Served (failed e) → Served p)
      → Effect i w p (attempt fails lost w done failed).0 (attempt fails lost w done failed).1
  attempt-Effect i w p none lost done failed good h g v s = good
  attempt-Effect i w p (some e) true done failed good h g v s =
      another_point i w p done.0 done.1 (failed e) good (h e) (v e) (s e)
  attempt-Effect i w p (some e) false done failed good h g v s =
      quiet i w p (failed e) (g e) (λ x. absurd (v e x)) (s e)

  locks-Effect :
      (i : ℕ) (w : World) (o : Option ℕ) (answer : Result Exception (ℕ × ℕ))
      → w.lock ≡ o
      → (Served (finished answer) → ⊥)
      → Effect i w locks
          (elim o as (λ x. World × Point) [
            | none ↦ (record w { lock = some i }, reads)
            | some v ↦ (w, finished answer)
          ]).0
          (elim o as (λ x. World × Point) [
            | none ↦ (record w { lock = some i }, reads)
            | some v ↦ (w, finished answer)
          ]).1
  locks-Effect i w none answer free unserved = record {
    lock_lem = inr (inl (free, refl));
    spent_lem = λ spent. spent;
    verified_lem = λ x. absurd x;
    served_lem = λ x. absurd x;
  }
  locks-Effect i w (some v) answer held unserved =
      quiet i w locks (finished answer) (λ x. x) (λ x. x) unserved

  reads-Effect :
      (i : ℕ) (w : World) (o : Option Stored)
      → hget device w.sessions ≡ o
      → Effect i w reads w (after_hget (jti_of i) o)
  unfolding Spent
  reads-Effect i w none there = quiet i w reads _ (λ x. tt) (λ x. x) (λ x. x)
  reads-Effect i w (some corrupted) there = quiet i w reads _ (λ x. tt) (λ x. x) (λ x. x)
  reads-Effect i w (some (session old)) there = elim (Bool-cases (old.refresh_jti == jti_of i)) [
    | inr differs ↦ rw differs (quiet i w reads collects (λ x. tt) (λ x. x) (λ x. x))
    | inl same ↦ rw same (record {
      lock_lem = inl (refl, λ x. tt);
      spent_lem = λ spent. spent;
      verified_lem = λ x. inr (tt, λ mine spent. spent old there (ground (arith, same, mine)));
      served_lem = λ x. absurd x;
    })
  ]

  pub step-Effect :
      (i : ℕ) (t : Turn) (w : World) (p : Point)
      → t.fresh.refresh_jti ≢ jti
      → Effect i w p (step device i (jti_of i) t w p).0 (step device i (jti_of i) t w p).1
  unfolding step
  step-Effect i t w locks new =
      attempt-Effect i w locks t.fails t.lost _ _ (locks-Effect i w w.lock _ refl (λ x. x))
        (λ e x. absurd x) (λ e x. x) (λ e x. x) (λ e x. x)
  step-Effect i t w reads new =
      either_way i w reads t.fails _ _ (reads-Effect i w (hget device w.sessions) refl)
        (λ e. quiet i w reads _ (λ x. tt) (λ x. x) (λ x. x))
  step-Effect i t w collects new =
      either_way i w collects t.fails _ _ (quiet i w collects _ (λ x. tt) (λ x. x) (λ x. x))
        (λ e. quiet i w collects _ (λ x. tt) (λ x. x) (λ x. x))
  step-Effect i t w deletes new =
      attempt-Effect i w deletes t.fails t.lost _ _
        (record {
          lock_lem = inl (refl, λ x. tt);
          spent_lem = λ spent. Spent-none device jti;
          verified_lem = λ x. absurd x;
          served_lem = λ x. absurd x;
        })
        (λ e x. tt) (λ e x. tt) (λ e x. x) (λ e x. x)
  step-Effect i t w (asks_user old) new =
      either_way i w (asks_user old) t.fails _ _ (asked t.user_exists)
        (λ e. quiet i w (asks_user old) _ (λ x. tt) (λ x. tt) (λ x. x))
    where
      asked :
          (b : Bool)
          → Effect i w
              (asks_user old)
              w
              (if b then stores old else releases (err (domain unauthorized 401)))
      asked true = quiet i w (asks_user old) _ (λ x. tt) (λ x. tt) (λ x. x)
      asked false = quiet i w (asks_user old) _ (λ x. tt) (λ x. tt) (λ x. x)
  step-Effect i t w (stores old) new =
      either_way i w (stores old) t.sign _ _
        (attempt-Effect i w (stores old) t.fails t.lost _ _
          (record {
            lock_lem = inl (refl, λ x. tt);
            spent_lem = λ spent. Spent-hset_here device jti t.fresh w.sessions new;
            verified_lem = λ x. absurd x;
            served_lem = λ x. inr (tt, Spent-hset_here device jti t.fresh w.sessions new);
          })
          (λ e x. tt) (λ e x. tt) (λ e x. x) (λ e x. x))
        (λ e. quiet i w (stores old) _ (λ x. tt) (λ x. tt) (λ x. x))
  step-Effect i t w (releases (ok tokens)) new =
      attempt-Effect i w (releases (ok tokens)) t.fails t.lost _ _
        (record {
          lock_lem = inr (inr (tt, λ x. x));
          spent_lem = λ spent. spent;
          verified_lem = λ x. absurd x;
          served_lem = λ x. inl tt;
        })
        (λ e x. x) (λ e x. tt) (λ e x. x) (λ e x. tt)
  step-Effect i t w (releases (err e)) new =
      attempt-Effect i w (releases (err e)) t.fails t.lost _ _
        (record {
          lock_lem = inr (inr (tt, λ x. x));
          spent_lem = λ spent. spent;
          verified_lem = λ x. absurd x;
          served_lem = λ x. absurd x;
        })
        (λ e' x. x) (λ e' x. tt) (λ e' x. x) (λ e' x. x)
  step-Effect i t w (finished answer) new =
      quiet i w (finished answer) (finished answer) (λ x. x) (λ x. x) (λ x. x)
