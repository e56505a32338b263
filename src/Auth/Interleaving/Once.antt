-- ===== src/Auth/Interleaving/Once.antt =====
-- apps/oceanchat-auth/src/oceanchat-auth.service.ts: a refresh token among calls that overlap.
use ocean_chat_private.Prelude.{
  ℕ, ◌≡◌, ◌≢◌, refl, sym, ap, subst, ◌∙◌, ◌⊎◌, inl, inr, Option, none, some, ◌==◌, arith,
  Bool-cases,
}
use ocean_chat_private.Auth.Sessions.{Hash}
use ocean_chat_private.Auth.Interleaving.{
  World, Point, locks, reads, collects, deletes, asks_user, stores, releases, finished, Points, put,
  Step, moves, logs_in, logs_out, ends_family, Reach, here, next,
}
use ocean_chat_private.Auth.Interleaving.Spent.{
  Holds, Verified, Served, Spent, Spent-hset, Spent-hdel, Spent-none,
}
use ocean_chat_private.Auth.Interleaving.Effect.{Effect, step-Effect}

put-cases :
    (i k : ℕ) (p : Point) (ps : Points)
    → ((k ≡ i) × (put i p ps k ≡ p)) ⊎ ((k ≢ i) × (put i p ps k ≡ ps k))
put-cases i k p ps = elim (Bool-cases (k == i)) [
  | inl same ↦ inl (ground (arith, same), rw same refl)
  | inr differs ↦ inr (λ e. ground (arith, differs, e), rw differs refl)
]

module _ (device jti : ℕ) (jti_of : ℕ → ℕ) where
  -- What holds in every run: who is within the `try` has the lock; once a call with the token is served, no
  -- other has found it to be the last one, and it is not the last one; and no two calls with it are served.
  record Inv (w : World) (ps : Points) : Type 0 where
    pub held : (k : ℕ) → Holds (ps k) → w.lock ≡ some k
    pub exclusive :
        (a b : ℕ) → jti_of a ≡ jti → jti_of b ≡ jti → Served (ps a) → Verified (ps b) → ⊥
    pub spent : (a : ℕ) → jti_of a ≡ jti → Served (ps a) → Spent device jti w.sessions
    pub once : (a b : ℕ) → jti_of a ≡ jti → jti_of b ≡ jti → Served (ps a) → Served (ps b) → a ≡ b

  Verified-Holds : (p : Point) → Verified p → Holds p
  Verified-Holds locks v = v
  Verified-Holds reads v = tt
  Verified-Holds collects v = tt
  Verified-Holds deletes v = tt
  Verified-Holds (asks_user old) v = tt
  Verified-Holds (stores old) v = tt
  Verified-Holds (releases answer) v = tt
  Verified-Holds (finished answer) v = v

  never_both : (p : Point) → Served p → Verified p → ⊥
  never_both (asks_user old) s v = s
  never_both (stores old) s v = s
  never_both locks s v = v
  never_both reads s v = v
  never_both collects s v = v
  never_both deletes s v = v
  never_both (releases answer) s v = v
  never_both (finished answer) s v = v

  -- The predicate of the point of a call after another one has moved.
  module _ (i : ℕ) (w : World) (ps : Points) (w' : World) (p' : Point)
      (e : Effect device jti jti_of i w (ps i) w' p') (inv : Inv w ps) where
    abbrev moved : Points
    moved = put i p' ps

    same_holder : (k : ℕ) → Holds (ps i) → Holds (ps k) → k ≡ i
    same_holder k h g = some-eq (sym (inv.held k g) ∙ inv.held i h)
      where
        some-eq : {a b : ℕ} → ◌≡◌ {A = Option ℕ} (some a) (some b) → a ≡ b
        some-eq q = cc

    moved-cases :
        (P : Point → Type 0) (k : ℕ) → P (moved k) → ((k ≢ i) × P (ps k)) ⊎ ((k ≡ i) × P p')
    moved-cases P k x = elim (put-cases i k p' ps) [
      | inl (same, there) ↦ inr (same, subst P there x)
      | inr (differs, there) ↦ inl (differs, subst P there x)
    ]

    Served-before :
        (a : ℕ)
        → Served (moved a)
        → Served (ps a) ⊎ ((a ≡ i) × Verified (ps i) × Spent device jti w'.sessions)
    Served-before a s = elim (moved-cases Served a s) [
      | inl (differs, before) ↦ inl before
      | inr (same, now) ↦ elim (e.served_lem now) [
        | inl before ↦ inl (subst (λ x. Served (ps x)) (sym same) before)
        | inr (verified, gone) ↦ inr (same, verified, gone)
      ]
    ]

    Verified-before :
        (b : ℕ)
        → Verified (moved b)
        → Verified (ps b) ⊎ ((b ≡ i) × (jti_of i ≡ jti → Spent device jti w.sessions → ⊥))
    Verified-before b v = elim (moved-cases Verified b v) [
      | inl (differs, before) ↦ inl before
      | inr (same, now) ↦ elim (e.verified_lem now) [
        | inl before ↦ inl (subst (λ x. Verified (ps x)) (sym same) before)
        | inr (holds, unspent) ↦ inr (same, unspent)
      ]
    ]

    held' : (k : ℕ) → Holds (moved k) → w'.lock ≡ some k
    held' k h = elim (moved-cases Holds k h) [
      | inl (differs, before) ↦ elim e.lock_lem [
        | inl (same, keeps) ↦ same ∙ inv.held k before
        | inr (inl (free, taken)) ↦ absurd (not_both (sym free ∙ inv.held k before))
        | inr (inr (held, gone)) ↦ absurd (differs (same_holder k held before))
      ]
      | inr (is_it, now) ↦ elim e.lock_lem [
        | inl (same, keeps) ↦ same ∙ inv.held i (keeps now) ∙ ap some (sym is_it)
        | inr (inl (free, taken)) ↦ taken ∙ ap some (sym is_it)
        | inr (inr (held, gone)) ↦ absurd (gone now)
      ]
    ]
      where
        not_both : ◌≡◌ {A = Option ℕ} none (some k) → ⊥
        not_both q = cc

    one_call : (a b : ℕ) → a ≡ i → b ≡ i → Served (moved a) → Verified (moved b) → ⊥
    one_call a b p q s v = never_both (moved a) s (subst (λ x. Verified (moved x)) (q ∙ sym p) v)

    exclusive' :
        (a b : ℕ) → jti_of a ≡ jti → jti_of b ≡ jti → Served (moved a) → Verified (moved b) → ⊥
    exclusive' a b m n s v = elim (Served-before a s) [
      | inl sa ↦ elim (Verified-before b v) [
        | inl vb ↦ inv.exclusive a b m n sa vb
        | inr (is_b, unspent) ↦ unspent (ap jti_of (sym is_b) ∙ n) (inv.spent a m sa)
      ]
      | inr (is_a, verified, gone) ↦ elim (Verified-before b v) [
        | inl vb ↦
            one_call a b is_a
              (same_holder b (Verified-Holds (ps i) verified) (Verified-Holds (ps b) vb)) s v
        | inr (is_b, unspent) ↦ one_call a b is_a is_b s v
      ]
    ]

    spent' : (a : ℕ) → jti_of a ≡ jti → Served (moved a) → Spent device jti w'.sessions
    spent' a m s = elim (Served-before a s) [
      | inl sa ↦ e.spent_lem (inv.spent a m sa)
      | inr (is_a, verified, gone) ↦ gone
    ]

    once' :
        (a b : ℕ) → jti_of a ≡ jti → jti_of b ≡ jti → Served (moved a) → Served (moved b) → a ≡ b
    once' a b m n s t = elim (Served-before a s) [
      | inl sa ↦ elim (Served-before b t) [
        | inl sb ↦ inv.once a b m n sa sb
        | inr (is_b, verified, gone) ↦
            absurd (inv.exclusive a i m (ap jti_of (sym is_b) ∙ n) sa verified)
      ]
      | inr (is_a, verified, gone) ↦ elim (Served-before b t) [
        | inl sb ↦ absurd (inv.exclusive b i n (ap jti_of (sym is_a) ∙ m) sb verified)
        | inr (is_b, verified', gone') ↦ is_a ∙ sym is_b
      ]
    ]

    moved-Inv : Inv w' moved
    moved-Inv = record { held = held'; exclusive = exclusive'; spent = spent'; once = once' }

  -- A change of the sessions from outside that does not bring the token back.
  outside-Inv :
      (w : World) (sessions : Hash) (ps : Points)
      → (Spent device jti w.sessions → Spent device jti sessions)
      → Inv w ps
      → Inv (record w { sessions = sessions }) ps
  outside-Inv w sessions ps keeps inv = record {
    held = inv.held;
    exclusive = inv.exclusive;
    spent = λ a m s. keeps (inv.spent a m s);
    once = inv.once;
  }

  Step-Inv :
      {w : World} {ps : Points} {w' : World} {ps' : Points}
      → Step device jti_of jti w ps w' ps'
      → Inv w ps
      → Inv w' ps'
  Step-Inv {w} {ps} (moves i t new) inv =
      moved-Inv i w ps _ _ (step-Effect device jti jti_of i t w (ps i) new) inv
  Step-Inv {w} {ps} (logs_in d fresh new) inv =
      outside-Inv w _ ps (Spent-hset device jti d fresh w.sessions new) inv
  Step-Inv {w} {ps} (logs_out d) inv = outside-Inv w _ ps (Spent-hdel device jti d w.sessions) inv
  Step-Inv {w} {ps} ends_family inv = outside-Inv w _ ps (λ s. Spent-none device jti) inv

  Reach-Inv :
      {w : World} {ps : Points} {w' : World} {ps' : Points}
      → Inv w ps
      → Reach device jti_of jti w ps w' ps'
      → Inv w' ps'
  Reach-Inv inv here = inv
  Reach-Inv inv (next before s) = Step-Inv s (Reach-Inv inv before)

  initial-Inv : (w : World) → Inv w (λ k. locks)
  initial-Inv w = record {
    held = λ k h. absurd h;
    exclusive = λ a b m n s v. s;
    spent = λ a m s. absurd s;
    once = λ a b m n s t. absurd s;
  }

  -- However the awaited calls of any number of refreshes for one device follow upon one another, which of them
  -- fail or lose their replies, and what logins and logouts come between, no two refreshes with the same
  -- token answer with new tokens, as long as no lock runs out and no new token has the id of that token.
  pub one_refresh_serves :
      (w w' : World) (ps : Points) (a b : ℕ)
      → Reach device jti_of jti w (λ k. locks) w' ps
      → jti_of a ≡ jti
      → jti_of b ≡ jti
      → Served (ps a)
      → Served (ps b)
      → a ≡ b
  one_refresh_serves w w' ps a b reached m n s t =
      (Reach-Inv (initial-Inv w) reached).once a b m n s t
