-- ===== src/Users/Rules/Acceptance.antt =====
-- apps/oceanchat-user/src/oceanchat-user.service.ts: which names and passwords are accepted.
use ocean_chat_private.Prelude.{
  ℕ, ◌≤◌, ◌≡◌, ◌↔◌, inl, inr, refl, [], ◌∷◌, Option, none, some, Bool, true, false, not, Result, ok,
  err, ◌>>◌, throw_if, any, length, arith, Bool-cases, ap,
}
use ocean_chat_private.Exceptions.{Exception}
use ocean_chat_private.Users.Rules.{
  Text, Rules, too_short, too_long, check_regex, is_digit, is_lowercase, is_uppercase, is_special,
  lacks, validate,
}

-- Some character of the text is in the class.
pub data Has (class : ℕ → Bool) : Text → Type 0 where
  here : {c : ℕ} {cs : Text} → class c ≡ true → Has class (c ∷ cs)
  there : {c : ℕ} {cs : Text} → Has class cs → Has class (c ∷ cs)

any-Has : (class : ℕ → Bool) (t : Text) → any class t ≡ true → Has class t
any-Has class [] h = cc
any-Has class (c ∷ cs) h = elim (Bool-cases (class c)) [
  | inl yes_c ↦ here yes_c
  | inr no_c ↦ there (any-Has class cs (ground arith))
]

Has-any : (class : ℕ → Bool) {t : Text} → Has class t → any class t ≡ true
Has-any class (here h) = ground arith
Has-any class (there h) = ground (arith, Has-any class h)

-- A length that is set and kept.
unfoldable pub AtLeast : Option ℕ → ℕ → Type 0
AtLeast none n = ⊥
AtLeast (some min) n = min ≤ n

unfoldable pub AtMost : Option ℕ → ℕ → Type 0
AtMost none n = ⊥
AtMost (some max) n = n ≤ max

unfoldable pub Matches : Option (Text → Bool) → Text → Type 0
Matches none t = ⊥
Matches (some test) t = test t ≡ true

-- What the settings ask of a name and a password.
pub record Acceptable (r : Rules) (username password : Text) : Type 0 where
  pub long_enough : AtLeast r.username_min_length (length username)
  pub short_enough : AtMost r.username_max_length (length username)
  pub matches : Matches r.username_regex username
  pub password_long_enough : AtLeast r.password_min_length (length password)
  pub digit : r.require_digit ≡ true → Has is_digit password
  pub lowercase : r.require_lowercase ≡ true → Has is_lowercase password
  pub uppercase : r.require_uppercase ≡ true → Has is_uppercase password
  pub special_char : r.require_special_char ≡ true → Has is_special password

-- A chain succeeds when both of its parts do.
chain_iff : (m k : Result Exception (Unit {0})) → ((m >> k) ≡ ok tt) ↔ ((m ≡ ok tt) × (k ≡ ok tt))
chain_iff (ok tt) k = (λ h. (refl, h), λ p. p.1)
chain_iff (err e) k = (λ h. cc, λ p. cc)

throw_if_iff : (b : Bool) (e : Exception) → (throw_if b e ≡ ok tt) ↔ (b ≡ false)
throw_if_iff true e = (λ h. cc, λ h. cc)
throw_if_iff false e = (λ h. refl, λ h. refl)

too_short_iff : (o : Option ℕ) (t : Text) → (too_short o t ≡ false) ↔ AtLeast o (length t)
unfolding AtLeast
too_short_iff none t = (λ h. absurd (ground arith), λ h. absurd h)
too_short_iff (some min) t = ground arith

too_long_iff : (o : Option ℕ) (t : Text) → (too_long o t ≡ false) ↔ AtMost o (length t)
unfolding AtMost
too_long_iff none t = (λ h. absurd (ground arith), λ h. absurd h)
too_long_iff (some max) t = ground arith

check_regex_iff : (o : Option (Text → Bool)) (t : Text) → (check_regex o t ≡ ok tt) ↔ Matches o t
unfolding Matches
check_regex_iff none t = (λ h. cc, λ h. absurd h)
check_regex_iff (some test) t = (
  λ h. negated (test t) ((throw_if_iff (not (test t)) _).0 h),
  λ h. (throw_if_iff (not (test t)) _).1 (ap not h),
)
  where
    negated : (b : Bool) → not b ≡ false → b ≡ true
    negated b h = ground arith

lacks_iff :
    (required : Bool) (class : ℕ → Bool) (t : Text)
    → (lacks required class t ≡ false) ↔ (required ≡ true → Has class t)
lacks_iff false class t = (λ h q. cc, λ h. refl)
lacks_iff true class t =
    (λ h q. any-Has class t (negated (any class t) h), λ h. ap not (Has-any class (h refl)))
  where
    negated : (b : Bool) → not b ≡ false → b ≡ true
    negated b h = ground arith

-- A name and a password are accepted exactly when they are what the settings ask for.
pub validate_lem :
    (r : Rules) (username password : Text)
    → (validate r username password ≡ ok tt) ↔ Acceptable r username password
unfolding validate
validate_lem r username password = (forth, back)
  where
    forth : validate r username password ≡ ok tt → Acceptable r username password
    forth h =
        let (h7, t8) = (chain_iff _ _).0 h in
        let (h6, t7) = (chain_iff _ _).0 h7 in
        let (h5, t6) = (chain_iff _ _).0 h6 in
        let (h4, t5) = (chain_iff _ _).0 h5 in
        let (h3, t4) = (chain_iff _ _).0 h4 in
        let (h2, t3) = (chain_iff _ _).0 h3 in
        let (t1, t2) = (chain_iff _ _).0 h2 in
        record {
          long_enough = (too_short_iff r.username_min_length username).0 ((throw_if_iff _ _).0 t1);
          short_enough = (too_long_iff r.username_max_length username).0 ((throw_if_iff _ _).0 t2);
          matches = (check_regex_iff r.username_regex username).0 t3;
          password_long_enough =
              (too_short_iff r.password_min_length password).0 ((throw_if_iff _ _).0 t4);
          digit = (lacks_iff r.require_digit is_digit password).0 ((throw_if_iff _ _).0 t5);
          lowercase =
              (lacks_iff r.require_lowercase is_lowercase password).0 ((throw_if_iff _ _).0 t6);
          uppercase =
              (lacks_iff r.require_uppercase is_uppercase password).0 ((throw_if_iff _ _).0 t7);
          special_char =
              (lacks_iff r.require_special_char is_special password).0 ((throw_if_iff _ _).0 t8);
        }

    joined : {m k : Result Exception (Unit {0})} → m ≡ ok tt → k ≡ ok tt → (m >> k) ≡ ok tt
    joined {m} {k} p q = (chain_iff m k).1 (p, q)

    back : Acceptable r username password → validate r username password ≡ ok tt
    back a =
        joined
          (joined
            (joined
              (joined
                (joined
                  (joined
                    (joined
                      ((throw_if_iff _ _).1
                        ((too_short_iff r.username_min_length username).1 a.long_enough))
                      ((throw_if_iff _ _).1
                        ((too_long_iff r.username_max_length username).1 a.short_enough)))
                    ((check_regex_iff r.username_regex username).1 a.matches))
                  ((throw_if_iff _ _).1
                    ((too_short_iff r.password_min_length password).1 a.password_long_enough)))
                ((throw_if_iff _ _).1 ((lacks_iff r.require_digit is_digit password).1 a.digit)))
              ((throw_if_iff _ _).1
                ((lacks_iff r.require_lowercase is_lowercase password).1 a.lowercase)))
            ((throw_if_iff _ _).1
              ((lacks_iff r.require_uppercase is_uppercase password).1 a.uppercase)))
          ((throw_if_iff _ _).1
            ((lacks_iff r.require_special_char is_special password).1 a.special_char))
