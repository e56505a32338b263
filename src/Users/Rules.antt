-- ===== src/Users/Rules.antt =====
-- apps/oceanchat-user/src/oceanchat-user.service.ts: the rules for user names and passwords,
-- `validateCreateUserDto`. Texts are lists of UTF-16 code units.
pub mod Acceptance
use ocean_chat_private.Prelude.{
  ℕ, List, [], ◌∷◌, Option, none, some, Bool, true, false, not, ◌&&◌, ◌||◌, Result, ok, err, ◌>>◌,
  throw_if, ltb, leb, ◌==◌, any, length,
}
use ocean_chat_private.Exceptions.{
  Exception, domain, username_too_short, username_too_long, username_invalid_characters,
  password_too_short, password_no_digit, password_no_lowercase, password_no_uppercase,
  password_no_special_char, unexpected_error,
}

abbrev pub Text : Type 0
Text = List ℕ

-- The eight settings: a length that is no number and a pattern that is no text are `none`; the pattern is
-- given by the test of its RegExp, which is taken to compile, the flags by whether they are truthy.
pub record Rules : Type 0 where
  pub username_min_length : Option ℕ
  pub username_max_length : Option ℕ
  pub username_regex : Option (Text → Bool)
  pub password_min_length : Option ℕ
  pub require_digit : Bool
  pub require_lowercase : Bool
  pub require_uppercase : Bool
  pub require_special_char : Bool

-- `typeof min !== 'number' || text.length < min`
abbrev pub too_short : Option ℕ → Text → Bool
too_short none t = true
too_short (some min) t = ltb (length t) min

-- `typeof max !== 'number' || text.length > max`
abbrev pub too_long : Option ℕ → Text → Bool
too_long none t = true
too_long (some max) t = ltb max (length t)

abbrev pub check_regex : Option (Text → Bool) → Text → Result Exception (Unit {0})
check_regex none t = err (domain unexpected_error 500)
check_regex (some test) t = throw_if (not (test t)) (domain username_invalid_characters 400)

-- A character of the class from `low` to `high`.
abbrev pub in_range : ℕ → ℕ → ℕ → Bool
in_range low high c = leb low c && leb c high

-- /\d/, /[a-z]/ and /[A-Z]/
abbrev pub is_digit : ℕ → Bool
is_digit c = in_range 48 57 c

abbrev pub is_lowercase : ℕ → Bool
is_lowercase c = in_range 97 122 c

abbrev pub is_uppercase : ℕ → Bool
is_uppercase c = in_range 65 90 c

-- !@#$%^&*(),.?":{}|<>
abbrev pub special_chars : List ℕ
special_chars =
    33 ∷ 64 ∷ 35 ∷ 36 ∷ 37 ∷ 94 ∷ 38 ∷ 42 ∷ 40 ∷ 41 ∷ 44 ∷ 46 ∷ 63 ∷ 34 ∷ 58 ∷ 123 ∷ 125 ∷ 124 ∷ 60
    ∷ 62 ∷ []

abbrev pub is_special : ℕ → Bool
is_special c = any (λ s. s == c) special_chars

-- `required && !/[...]/.test(password)`
abbrev pub lacks : Bool → (ℕ → Bool) → Text → Bool
lacks required class password = required && not (any class password)

unfoldable pub validate : Rules → Text → Text → Result Exception (Unit {0})
validate r username password =
    throw_if (too_short r.username_min_length username) (domain username_too_short 400)
    >> throw_if (too_long r.username_max_length username) (domain username_too_long 400)
    >> check_regex r.username_regex username
    >> throw_if (too_short r.password_min_length password) (domain password_too_short 400)
    >> throw_if (lacks r.require_digit is_digit password) (domain password_no_digit 400)
    >> throw_if (lacks r.require_lowercase is_lowercase password) (domain password_no_lowercase 400)
    >> throw_if (lacks r.require_uppercase is_uppercase password) (domain password_no_uppercase 400)
    >> throw_if (lacks r.require_special_char is_special password)
        (domain password_no_special_char 400)
