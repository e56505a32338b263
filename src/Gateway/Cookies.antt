-- ===== src/Gateway/Cookies.antt =====
-- apps/oceanchat-api-gateway/src/modules/auth/auth.controller.ts: the cookies of a request. Texts are lists of
-- character codes; a name without a value has the value `undefined`, here `none`.
pub mod RoundTrip
use ocean_chat_private.Prelude.{
  ℕ, List, [], ◌∷◌, ◌++◌, map, Option, none, some, Bool, ◌||◌, ◌&&◌, ◌==◌, leb, if◌then◌else◌,
}
use ocean_chat_private.Gateway.Guard.{split, same_text}

abbrev pub Text : Type 0
Text = List ℕ

-- The characters that `trim` takes off: tabs, line ends and the spaces of Unicode.
unfoldable pub is_space : ℕ → Bool
is_space c =
    (leb 9 c && leb c 13)
    || c == 32
    || c == 160
    || c == 0x1680
    || (leb 0x2000 c && leb c 0x200a)
    || c == 0x2028
    || c == 0x2029
    || c == 0x202f
    || c == 0x205f
    || c == 0x3000
    || c == 0xfeff

unfoldable pub trim_start : Text → Text
unfolding is_space
trim_start [] = []
trim_start (c ∷ cs) = let rest = trim_start cs in if is_space c then rest else c ∷ cs

abbrev pub unless_blank : ℕ → Text → Text
unless_blank c [] = if is_space c then [] else c ∷ []
unless_blank c (d ∷ ds) = c ∷ d ∷ ds

unfoldable pub trim_end : Text → Text
unfolding is_space
trim_end [] = []
trim_end (c ∷ cs) = unless_blank c (trim_end cs)

unfoldable pub trim : Text → Text
unfolding trim_start trim_end
trim t = trim_start (trim_end t)

abbrev pub semicolon : ℕ
semicolon = 59

abbrev pub equals_sign : ℕ
equals_sign = 61

-- `const [key, value] = cookie.split('=').map((c) => c.trim())`
unfoldable pub key_and_value : List Text → Text × Option Text
unfolding trim
key_and_value [] = ([], none)
key_and_value (key ∷ []) = (trim key, none)
key_and_value (key ∷ value ∷ rest) = (trim key, some (trim value))

-- The assignments of the `reduce`, in order.
unfoldable pub parse_cookies : Text → List (Text × Option Text)
unfolding split key_and_value
parse_cookies header =
    map (λ (cookie : Text). key_and_value (split equals_sign cookie)) (split semicolon header)

-- What is under a key after them: the last assignment counts.
unfoldable pub value_under : Text → List (Text × Option Text) → Option (Option Text)
unfolding same_text
value_under name [] = none
value_under name ((key, value) ∷ rest) = elim (value_under name rest) [
  | some later ↦ some later
  | none ↦ if same_text key name then some value else none
]

-- `a || b` on texts that may be undefined: an empty one counts as missing.
abbrev pub truthy : Option (Option Text) → Option Text
truthy none = none
truthy (some none) = none
truthy (some (some [])) = none
truthy (some (some (c ∷ cs))) = some (c ∷ cs)

abbrev pub or_else {ℓ} : {A : Type ℓ} → Option A → Option A → Option A
or_else none b = b
or_else (some a) b = some a

-- 'refresh_token'
abbrev pub refresh_token_name : Text
refresh_token_name = 114 ∷ 101 ∷ 102 ∷ 114 ∷ 101 ∷ 115 ∷ 104 ∷ 95 ∷ 116 ∷ 111 ∷ 107 ∷ 101 ∷ 110 ∷ []

abbrev pub cookies_of : Option Text → List (Text × Option Text)
cookies_of none = []
cookies_of (some header) = parse_cookies header

-- `cookies['refresh_token'] || refreshTokenDto?.refreshToken`, `none` where it is falsy.
unfoldable pub refresh_token_of : Option Text → Option Text → Option Text
unfolding parse_cookies value_under
refresh_token_of header body =
    or_else (truthy (value_under refresh_token_name (cookies_of header))) (truthy (some body))
