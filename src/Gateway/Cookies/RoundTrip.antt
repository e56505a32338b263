-- ===== src/Gateway/Cookies/RoundTrip.antt =====
-- apps/oceanchat-api-gateway/src/modules/auth/auth.controller.ts: what is read of a header that lists cookies.
use ocean_chat_private.Prelude.{
  ℕ, ◌≡◌, ◌≢◌, refl, sym, ap, ◌∙◌, List, [], ◌∷◌, ◌++◌, map, Option, none, some, false, ◌==◌, All,
  All-append, append_assoc, arith,
}
use ocean_chat_private.Gateway.Guard.{split, same_text}
use ocean_chat_private.Gateway.Cookies.{
  Text, is_space, trim_start, trim_end, trim, semicolon, equals_sign, key_and_value, parse_cookies,
  value_under, truthy, refresh_token_name, refresh_token_of, unless_blank,
}

-- No character of the text separates cookies or a name from its value, or is taken off by `trim`.
abbrev pub IsPlain : ℕ → Type 0
IsPlain c = ((c == semicolon) ≡ false) × ((c == equals_sign) ≡ false) × (is_space c ≡ false)

abbrev pub IsToken : Text → Type 0
IsToken t = All IsPlain t

-- The `Cookie` header that a browser sends: `name=value` pairs behind one another, with `; ` between them.
unfoldable pub print_pair : Text × Text → Text
print_pair (name, value) = name ++ (equals_sign ∷ value)

unfoldable pub print_cookies : List (Text × Text) → Text
unfolding print_pair
print_cookies [] = []
print_cookies (c ∷ []) = print_pair c
print_cookies (c ∷ d ∷ rest) = print_pair c ++ (semicolon ∷ 32 ∷ print_cookies (d ∷ rest))

abbrev pub AreTokens : List (Text × Text) → Type 0
AreTokens cookies = All (λ (c : Text × Text). IsToken c.0 × IsToken c.1) cookies

Free : ℕ → Text → Type 0
Free separator t = All (λ (c : ℕ). (c == separator) ≡ false) t

split-Free : (separator : ℕ) (t : Text) → Free separator t → split separator t ≡ t ∷ []
unfolding split Free
split-Free separator [] a = refl
split-Free separator (c ∷ cs) (n, a) = ground (arith, split-Free separator cs a)

split-append :
    (separator : ℕ) (t rest : Text)
    → Free separator t
    → split separator (t ++ (separator ∷ rest)) ≡ t ∷ split separator rest
unfolding split Free
split-append separator [] rest a = ground arith
split-append separator (c ∷ cs) rest (n, a) = ground (arith, split-append separator cs rest a)

trim_end-IsToken : (t : Text) → IsToken t → trim_end t ≡ t
unfolding trim_end
trim_end-IsToken [] a = refl
trim_end-IsToken (c ∷ []) ((s, e, n), a) = rw n
trim_end-IsToken (c ∷ d ∷ ds) (p, a) = ap (unless_blank c) (trim_end-IsToken (d ∷ ds) a)

trim_start-IsToken : (t : Text) → IsToken t → trim_start t ≡ t
unfolding trim_start
trim_start-IsToken [] a = refl
trim_start-IsToken (c ∷ cs) ((s, e, n), a) = rw n

trim-IsToken : (t : Text) → IsToken t → trim t ≡ t
unfolding trim
trim-IsToken t a = ap trim_start (trim_end-IsToken t a) ∙ trim_start-IsToken t a

-- The space behind a semicolon.
trim-space : (t : Text) → IsToken t → trim (32 ∷ t) ≡ t
unfolding trim trim_end trim_start is_space
trim-space [] a = refl
trim-space (c ∷ cs) a =
    ap (λ r. trim_start (unless_blank 32 r)) (trim_end-IsToken (c ∷ cs) a)
    ∙ trim_start-IsToken (c ∷ cs) a

Free-IsToken : (t : Text) → IsToken t → Free semicolon t × Free equals_sign t
unfolding Free
Free-IsToken [] a = (tt, tt)
Free-IsToken (c ∷ cs) ((s, e, n), a) = let (x, y) = Free-IsToken cs a in ((s, x), (e, y))

-- The blanks that may stand in front of a cookie.
data Blank : Text → Type 0 where
  no_blank : Blank []
  one_space : Blank (32 ∷ [])

trim-Blank : {pad : Text} (t : Text) → Blank pad → IsToken t → trim (pad ++ t) ≡ t
trim-Blank t no_blank a = trim-IsToken t a
trim-Blank t one_space a = trim-space t a

Free-Blank : {pad : Text} → Blank pad → Free semicolon pad × Free equals_sign pad
unfolding Free
Free-Blank no_blank = (tt, tt)
Free-Blank one_space = (ground arith, ground arith)

pair_lem :
    {pad : Text} (name value : Text)
    → Blank pad
    → IsToken name
    → IsToken value
    → key_and_value (split equals_sign (pad ++ print_pair (name, value))) ≡ (name, some value)
unfolding key_and_value print_pair Free
pair_lem {pad} name value b n v =
    let free =
      All-append (λ (c : ℕ). (c == equals_sign) ≡ false) pad name (Free-Blank b).1
        (Free-IsToken name n).1 in
    ap (λ t. key_and_value (split equals_sign t))
      (sym (append_assoc pad name (equals_sign ∷ value)))
    ∙ ap key_and_value (split-append equals_sign (pad ++ name) value free)
    ∙ ap (λ r. key_and_value ((pad ++ name) ∷ r))
        (split-Free equals_sign value (Free-IsToken value v).1)
    ∙ ap (λ t. (t, some (trim value))) (trim-Blank name b n)
    ∙ ap (λ t. (name, some t)) (trim-IsToken value v)

Free-pair :
    {pad : Text} (name value : Text)
    → Blank pad
    → IsToken name
    → IsToken value
    → Free semicolon (pad ++ print_pair (name, value))
unfolding print_pair Free
Free-pair {pad} name value b n v =
    All-append (λ (c : ℕ). (c == semicolon) ≡ false) pad (name ++ (equals_sign ∷ value))
      (Free-Blank b).0
      (All-append (λ (c : ℕ). (c == semicolon) ≡ false) name (equals_sign ∷ value)
        (Free-IsToken name n).0 (refl, (Free-IsToken value v).0))

assigned : Text × Text → Text × Option Text
assigned c = (c.0, some c.1)

parse-print :
    {pad : Text} (c : Text × Text) (cs : List (Text × Text))
    → Blank pad
    → AreTokens (c ∷ cs)
    → parse_cookies (pad ++ print_cookies (c ∷ cs)) ≡ map assigned (c ∷ cs)
unfolding parse_cookies print_cookies assigned
parse-print {pad} (name, value) [] b ((n, v), a) =
    ap (λ r. map (λ (cookie : Text). key_and_value (split equals_sign cookie)) r)
      (split-Free semicolon (pad ++ print_pair (name, value)) (Free-pair name value b n v))
    ∙ ap (λ p. p ∷ []) (pair_lem name value b n v)
parse-print {pad} (name, value) (d ∷ ds) b ((n, v), a) =
    let rest = 32 ∷ print_cookies (d ∷ ds) in
    ap parse_cookies (sym (append_assoc pad (print_pair (name, value)) (semicolon ∷ rest)))
    ∙ ap (λ r. map (λ (cookie : Text). key_and_value (split equals_sign cookie)) r)
        (split-append semicolon (pad ++ print_pair (name, value)) rest (Free-pair name value b n v))
    ∙ ap (λ p. p ∷ parse_cookies rest) (pair_lem name value b n v)
    ∙ ap (λ r. (name, some value) ∷ r) (parse-print d ds one_space a)

-- A header that lists cookies is read as these names and values, in order, if none of them holds a
-- semicolon, an equals sign or a space.
pub parse_cookies-print :
    (cookies : List (Text × Text))
    → cookies ≢ []
    → AreTokens cookies
    → parse_cookies (print_cookies cookies) ≡ map (λ (c : Text × Text). (c.0, some c.1)) cookies
unfolding assigned
parse_cookies-print [] full a = absurd (full refl)
parse_cookies-print (c ∷ cs) full a = parse-print c cs no_blank a

abbrev pub IsOther : Text × Text → Type 0
IsOther c = same_text c.0 refresh_token_name ≡ false

value_under-others :
    (after : List (Text × Text))
    → All IsOther after
    → value_under refresh_token_name (map (λ (c : Text × Text). (c.0, some c.1)) after) ≡ none
unfolding value_under
value_under-others [] o = refl
value_under-others ((name, value) ∷ after) (p, o) = rw (value_under-others after o) (rw p)

value_under-last :
    (before : List (Text × Text)) (t : Text) (after : List (Text × Text))
    → All IsOther after
    → value_under refresh_token_name
        (map (λ (c : Text × Text). (c.0, some c.1)) (before ++ (refresh_token_name, t) ∷ after))
      ≡ some (some t)
unfolding value_under same_text
value_under-last [] t after o = rw (value_under-others after o) refl
value_under-last ((name, value) ∷ before) t after o = rw (value_under-last before t after o)

append-ne :
    (before : List (Text × Text)) (c : Text × Text) (after : List (Text × Text))
    → before ++ c ∷ after ≢ []
append-ne [] c after h = cc
append-ne (d ∷ before) c after h = cc

truthy-full : (t : Text) → t ≢ [] → truthy (some (some t)) ≡ some t
truthy-full [] h = absurd (h refl)
truthy-full (c ∷ cs) h = refl

-- Among the cookies of a request the last one named refresh_token is the refresh token, if it is not empty,
-- whatever the body holds, and if no name or value holds a semicolon, an equals sign or a space.
pub cookie_before_body :
    (before : List (Text × Text)) (t : Text) (after : List (Text × Text)) (body : Option Text)
    → AreTokens (before ++ (refresh_token_name, t) ∷ after)
    → All IsOther after
    → t ≢ []
    → refresh_token_of (some (print_cookies (before ++ (refresh_token_name, t) ∷ after))) body
      ≡ some t
unfolding refresh_token_of
cookie_before_body before t after body a o full =
    let read =
      ap (value_under refresh_token_name) (
        parse_cookies-print (before ++ (refresh_token_name, t) ∷ after)
          (append-ne before (refresh_token_name, t) after) a)
      ∙ value_under-last before t after o in
    rw read (rw (truthy-full t full))
