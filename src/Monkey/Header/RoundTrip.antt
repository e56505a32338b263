-- ===== src/Monkey/Header/RoundTrip.antt =====
-- Encoding and decoding of libs/monkey/src/codec/header.ts against the layout of the twelve bytes.
use ocean_chat_private.Prelude.{
  ℕ, ◌<◌, ◌≡◌, refl, ◌∙◌, [], ◌∷◌, ◌++◌, Result, ok, err, ltb, length, arith, All, take,
  if◌then◌else◌,
}
use ocean_chat_private.Prelude.Int.{ℤ, pos, negsuc}
use ocean_chat_private.Monkey.Buffer.{
  Buffer, Error, range_error, req_id_out_of_bounds, buffer_too_small, IsByte, be_bytes,
}
use ocean_chat_private.Monkey.Header.{
  HeaderData, Fields, encode, decode, magic_number, current_version,
}

-- The fields of a header, without its magic number and version.
abbrev pub fields_of : HeaderData → Fields
fields_of h = record { cmd = h.cmd; flags = h.flags; req_id = h.req_id; len = h.len }

abbrev pub header_of : Fields → HeaderData
header_of f = record {
  magic = pos magic_number;
  version = pos current_version;
  cmd = f.cmd;
  flags = f.flags;
  req_id = f.req_id;
  len = f.len;
}

-- The number that an integer holds, if it is one of `w`-many values.
abbrev pub bounded {ℓ} : {A : Type ℓ} → ℕ → ℤ → Error → (ℕ → Result Error A) → Result Error A
bounded bound (negsuc n) e k = err e
bounded bound (pos n) e k = if ltb n bound then k n else err e

abbrev pub layout : ℕ → ℕ → ℕ → ℕ → Buffer
layout c f r l = 0x4d ∷ 0x4b ∷ 1 ∷ c ∷ f ∷ be_bytes 3 r ++ be_bytes 4 l

-- What `encode` returns or throws, with no buffer in sight.
abbrev pub encoded : Fields → Result Error Buffer
encoded d = bounded 256 d.cmd range_error λ c. bounded 256 d.flags range_error λ f.
    bounded 16777216 d.req_id req_id_out_of_bounds
      λ r. bounded 4294967296 d.len range_error λ l. ok (layout c f r l)

-- Encoding into fresh memory of any content gives exactly the layout, or the error of the first
-- field out of its range, in the order cmd, flags, reqId, length.
pub encode_lem : (memory : Buffer) (d : Fields) → length memory ≡ 12 → encode memory d ≡ encoded d
unfolding encode
encode_lem (_ ∷ _ ∷ _ ∷ _ ∷ _ ∷ _ ∷ _ ∷ _ ∷ _ ∷ _ ∷ _ ∷ _ ∷ []) d h = ground arith
encode_lem _ d h = absurd (omega arith)

decode-layout :
    (c f r l : ℕ) (rest : Buffer)
    → c < 256
    → f < 256
    → r < 16777216
    → l < 4294967296
    → decode (layout c f r l ++ rest)
      ≡ ok (header_of (record { cmd = pos c; flags = pos f; req_id = pos r; len = pos l }))
unfolding decode
decode-layout c f r l rest p q s t = ground arith

bounded-eq-ok {ℓ} :
    {A : Type ℓ} (bound : ℕ) (z : ℤ) (e : Error) (k : ℕ → Result Error A) {b : A}
    → bounded bound z e k ≡ ok b
    → (n : ℕ) × (z ≡ pos n) × (n < bound) × (k n ≡ ok b)
bounded-eq-ok bound (negsuc n) e k h = cc
bounded-eq-ok bound (pos n) e k h = (n, refl, ground arith, ground arith)

decode-encoded :
    (d : Fields) (b rest : Buffer) → encoded d ≡ ok b → decode (b ++ rest) ≡ ok (header_of d)
decode-encoded d b rest h =
    let (c, ce, cb, h₁) = bounded-eq-ok 256 d.cmd range_error _ h in
    let (f, fe, fb, h₂) = bounded-eq-ok 256 d.flags range_error _ h₁ in
    let (r, re, rb, h₃) = bounded-eq-ok 16777216 d.req_id req_id_out_of_bounds _ h₂ in
    let (l, le, lb, h₄) = bounded-eq-ok 4294967296 d.len range_error _ h₃ in
    cc (decode-layout c f r l rest cb fb rb lb)

pub length-encoded : (d : Fields) (b : Buffer) → encoded d ≡ ok b → length b ≡ 12
length-encoded d b h =
    let (c, _, _, h₁) = bounded-eq-ok 256 d.cmd range_error _ h in
    let (f, _, _, h₂) = bounded-eq-ok 256 d.flags range_error _ h₁ in
    let (r, _, _, h₃) = bounded-eq-ok 16777216 d.req_id req_id_out_of_bounds _ h₂ in
    let (l, _, _, h₄) = bounded-eq-ok 4294967296 d.len range_error _ h₃ in ground arith

-- Whatever `encode` returns decodes to the fields that were encoded, also with a payload behind it.
pub decode-encode :
    (memory : Buffer) (d : Fields) (b rest : Buffer)
    → length memory ≡ 12
    → encode memory d ≡ ok b
    → decode (b ++ rest) ≡ ok (header_of d)
decode-encode memory d b rest h e = decode-encoded d b rest (cc (encode_lem memory d h))

encoded-decode :
    (b : Buffer) (d : HeaderData)
    → All IsByte b
    → decode b ≡ ok d
    → d.magic ≡ pos magic_number
    → d.version ≡ pos current_version
    → encoded (fields_of d) ≡ ok (take 12 b)
unfolding decode
encoded-decode (x₀ ∷ x₁ ∷ x₂ ∷ x₃ ∷ x₄ ∷ x₅ ∷ x₆ ∷ x₇ ∷ x₈ ∷ x₉ ∷ x₁₀ ∷ x₁₁ ∷ rest) d bytes e m v =
    ground arith
encoded-decode _ d bytes e m v = cc

-- Encoding a decoded header of this protocol version gives back the first twelve bytes.
pub encode-decode :
    (memory : Buffer) (b : Buffer) (d : HeaderData)
    → length memory ≡ 12
    → All IsByte b
    → decode b ≡ ok d
    → d.magic ≡ pos magic_number
    → d.version ≡ pos current_version
    → encode memory (fields_of d) ≡ ok (take 12 b)
encode-decode memory b d h bytes e m v =
    encode_lem memory (fields_of d) h ∙ encoded-decode b d bytes e m v

-- Decoding throws on fewer than twelve bytes, and only then.
pub decode_short :
    (b : Buffer)
    → (decode b ≡ err buffer_too_small → length b < 12)
      × (length b < 12 → decode b ≡ err buffer_too_small)
unfolding decode
decode_short b = (λ h. ground arith, λ h. ground arith)
