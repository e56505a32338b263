-- ===== src/Monkey/Processor/RoundTrip.antt =====
-- Decryption after encryption in libs/monkey/src/codec/processor.ts.
use ocean_chat_private.Prelude.{
  ℕ, zero, suc, List, [], ◌∷◌, ◌≤◌, ◌+◌, ◌-◌, ◌≡◌, refl, sym, ap, ◌∙◌, ◌++◌, some, ok, append_assoc,
  length, take, drop, length-append, take-append, drop-append, length-take, length-drop,
  take-append-drop, arith,
}
use ocean_chat_private.Monkey.Buffer.{Buffer}
use ocean_chat_private.Monkey.Processor.{Cipher, IsAead, encrypt, decrypt}

-- The three parts of [IV] + [data] + [tag] are cut out again.
parts :
    (iv encrypted tag : Buffer)
    → length iv ≡ 12
    → length tag ≡ 16
    → let b = iv ++ (encrypted ++ tag) in
      (28 + length encrypted ≡ length b)
      × (take 12 b ≡ iv)
      × (drop (length b - 16) b ≡ tag)
      × (drop 12 (take (length b - 16) b) ≡ encrypted)
parts iv encrypted tag p q =
    let b = iv ++ (encrypted ++ tag) in
    let total = length-append iv (encrypted ++ tag) in
    let inner = length-append encrypted tag in
    let front = length-append iv encrypted in
    let split = sym (append_assoc iv encrypted tag) in
    let at : length b - 16 ≡ length (iv ++ encrypted) = omega arith in
    (
      omega arith,
      rw p at (take-append iv (encrypted ++ tag)),
      rw at (ap (drop (length (iv ++ encrypted))) split ∙ drop-append (iv ++ encrypted) tag),
      rw at (
          ap (drop 12)
            (ap (take (length (iv ++ encrypted))) split ∙ take-append (iv ++ encrypted) tag)
          ∙ (rw p at (drop-append iv encrypted))),
    )

-- With a sound cipher, a 12-byte IV and any key that `encrypt` accepts, the encrypted payload has
-- 28 bytes more than the data and decrypts to the payload under the same key.
pub decrypt-encrypt :
    (c : Cipher) (iv payload key b : Buffer)
    → IsAead c
    → length iv ≡ 12
    → encrypt c iv payload key ≡ ok b
    → (decrypt c b key ≡ ok payload) × (length b ≡ 28 + length (c.seal key iv payload).0)
unfolding encrypt decrypt
decrypt-encrypt c iv payload key b sound p e =
    let hidden = (c.seal key iv payload).0 in
    let tag = (c.seal key iv payload).1 in
    let tag_size = sound.tag_length key iv payload in
    let opens = sound.unseal-seal key iv payload in
    let same : b ≡ iv ++ (hidden ++ tag) = ground arith in
    let key_size : length key ≡ 32 = ground arith in
    rw same (
      ground (arith, parts iv hidden tag p tag_size),
      omega (arith, parts iv hidden tag p tag_size),
    )

take-take {ℓ} : {A : Type ℓ} (m n : ℕ) (xs : List A) → m ≤ n → take m (take n xs) ≡ take m xs
take-take zero n xs h = refl
take-take (suc m) zero xs h = absurd (omega arith)
take-take (suc m) (suc n) [] h = refl
take-take (suc m) (suc n) (x ∷ xs) h = ap (◌∷◌ x) (take-take m n xs (omega arith))

-- A payload that decrypts is an IV of 12 bytes, data, and a tag of 16 bytes that the cipher
-- accepted for them; a shorter one is refused whatever the cipher does.
pub decrypt-eq-ok :
    (c : Cipher) (b key plain : Buffer)
    → decrypt c b key ≡ ok plain
    → (iv : Buffer) × (encrypted : Buffer) × (tag : Buffer) × (b ≡ iv ++ (encrypted ++ tag))
      × (length iv ≡ 12)
      × (length tag ≡ 16)
      × (length key ≡ 32)
      × (c.unseal key iv tag encrypted ≡ some plain)
unfolding decrypt
decrypt-eq-ok c b key plain e =
    let long : 28 ≤ length b = ground arith in
    let n = length b - 16 in
    let kept = length-take n b in
    (
      take 12 b,
      drop 12 (take n b),
      drop n b,
      sym (
          sym (append_assoc (take 12 b) (drop 12 (take n b)) (drop n b))
          ∙ ap (λ t. (t ++ drop 12 (take n b)) ++ drop n b) (sym (take-take 12 n b (omega arith)))
          ∙ ap (λ t. t ++ drop n b) (take-append-drop 12 (take n b))
          ∙ take-append-drop n b),
      omega (arith, length-take 12 b),
      omega (arith, length-drop n b),
      ground arith,
      ground arith,
    )
