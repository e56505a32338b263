-- ===== src/Monkey/Processor.antt =====
-- libs/monkey/src/codec/processor.ts: encryption of payloads. The cipher of Node's crypto module is
-- a parameter.
pub mod RoundTrip
use ocean_chat_private.Prelude.{
  ℕ, ◌-◌, ◌≡◌, Option, none, some, Result, ok, err, ◌>>=◌, ◌>>◌, throw_if, ltb, ◌==◌, length, not,
  ◌++◌, take, drop,
}
use ocean_chat_private.Monkey.Buffer.{Buffer}

pub data Error : Type 0 where
  invalid_key_length invalid_payload_length authentication_failed : Error

-- AES-256-GCM: `seal key iv plain` is the encrypted data and the authentication tag. `open key iv
-- tag encrypted` is `none` where `decipher.final()` throws.
pub record Cipher : Type 0 where
  pub seal : Buffer → Buffer → Buffer → Buffer × Buffer
  pub unseal : Buffer → Buffer → Buffer → Buffer → Option Buffer

-- What the code relies on: a tag has 16 bytes, and what was sealed can be unsealed.
pub record IsAead (c : Cipher) : Type 0 where
  pub tag_length : (key iv plain : Buffer) → length (c.seal key iv plain).1 ≡ 16
  pub unseal-seal :
      (key iv plain : Buffer)
      → c.unseal key iv (c.seal key iv plain).1 (c.seal key iv plain).0 ≡ some plain

abbrev pub or_throw {κ} : {E : Type κ} → Option Buffer → E → Result E Buffer
or_throw none e = err e
or_throw (some b) e = ok b

-- `iv` is what `crypto.randomBytes(12)` returns.
unfoldable pub encrypt : Cipher → Buffer → Buffer → Buffer → Result Error Buffer
encrypt c iv payload key = do
  throw_if (not (length key == 32)) invalid_key_length
  let sealed = c.seal key iv payload
  ok (iv ++ (sealed.0 ++ sealed.1))

unfoldable pub decrypt : Cipher → Buffer → Buffer → Result Error Buffer
decrypt c payload key = do
  throw_if (not (length key == 32)) invalid_key_length
  throw_if (ltb (length payload) 28) invalid_payload_length
  let iv = take 12 payload
  let auth_tag = drop (length payload - 16) payload
  let encrypted = drop 12 (take (length payload - 16) payload)
  or_throw (c.unseal key iv auth_tag encrypted) authentication_failed
