-- ===== src/Monkey/Tests.antt =====
-- Runs of the codec of libs/monkey/src at concrete inputs.
use ocean_chat_private.Prelude.{
  ◌<◌, ◌≡◌, refl, [], ◌∷◌, ◌++◌, ok, err, some, length, take, not, ◌&&◌, ◌||◌, arith,
}
use ocean_chat_private.Prelude.Int.{pos, negsuc}
use ocean_chat_private.Monkey.Buffer.{
  Buffer, Error, range_error, req_id_out_of_bounds, buffer_too_small, payload_length_mismatch,
}
use ocean_chat_private.Monkey.Header.{Fields, encode, decode}
use ocean_chat_private.Monkey.Header.RoundTrip.{
  fields_of, header_of, encoded, encode_lem, decode-encode, encode-decode,
}
use ocean_chat_private.Monkey.Framer.{
  MessageFields, with_length, frame_ws_message, unframe_ws_message,
}
use ocean_chat_private.Monkey.Framer.Integrity.{
  message_fields, unframe-frame, unframe_extended, unframe_truncated, frame-unframe,
}
use ocean_chat_private.Monkey.Flags.{compressed, encrypted, mask, has_flag, set_flag, clear_flag}
use ocean_chat_private.Monkey.Flags.Laws.{same_flag, flags_independent}
use ocean_chat_private.Monkey.Processor.{Cipher, IsAead, encrypt, decrypt}
use ocean_chat_private.Monkey.Processor.RoundTrip.{decrypt-encrypt, decrypt-eq-ok}

abbrev memory : Buffer
memory = 9 ∷ 9 ∷ 9 ∷ 9 ∷ 9 ∷ 9 ∷ 9 ∷ 9 ∷ 9 ∷ 9 ∷ 9 ∷ 9 ∷ []

abbrev ping : Fields
ping = record { cmd = pos 3; flags = pos 1; req_id = pos 123456; len = pos 2 }

abbrev ping_bytes : Buffer
ping_bytes = 0x4d ∷ 0x4b ∷ 1 ∷ 3 ∷ 1 ∷ 1 ∷ 226 ∷ 64 ∷ 0 ∷ 0 ∷ 0 ∷ 2 ∷ []

ping_encodes : encode memory ping ≡ ok ping_bytes
unfolding encode
ping_encodes = refl

negative_req_id : encode memory (record ping { req_id = negsuc 0 }) ≡ err req_id_out_of_bounds
unfolding encode
negative_req_id = refl

bad_cmd : encode memory (record ping { cmd = pos 256; req_id = negsuc 0 }) ≡ err range_error
unfolding encode
bad_cmd = refl

short : decode (0x4d ∷ []) ≡ err buffer_too_small
unfolding decode
short = refl

encode_lem_run : encode memory ping ≡ encoded ping
encode_lem_run = encode_lem memory ping refl

header_decoded : decode (ping_bytes ++ 7 ∷ []) ≡ ok (header_of ping)
header_decoded = decode-encode memory ping ping_bytes (7 ∷ []) refl ping_encodes

header_again : encode memory (fields_of (header_of ping)) ≡ ok (take 12 ping_bytes)
header_again =
    encode-decode memory ping_bytes (header_of ping) refl (omega arith)
      (decode-encode memory ping ping_bytes [] refl ping_encodes) refl refl

abbrev hello : MessageFields
hello = record { cmd = pos 3; flags = pos 1; req_id = pos 123456 }

abbrev framed : Buffer
framed = ping_bytes ++ 104 ∷ 105 ∷ []

frame_hello : frame_ws_message memory hello (104 ∷ 105 ∷ []) ≡ ok framed
unfolding frame_ws_message encode
frame_hello = refl

unframe-frame_example :
    unframe_ws_message framed ≡ ok (header_of (with_length hello (104 ∷ 105 ∷ [])), 104 ∷ 105 ∷ [])
unframe-frame_example = unframe-frame memory hello (104 ∷ 105 ∷ []) framed refl frame_hello

extra_byte_refused : unframe_ws_message (framed ++ 0 ∷ []) ≡ err (payload_length_mismatch (pos 2) 3)
extra_byte_refused = unframe_extended memory hello (104 ∷ 105 ∷ []) framed 0 [] refl frame_hello

short_refused : (e : Error) × (unframe_ws_message (take 13 framed) ≡ err e)
short_refused =
    unframe_truncated memory hello (104 ∷ 105 ∷ []) framed 13 refl frame_hello (omega arith)

frame-unframe_run :
    frame_ws_message memory (message_fields (header_of ping)) (104 ∷ 105 ∷ []) ≡ ok framed
frame-unframe_run =
    frame-unframe memory framed (header_of ping) (104 ∷ 105 ∷ []) refl (omega arith)
      unframe-frame_example refl

flags_independent_run :
    (has_flag (set_flag 1 (mask compressed)) (mask encrypted)
      ≡ (same_flag compressed encrypted || has_flag 1 (mask encrypted)))
    × (has_flag (clear_flag 1 (mask compressed)) (mask encrypted)
        ≡ (not (same_flag compressed encrypted) && has_flag 1 (mask encrypted)))
    × (set_flag 1 (mask compressed) < 256)
    × (clear_flag 1 (mask compressed) < 256)
flags_independent_run = flags_independent compressed encrypted 1 (omega arith)

-- A cipher that hides nothing and signs with zeros.
abbrev zeros : Buffer
zeros = 0 ∷ 0 ∷ 0 ∷ 0 ∷ 0 ∷ 0 ∷ 0 ∷ 0 ∷ 0 ∷ 0 ∷ 0 ∷ 0 ∷ 0 ∷ 0 ∷ 0 ∷ 0 ∷ []

abbrev plain_cipher : Cipher
plain_cipher = record {
  seal = λ key iv plain. (plain, zeros);
  unseal = λ key iv tag hidden. some hidden;
}

plain_cipher-IsAead : IsAead plain_cipher
plain_cipher-IsAead = record {
  tag_length = λ key iv plain. refl;
  unseal-seal = λ key iv plain. refl;
}

abbrev sealed : Buffer
sealed = memory ++ (5 ∷ 6 ∷ []) ++ zeros

seal_it : encrypt plain_cipher memory (5 ∷ 6 ∷ []) (zeros ++ zeros) ≡ ok sealed
unfolding encrypt
seal_it = refl

decrypt-encrypt_example :
    (decrypt plain_cipher sealed (zeros ++ zeros) ≡ ok (5 ∷ 6 ∷ [])) × (length sealed ≡ 30)
decrypt-encrypt_example =
    decrypt-encrypt plain_cipher memory (5 ∷ 6 ∷ []) (zeros ++ zeros) sealed plain_cipher-IsAead
      refl seal_it

decrypted_parts :
    (iv : Buffer) × (hidden : Buffer) × (tag : Buffer) × (sealed ≡ iv ++ (hidden ++ tag))
    × (length iv ≡ 12)
    × (length tag ≡ 16)
    × (length (zeros ++ zeros) ≡ 32)
    × (plain_cipher.unseal (zeros ++ zeros) iv tag hidden ≡ some (5 ∷ 6 ∷ []))
decrypted_parts =
    decrypt-eq-ok plain_cipher sealed (zeros ++ zeros) (5 ∷ 6 ∷ []) decrypt-encrypt_example.0
