-- ===== src/Monkey/Framer/Integrity.antt =====
-- What a WebSocket message that passes libs/monkey/src/codec/framer.ts is.
use ocean_chat_private.Prelude.{
  ℕ, zero, suc, ltb, Bool-cases, inl, inr, ◌≤◌, ◌≢◌, append_assoc, ◌+◌, ◌-◌, ◌<◌, ◌≡◌, refl, sym,
  ap, ◌∙◌, List, [], ◌∷◌, ◌++◌, ok, err, bind-eq-ok, length, arith, All, take, drop, length-append,
  drop-append, length-drop, length-take, take-append-drop,
}
use ocean_chat_private.Prelude.Int.{pos}
use ocean_chat_private.Monkey.Buffer.{
  Buffer, Error, IsByte, buffer_too_small, payload_length_mismatch,
}
use ocean_chat_private.Monkey.Header.{HeaderData, encode, decode, current_version, magic_number}
use ocean_chat_private.Monkey.Header.RoundTrip.{
  header_of, fields_of, encode_lem, decode-encode, encode-decode, length-encoded,
}
use ocean_chat_private.Monkey.Framer.{
  MessageFields, with_length, unframe_ws_message, frame_ws_message,
}

abbrev pub message_fields : HeaderData → MessageFields
message_fields h = record { cmd = h.cmd; flags = h.flags; req_id = h.req_id }

-- The header of a framed message.
frame-eq-ok :
    (memory : Buffer) (m : MessageFields) (payload b : Buffer)
    → length memory ≡ 12
    → frame_ws_message memory m payload ≡ ok b
    → (header : Buffer) × (b ≡ header ++ payload)
      × (length header ≡ 12)
      × ((rest : Buffer) → decode (header ++ rest) ≡ ok (header_of (with_length m payload)))
unfolding frame_ws_message
frame-eq-ok memory m payload b h e =
    let (header, same, enc) = bind-eq-ok _ (encode memory (with_length m payload)) e in
    (
      header,
      cc,
      length-encoded (with_length m payload) header (sym (encode_lem memory _ h) ∙ enc),
      λ rest. decode-encode memory (with_length m payload) header rest h enc,
    )

take_past {ℓ} :
    {A : Type ℓ} (xs ys : List A) (n : ℕ)
    → length xs ≤ n
    → take n (xs ++ ys) ≡ xs ++ take (n - length xs) ys
take_past [] ys n h = ap (λ k. take k ys) (omega arith)
take_past (x ∷ xs) ys zero h = absurd (omega arith)
take_past (x ∷ xs) ys (suc n) h =
    ap (◌∷◌ x) (take_past xs ys n (omega arith) ∙ ap (λ k. xs ++ take k ys) (omega arith))

-- A well-formed header with the wrong number of bytes behind it.
unframe_mismatch :
    (b : Buffer) (d : HeaderData) (l : ℕ)
    → decode b ≡ ok d
    → d.magic ≡ pos magic_number
    → d.len ≡ pos l
    → 12 ≤ length b
    → length b ≢ 12 + l
    → unframe_ws_message b ≡ err (payload_length_mismatch (pos l) (length b - 12))
unfolding unframe_ws_message
unframe_mismatch b d l e m k h ne = ground arith

-- A framed message is unframed to its fields and its payload.
pub unframe-frame :
    (memory : Buffer) (m : MessageFields) (payload b : Buffer)
    → length memory ≡ 12
    → frame_ws_message memory m payload ≡ ok b
    → unframe_ws_message b ≡ ok (header_of (with_length m payload), payload)
unfolding unframe_ws_message
unframe-frame memory m payload b h e =
    let (header, same, len, dec) = frame-eq-ok memory m payload b h e in
    rw same
      (ground (arith, dec payload, length-append header payload, drop_header header payload len))
  where
    drop_header : (header rest : Buffer) → length header ≡ 12 → drop 12 (header ++ rest) ≡ rest
    drop_header header rest l = rw l at (drop-append header rest)

-- Bytes after the end of a framed message are refused, with both lengths in the error.
pub unframe_extended :
    (memory : Buffer) (m : MessageFields) (payload b : Buffer) (x : ℕ) (xs : Buffer)
    → length memory ≡ 12
    → frame_ws_message memory m payload ≡ ok b
    → unframe_ws_message (b ++ x ∷ xs)
      ≡ err (payload_length_mismatch (pos (length payload)) (length payload + suc (length xs)))
unfolding unframe_ws_message
unframe_extended memory m payload b x xs h e =
    let (header, same, len, dec) = frame-eq-ok memory m payload b h e in
    let past = payload ++ x ∷ xs in
    let whole : b ++ x ∷ xs ≡ header ++ past =
      ap (λ t. t ++ x ∷ xs) same ∙ append_assoc header payload (x ∷ xs) in
    let total = length-append header past in
    let tail = length-append payload (x ∷ xs) in
    rw whole (
      unframe_mismatch (header ++ past) _ (length payload) (dec past) refl refl (omega arith)
        (λ q. omega arith)
      ∙ ap (λ g. err (payload_length_mismatch (pos (length payload)) g)) (omega arith))

-- So is every message that was cut short.
pub unframe_truncated :
    (memory : Buffer) (m : MessageFields) (payload b : Buffer) (n : ℕ)
    → length memory ≡ 12
    → frame_ws_message memory m payload ≡ ok b
    → n < length b
    → (e : Error) × (unframe_ws_message (take n b) ≡ err e)
unfolding unframe_ws_message
unframe_truncated memory m payload b n h e lt =
    let (header, same, len, dec) = frame-eq-ok memory m payload b h e in
    let total = length-append header payload in
    let size = ap length same in
    let cut = length-take n b in
    elim (Bool-cases (ltb n 12)) [
      | inl short ↦ (buffer_too_small, ground arith)
      | inr long ↦
          let rest = take (n - length header) payload in
          let shape : take n b ≡ header ++ rest =
            ap (take n) same ∙ take_past header payload n (ground arith) in
          (
            _,
            unframe_mismatch (take n b) (header_of (with_length m payload)) (length payload)
                (rw shape (dec rest)) refl refl (ground arith) (λ q. ground arith),
          )
    ]

-- What has been checked of a message that passes.
pub unframe-eq-ok :
    (b : Buffer) (d : HeaderData) (payload : Buffer)
    → unframe_ws_message b ≡ ok (d, payload)
    → (decode b ≡ ok d)
      × (d.magic ≡ pos magic_number)
      × (d.len ≡ pos (length b - 12))
      × (12 ≤ length b)
      × (payload ≡ drop 12 b)
unfolding unframe_ws_message
unframe-eq-ok b d payload e = (ground arith, ground arith, ground arith, ground arith, ground arith)

-- A message of this protocol version that passes is what framing its parts gives.
pub frame-unframe :
    (memory b : Buffer) (d : HeaderData) (payload : Buffer)
    → length memory ≡ 12
    → All IsByte b
    → unframe_ws_message b ≡ ok (d, payload)
    → d.version ≡ pos current_version
    → frame_ws_message memory (message_fields d) payload ≡ ok b
unfolding unframe_ws_message frame_ws_message
frame-unframe memory b d payload h bytes e v =
    let (dec, magic, len, long, cut) = unframe-eq-ok b d payload e in
    let sizes = length-drop 12 b in
    let same : with_length (message_fields d) payload ≡ fields_of d =
      ap (λ l. record { cmd = d.cmd; flags = d.flags; req_id = d.req_id; len = l })
        (ap pos (ap length cut ∙ sizes) ∙ sym len) in
    let enc = encode-decode memory b d h bytes dec magic v in
    rw (same, enc) (ap ok (ap (◌++◌ (take 12 b)) cut ∙ take-append-drop 12 b))
