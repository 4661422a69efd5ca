-- ===== src/Ringrtc/Accepted.antt =====
-- pkg/signalmeow/ringrtc/rtp_data.go: encodeAccepted and decodeAccepted.
use mautrix_signal.Common.{
  ℕ, zero, suc, ◌≤◌, ◌<◌, ◌^◌, ◌≡◌, refl, ◌==◌, if◌then◌else◌, not, ◌&&◌, ◌||◌, Option, none, some,
  [], ◌∷◌, ◌++◌, length, drop, drop-length, length-append, append_assoc, append-nil, arith, ap, sym,
  ◌∙◌,
}
use mautrix_signal.Ringrtc.Protowire.{
  Bytes, Consumed, parsed, failed, varint_type, bytes_type, FitsSlice, Protowire,
}

module _ (p : Protowire) where
  -- The message that says which call was accepted.
  pub encode_call_id : ℕ → Bytes
  encode_call_id call_id = p.append_tag 1 varint_type ++ p.append_varint call_id

  pub encode_accepted : ℕ → ℕ → Bytes
  unfolding encode_call_id
  encode_accepted call_id sequence =
      let message = p.append_tag 1 bytes_type ++ p.append_bytes (encode_call_id call_id) in
      (message ++ p.append_tag 4 varint_type) ++ p.append_varint sequence

  abbrev of_varint : Consumed ℕ → Option ℕ
  of_varint (parsed call_id n) = some call_id
  of_varint (failed code) = none

  -- The first field of the accepted message.
  decode_call_id : Bytes → Option ℕ
  decode_call_id accepted = elim (p.consume_tag accepted) [
    | failed code ↦ none
    | parsed (field, field_type) tag_size ↦
        if not (field == 1) || not (field_type == varint_type)
        then none
        else of_varint (p.consume_varint (drop tag_size accepted))
  ]

  abbrev of_bytes : Consumed Bytes → Option ℕ
  unfolding decode_call_id
  of_bytes (parsed accepted n) = decode_call_id accepted
  of_bytes (failed code) = none

  -- The loop, with a bound on its rounds: every round takes a byte.
  decode_fields : ℕ → Bytes → Option ℕ
  decode_fields zero message = none
  decode_fields (suc k) [] = none
  decode_fields (suc k) (b ∷ bs) = elim (p.consume_tag (b ∷ bs)) [
    | failed code ↦ none
    | parsed (number, typ) n ↦
        let message = drop n (b ∷ bs) in
        let next : Option ℕ = elim (p.consume_field_value number typ message) [
          | failed code ↦ none
          | parsed _ m ↦ decode_fields k (drop m message)
        ] in
        if number == 1 && typ == bytes_type then of_bytes (p.consume_bytes message) else next
  ]

  pub decode_accepted : Bytes → Option ℕ
  decode_accepted message = decode_fields (length message) message

  encode_call_id-FitsSlice : (call_id : ℕ) → call_id < 2 ^ 64 → FitsSlice (encode_call_id call_id)
  unfolding encode_call_id
  encode_call_id-FitsSlice call_id h = omega (
    arith,
    length-append (p.append_tag 1 varint_type) (p.append_varint call_id),
    p.length-append_tag 1 varint_type (omega arith, omega arith) (omega arith),
    p.length-append_varint call_id h,
  )

  decode-encode_call_id :
      (call_id : ℕ) → call_id < 2 ^ 64 → decode_call_id (encode_call_id call_id) ≡ some call_id
  unfolding decode_call_id encode_call_id
  decode-encode_call_id call_id h =
      let tag = p.append_tag 1 varint_type in
      let varint = p.append_varint call_id in
      let e = p.consume_tag-append 1 varint_type varint (omega arith, omega arith) (omega arith) in
      let q =
        ap p.consume_varint (sym (append-nil varint)) ∙ p.consume_varint-append call_id [] h in
      rw (decode_call_id, e, drop-length tag varint, q) refl

  -- A message that starts with the accepted field.
  decode_first_field :
      (k call_id : ℕ) (message rest : Bytes)
      → call_id < 2 ^ 64
      → message ≡ p.append_tag 1 bytes_type ++ (p.append_bytes (encode_call_id call_id) ++ rest)
      → length message ≤ k
      → decode_fields k message ≡ some call_id
  unfolding decode_fields of_bytes decode_call_id
  decode_first_field k call_id [] rest h e hk =
      let tag = p.append_tag 1 bytes_type in
      let left = p.append_bytes (encode_call_id call_id) ++ rest in
      let t =
        ap p.consume_tag e
        ∙ p.consume_tag-append 1 bytes_type left (omega arith, omega arith) (omega arith) in
      let positive = p.consume_tag_positive [] (1, bytes_type) (length tag) t in
      absurd (omega (arith, ap length e, length-append tag left))
  decode_first_field zero call_id (b ∷ bs) rest h e hk = absurd (omega arith)
  decode_first_field (suc k) call_id (b ∷ bs) rest h e hk =
      let tag = p.append_tag 1 bytes_type in
      let inner = p.append_bytes (encode_call_id call_id) in
      let t =
        ap p.consume_tag e
        ∙ p.consume_tag-append 1 bytes_type (inner ++ rest) (omega arith, omega arith)
            (omega arith) in
      let d = ap (drop (length tag)) e ∙ drop-length tag (inner ++ rest) in
      let v =
        p.consume_bytes-append (encode_call_id call_id) rest (encode_call_id-FitsSlice call_id h) in
      rw (decode_fields, t, d, v) (decode-encode_call_id call_id h)

  -- The call ID that decodeAccepted finds in the message of encodeAccepted, with anything after it, is
  -- the one that was encoded.
  pub decode-encode_accepted :
      (call_id sequence : ℕ) (rest : Bytes)
      → call_id < 2 ^ 64
      → decode_accepted (encode_accepted call_id sequence ++ rest) ≡ some call_id
  unfolding decode_accepted encode_accepted
  decode-encode_accepted call_id sequence rest h =
      let message = encode_accepted call_id sequence ++ rest in
      let tag = p.append_tag 1 bytes_type in
      let inner = p.append_bytes (encode_call_id call_id) in
      let tag4 = p.append_tag 4 varint_type in
      let last = p.append_varint sequence in
      decode_first_field (length message) call_id message (tag4 ++ (last ++ rest)) h
        (append_assoc ((tag ++ inner) ++ tag4) last rest
          ∙ append_assoc (tag ++ inner) tag4 (last ++ rest)
          ∙ append_assoc tag inner (tag4 ++ (last ++ rest)))
        (omega arith)
