-- ===== src/Ringrtc/Wire.antt =====
-- pkg/signalmeow/ringrtc/signaling.go: consumeMessage and the functions that append a field.
-- A consumer takes the field and the state of its closure, and returns the state with its error.
use mautrix_signal.Common.{
  ◌^◌, ℕ, zero, suc, ◌≤◌, ◌<◌, ◌≡◌, refl, ap, ◌∙◌, ◌==◌, if◌then◌else◌, Option, none, some, [], ◌∷◌,
  ◌++◌, length, drop, length-drop, length-append, drop-length, append_assoc, append-nil, sym, arith,
  inl, inr,
}
use mautrix_signal.Ringrtc.Protowire.{
  Bytes, Consumed, parsed, failed, varint_type, bytes_type, IsFieldNumber, FitsSlice, Protowire,
  Consumed-cases,
}

pub data Error : Type 0 where
  parse_error : ℕ → Error
  wrong_wire_type : ℕ → ℕ → ℕ → Error

-- What a decoder leaves in its result, and its error.
abbrev pub Decoded : Type 0 → Type 0
Decoded S = S × Option Error

abbrev pub FieldConsumer : Type 0 → Type 0
FieldConsumer S = ℕ → ℕ → Bytes → ℕ → S → Decoded S

abbrev pub then_next : {S : Type 0} → Decoded S → (S → Decoded S) → Decoded S
then_next (s, some e) next = (s, some e)
then_next (s, none) next = next s

then_next-ap :
    {S : Type 0} (r : Decoded S) (f g : S → Decoded S)
    → ((s : S) → f s ≡ g s)
    → then_next r f ≡ then_next r g
then_next-ap (s, some e) f g h = refl
then_next-ap (s, none) f g h = h s

module _ (p : Protowire) where
  unfoldable pub append_bytes_field : Bytes → ℕ → Bytes → Bytes
  append_bytes_field dst number value =
      (dst ++ p.append_tag number bytes_type) ++ p.append_bytes value

  unfoldable pub append_varint_field : Bytes → ℕ → ℕ → Bytes
  append_varint_field dst number value =
      (dst ++ p.append_tag number varint_type) ++ p.append_varint value

  pub length-append_varint_field :
      (number v : ℕ)
      → IsFieldNumber number
      → v < 2 ^ 64
      → length (append_varint_field [] number v) ≤ 20
  unfolding append_varint_field
  length-append_varint_field number v hn hv = omega (
    arith,
    length-append (p.append_tag number varint_type) (p.append_varint v),
    p.length-append_tag number varint_type hn (omega arith),
    p.length-append_varint v hv,
  )

  abbrev with_bytes : Consumed Bytes → Consumed (Bytes × ℕ)
  with_bytes (parsed v n) = parsed (v, 0) n
  with_bytes (failed code) = failed code

  abbrev with_varint : Consumed ℕ → Consumed (Bytes × ℕ)
  with_varint (parsed v n) = parsed ([], v) n
  with_varint (failed code) = failed code

  abbrev with_nothing : Consumed Unit → Consumed (Bytes × ℕ)
  with_nothing (parsed v n) = parsed ([], 0) n
  with_nothing (failed code) = failed code

  -- The switch on the wire type.
  abbrev consume_value : ℕ → ℕ → Bytes → Consumed (Bytes × ℕ)
  consume_value number typ data_left =
      if typ == bytes_type
      then with_bytes (p.consume_bytes data_left)
      else (if typ == varint_type
          then with_varint (p.consume_varint data_left)
          else with_nothing (p.consume_field_value number typ data_left))

  module _ {S : Type 0} (consume : FieldConsumer S) where
    -- The loop, with a bound on its rounds: every round takes a byte.
    pub consume_fields : ℕ → Bytes → S → Decoded S
    consume_fields zero data_left s = (s, none)
    consume_fields (suc k) [] s = (s, none)
    consume_fields (suc k) (b ∷ bs) s = elim (p.consume_tag (b ∷ bs)) [
      | failed code ↦ (s, some (parse_error code))
      | parsed (number, typ) n ↦ elim (consume_value number typ (drop n (b ∷ bs))) [
        | failed code ↦ (s, some (parse_error code))
        | parsed (bytes, varint) m ↦
            then_next (consume number typ bytes varint s)
              (consume_fields k (drop m (drop n (b ∷ bs))))
      ]
    ]

    pub consume_message : Bytes → S → Decoded S
    consume_message data_left s = consume_fields (length data_left) data_left s

    shorter :
        (k n m : ℕ) (b : ℕ) (bs : Bytes)
        → 0 < n
        → length bs ≤ k
        → length (drop m (drop n (b ∷ bs))) ≤ k
    shorter k n m b bs hn h = omega (arith, length-drop m (drop n (b ∷ bs)), length-drop n (b ∷ bs))

    fields_round :
        (k number typ n : ℕ) (b : ℕ) (bs bytes : Bytes) (varint m : ℕ) (s : S)
        → p.consume_tag (b ∷ bs) ≡ parsed (number, typ) n
        → consume_value number typ (drop n (b ∷ bs)) ≡ parsed (bytes, varint) m
        → consume_fields (suc k) (b ∷ bs) s
          ≡ then_next
              (consume number typ bytes varint s)
              (consume_fields k (drop m (drop n (b ∷ bs))))
    unfolding consume_fields
    fields_round k number typ n b bs bytes varint m s e q = rw (consume_fields, e, q) refl

    -- Once there are as many rounds as bytes, more rounds change nothing.
    pub consume_fields_enough :
        (j k : ℕ) (data_left : Bytes) (s : S)
        → length data_left ≤ j
        → length data_left ≤ k
        → consume_fields j data_left s ≡ consume_fields k data_left s
    unfolding consume_fields
    consume_fields_enough zero zero data_left s hj hk = refl
    consume_fields_enough zero (suc k) [] s hj hk = refl
    consume_fields_enough (suc j) zero [] s hj hk = refl
    consume_fields_enough zero k (b ∷ bs) s hj hk = absurd (omega arith)
    consume_fields_enough (suc j) zero (b ∷ bs) s hj hk = absurd (omega arith)
    consume_fields_enough (suc j) (suc k) [] s hj hk = refl
    consume_fields_enough (suc j) (suc k) (b ∷ bs) s hj hk =
        elim (Consumed-cases (p.consume_tag (b ∷ bs))) [
          | inr (code, e) ↦ rw (consume_fields, e) refl
          | inl ((number, typ), n, e) ↦
              elim (Consumed-cases (consume_value number typ (drop n (b ∷ bs)))) [
                | inr (code, q) ↦ rw (consume_fields, e, q) refl
                | inl ((bytes, varint), m, q) ↦
                    let hn = p.consume_tag_positive (b ∷ bs) (number, typ) n e in
                    let left = drop m (drop n (b ∷ bs)) in
                    fields_round j number typ n b bs bytes varint m s e q
                    ∙ then_next-ap (consume number typ bytes varint s) (consume_fields j left)
                        (consume_fields k left)
                        (λ t.
                          consume_fields_enough j k left t (shorter j n m b bs hn (omega arith))
                            (shorter k n m b bs hn (omega arith)))
                    ∙ sym (fields_round k number typ n b bs bytes varint m s e q)
              ]
        ]

    -- One round of the loop, on data that starts with a field.
    consume_round :
        (data_left : Bytes) (number typ n : ℕ) (bytes : Bytes) (varint m : ℕ) (s : S)
        → 0 < length data_left
        → p.consume_tag data_left ≡ parsed (number, typ) n
        → consume_value number typ (drop n data_left) ≡ parsed (bytes, varint) m
        → consume_message data_left s
          ≡ then_next
              (consume number typ bytes varint s)
              (consume_message (drop m (drop n data_left)))
    unfolding consume_message
    consume_round [] number typ n bytes varint m s h e q = absurd (omega arith)
    consume_round (b ∷ bs) number typ n bytes varint m s h e q =
        let hn = p.consume_tag_positive (b ∷ bs) (number, typ) n e in
        let left = drop m (drop n (b ∷ bs)) in
        fields_round (length bs) number typ n b bs bytes varint m s e q
        ∙ then_next-ap (consume number typ bytes varint s) (consume_fields (length bs) left)
            (consume_fields (length left) left)
            (λ t.
              consume_fields_enough (length bs) (length left) left t
                (shorter (length bs) n m b bs hn (omega arith)) (omega arith))

    -- What was appended is read in front of anything, and takes the state from `s` to `t`.
    abbrev pub Reads : Bytes → S → S → Type 0
    Reads bytes s t = (rest : Bytes) → consume_message (bytes ++ rest) s ≡ consume_message rest t

    bytes_field-front :
        (number : ℕ) (v rest : Bytes) (s : S)
        → IsFieldNumber number
        → FitsSlice v
        → consume_message (p.append_tag number bytes_type ++ (p.append_bytes v ++ rest)) s
          ≡ then_next (consume number bytes_type v 0 s) (consume_message rest)
    bytes_field-front number v rest s hn hv =
        let tag = p.append_tag number bytes_type in
        let left = p.append_bytes v ++ rest in
        let e = p.consume_tag-append number bytes_type left hn (omega arith) in
        let positive = p.consume_tag_positive (tag ++ left) (number, bytes_type) (length tag) e in
        consume_round (tag ++ left) number bytes_type (length tag) v 0 (length (p.append_bytes v)) s
          (omega (arith, length-append tag left)) e
          (rw (drop-length tag left, p.consume_bytes-append v rest hv) refl)
        ∙ rw (drop-length tag left, drop-length (p.append_bytes v) rest) refl

    pub varint_field-front :
        (number v : ℕ) (rest : Bytes) (s : S)
        → IsFieldNumber number
        → v < 2 ^ 64
        → consume_message (p.append_tag number varint_type ++ (p.append_varint v ++ rest)) s
          ≡ then_next (consume number varint_type [] v s) (consume_message rest)
    varint_field-front number v rest s hn hv =
        let tag = p.append_tag number varint_type in
        let left = p.append_varint v ++ rest in
        let e = p.consume_tag-append number varint_type left hn (omega arith) in
        let positive = p.consume_tag_positive (tag ++ left) (number, varint_type) (length tag) e in
        consume_round (tag ++ left) number varint_type (length tag) [] v
          (length (p.append_varint v)) s (omega (arith, length-append tag left)) e
          (rw (drop-length tag left, p.consume_varint-append v rest hv) refl)
        ∙ rw (drop-length tag left, drop-length (p.append_varint v) rest) refl

    pub Reads-append_bytes_field :
        (out : Bytes) (number : ℕ) (v : Bytes) (s t u : S)
        → Reads out s t
        → IsFieldNumber number
        → FitsSlice v
        → consume number bytes_type v 0 t ≡ (u, none)
        → Reads (append_bytes_field out number v) s u
    unfolding append_bytes_field
    Reads-append_bytes_field out number v s t u h hn hv e rest =
        let tag = p.append_tag number bytes_type in
        rw
          (
            append_assoc (out ++ tag) (p.append_bytes v) rest,
            append_assoc out tag (p.append_bytes v ++ rest),
          )
          (h (tag ++ (p.append_bytes v ++ rest))
            ∙ bytes_field-front number v rest t hn hv
            ∙ ap (λ r. then_next r (consume_message rest)) e)

    pub Reads-append_varint_field :
        (out : Bytes) (number v : ℕ) (s t u : S)
        → Reads out s t
        → IsFieldNumber number
        → v < 2 ^ 64
        → consume number varint_type [] v t ≡ (u, none)
        → Reads (append_varint_field out number v) s u
    unfolding append_varint_field
    Reads-append_varint_field out number v s t u h hn hv e rest =
        let tag = p.append_tag number varint_type in
        rw
          (
            append_assoc (out ++ tag) (p.append_varint v) rest,
            append_assoc out tag (p.append_varint v ++ rest),
          )
          (h (tag ++ (p.append_varint v ++ rest))
            ∙ varint_field-front number v rest t hn hv
            ∙ ap (λ r. then_next r (consume_message rest)) e)

    -- Reading all of a message.
    pub Reads-all :
        (bytes : Bytes) (s t : S) → Reads bytes s t → consume_message bytes s ≡ (t, none)
    unfolding consume_message consume_fields
    Reads-all bytes s t h = ap (λ b. consume_message b s) (sym (append-nil bytes)) ∙ h []
