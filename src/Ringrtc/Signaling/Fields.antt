-- ===== src/Ringrtc/Signaling/Fields.antt =====
-- Fields that the decoders of offers and answers do not know.
use mautrix_signal.Common.{
  ℕ, ◌≡◌, ◌≢◌, refl, ◌∙◌, true, not, ◌==◌, Option, none, some, ◌++◌, [], append_assoc, arith,
}
use mautrix_signal.Ringrtc.Protowire.{Bytes, FitsSlice, IsFieldNumber, Protowire}
use mautrix_signal.Ringrtc.Wire.{append_bytes_field, Reads, Reads-append_bytes_field, Reads-all}
use mautrix_signal.Ringrtc.Signaling.{
  ConnectionParameters, consume_versioned, decode_versioned_parameters, encode_versioned,
  encode_offer, encode_answer, decode_offer, decode_answer,
}
use mautrix_signal.Ringrtc.Signaling.RoundTrip.{IsEncodableVersion, Reads-encode_versioned}

other_number : (number : ℕ) → number ≢ 4 → not (number == 4) ≡ true
other_number number h = ground arith

module _ (p : Protowire) where
  Reads-append :
      (xs ys : Bytes) (s t u : Option ConnectionParameters)
      → Reads p (consume_versioned p) xs s t
      → Reads p (consume_versioned p) ys t u
      → Reads p (consume_versioned p) (xs ++ ys) s u
  Reads-append xs ys s t u h k rest = rw (append_assoc xs ys rest) (h (ys ++ rest) ∙ k rest)

  -- A field of bytes whose number is not that of the parameters.
  Reads-unknown :
      (number : ℕ) (v : Bytes) (s : Option ConnectionParameters)
      → IsFieldNumber number
      → number ≢ 4
      → FitsSlice v
      → Reads p (consume_versioned p) (append_bytes_field p [] number v) s s
  unfolding consume_versioned
  Reads-unknown number v s hn h hv =
      Reads-append_bytes_field p (consume_versioned p) [] number v s s s (λ r. refl) hn hv
        (rw (other_number number h) refl)

  Reads-between :
      (v4 : Option ConnectionParameters) (m n : ℕ) (v w : Bytes)
      → IsEncodableVersion p v4
      → IsFieldNumber m
      → m ≢ 4
      → FitsSlice v
      → IsFieldNumber n
      → n ≢ 4
      → FitsSlice w
      → decode_versioned_parameters p
          (append_bytes_field p [] m v ++ (encode_versioned p v4 ++ append_bytes_field p [] n w))
        ≡ (v4, none)
  unfolding decode_versioned_parameters
  Reads-between v4 m n v w h hm em hv hn en hw = Reads-all p (consume_versioned p) _ none v4 (
      Reads-append (append_bytes_field p [] m v) _ none none v4 (Reads-unknown m v none hm em hv) (
        Reads-append (encode_versioned p v4) (append_bytes_field p [] n w) none v4 v4
          (Reads-encode_versioned p v4 h) (Reads-unknown n w v4 hn en hw)))

  -- An encoded offer or answer is decoded to what it was also between two fields of bytes that the
  -- decoder does not know: fields with other numbers than 4.
  pub decode-encode_between :
      (v4 : Option ConnectionParameters) (m n : ℕ) (v w : Bytes)
      → IsEncodableVersion p v4
      → IsFieldNumber m
      → m ≢ 4
      → FitsSlice v
      → IsFieldNumber n
      → n ≢ 4
      → FitsSlice w
      → (decode_offer p (
            append_bytes_field p [] m v
            ++ (encode_offer p (some (record { v4 = v4 })) ++ append_bytes_field p [] n w))
          ≡ (record { v4 = v4 }, none))
        × (decode_answer p (
              append_bytes_field p [] m v
              ++ (encode_answer p (some (record { v4 = v4 })) ++ append_bytes_field p [] n w))
            ≡ (record { v4 = v4 }, none))
  unfolding decode_offer encode_offer decode_answer encode_answer
  decode-encode_between v4 m n v w h hm em hv hn en hw =
      rw (Reads-between v4 m n v w h hm em hv hn en hw) (refl, refl)
