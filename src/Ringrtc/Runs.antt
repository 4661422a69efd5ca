-- ===== src/Ringrtc/Runs.antt =====
-- A concrete wire format, and the theorems on the call signalling at concrete inputs.
use mautrix_signal.Common.{
  ℕ, zero, suc, ◌+◌, ◌-◌, ◌*◌, ◌/◌, ◌%◌, ◌^◌, ◌≤◌, ◌<◌, ◌≡◌, refl, ap, ltb, leb, le→leb,
  if◌then◌else◌, true, if_cases, some, none, List, [], ◌∷◌, ◌++◌, length, take, codes, arith,
  length-append, take-length, append_assoc,
}
use mautrix_signal.Encoding.Uvarint.{
  Read, ok, err, append_groups, append_uvarint, read_uvarint, read_uvarint-append_uvarint,
}
use mautrix_signal.Ringrtc.Protowire.{
  Bytes, Consumed, parsed, failed, IsFieldNumber, FitsSlice, Protowire,
}
use mautrix_signal.Ringrtc.Wire.{append_bytes_field, append_varint_field}
use mautrix_signal.Ringrtc.Signaling.Fields.{decode-encode_between}
use mautrix_signal.Ringrtc.Signaling.RoundTrip.{IsEncodable}
use mautrix_signal.Ringrtc.Signaling.{
  ConnectionParameters, IceCandidate, decode_offer, encode_offer, decode_answer, encode_answer,
  decode_ice_candidate, encode_ice_candidate, encode_parameters, append_codecs, encode_video_codec,
  uint64_of_codec, encode_candidate_v3, encode_socket_addr,
}
use mautrix_signal.Ringrtc.Signaling.RoundTrip.{
  decode-encode_offer_answer, decode-encode_ice_candidate,
}
use mautrix_signal.Ringrtc.CallMessage.{
  decode_call_message, audio, video, offer_message, base_message, ice_parts, ice_messages,
  decode-offer_ice,
}
use mautrix_signal.Ringrtc.Accepted.{decode_accepted, encode_accepted, decode-encode_accepted}

length-append_groups_le : (k v : ℕ) → length (append_groups k v) ≤ suc k
unfolding append_groups
length-append_groups_le zero v = omega arith
length-append_groups_le (suc k) v =
    if_cases (λ (l : List ℕ). length l ≤ suc (suc k)) (ltb v 0x80) (λ _. omega arith)
      (λ _. omega (arith, length-append_groups_le k (v / 128)))

length-append_groups_positive : (k v : ℕ) → 0 < length (append_groups k v)
unfolding append_groups
length-append_groups_positive zero v = omega arith
length-append_groups_positive (suc k) v =
    if_cases (λ (l : List ℕ). 0 < length l) (ltb v 0x80) (λ _. omega arith) (λ _. omega arith)

length-append_uvarint_le : (v : ℕ) → length (append_uvarint v) ≤ 10
unfolding append_uvarint
length-append_uvarint_le v = length-append_groups_le 9 v

length-append_uvarint_positive : (v : ℕ) → 0 < length (append_uvarint v)
unfolding append_uvarint
length-append_uvarint_positive v = length-append_groups_positive 9 v

-- How many bytes were taken, which is at least one.
abbrev taken : Bytes → Bytes → ℕ
taken before after = suc (length before - 1 - length after)

taken-append_uvarint :
    (v : ℕ) (rest : Bytes) → taken (append_uvarint v ++ rest) rest ≡ length (append_uvarint v)
taken-append_uvarint v rest =
    omega (arith, length-append (append_uvarint v) rest, length-append_uvarint_positive v)

abbrev number_read : Bytes → Read ℕ → Consumed ℕ
number_read before (ok v rest) = parsed v (taken before rest)
number_read before (err e) = failed 1

abbrev tag_read : Bytes → Read ℕ → Consumed (ℕ × ℕ)
tag_read before (ok v rest) = parsed (v / 8, v % 8) (taken before rest)
tag_read before (err e) = failed 1

abbrev bytes_read : Bytes → Read ℕ → Consumed Bytes
bytes_read before (ok v rest) =
    if leb v (length rest) then parsed (take v rest) (taken before rest + v) else failed 1
bytes_read before (err e) = failed 1

abbrev skipped : Bytes → Read ℕ → Consumed Unit
skipped before (ok v rest) = parsed tt (taken before rest)
skipped before (err e) = failed 1

abbrev tag_of : ℕ → ℕ → ℕ
tag_of number typ = number * 8 + typ

tag_read-append :
    (number typ : ℕ) (rest : Bytes)
    → IsFieldNumber number
    → typ ≤ 5
    → tag_read
        (append_uvarint (tag_of number typ) ++ rest)
        (read_uvarint (append_uvarint (tag_of number typ) ++ rest))
      ≡ parsed (number, typ) (length (append_uvarint (tag_of number typ)))
tag_read-append number typ rest (h1, h2) ht =
    let tag = tag_of number typ in
    let quotient : tag / 8 ≡ number = omega arith in
    let remainder : tag % 8 ≡ typ = omega arith in
    rw
      (
        read_uvarint-append_uvarint tag rest (omega arith),
        taken-append_uvarint tag rest,
        quotient,
        remainder,
      )
      refl

number_read-append :
    (v : ℕ) (rest : Bytes)
    → v < 2 ^ 64
    → number_read (append_uvarint v ++ rest) (read_uvarint (append_uvarint v ++ rest))
      ≡ parsed v (length (append_uvarint v))
number_read-append v rest h =
    rw (read_uvarint-append_uvarint v rest h, taken-append_uvarint v rest) refl

bytes_read-append :
    (v rest : Bytes)
    → FitsSlice v
    → bytes_read
        ((append_uvarint (length v) ++ v) ++ rest)
        (read_uvarint ((append_uvarint (length v) ++ v) ++ rest))
      ≡ parsed v (length (append_uvarint (length v) ++ v))
bytes_read-append v rest h =
    rw
      (
        append_assoc (append_uvarint (length v)) v rest,
        read_uvarint-append_uvarint (length v) (v ++ rest) (omega arith),
        le→leb (length v) (length (v ++ rest)) (omega (arith, length-append v rest)),
        take-length v rest,
        taken-append_uvarint (length v) (v ++ rest),
        length-append (append_uvarint (length v)) v,
      )
      refl

abbrev size : Consumed (ℕ × ℕ) → ℕ
size (parsed t n) = n
size (failed code) = 1

tag_read_positive :
    (before : Bytes) (r : Read ℕ) (t : ℕ × ℕ) (n : ℕ) → tag_read before r ≡ parsed t n → 0 < n
tag_read_positive before (ok v rest) t n e = omega (arith, ap size e)
tag_read_positive before (err x) t n e = omega (arith, ap size e)

abbrev uvarint_wire : Protowire
uvarint_wire = record {
  append_tag = λ number typ. append_uvarint (tag_of number typ);
  append_varint = append_uvarint;
  append_bytes = λ v. append_uvarint (length v) ++ v;
  consume_tag = λ b. tag_read b (read_uvarint b);
  consume_varint = λ b. number_read b (read_uvarint b);
  consume_bytes = λ b. bytes_read b (read_uvarint b);
  consume_field_value = λ number typ b. skipped b (read_uvarint b);
  consume_tag-append = tag_read-append;
  consume_varint-append = number_read-append;
  consume_bytes-append = bytes_read-append;
  length-append_tag = λ number typ hn ht. length-append_uvarint_le (tag_of number typ);
  length-append_varint = λ v h. length-append_uvarint_le v;
  consume_tag_positive = λ b t n e. tag_read_positive b (read_uvarint b) t n e;
}

abbrev some_parameters : ConnectionParameters
some_parameters = record {
  public_key = 1 ∷ 2 ∷ 3 ∷ [];
  ice_ufrag = codes "uf";
  ice_pwd = [];
  receive_video_codecs = record { codec_type = 9 } ∷ record { codec_type = 2 ^ 32 - 1 } ∷ [];
  max_bitrate_bps = 2000000;
  encode_only_video_codecs = [];
  decode_only_video_codecs = record { codec_type = 46 } ∷ [];
}

some_parameters-IsEncodable : IsEncodable uvarint_wire some_parameters
unfolding encode_parameters append_codecs encode_video_codec append_bytes_field append_varint_field
    uint64_of_codec append_uvarint append_groups
some_parameters-IsEncodable = (
  omega arith,
  omega arith,
  omega arith,
  (omega arith, (omega arith, tt)),
  omega arith,
  tt,
  (omega arith, tt),
  omega arith,
)

decode-encode_offer_answer_example :
    (decode_offer uvarint_wire
        (encode_offer uvarint_wire (some (record { v4 = some some_parameters })))
      ≡ (record { v4 = some some_parameters }, none))
    × (decode_answer uvarint_wire
          (encode_answer uvarint_wire (some (record { v4 = some some_parameters })))
        ≡ (record { v4 = some some_parameters }, none))
decode-encode_offer_answer_example =
    decode-encode_offer_answer uvarint_wire (some some_parameters) some_parameters-IsEncodable

abbrev some_candidate : IceCandidate
some_candidate = record {
  added_v3 = some (record { sdp = codes "candidate:1" });
  removed = some (record { ip = 10 ∷ 0 ∷ 0 ∷ 1 ∷ []; port = 65000 });
}

decode-encode_ice_candidate_example :
    decode_ice_candidate uvarint_wire (encode_ice_candidate uvarint_wire (some some_candidate))
    ≡ (some_candidate, none)
unfolding encode_candidate_v3 encode_socket_addr append_bytes_field append_varint_field
    append_uvarint append_groups
decode-encode_ice_candidate_example =
    decode-encode_ice_candidate uvarint_wire some_candidate
      ((omega arith, omega arith), (omega arith, omega arith, omega arith))

decode-encode_accepted_example :
    decode_accepted uvarint_wire (encode_accepted uvarint_wire (2 ^ 64 - 1) 7 ++ 9 ∷ [])
    ≡ some (2 ^ 64 - 1)
decode-encode_accepted_example =
    decode-encode_accepted uvarint_wire (2 ^ 64 - 1) 7 (9 ∷ []) (omega arith)

decode-encode_between_example :
    (decode_offer uvarint_wire (
        append_bytes_field uvarint_wire [] 9 (1 ∷ [])
        ++ (encode_offer uvarint_wire (some (record { v4 = some some_parameters }))
            ++ append_bytes_field uvarint_wire [] 3 []))
      ≡ (record { v4 = some some_parameters }, none))
    × (decode_answer uvarint_wire (
          append_bytes_field uvarint_wire [] 9 (1 ∷ [])
          ++ (encode_answer uvarint_wire (some (record { v4 = some some_parameters }))
              ++ append_bytes_field uvarint_wire [] 3 []))
        ≡ (record { v4 = some some_parameters }, none))
decode-encode_between_example =
    decode-encode_between uvarint_wire (some some_parameters) 9 3 (1 ∷ []) []
      some_parameters-IsEncodable (omega arith, omega arith) (omega arith) (omega arith)
      (omega arith, omega arith) (omega arith) (omega arith)

decode-offer_ice_example :
    decode_call_message uvarint_wire (record {
      destination_device_id = 2;
      offer = some (record {
        id = 77;
        is_video = true;
        opaque = encode_offer uvarint_wire (some (record { v4 = none }));
      });
      answer = none;
      ice_update = ice_parts uvarint_wire ((77, some_candidate) ∷ []);
      busy = none;
      hangup = none;
      opaque = none;
    })
    ≡ record (base_message 2) {
      id = 77;
      message_type = offer_message;
      call_type = if true then video else audio;
      offer = some (record { v4 = none });
    }
      ∷ ice_messages uvarint_wire (base_message 2) ((77, some_candidate) ∷ [])
unfolding encode_candidate_v3 encode_socket_addr append_bytes_field append_varint_field
    append_uvarint append_groups
decode-offer_ice_example =
    decode-offer_ice uvarint_wire 2 77 true none ((77, some_candidate) ∷ []) tt
      (((omega arith, omega arith), (omega arith, omega arith, omega arith)), tt)
