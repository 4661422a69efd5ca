-- ===== src/Signalid/Runs.antt =====
-- A concrete text form of UUIDs, and the theorems on identifiers at concrete inputs.
use mautrix_signal.Common.{
  ℕ, ◌+◌, ◌-◌, ◌*◌, ◌/◌, ◌%◌, ◌≤◌, ◌<◌, ◌≡◌, inl, inr, refl, ap, ◌∙◌, ltb, if◌then◌else◌, true,
  Option, some, none, List, [], ◌∷◌, ◌++◌, length, take, codes, All, All-append, replicate, arith,
  length-append, take-append_exact,
}
use mautrix_signal.Encoding.Uvarint.{append_uvarint}
use mautrix_signal.Signalid.Uuid.{UuidText, IsUuid, IsUuidChar}
use mautrix_signal.Signalid.ServiceId.{
  new_pni, to_string, from_string, to_bytes, from_bytes, fixed_bytes, from_fixed_bytes,
}
use mautrix_signal.Signalid.ServiceId.RoundTrip.{from_string-to_string, from_bytes-to_bytes}
use mautrix_signal.Signalid.Ids.{
  parse_message_id, make_message_id, user, group, parse_portal_id, make_dm_portal_id,
  make_group_portal_id, make_user_id_from_service_id, parse_user_id_as_service_id, parse_user_id,
}
use mautrix_signal.Signalid.Ids.RoundTrip.{
  parse_message_id-make_message_id, parse_user_id-make_user_id, parse_portal_id-make,
}
use mautrix_signal.Signalid.Media.{
  Bytes, MediaInfo, attachment, done, panic, as_media_id, parse, write_byte_slice,
  type_profile_avatar,
}
use mautrix_signal.Signalid.Media.RoundTrip.{parse-as_media_id, read_byte_slice-write}
use mautrix_signal.Signalid.Media.Bounds.{read_byte_slice-le, parse_huge_length}

hex_digit : ℕ → ℕ
hex_digit d = if ltb d 10 then 48 + d else 87 + d

hex_value : ℕ → ℕ
hex_value c = if ltb c 58 then c - 48 else c - 87

hex : List ℕ → List ℕ
unfolding hex_digit
hex [] = []
hex (b ∷ bs) = hex_digit (b / 16) ∷ hex_digit (b % 16) ∷ hex bs

unhex : List ℕ → List ℕ
unfolding hex_value
unhex [] = []
unhex (c ∷ []) = []
unhex (c ∷ d ∷ cs) = (hex_value c * 16 + hex_value d) ∷ unhex cs

hex_value-hex_digit : (d : ℕ) → d < 16 → hex_value (hex_digit d) ≡ d
unfolding hex_value hex_digit
hex_value-hex_digit d h = ground arith

hex_digit-IsUuidChar : (d : ℕ) → d < 16 → IsUuidChar (hex_digit d)
unfolding hex_digit
hex_digit-IsUuidChar d h = ground arith

length-hex : (u : List ℕ) → length (hex u) ≡ 2 * length u
unfolding hex
length-hex [] = refl
length-hex (b ∷ bs) = omega (arith, length-hex bs)

unhex-hex : (u : List ℕ) → All (λ b. b < 256) u → unhex (hex u) ≡ u
unfolding unhex hex
unhex-hex [] h = refl
unhex-hex (b ∷ bs) (h, hs) =
    let byte : hex_value (hex_digit (b / 16)) * 16 + hex_value (hex_digit (b % 16)) ≡ b = omega (
      arith,
      hex_value-hex_digit (b / 16) (omega arith),
      hex_value-hex_digit (b % 16) (omega arith),
    ) in
    ap (λ x. x ∷ unhex (hex bs)) byte ∙ ap (◌∷◌ b) (unhex-hex bs hs)

hex-All : (u : List ℕ) → All (λ b. b < 256) u → All IsUuidChar (hex u)
unfolding hex
hex-All [] h = tt
hex-All (b ∷ bs) (h, hs) = (
  hex_digit-IsUuidChar (b / 16) (omega arith),
  (hex_digit-IsUuidChar (b % 16) (omega arith), hex-All bs hs),
)

pub to_hex : List ℕ → List ℕ
to_hex u = hex u ++ codes "----"

pub of_hex : List ℕ → Option (List ℕ)
of_hex s = some (unhex (take 32 s))

pub length-to_hex : (u : List ℕ) → IsUuid u → length (to_hex u) ≡ 36
unfolding to_hex
length-to_hex u h = omega (arith, length-append (hex u) (codes "----"), length-hex u, h.0)

pub of_hex-to_hex : (u : List ℕ) → IsUuid u → of_hex (to_hex u) ≡ some u
unfolding of_hex to_hex
of_hex-to_hex u h =
    ap (λ l. some (unhex l))
      (take-append_exact 32 (hex u) (codes "----") (omega (arith, length-hex u, h.0)))
    ∙ ap some (unhex-hex u h.1)

pub to_hex-All : (u : List ℕ) → IsUuid u → All IsUuidChar (to_hex u)
unfolding to_hex
to_hex-All u h =
    All-append IsUuidChar (hex u) (codes "----") (hex-All u h.1)
      (inl refl, (inl refl, (inl refl, (inl refl, tt))))

abbrev pub hex_text : UuidText
hex_text = record {
  to_text = to_hex;
  parse = of_hex;
  parse-to_text = of_hex-to_hex;
  length-to_text = length-to_hex;
  to_text-chars = to_hex-All;
}

abbrev some_uuid : List ℕ
some_uuid = replicate 16 0xa7

some_uuid-IsUuid : IsUuid some_uuid
some_uuid-IsUuid = (refl, omega arith)

from_string-to_string_example :
    (text : List ℕ) × (to_string hex_text (new_pni some_uuid) ≡ text)
    × (from_string hex_text text ≡ some (new_pni some_uuid))
from_string-to_string_example =
    from_string-to_string hex_text (new_pni some_uuid) (inr refl, some_uuid-IsUuid)

from_bytes-to_bytes_example :
    (from_bytes (to_bytes (new_pni some_uuid)) ≡ some (new_pni some_uuid))
    × (from_fixed_bytes (fixed_bytes (new_pni some_uuid)) ≡ new_pni some_uuid)
    × (from_bytes (fixed_bytes (new_pni some_uuid)) ≡ some (new_pni some_uuid))
from_bytes-to_bytes_example = from_bytes-to_bytes (new_pni some_uuid) (inr refl, some_uuid-IsUuid)

parse_message_id-make_message_id_example :
    parse_message_id hex_text (make_message_id hex_text some_uuid 1700000000000)
    ≡ some (some_uuid, 1700000000000)
parse_message_id-make_message_id_example =
    parse_message_id-make_message_id hex_text some_uuid 1700000000000 some_uuid-IsUuid (omega arith)

parse_user_id-make_user_id_example :
    (id : List ℕ) × (make_user_id_from_service_id hex_text (new_pni some_uuid) ≡ some id)
    × (parse_user_id_as_service_id hex_text id ≡ some (new_pni some_uuid))
    × (parse_user_id hex_text id ≡ none)
parse_user_id-make_user_id_example =
    parse_user_id-make_user_id hex_text (new_pni some_uuid) (inr refl, some_uuid-IsUuid)

parse_portal_id-make_example :
    ((id : List ℕ) × (make_dm_portal_id hex_text (new_pni some_uuid) ≡ id)
      × (parse_portal_id hex_text id ≡ some (user (new_pni some_uuid))))
    × (parse_portal_id hex_text (make_group_portal_id (replicate 44 b'A'))
        ≡ some (group (replicate 44 b'A')))
parse_portal_id-make_example =
    parse_portal_id-make hex_text (new_pni some_uuid) (replicate 44 b'A')
      (inr refl, some_uuid-IsUuid) refl

abbrev some_attachment : MediaInfo
some_attachment = attachment (record {
  cdn_id = 12345678901;
  cdn_key = codes "abc";
  cdn_number = 3;
  key = 1 ∷ 2 ∷ [];
  plaintext_digest = true;
  digest = [];
  size = 5000000;
})

parse-as_media_id_example :
    (id : Bytes) × (as_media_id some_attachment ≡ done id []) × (parse id ≡ done some_attachment [])
parse-as_media_id_example = parse-as_media_id some_attachment (omega arith)

read_byte_slice-le_example : 2 ≤ 7
read_byte_slice-le_example =
    read_byte_slice-le (write_byte_slice (5 ∷ 6 ∷ []) ++ (9 ∷ [])) 7 (5 ∷ 6 ∷ []) (9 ∷ [])
      (read_byte_slice-write (5 ∷ 6 ∷ []) (9 ∷ []) 7 (omega arith) (omega arith))

parse_huge_length_example :
    parse (
      type_profile_avatar ∷ (some_uuid ++ (some_uuid ++ (append_uvarint 0x8000000000000000 ++ []))))
    ≡ panic
parse_huge_length_example =
    parse_huge_length some_uuid some_uuid [] 0x8000000000000000 refl refl (omega arith)
      (omega arith)
