-- ===== src/Signalid/ServiceId.antt =====
-- pkg/libsignalgo/serviceid.go. `none` is a returned error.
pub mod RoundTrip
use mautrix_signal.Common.{
  ℕ, ◌-◌, ltb, leb, ◌==◌, if◌then◌else◌, Bool, ◌&&◌, Option, none, some, List, [], ◌∷◌, ◌++◌, map,
  length, take, drop, codes, list_eq,
}
use mautrix_signal.Encoding.Decimal.{format_uint}
use mautrix_signal.Signalid.Uuid.{UuidText, nil_uuid}

abbrev pub type_aci : ℕ
type_aci = 0

abbrev pub type_pni : ℕ
type_pni = 1

-- What fmt.Sprintf makes of a ServiceIDType: for a type that is none of the two, String panics, and
-- Sprintf writes the panic instead.
abbrev pub type_text : ℕ → List ℕ
type_text st =
    if st == type_aci
    then codes "ACI"
    else (if st == type_pni
        then codes "PNI"
        else codes "%!s(PANIC=String method: invalid ServiceIDType: "
          ++ (format_uint st ++ codes ")"))

pub record ServiceId : Type 0 where
  pub typ : ℕ
  pub uuid : List ℕ

abbrev pub new_pni : List ℕ → ServiceId
new_pni u = record { typ = type_pni; uuid = u }

abbrev pub new_aci : List ℕ → ServiceId
new_aci u = record { typ = type_aci; uuid = u }

pub to_aci_and_pni : ServiceId → List ℕ × List ℕ
to_aci_and_pni s = if s.typ == type_aci then (s.uuid, nil_uuid) else (nil_uuid, s.uuid)

unfoldable pub is_empty : ServiceId → Bool
is_empty s = list_eq s.uuid nil_uuid

unfoldable pub to_bytes : ServiceId → List ℕ
to_bytes s = if s.typ == type_aci then s.uuid else s.typ ∷ s.uuid

pub fixed_bytes : ServiceId → List ℕ
fixed_bytes s = s.typ ∷ s.uuid

-- ServiceIDFromCFixedBytes, and the seventeen bytes of ServiceIDFromBytes: the type, then the UUID.
pub from_fixed_bytes : List ℕ → ServiceId
from_fixed_bytes [] = record { typ = 0; uuid = [] }
from_fixed_bytes (t ∷ u) = record { typ = t; uuid = u }

-- ServiceIDFromBytes.
unfoldable pub from_bytes : List ℕ → Option ServiceId
unfolding from_fixed_bytes
from_bytes bytes =
    if length bytes == 16
    then some (new_aci bytes)
    else (if length bytes == 17 then some (from_fixed_bytes bytes) else none)

-- strings.ToUpper on the ASCII letters; no other character becomes one of "PNI:".
abbrev pub to_upper : ℕ → ℕ
to_upper c = if leb b'a' c && leb c b'z' then c - 32 else c

module _ (codec : UuidText) where
  open codec use {to_text, parse}

  unfoldable pub to_string : ServiceId → List ℕ
  to_string s =
      if s.typ == type_aci then to_text s.uuid else type_text s.typ ++ (codes ":" ++ to_text s.uuid)

  -- ServiceIDFromString.
  unfoldable pub from_string : List ℕ → Option ServiceId
  from_string val =
      if ltb (length val) 36
      then none
      else (if list_eq (map to_upper (take 4 val)) (codes "PNI:")
          then elim (parse (drop 4 val)) [ none ↦ none | some u ↦ some (new_pni u) ]
          else elim (parse val) [ none ↦ none | some u ↦ some (new_aci u) ])
