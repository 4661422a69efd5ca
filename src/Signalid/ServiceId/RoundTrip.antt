-- ===== src/Signalid/ServiceId/RoundTrip.antt =====
-- Service IDs survive their text and byte forms.
use mautrix_signal.Common.{
  ℕ, ◌≡◌, ◌⊎◌, inl, inr, refl, subst, ◌==◌, false, some, List, [], ◌∷◌, ◌++◌, map, take, codes,
  list_eq, All, arith,
}
use mautrix_signal.Signalid.Uuid.{UuidText, IsUuid, IsUuidChar}
use mautrix_signal.Signalid.ServiceId.{
  ServiceId, type_aci, type_pni, new_aci, new_pni, to_bytes, fixed_bytes, from_bytes,
  from_fixed_bytes, to_upper, to_string, from_string,
}

-- An ACI or a PNI of sixteen bytes.
abbrev pub IsValid : ServiceId → Type 0
IsValid s = ((s.typ ≡ type_aci) ⊎ (s.typ ≡ type_pni)) × IsUuid s.uuid

aci_eta : (s : ServiceId) → s.typ ≡ type_aci → new_aci s.uuid ≡ s
aci_eta s e = cc

pni_eta : (s : ServiceId) → s.typ ≡ type_pni → new_pni s.uuid ≡ s
pni_eta s e = cc

-- What holds of every ACI and every PNI holds of every valid service ID.
pub valid_cases :
    (P : ServiceId → Type 0)
    → ((u : List ℕ) → IsUuid u → P (new_aci u))
    → ((u : List ℕ) → IsUuid u → P (new_pni u))
    → (s : ServiceId) → IsValid s
    → P s
valid_cases P f g s (inl e, h) = subst P (aci_eta s e) (f s.uuid h)
valid_cases P f g s (inr e, h) = subst P (pni_eta s e) (g s.uuid h)

not_pni : (c : ℕ) → IsUuidChar c → (to_upper c == b'P') ≡ false
not_pni c h = ground arith

-- No UUID's text begins like a PNI.
pub no_pni_prefix :
    (s : List ℕ) → All IsUuidChar s → list_eq (map to_upper (take 4 s)) (codes "PNI:") ≡ false
no_pni_prefix [] h = refl
no_pni_prefix (c ∷ cs) (h, hs) = rw (not_pni c h)

module _ (codec : UuidText) where
  open codec use {to_text, parse, parse-to_text, length-to_text, to_text-chars}

  pub from_string_aci : (u : List ℕ) → IsUuid u → from_string codec (to_text u) ≡ some (new_aci u)
  unfolding from_string
  from_string_aci u h =
      rw (length-to_text u h, no_pni_prefix (to_text u) (to_text-chars u h), parse-to_text u h)

  pub from_string_pni :
      (u : List ℕ) → IsUuid u → from_string codec (codes "PNI:" ++ to_text u) ≡ some (new_pni u)
  unfolding from_string
  from_string_pni u h = rw (length-to_text u h, parse-to_text u h)

  -- ServiceIDFromString reads back the text of every ACI and PNI.
  pub from_string-to_string :
      (s : ServiceId)
      → IsValid s
      → (text : List ℕ) × (to_string codec s ≡ text) × (from_string codec text ≡ some s)
  unfolding to_string
  from_string-to_string =
      valid_cases _ (λ u h. (to_text u, refl, from_string_aci u h))
        (λ u h. (codes "PNI:" ++ to_text u, refl, from_string_pni u h))

-- ServiceIDFromBytes reads back the bytes of every ACI and PNI: sixteen for an ACI and seventeen for a
-- PNI. The fixed form, seventeen bytes for both, is read back by ServiceIDFromCFixedBytes and by
-- ServiceIDFromBytes.
pub from_bytes-to_bytes :
    (s : ServiceId)
    → IsValid s
    → (from_bytes (to_bytes s) ≡ some s)
      × (from_fixed_bytes (fixed_bytes s) ≡ s)
      × (from_bytes (fixed_bytes s) ≡ some s)
unfolding from_bytes to_bytes fixed_bytes from_fixed_bytes
from_bytes-to_bytes =
    valid_cases _ (λ u h. (rw h.0 refl, refl, rw h.0 refl))
      (λ u h. (rw h.0 refl, refl, rw h.0 refl))
