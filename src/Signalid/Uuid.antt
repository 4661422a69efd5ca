-- ===== src/Signalid/Uuid.antt =====
-- What the program uses of github.com/google/uuid. A UUID is the list of its sixteen bytes, a text the
-- list of its bytes.
use mautrix_signal.Common.{ℕ, ◌≤◌, ◌<◌, ◌≡◌, ◌⊎◌, Option, some, List, length, All, replicate}

-- The characters of a UUID's text: lower case hexadecimal digits and dashes.
abbrev pub IsUuidChar : ℕ → Type 0
IsUuidChar c = (c ≡ b'-') ⊎ (((b'0' ≤ c) × (c ≤ b'9')) ⊎ ((b'a' ≤ c) × (c ≤ b'f')))

abbrev pub IsUuid : List ℕ → Type 0
IsUuid u = (length u ≡ 16) × All (λ b. b < 256) u

abbrev pub nil_uuid : List ℕ
nil_uuid = replicate 16 0

-- UUID.String and uuid.Parse, with what their documentation says: the text is
-- xxxxxxxx-xxxx-xxxx-xxxx-xxxxxxxxxxxx, and parsing it gives the UUID back.
pub record UuidText : Type 0 where
  pub to_text : List ℕ → List ℕ
  pub parse : List ℕ → Option (List ℕ)
  pub parse-to_text : (u : List ℕ) → IsUuid u → parse (to_text u) ≡ some u
  pub length-to_text : (u : List ℕ) → IsUuid u → length (to_text u) ≡ 36
  pub to_text-chars : (u : List ℕ) → IsUuid u → All IsUuidChar (to_text u)
