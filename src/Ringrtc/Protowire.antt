-- ===== src/Ringrtc/Protowire.antt =====
-- What the program uses of google.golang.org/protobuf/encoding/protowire. A consume function returns
-- the value and how many bytes it took, or a negative number, here its absolute value.
use mautrix_signal.Common.{ℕ, ◌^◌, ◌≤◌, ◌<◌, ◌≡◌, refl, List, ◌++◌, length, ◌⊎◌, inl, inr}

abbrev pub Bytes : Type 0
Bytes = List ℕ

pub data Consumed (A : Type 0) : Type 0 where
  parsed : A → ℕ → Consumed A
  failed : ℕ → Consumed A

abbrev pub varint_type : ℕ
varint_type = 0

abbrev pub bytes_type : ℕ
bytes_type = 2

abbrev pub IsFieldNumber : ℕ → Type 0
IsFieldNumber n = (1 ≤ n) × (n < 2 ^ 29)

-- A Go slice is shorter than 2 ^ 63.
abbrev pub FitsSlice : Bytes → Type 0
FitsSlice v = length v < 2 ^ 63

-- The append functions, as what they append, and the consume functions. Consuming what was appended
-- gives the value back and takes its bytes; a tag has at least one byte, and it and a number have at
-- most ten.
pub record Protowire : Type 0 where
  pub append_tag : ℕ → ℕ → Bytes
  pub append_varint : ℕ → Bytes
  pub append_bytes : Bytes → Bytes
  pub consume_tag : Bytes → Consumed (ℕ × ℕ)
  pub consume_varint : Bytes → Consumed ℕ
  pub consume_bytes : Bytes → Consumed Bytes
  pub consume_field_value : ℕ → ℕ → Bytes → Consumed Unit
  pub consume_tag-append :
      (number typ : ℕ) (rest : Bytes)
      → IsFieldNumber number
      → typ ≤ 5
      → consume_tag (append_tag number typ ++ rest)
        ≡ parsed (number, typ) (length (append_tag number typ))
  pub consume_varint-append :
      (v : ℕ) (rest : Bytes)
      → v < 2 ^ 64
      → consume_varint (append_varint v ++ rest) ≡ parsed v (length (append_varint v))
  pub consume_bytes-append :
      (v rest : Bytes)
      → FitsSlice v
      → consume_bytes (append_bytes v ++ rest) ≡ parsed v (length (append_bytes v))
  pub length-append_tag :
      (number typ : ℕ) → IsFieldNumber number → typ ≤ 5 → length (append_tag number typ) ≤ 10
  pub length-append_varint : (v : ℕ) → v < 2 ^ 64 → length (append_varint v) ≤ 10
  pub consume_tag_positive :
      (data_left : Bytes) (t : ℕ × ℕ) (n : ℕ) → consume_tag data_left ≡ parsed t n → 0 < n

pub Consumed-cases :
    {A : Type 0} (c : Consumed A)
    → ((a : A) × (n : ℕ) × (c ≡ parsed a n)) ⊎ ((code : ℕ) × (c ≡ failed code))
Consumed-cases (parsed a n) = inl (a, n, refl)
Consumed-cases (failed code) = inr (code, refl)
