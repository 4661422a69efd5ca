-- ===== src/Signalfmt/Utf16.antt =====
-- UTF16String of pkg/msgconv/signalfmt/html.go, over unicode/utf16 of the standard library.
-- A Go string is the list of its code points, and a UTF16String the list of its units.
use mautrix_signal.Common.{
  ℕ, ◌+◌, ◌-◌, ◌*◌, ◌/◌, ◌%◌, ◌<◌, ◌≡◌, refl, ap, ltb, leb, if◌then◌else◌, Bool, ◌&&◌, ◌⊎◌, List,
  [], ◌∷◌, ◌++◌, All, arith, ◌∙◌,
}

abbrev pub replacement_char : ℕ
replacement_char = 0xfffd

-- The code points that stand for a character: no surrogates, nothing past U+10FFFF.
abbrev pub IsScalar : ℕ → Type 0
IsScalar r = (r < 0xd800) ⊎ ((0xdfff < r) × (r < 0x110000))

is_surrogate : ℕ → Bool
is_surrogate r = leb 0xd800 r && ltb r 0xe000

is_high : ℕ → Bool
is_high r = leb 0xd800 r && ltb r 0xdc00

is_low : ℕ → Bool
is_low r = leb 0xdc00 r && ltb r 0xe000

encode_rune : ℕ → List ℕ
unfolding is_surrogate
encode_rune r =
    if is_surrogate r
    then replacement_char ∷ []
    else (if ltb r 0x10000
        then r ∷ []
        else (if ltb r 0x110000
            then (0xd800 + (r - 0x10000) / 0x400) ∷ (0xdc00 + (r - 0x10000) % 0x400) ∷ []
            else replacement_char ∷ []))

-- NewUTF16String.
unfoldable pub encode : List ℕ → List ℕ
unfolding encode_rune
encode [] = []
encode (r ∷ rs) = encode_rune r ++ encode rs

pub join_pair : ℕ → ℕ → ℕ
join_pair hi lo = (hi - 0xd800) * 0x400 + (lo - 0xdc00) + 0x10000

-- String of a UTF16String: a surrogate with no partner becomes U+FFFD.
unfoldable pub decode : List ℕ → List ℕ
unfolding is_high is_low is_surrogate join_pair
decode [] = []
decode (u ∷ []) = (if is_surrogate u then replacement_char else u) ∷ []
decode (u ∷ v ∷ us) =
    let pair = join_pair u v ∷ decode us in
    let single = (if is_surrogate u then replacement_char else u) ∷ decode (v ∷ us) in
    if is_high u && is_low v then pair else single

decode_single :
    (u : ℕ) (us : List ℕ) → (u < 0xd800) ⊎ (0xdfff < u) → decode (u ∷ us) ≡ u ∷ decode us
unfolding decode
decode_single u [] h = ground arith
decode_single u (v ∷ us) h = ground arith

decode_pair :
    (r : ℕ) (us : List ℕ)
    → 0xffff < r
    → r < 0x110000
    → decode ((0xd800 + (r - 0x10000) / 0x400) ∷ (0xdc00 + (r - 0x10000) % 0x400) ∷ us)
      ≡ r ∷ decode us
unfolding decode
decode_pair r us h h' = ground arith

decode-encode_rune :
    (r : ℕ) (us : List ℕ) → IsScalar r → decode (encode_rune r ++ us) ≡ r ∷ decode us
unfolding encode_rune
decode-encode_rune r us h = ground (arith, decode_single r us, decode_pair r us)

-- The UTF-16 units of a text decode to the text again, if every code point is a character's.
pub decode-encode : (s : List ℕ) → All IsScalar s → decode (encode s) ≡ s
unfolding encode
decode-encode [] h = unfold decode in refl
decode-encode (r ∷ rs) (h, hs) =
    decode-encode_rune r (encode rs) h ∙ ap (◌∷◌ r) (decode-encode rs hs)
