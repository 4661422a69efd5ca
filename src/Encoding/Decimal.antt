-- ===== src/Encoding/Decimal.antt =====
-- strconv.FormatUint and strconv.ParseUint in base 10 with 64 bits, and the %d of a uint64.
use mautrix_signal.Common.{
  ℕ, zero, suc, ◌+◌, ◌-◌, ◌*◌, ◌/◌, ◌%◌, ◌^◌, ◌<◌, ◌≡◌, refl, ap, ◌∙◌, ltb, leb, ◌==◌,
  if◌then◌else◌, if_cases, Bool, ◌&&◌, Option, none, some, List, [], ◌∷◌, length, All, arith,
  ltb→lt, lt→ltb, true,
}
use native.Mathlib.Nat.{pow-suc}

-- The digits of `v` in front of `tail`. A uint64 has at most 20 of them.
digits_onto : ℕ → ℕ → List ℕ → List ℕ
digits_onto zero v tail = (b'0' + v % 10) ∷ tail
digits_onto (suc k) v tail =
    let more = digits_onto k (v / 10) ((b'0' + v % 10) ∷ tail) in
    if ltb v 10 then (b'0' + v % 10) ∷ tail else more

unfoldable pub format_uint : ℕ → List ℕ
unfolding digits_onto
format_uint v = digits_onto 19 v []

is_digit : ℕ → Bool
is_digit c = leb b'0' c && leb c b'9'

-- `none` stands for both errors of ParseUint: a character that is no digit, and a value out of range.
parse_onto : ℕ → List ℕ → Option ℕ
unfolding is_digit
parse_onto n [] = some n
parse_onto n (c ∷ cs) =
    let next = n * 10 + (c - b'0') in
    let rest = parse_onto next cs in
    if is_digit c then (if ltb next (2 ^ 64) then rest else none) else none

unfoldable pub parse_uint : List ℕ → Option ℕ
unfolding parse_onto
parse_uint s = if length s == 0 then none else parse_onto 0 s

parse_onto_digit :
    (n d : ℕ) (tail : List ℕ)
    → d < 10
    → n * 10 + d < 2 ^ 64
    → parse_onto n ((b'0' + d) ∷ tail) ≡ parse_onto (n * 10 + d) tail
unfolding parse_onto
parse_onto_digit n d tail h fits =
    let digit : is_digit (48 + d) ≡ true = unfold is_digit in ground arith in
    let back : 48 + d - 48 ≡ d = omega arith in rw (digit, back, lt→ltb (n * 10 + d) (2 ^ 64) fits)

parse_onto-digits_onto :
    (k v : ℕ) (tail : List ℕ)
    → v < 10 ^ suc k
    → v < 2 ^ 64
    → parse_onto 0 (digits_onto k v tail) ≡ parse_onto v tail
unfolding digits_onto
parse_onto-digits_onto zero v tail h fits =
    let same : v % 10 ≡ v = omega arith in
    parse_onto_digit 0 (v % 10) tail (omega arith) (omega arith)
    ∙ ap (λ n. parse_onto n tail) (omega arith)
parse_onto-digits_onto (suc k) v tail h fits =
    if_cases (λ l. parse_onto 0 l ≡ parse_onto v tail) (ltb v 10)
      (λ q.
        parse_onto_digit 0 (v % 10) tail (omega arith) (omega arith)
        ∙ ap (λ n. parse_onto n tail) (omega (arith, ltb→lt v 10 q)))
      (λ q.
        parse_onto-digits_onto k (v / 10) ((b'0' + v % 10) ∷ tail)
          (omega (arith, pow-suc 10 (suc k))) (omega arith)
        ∙ parse_onto_digit (v / 10) (v % 10) tail (omega arith) (omega arith)
        ∙ ap (λ n. parse_onto n tail) (omega arith))

length-digits_onto : (k v : ℕ) (tail : List ℕ) → length tail < length (digits_onto k v tail)
unfolding digits_onto
length-digits_onto zero v tail = omega arith
length-digits_onto (suc k) v tail =
    if_cases (λ (l : List ℕ). length tail < length l) (ltb v 10) (λ _. omega arith)
      (λ _. omega (arith, length-digits_onto k (v / 10) ((b'0' + v % 10) ∷ tail)))

-- ParseUint reads back every uint64 that FormatUint wrote.
pub parse_uint-format_uint : (v : ℕ) → v < 2 ^ 64 → parse_uint (format_uint v) ≡ some v
unfolding parse_uint format_uint
parse_uint-format_uint v h =
    if_cases (λ o. o ≡ some v) (length (digits_onto 19 v []) == 0)
      (λ q. absurd (ground (arith, length-digits_onto 19 v [])))
      (λ _. parse_onto-digits_onto 19 v [] (omega arith) h ∙ unfold parse_onto in refl)

digits_onto-All :
    (P : ℕ → Type 0) (k v : ℕ) (tail : List ℕ)
    → ((d : ℕ) → d < 10 → P (b'0' + d))
    → All P tail
    → All P (digits_onto k v tail)
unfolding digits_onto
digits_onto-All P zero v tail h t = (h (v % 10) (omega arith), t)
digits_onto-All P (suc k) v tail h t =
    if_cases (All P) (ltb v 10) (λ _. (h (v % 10) (omega arith), t))
      (λ _. digits_onto-All P k (v / 10) _ h (h (v % 10) (omega arith), t))

pub format_uint-All :
    (P : ℕ → Type 0) (v : ℕ) → ((d : ℕ) → d < 10 → P (b'0' + d)) → All P (format_uint v)
unfolding format_uint
format_uint-All P v h = digits_onto-All P 19 v [] h tt
