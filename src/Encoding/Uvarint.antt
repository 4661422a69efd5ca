-- ===== src/Encoding/Uvarint.antt =====
-- AppendUvarint, ReadUvarint and io.ReadFull of the standard library. A reader is the list of the
-- bytes that are left.
use mautrix_signal.Common.{
  ℕ, zero, suc, ◌+◌, ◌*◌, ◌/◌, ◌%◌, ◌^◌, ◌≤◌, ◌<◌, ◌≡◌, refl, ap, ltb, leb, ◌==◌, if◌then◌else◌,
  ◌&&◌, bit_and, bit_or, List, [], ◌∷◌, ◌++◌, length, take, drop, arith, lt→ltb, le→ltb, if_cases,
  take-length, drop-length, subst, lt→leb, true, ◌∙◌, length-append,
}
use native.Mathlib.Nat.{mod-eq_of_lt, div-add-mod, pow-suc}
use native.Mathlib.Numerals.{towards_suc}
use mautrix_signal.Common.Bits.{low_seven, set_eighth, or_shifted}

pub data ReadError : Type 0 where
  eof unexpected_eof overflow : ReadError

pub data Read {ℓ} (A : Type ℓ) : Type ℓ where
  ok : A → List ℕ → Read A
  err : ReadError → Read A

abbrev pub IsU64 : ℕ → Type 0
IsU64 v = v < 2 ^ 64

-- The loop of AppendUvarint on what is left of the number, with a bound on its rounds.
unfoldable pub append_groups : ℕ → ℕ → List ℕ
append_groups zero v = (v % 256) ∷ []
append_groups (suc k) v =
    if ltb v 0x80 then v % 256 ∷ [] else bit_or (v % 256) 0x80 ∷ append_groups k (v / 128)

-- After nine rounds a uint64 is below 2, so the loop ends by its test.
unfoldable pub append_uvarint : ℕ → List ℕ
append_uvarint v = append_groups 9 v

-- `x` has the bits of the `i` bytes that were read.
unfoldable pub read_groups : List ℕ → ℕ → ℕ → Read ℕ
read_groups [] i x =
    if leb 10 i then err overflow else (if i == 0 then err eof else err unexpected_eof)
read_groups (b ∷ bs) i x =
    let more = read_groups bs (i + 1) (bit_or x (bit_and b 0x7f * 2 ^ (7 * i) % 2 ^ 64)) in
    if leb 10 i
    then err overflow
    else (if ltb b 0x80
        then (if i == 9 && ltb 1 b
            then err overflow
            else ok (bit_or x (b * 2 ^ (7 * i) % 2 ^ 64)) bs)
        else more)

unfoldable pub read_uvarint : List ℕ → Read ℕ
read_uvarint bytes = read_groups bytes 0 0

-- io.ReadFull of `n` bytes.
unfoldable pub read_full : ℕ → List ℕ → Read (List ℕ)
read_full n bytes =
    if leb n (length bytes)
    then ok (take n bytes) (drop n bytes)
    else (if length bytes == 0 then err eof else err unexpected_eof)

or_group :
    (w i x : ℕ)
    → x < 2 ^ (7 * i)
    → IsU64 (x + w * 2 ^ (7 * i))
    → bit_or x (w * 2 ^ (7 * i) % 2 ^ 64) ≡ x + w * 2 ^ (7 * i)
or_group w i x hx fits = ap (bit_or x) (mod-eq_of_lt (omega arith)) ∙ or_shifted (7 * i) x w hx

ninth_group : (w i x : ℕ) → i ≡ 9 → IsU64 (x + w * 2 ^ (7 * i)) → w ≤ 1
ninth_group w i x e fits =
    let ninth : IsU64 (x + w * 2 ^ 63) = subst (λ n. IsU64 (x + w * 2 ^ (7 * n))) e fits in
    omega arith

groups_last :
    (w i x : ℕ) (rest : List ℕ)
    → w < 128
    → i ≤ 9
    → x < 2 ^ (7 * i)
    → IsU64 (x + w * 2 ^ (7 * i))
    → read_groups (w ∷ rest) i x ≡ ok (x + w * 2 ^ (7 * i)) rest
unfolding read_groups
groups_last w i x rest hw hi hx fits =
    rw (lt→leb 10 i (omega arith), lt→ltb w 128 hw)
      (if_cases (λ r. r ≡ ok (x + w * 2 ^ (7 * i)) rest) (i == 9 && ltb 1 w) (λ q. absurd (both q))
        (λ _. ap (λ v. ok v rest) (or_group w i x hx fits)))
  where
    both : (i == 9 && ltb 1 w) ≡ true → ⊥
    both q = ground (arith, ninth_group w i x)

groups_inner :
    (g i x : ℕ) (rest : List ℕ)
    → g < 128
    → i ≤ 9
    → x < 2 ^ (7 * i)
    → IsU64 (x + g * 2 ^ (7 * i))
    → read_groups ((g + 128) ∷ rest) i x ≡ read_groups rest (i + 1) (x + g * 2 ^ (7 * i))
unfolding read_groups
groups_inner g i x rest hg hi hx fits =
    rw (lt→leb 10 i (omega arith), le→ltb (g + 128) 128 (omega arith))
      (ap (read_groups rest (i + 1))
        (ap (λ b. bit_or x (b * 2 ^ (7 * i) % 2 ^ 64)) low ∙ or_group g i x hx fits))
  where
    low : bit_and (g + 128) 0x7f ≡ g
    low = low_seven (g + 128) (omega arith) ∙ omega arith

seven_more : (i : ℕ) → 2 ^ (7 * (i + 1)) ≡ 128 * 2 ^ (7 * i)
seven_more i = ap (λ n. 2 ^ n) (fits) ∙ simp towards_suc (omega arith)
  where
    fits : 7 * (i + 1) ≡ 7 * i + 7
    fits = omega arith

-- The number in its lowest group and the rest, where it counts from bit 7 * i on.
split_groups : (w i : ℕ) → w * 2 ^ (7 * i) ≡ w % 128 * 2 ^ (7 * i) + w / 128 * 2 ^ (7 * (i + 1))
split_groups w i = omega (
  arith,
  ap (λ (t : ℕ). t * 2 ^ (7 * i)) (div-add-mod w 128),
  ap (λ (t : ℕ). w / 128 * t) (seven_more i),
)

group_bound : (g i x : ℕ) → g < 128 → x < 2 ^ (7 * i) → x + g * 2 ^ (7 * i) < 2 ^ (7 * (i + 1))
group_bound g i x hg hx = rw seven_more (bound (2 ^ (7 * i)) hx)
  where
    bound : (p : ℕ) → x < p → x + g * p < 128 * p
    bound p h = grind arith

regroup :
    (w i x : ℕ) → x + w % 128 * 2 ^ (7 * i) + w / 128 * 2 ^ (7 * (i + 1)) ≡ x + w * 2 ^ (7 * i)
regroup w i x = omega (arith, split_groups w i)

read-append_groups :
    (k w i x : ℕ) (rest : List ℕ)
    → w < 128 ^ suc k
    → k + i ≤ 9
    → x < 2 ^ (7 * i)
    → IsU64 (x + w * 2 ^ (7 * i))
    → read_groups (append_groups k w ++ rest) i x ≡ ok (x + w * 2 ^ (7 * i)) rest
unfolding append_groups
read-append_groups zero w i x rest hw hk hx fits =
    let small : w % 256 ≡ w = omega arith in
    rw small (groups_last w i x rest (omega arith) (omega arith) hx fits)
read-append_groups (suc k) w i x rest hw hk hx fits =
    if_cases (λ (l : List ℕ). read_groups (l ++ rest) i x ≡ ok (x + w * 2 ^ (7 * i)) rest)
      (ltb w 0x80)
      (λ q.
        let small : w % 256 ≡ w = ground arith in
        rw small (groups_last w i x rest (ground arith) (omega arith) hx fits))
      (λ q.
        let tagged : bit_or (w % 256) 0x80 ≡ w % 128 + 128 =
          set_eighth (w % 256) (omega arith) ∙ omega arith in
        let later = append_groups k (w / 128) ++ rest in
        let smaller : w / 128 < 128 ^ suc k = omega (arith, pow-suc 128 (suc k)) in
        rw tagged (
          groups_inner (w % 128) i x later (omega arith) (omega arith) hx
            (omega (arith, regroup w i x))
          ∙ read-append_groups k (w / 128) (i + 1) (x + w % 128 * 2 ^ (7 * i)) rest smaller
              (omega arith) (group_bound (w % 128) i x (omega arith) hx)
              (omega (arith, regroup w i x))
          ∙ ap (λ v. ok v rest) (regroup w i x)))

-- ReadUvarint reads back the uint64 that AppendUvarint wrote, and leaves what follows it.
pub read_uvarint-append_uvarint :
    (v : ℕ) (rest : List ℕ) → IsU64 v → read_uvarint (append_uvarint v ++ rest) ≡ ok v rest
unfolding read_uvarint append_uvarint
read_uvarint-append_uvarint v rest h =
    read-append_groups 9 v 0 0 rest (omega arith) (omega arith) (omega arith) (omega arith)
    ∙ ap (λ x. ok x rest) (omega arith)

-- io.ReadFull takes the bytes that it asks for from the front.
pub read_full-append :
    (bytes rest : List ℕ) → read_full (length bytes) (bytes ++ rest) ≡ ok bytes rest
unfolding read_full
read_full-append bytes rest =
    rw (take-length bytes rest, drop-length bytes rest)
      (if_cases (λ r. r ≡ ok bytes rest) (leb (length bytes) (length (bytes ++ rest))) (λ _. refl)
        (λ q. absurd (ground (arith, length-append bytes rest))))

-- More rounds for the loop of AppendUvarint change nothing once the number fits the rounds.
pub append_groups_enough : (k v : ℕ) → v < 128 ^ suc k → append_groups (suc k) v ≡ append_groups k v
unfolding append_groups
append_groups_enough zero v h = rw (lt→ltb v 128 (omega arith))
append_groups_enough (suc k) v h =
    if_cases (λ (l : List ℕ). l ≡ append_groups (suc k) v) (ltb v 0x80) (λ q. rw q refl)
      (λ q. rw q (
        ap (◌∷◌ (bit_or (v % 256) 0x80))
          (append_groups_enough k (v / 128) (omega (arith, pow-suc 128 (suc k))))))
