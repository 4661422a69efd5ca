-- ===== src/Padding/RoundTrip.antt =====
-- A padded message gives back the message.
use mautrix_signal.Common.{
  ℕ, zero, suc, ◌+◌, ◌-◌, ◌*◌, ◌%◌, ◌≤◌, ◌<◌, ◌≡◌, refl, ◌∙◌, ap, ◌==◌, leb, ltb, false, some, [],
  ◌∷◌, ◌++◌, length, drop, replicate, length-append, length-drop, take-append_exact, arith,
}
use mautrix_signal.Padding.{
  Bytes, cleared, pad_at, pad_block, part_length, part_count, add_padding, byte_at, strip_from,
  strip_padding,
}

length-replicate : (n b : ℕ) → length (replicate n b) ≡ n
length-replicate zero b = refl
length-replicate (suc n) b = ap suc (length-replicate n b)

cleared-zeros : (bs : Bytes) → cleared bs ≡ replicate (length bs) 0
cleared-zeros [] = refl
cleared-zeros (b ∷ bs) = ap (◌∷◌ 0) (cleared-zeros bs)

byte_at-append : (m i : ℕ) (xs ys : Bytes) → m ≡ length xs + i → byte_at m (xs ++ ys) ≡ byte_at i ys
byte_at-append m i [] ys e = ap (λ n. byte_at n ys) (omega arith)
byte_at-append zero i (x ∷ xs) ys e = absurd (omega arith)
byte_at-append (suc m) i (x ∷ xs) ys e = byte_at-append m i xs ys (omega arith)

byte_at-replicate : (i n : ℕ) → byte_at i (replicate n 0) ≡ 0
byte_at-replicate i zero = refl
byte_at-replicate zero (suc n) = refl
byte_at-replicate (suc i) (suc n) = byte_at-replicate i n

pad_at-append :
    (xs : Bytes) (y : ℕ) (ys : Bytes)
    → pad_at (length xs) (xs ++ y ∷ ys) ≡ xs ++ 128 ∷ replicate (length ys) 0
unfolding pad_at
pad_at-append [] y ys = ap (◌∷◌ 128) (cleared-zeros ys)
pad_at-append (x ∷ xs) y ys = ap (◌∷◌ x) (pad_at-append xs y ys)

-- After the terminator there are only zeros, which the loop skips.
strip_from-zeros :
    (m k n : ℕ) (contents : Bytes)
    → m ≡ length contents + k
    → strip_from (suc m) (contents ++ 128 ∷ replicate n 0) ≡ some contents
unfolding strip_from
strip_from-zeros m zero n contents e =
    let at : byte_at m (contents ++ 128 ∷ replicate n 0) ≡ 128 =
      byte_at-append m 0 contents (128 ∷ replicate n 0) e in
    rw (strip_from, at, take-append_exact m contents (128 ∷ replicate n 0) (omega arith)) refl
strip_from-zeros zero (suc k) n contents e = absurd (omega arith)
strip_from-zeros (suc m) (suc k) n contents e =
    let at : byte_at (suc m) (contents ++ 128 ∷ replicate n 0) ≡ 0 =
      byte_at-append (suc m) (suc k) contents (128 ∷ replicate n 0) e ∙ byte_at-replicate k n in
    rw (strip_from, at) (strip_from-zeros m k n contents (omega arith))

strip-terminated :
    (n : ℕ) (contents : Bytes) → strip_padding (contents ++ 128 ∷ replicate n 0) ≡ some contents
unfolding strip_padding
strip-terminated n contents =
    let total : length (contents ++ 128 ∷ replicate n 0) ≡ suc (length contents + n) =
      length-append contents (128 ∷ replicate n 0) ∙ omega (arith, length-replicate n 0) in
    rw total (strip_from-zeros (length contents + n) n n contents refl)

-- The blocks that a message needs hold it, the terminator and less than a block of zeros.
part_count-bounds :
    (n : ℕ) → (n ≤ part_count n * part_length) × (part_count n * part_length < n + part_length)
part_count-bounds n = ground arith

pad_block-append :
    (xs ys : Bytes)
    → 0 < length ys
    → (n : ℕ) × (pad_block (xs ++ ys) (length xs) ≡ some (xs ++ 128 ∷ replicate n 0))
      × (suc n ≡ length ys)
unfolding pad_block
pad_block-append xs [] h = absurd (omega arith)
pad_block-append xs (y ∷ ys) h =
    let longer : leb (length (xs ++ y ∷ ys)) (length xs) ≡ false =
      ground (arith, length-append xs (y ∷ ys)) in
    (length ys, rw (longer, pad_at-append xs y ys) refl, refl)

-- From version 3 on every message is padded: the result is made of whole blocks of 160 bytes, it is
-- longer than the message by at most a block, and the padding that is stripped from it gives back the
-- message.
pub strip-add_padding :
    (version : ℕ) (contents : Bytes)
    → 3 ≤ version
    → (padded : Bytes) × (add_padding version contents ≡ some padded)
      × (length padded % part_length ≡ 0)
      × (length contents < length padded)
      × (length padded ≤ length contents + part_length)
      × (strip_padding padded ≡ some contents)
unfolding add_padding
strip-add_padding version contents h =
    let old : ltb version 2 ≡ false = ground arith in
    let two : (version == 2) ≡ false = ground arith in
    let total : ℕ = part_count (length contents + 1) * part_length in
    let (lower, upper) = part_count-bounds (length contents + 1) in
    let rest : Bytes = drop (length contents) (replicate total 0) in
    let size : length rest ≡ total - length contents =
      length-drop (length contents) (replicate total 0)
      ∙ ap (λ n. n - length contents) (length-replicate total 0) in
    let (n, padded, e) = pad_block-append contents rest (omega (arith, size, lower)) in
    let all : length (contents ++ 128 ∷ replicate n 0) ≡ total =
      length-append contents (128 ∷ replicate n 0)
      ∙ omega (arith, length-replicate n 0, e, size, lower) in
    (
      contents ++ 128 ∷ replicate n 0,
      rw (old, two) padded,
      rw all (omega arith),
      omega (arith, all, lower),
      omega (arith, all, upper),
      strip-terminated n contents,
    )
