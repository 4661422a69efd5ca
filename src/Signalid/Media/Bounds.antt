-- ===== src/Signalid/Media/Bounds.antt =====
-- The length prefix of a byte slice in a media ID: what it bounds, and what it does not.
use mautrix_signal.Common.{
  ℕ, ◌^◌, ◌≤◌, ◌<◌, ◌≡◌, ltb, leb, ◌==◌, if◌then◌else◌, if_cases, [], ◌∷◌, ◌++◌, length, arith,
  length-take, subst, le→leb,
}
use Prim.Native.Nat.{zero-le}
use native.Mathlib.Nat.{le_of_eq}
use mautrix_signal.Encoding.Uvarint.{
  append_uvarint, read_uvarint, read_full, read_uvarint-append_uvarint,
}
use mautrix_signal.Signalid.Media.{
  Bytes, Result, done, fail, panic, of_read, ◌>>=◌, read_byte_slice, parse, type_profile_avatar,
  parse_profile_avatar, slice_too_large,
}
use mautrix_signal.Signalid.Media.RoundTrip.{read_full_exact}

-- Whatever was read has at most `n` bytes.
abbrev AtMost : ℕ → Result Bytes → Type 0
AtMost n (done b rest) = length b ≤ n
AtMost n (fail e) = Unit
AtMost n panic = Unit

read_full-AtMost : (n : ℕ) (bytes : Bytes) → AtMost n (of_read (read_full n bytes))
unfolding read_full
read_full-AtMost n bytes =
    if_cases (λ r. AtMost n (of_read r)) (leb n (length bytes))
      (λ q. le_of_eq (length-take n bytes (ground arith)))
      (λ _. if_cases (λ r. AtMost n (of_read r)) (length bytes == 0) (λ _. tt) (λ _. tt))

AtMost-mono : (n m : ℕ) (r : Result Bytes) → n ≤ m → AtMost n r → AtMost m r
AtMost-mono n m (done b rest) h k = omega arith
AtMost-mono n m (fail e) h k = tt
AtMost-mono n m panic h k = tt

after_length-AtMost :
    (n max_length : ℕ) (r : Bytes)
    → AtMost max_length (
        if leb (2 ^ 63) n
        then panic
        else (if ltb max_length n
            then fail slice_too_large
            else (if n == 0 then done [] r else of_read (read_full n r))))
after_length-AtMost n m r =
    if_cases (AtMost m) (leb (2 ^ 63) n) (λ _. tt)
      (λ _.
        if_cases (AtMost m) (ltb m n) (λ _. tt)
          (λ q.
            if_cases (AtMost m) (n == 0) (λ _. zero-le)
              (λ _.
                AtMost-mono n m (of_read (read_full n r)) (ground arith) (read_full-AtMost n r))))

read_byte_slice-AtMost : (r : Bytes) (m : ℕ) → AtMost m (read_byte_slice r m)
unfolding read_byte_slice
read_byte_slice-AtMost r m = bound (of_read (read_uvarint r))
  where
    bound :
        (first : Result ℕ)
        → AtMost m (
            first >>= λ (n, rest).
            if leb (2 ^ 63) n
            then panic
            else (if ltb m n
                then fail slice_too_large
                else (if n == 0 then done [] rest else of_read (read_full n rest))))
    bound (done n rest) = after_length-AtMost n m rest
    bound (fail e) = tt
    bound panic = tt

-- A slice that is read from a media ID is never longer than the limit, the length of the media ID.
pub read_byte_slice-le :
    (r : Bytes) (max_length : ℕ) (b rest : Bytes)
    → read_byte_slice r max_length ≡ done b rest
    → length b ≤ max_length
read_byte_slice-le r max_length b rest e =
    subst (AtMost max_length) e (read_byte_slice-AtMost r max_length)

-- A media ID of a profile avatar whose path has a length prefix of 2 ^ 63 or more makes Parse panic:
-- as an int the length is negative, so it passes the limit, and no slice of that length can be made.
pub parse_huge_length :
    (user contact rest : Bytes) (n : ℕ)
    → length user ≡ 16
    → length contact ≡ 16
    → 2 ^ 63 ≤ n
    → n < 2 ^ 64
    → parse (type_profile_avatar ∷ (user ++ (contact ++ (append_uvarint n ++ rest)))) ≡ panic
unfolding parse parse_profile_avatar read_byte_slice
parse_huge_length user contact rest n hu hc h q = rw (
  read_full_exact 16 user (contact ++ (append_uvarint n ++ rest)) hu,
  read_full_exact 16 contact (append_uvarint n ++ rest) hc,
  read_uvarint-append_uvarint n rest q,
  le→leb (2 ^ 63) n h,
)
