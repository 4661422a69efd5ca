-- ===== src/Padding.antt =====
-- The padding of messages: addPadding of pkg/signalmeow/sending.go, and stripPadding of
-- pkg/signalmeow/receiving_decrypt.go. Bytes are numbers below 256.
pub mod RoundTrip
mod Runs
use mautrix_signal.Common.{
  ℕ, zero, suc, ◌+◌, ◌*◌, ◌/◌, ◌%◌, ◌==◌, leb, ltb, if◌then◌else◌, Option, none, some, List, [],
  ◌∷◌, ◌++◌, length, take, drop, replicate,
}

abbrev pub Bytes : Type 0
Bytes = List ℕ

-- The loop that clears the rest of the block.
abbrev pub cleared : Bytes → Bytes
cleared [] = []
cleared (b ∷ bs) = 0 ∷ cleared bs

pub pad_at : ℕ → Bytes → Bytes
pad_at pos [] = []
pad_at zero (b ∷ bs) = 128 ∷ cleared bs
pad_at (suc pos) (b ∷ bs) = b ∷ pad_at pos bs

pub pad_block : Bytes → ℕ → Option Bytes
unfolding pad_at
pad_block block pos = if leb (length block) pos then none else some (pad_at pos block)

abbrev pub part_length : ℕ
part_length = 160

abbrev pub part_count : ℕ → ℕ
part_count n = if n % part_length == 0 then n / part_length else n / part_length + 1

pub add_padding : ℕ → Bytes → Option Bytes
unfolding pad_block
add_padding version contents =
    if ltb version 2
    then none
    else (if version == 2
        then some contents
        else (let buffer : Bytes = replicate (part_count (length contents + 1) * part_length) 0 in
            pad_block (contents ++ drop (length contents) buffer) (length contents)))

-- The byte at an index, which is in range where it is read.
abbrev pub byte_at : ℕ → Bytes → ℕ
byte_at i [] = 0
byte_at zero (b ∷ bs) = b
byte_at (suc i) (b ∷ bs) = byte_at i bs

-- The loop with the bytes before the index `n` still to read.
pub strip_from : ℕ → Bytes → Option Bytes
strip_from zero contents = none
strip_from (suc n) contents =
    let rest = strip_from n contents in
    if byte_at n contents == 128
    then some (take n contents)
    else (if byte_at n contents == 0 then rest else none)

pub strip_padding : Bytes → Option Bytes
unfolding strip_from
strip_padding contents = strip_from (length contents) contents
