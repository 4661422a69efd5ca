-- ===== src/Padding/Runs.antt =====
-- Padding a short message.
use mautrix_signal.Common.{
  ◌+◌, ◌%◌, ◌≤◌, ◌<◌, ◌≡◌, refl, none, some, [], ◌∷◌, length, replicate, ◌++◌, arith,
}
use mautrix_signal.Padding.{
  Bytes, part_length, pad_at, pad_block, add_padding, strip_from, strip_padding,
}
use mautrix_signal.Padding.RoundTrip.{strip-add_padding}

abbrev hello : Bytes
hello = 104 ∷ 105 ∷ []

strip-add_padding_example :
    (padded : Bytes) × (add_padding 3 hello ≡ some padded)
    × (length padded % part_length ≡ 0)
    × (length hello < length padded)
    × (length padded ≤ length hello + part_length)
    × (strip_padding padded ≡ some hello)
strip-add_padding_example = strip-add_padding 3 hello (omega arith)

padded_test : add_padding 3 hello ≡ some (hello ++ 128 ∷ replicate 157 0)
unfolding add_padding pad_block pad_at
padded_test = refl

-- A message that leaves one byte of the block needs no second one.
full_test : add_padding 3 (replicate 159 1) ≡ some (replicate 159 1 ++ 128 ∷ [])
unfolding add_padding pad_block pad_at
full_test = refl

unpadded_test : strip_padding (1 ∷ 0 ∷ 0 ∷ []) ≡ none
unfolding strip_padding strip_from
unpadded_test = refl
