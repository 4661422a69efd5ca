-- ===== src/Signalid/Media/RoundTrip.antt =====
-- A media ID parses to the info that it was made from.
use mautrix_signal.Common.{
  ℕ, ◌+◌, ◌%◌, ◌^◌, ◌≤◌, ◌<◌, ◌≡◌, refl, sym, ap, ◌∙◌, ◌==◌, if◌then◌else◌, Bool, true, false, [],
  ◌∷◌, ◌++◌, length, drop, arith, length-append, append-nil, append_assoc, take-append_exact,
  drop-append_exact, drop-add, lt→leb, le→ltb,
}
use mautrix_signal.Encoding.Uvarint.{
  IsU64, append_uvarint, read_uvarint, read_full, read_uvarint-append_uvarint, read_full-append,
}
use mautrix_signal.Signalid.Media.{
  Bytes, Attachment, GroupAvatar, ProfileAvatar, Sticker, MediaInfo, attachment, group_avatar,
  profile_avatar, sticker, done, of_read, write_byte_slice, read_byte_slice, put_uint32, get_uint32,
  as_media_id, parse, type_attachment, type_plaintext_digest_attachment, type_sticker,
  attachment_id, parse_attachment, group_avatar_id, profile_avatar_id, parse_group_avatar,
  parse_profile_avatar, sticker_id_bytes, parse_sticker,
}

of_read-uvarint :
    (v : ℕ) (rest : Bytes)
    → IsU64 v
    → of_read (read_uvarint (append_uvarint v ++ rest)) ≡ done v rest
of_read-uvarint v rest h = ap of_read (read_uvarint-append_uvarint v rest h)

pub read_byte_slice-write :
    (b rest : Bytes) (max_length : ℕ)
    → length b < 2 ^ 63
    → length b ≤ max_length
    → read_byte_slice (write_byte_slice b ++ rest) max_length ≡ done b rest
unfolding read_byte_slice write_byte_slice
read_byte_slice-write b rest max_length h q =
    rw
      (
        append_assoc (append_uvarint (length b)) b rest,
        of_read-uvarint (length b) (b ++ rest) (omega arith),
        lt→leb (2 ^ 63) (length b) h,
        le→ltb max_length (length b) q,
      )
      (content b)
  where
    content :
        (b : Bytes)
        → (if length b == 0
            then done [] (b ++ rest)
            else of_read (read_full (length b) (b ++ rest)))
          ≡ done b rest
    content [] = refl
    content (x ∷ b) = ground (arith, read_full-append (x ∷ b) rest)

uint32_bytes : (v : ℕ) → v < 2 ^ 32 → get_uint32 (put_uint32 v) ≡ v
uint32_bytes v h = omega arith

record Sized (b : Bytes) (max_length : ℕ) : Type 0 where
  small : length b < 2 ^ 63
  within : length b ≤ max_length

parse_attachment-id :
    (m : Attachment) (len : ℕ)
    → IsU64 m.cdn_id
    → m.cdn_number < 2 ^ 32
    → m.size < 2 ^ 32
    → Sized m.cdn_key len
    → Sized m.key len
    → Sized m.digest len
    → parse_attachment m.plaintext_digest
        (append_uvarint m.cdn_id
          ++ (write_byte_slice m.cdn_key
              ++ (append_uvarint m.cdn_number
                  ++ (write_byte_slice m.key
                      ++ (write_byte_slice m.digest ++ append_uvarint m.size)))))
        len
      ≡ done (attachment m) []
unfolding parse_attachment
parse_attachment-id m len hi hn hs sk sy sd = rw (
  of_read-uvarint m.cdn_id _ hi,
  read_byte_slice-write m.cdn_key _ len sk.small sk.within,
  of_read-uvarint m.cdn_number _ (omega arith),
  read_byte_slice-write m.key _ len sy.small sy.within,
  read_byte_slice-write m.digest _ len sd.small sd.within,
  last,
  mod_number,
  mod_size,
)
  where
    last : of_read (read_uvarint (append_uvarint m.size)) ≡ done m.size []
    last =
        ap (λ l. of_read (read_uvarint l)) (sym (append-nil (append_uvarint m.size)))
        ∙ of_read-uvarint m.size [] (omega arith)

    mod_number : m.cdn_number % 2 ^ 32 ≡ m.cdn_number
    mod_number = omega arith

    mod_size : m.size % 2 ^ 32 ≡ m.size
    mod_size = omega arith

length-write : (b : Bytes) → length b ≤ length (write_byte_slice b)
unfolding write_byte_slice
length-write b = omega (arith, length-append (append_uvarint (length b)) b)

-- What a media info has to satisfy to be written without loss: Go's uint64, uint32 and array types,
-- and slices that a Go int can count. AsMediaID checks the lengths of a sticker's fields itself.
abbrev pub IsValid : MediaInfo → Type 0
IsValid (attachment m) =
    (m.cdn_id < 2 ^ 64)
    × (m.cdn_number < 2 ^ 32)
    × (m.size < 2 ^ 32)
    × (length m.cdn_key < 2 ^ 63)
    × (length m.key < 2 ^ 63)
    × (length m.digest < 2 ^ 63)
IsValid (group_avatar m) =
    (length m.user_id ≡ 16) × (length m.group_id ≡ 32) × (length m.group_avatar_path < 2 ^ 63)
IsValid (profile_avatar m) =
    (length m.user_id ≡ 16) × (length m.contact_id ≡ 16) × (length m.profile_avatar_path < 2 ^ 63)
IsValid (sticker m) = (length m.pack_id ≡ 16) × (length m.pack_key ≡ 32) × (m.sticker_id < 2 ^ 32)

pub read_full_exact :
    (n : ℕ) (bytes rest : Bytes)
    → length bytes ≡ n
    → of_read (read_full n (bytes ++ rest)) ≡ done bytes rest
read_full_exact n bytes rest h = rw (← h) (ap of_read (read_full-append bytes rest))

slice_last :
    (b : Bytes) (max_length : ℕ)
    → length b < 2 ^ 63
    → length b ≤ max_length
    → read_byte_slice (write_byte_slice b) max_length ≡ done b []
slice_last b max_length h q =
    ap (λ l. read_byte_slice l max_length) (sym (append-nil (write_byte_slice b)))
    ∙ read_byte_slice-write b [] max_length h q

parse_typed :
    (plaintext_digest : Bool) (rest : Bytes)
    → parse
        ((if plaintext_digest then type_plaintext_digest_attachment else type_attachment) ∷ rest)
      ≡ parse_attachment plaintext_digest rest (length rest + 1)
unfolding parse
parse_typed true rest = ap (parse_attachment true rest) (omega arith)
parse_typed false rest = ap (parse_attachment false rest) (omega arith)

attachment_tail : Attachment → Bytes
attachment_tail m =
    write_byte_slice m.cdn_key
    ++ (append_uvarint m.cdn_number
        ++ (write_byte_slice m.key ++ (write_byte_slice m.digest ++ append_uvarint m.size)))

slices_within :
    (m : Attachment) (front : Bytes)
    → (length m.cdn_key ≤ length (front ++ attachment_tail m))
      × (length m.key ≤ length (front ++ attachment_tail m))
      × (length m.digest ≤ length (front ++ attachment_tail m))
unfolding attachment_tail
slices_within m front = simp length-append (
  omega (arith, length-write m.cdn_key),
  omega (arith, length-write m.key),
  omega (arith, length-write m.digest),
)

parse-attachment :
    (m : Attachment) → IsValid (attachment m) → parse (attachment_id m) ≡ done (attachment m) []
unfolding attachment_id
parse-attachment m (hi, hn, hs, ck, ky, dg) =
    let rest = append_uvarint m.cdn_id ++ attachment_tail m in
    let (wc, wk, wd) = slices_within m (append_uvarint m.cdn_id) in
    parse_typed m.plaintext_digest _
    ∙ unfold attachment_tail in
      parse_attachment-id m (length rest + 1) hi hn hs (record { small = ck; within = omega arith })
        (record { small = ky; within = omega arith }) (record { small = dg; within = omega arith })

parse-group_avatar :
    (m : GroupAvatar)
    → IsValid (group_avatar m)
    → parse (group_avatar_id m) ≡ done (group_avatar m) []
unfolding parse group_avatar_id parse_group_avatar
parse-group_avatar m (hu, hg, hp) =
    let len = length (group_avatar_id m) in
    let within : length m.group_avatar_path ≤ len = omega (
      arith,
      length-write m.group_avatar_path,
      length-append m.user_id (m.group_id ++ write_byte_slice m.group_avatar_path),
      length-append m.group_id (write_byte_slice m.group_avatar_path),
    ) in
    rw (
      read_full_exact 16 m.user_id _ hu,
      read_full_exact 32 m.group_id _ hg,
      slice_last m.group_avatar_path len hp within,
    )

parse-profile_avatar :
    (m : ProfileAvatar)
    → IsValid (profile_avatar m)
    → parse (profile_avatar_id m) ≡ done (profile_avatar m) []
unfolding parse profile_avatar_id parse_profile_avatar
parse-profile_avatar m (hu, hg, hp) =
    let len = length (profile_avatar_id m) in
    let within : length m.profile_avatar_path ≤ len = omega (
      arith,
      length-write m.profile_avatar_path,
      length-append m.user_id (m.contact_id ++ write_byte_slice m.profile_avatar_path),
      length-append m.contact_id (write_byte_slice m.profile_avatar_path),
    ) in
    rw (
      read_full_exact 16 m.user_id _ hu,
      read_full_exact 16 m.contact_id _ hg,
      slice_last m.profile_avatar_path len hp within,
    )

drop_both :
    (m : Sticker)
    → length m.pack_id ≡ 16
    → length m.pack_key ≡ 32
    → drop 48 (m.pack_id ++ (m.pack_key ++ put_uint32 m.sticker_id)) ≡ put_uint32 m.sticker_id
drop_both m hp hk =
    drop-add 16 32 (m.pack_id ++ (m.pack_key ++ put_uint32 m.sticker_id))
    ∙ ap (drop 32) (drop-append_exact 16 m.pack_id (m.pack_key ++ put_uint32 m.sticker_id) hp)
    ∙ drop-append_exact 32 m.pack_key (put_uint32 m.sticker_id) hk

parse-sticker :
    (m : Sticker)
    → IsValid (sticker m)
    → (id : Bytes) × (sticker_id_bytes m ≡ done id []) × (parse id ≡ done (sticker m) [])
unfolding parse sticker_id_bytes parse_sticker
parse-sticker m (hp, hk, hi) =
    let tail : Bytes = put_uint32 m.sticker_id in
    let whole : length (m.pack_id ++ (m.pack_key ++ tail)) ≡ 52 =
      rw (length-append m.pack_id (m.pack_key ++ tail), length-append m.pack_key tail)
        (omega arith) in
    (
      type_sticker ∷ (m.pack_id ++ (m.pack_key ++ tail)),
      rw (hp, hk) refl,
      rw
          (
            whole,
            take-append_exact 16 m.pack_id (m.pack_key ++ tail) hp,
            drop-append_exact 16 m.pack_id (m.pack_key ++ tail) hp,
            take-append_exact 32 m.pack_key tail hk,
            drop_both m hp hk,
            uint32_bytes m.sticker_id hi,
          )
          refl,
    )

-- Parsing the media ID of a media info gives the info back, with nothing left to read.
pub parse-as_media_id :
    (m : MediaInfo)
    → IsValid m
    → (id : Bytes) × (as_media_id m ≡ done id []) × (parse id ≡ done m [])
unfolding as_media_id
parse-as_media_id (attachment m) h = (attachment_id m, refl, parse-attachment m h)
parse-as_media_id (group_avatar m) h = (group_avatar_id m, refl, parse-group_avatar m h)
parse-as_media_id (profile_avatar m) h = (profile_avatar_id m, refl, parse-profile_avatar m h)
parse-as_media_id (sticker m) h = parse-sticker m h
