-- ===== src/Signalid/Media.antt =====
-- pkg/signalid/media.go: direct media IDs. Byte slices and the Go strings of the media infos are
-- lists of bytes; writes to a bytes.Buffer cannot fail.
pub mod RoundTrip
pub mod Bounds
use mautrix_signal.Common.{
  ℕ, ◌+◌, ◌-◌, ◌*◌, ◌/◌, ◌%◌, ◌^◌, ◌≤◌, ◌<◌, ◌≡◌, ltb, leb, ◌==◌, if◌then◌else◌, Bool, true, false,
  not, ◌&&◌, List, [], ◌∷◌, ◌++◌, length, take, drop,
}
use mautrix_signal.Encoding.Uvarint.{
  Read, ok, err, ReadError, append_uvarint, read_uvarint, read_full,
}

abbrev pub Bytes : Type 0
Bytes = List ℕ

pub record Attachment : Type 0 where
  pub cdn_id : ℕ
  pub cdn_key : Bytes
  pub cdn_number : ℕ
  pub key : Bytes
  pub plaintext_digest : Bool
  pub digest : Bytes
  pub size : ℕ

pub record GroupAvatar : Type 0 where
  pub user_id : Bytes
  pub group_id : Bytes
  pub group_avatar_path : Bytes

pub record ProfileAvatar : Type 0 where
  pub user_id : Bytes
  pub contact_id : Bytes
  pub profile_avatar_path : Bytes

pub record Sticker : Type 0 where
  pub pack_id : Bytes
  pub pack_key : Bytes
  pub sticker_id : ℕ

pub data MediaInfo : Type 0 where
  attachment : Attachment → MediaInfo
  group_avatar : GroupAvatar → MediaInfo
  profile_avatar : ProfileAvatar → MediaInfo
  sticker : Sticker → MediaInfo

pub data Error : Type 0 where
  empty_id : Error
  read_failed : ReadError → Error
  slice_too_large : Error
  bad_pack_id_length bad_pack_key_length bad_sticker_length : Error
  bad_media_type : ℕ → Error

-- A call returns, with what is left to read, or fails, or panics.
pub data Result {ℓ} (A : Type ℓ) : Type ℓ where
  done : A → Bytes → Result A
  fail : Error → Result A
  panic : Result A

infixl 5 ◌>>=◌
abbrev pub ◌>>=◌ {ℓ κ} : {A : Type ℓ} {B : Type κ} → Result A → (A × Bytes → Result B) → Result B
done a rest >>= f = f (a, rest)
fail e >>= f = fail e
panic >>= f = panic

abbrev pub of_read {ℓ} : {A : Type ℓ} → Read A → Result A
of_read (ok a rest) = done a rest
of_read (err e) = fail (read_failed e)

abbrev pub type_attachment : ℕ
type_attachment = 0

abbrev pub type_group_avatar : ℕ
type_group_avatar = 1

abbrev pub type_profile_avatar : ℕ
type_profile_avatar = 2

abbrev pub type_plaintext_digest_attachment : ℕ
type_plaintext_digest_attachment = 3

abbrev pub type_sticker : ℕ
type_sticker = 4

abbrev pub pack_id_len : ℕ
pack_id_len = 16

abbrev pub pack_key_len : ℕ
pack_key_len = 32

abbrev pub direct_media_sticker_len : ℕ
direct_media_sticker_len = 1 + pack_id_len + pack_key_len + 4

pub write_byte_slice : Bytes → Bytes
write_byte_slice b = append_uvarint (length b) ++ b

-- `int(length) > maxLength`: from 2 ^ 63 on the conversion gives a negative number, which passes the
-- test, and the `make` behind it panics.
pub read_byte_slice : Bytes → ℕ → Result Bytes
read_byte_slice r max_length = do
  (n, rest) ← of_read (read_uvarint r)
  if leb (2 ^ 63) n
      then panic
      else (if ltb max_length n
          then fail slice_too_large
          else (if n == 0 then done [] rest else of_read (read_full n rest)))

-- binary.BigEndian.PutUint32 and Uint32.
abbrev pub put_uint32 : ℕ → Bytes
put_uint32 v = v / 2 ^ 24 % 256 ∷ v / 2 ^ 16 % 256 ∷ v / 2 ^ 8 % 256 ∷ v % 256 ∷ []

abbrev pub get_uint32 : Bytes → ℕ
get_uint32 (a ∷ b ∷ c ∷ d ∷ rest) = a * 2 ^ 24 + b * 2 ^ 16 + c * 2 ^ 8 + d
get_uint32 other = 0

-- The AsMediaID methods.
attachment_id : Attachment → Bytes
attachment_id m =
    (if m.plaintext_digest then type_plaintext_digest_attachment else type_attachment)
    ∷ (append_uvarint m.cdn_id
        ++ (write_byte_slice m.cdn_key
            ++ (append_uvarint m.cdn_number
                ++ (write_byte_slice m.key
                    ++ (write_byte_slice m.digest ++ append_uvarint m.size)))))

group_avatar_id : GroupAvatar → Bytes
group_avatar_id m =
    type_group_avatar ∷ (m.user_id ++ (m.group_id ++ write_byte_slice m.group_avatar_path))

profile_avatar_id : ProfileAvatar → Bytes
profile_avatar_id m =
    type_profile_avatar ∷ (m.user_id ++ (m.contact_id ++ write_byte_slice m.profile_avatar_path))

sticker_id_bytes : Sticker → Result Bytes
sticker_id_bytes m =
    if not (length m.pack_id == pack_id_len)
    then fail bad_pack_id_length
    else (if not (length m.pack_key == pack_key_len)
        then fail bad_pack_key_length
        else done (type_sticker ∷ (m.pack_id ++ (m.pack_key ++ put_uint32 m.sticker_id))) [])

pub as_media_id : MediaInfo → Result Bytes
unfolding attachment_id group_avatar_id profile_avatar_id sticker_id_bytes
as_media_id (attachment m) = done (attachment_id m) []
as_media_id (group_avatar m) = done (group_avatar_id m) []
as_media_id (profile_avatar m) = done (profile_avatar_id m) []
as_media_id (sticker m) = sticker_id_bytes m

parse_attachment : Bool → Bytes → ℕ → Result MediaInfo
parse_attachment plaintext_digest buf len = do
  (cdn_id, buf) ← of_read (read_uvarint buf)
  (cdn_key, buf) ← read_byte_slice buf len
  (cdn_number, buf) ← of_read (read_uvarint buf)
  (key, buf) ← read_byte_slice buf len
  (digest, buf) ← read_byte_slice buf len
  (size, buf) ← of_read (read_uvarint buf)
  done
      (attachment (record {
        cdn_id = cdn_id;
        cdn_key = cdn_key;
        cdn_number = cdn_number % 2 ^ 32;
        key = key;
        plaintext_digest = plaintext_digest;
        digest = digest;
        size = size % 2 ^ 32;
      }))
      buf

parse_group_avatar : Bytes → ℕ → Result MediaInfo
parse_group_avatar buf len = do
  (user_id, buf) ← of_read (read_full 16 buf)
  (group_id, buf) ← of_read (read_full 32 buf)
  (path, buf) ← read_byte_slice buf len
  done (group_avatar (record { user_id = user_id; group_id = group_id; group_avatar_path = path }))
      buf

parse_profile_avatar : Bytes → ℕ → Result MediaInfo
parse_profile_avatar buf len = do
  (user_id, buf) ← of_read (read_full 16 buf)
  (contact_id, buf) ← of_read (read_full 16 buf)
  (path, buf) ← read_byte_slice buf len
  done
      (profile_avatar
        (record { user_id = user_id; contact_id = contact_id; profile_avatar_path = path }))
      buf

-- `rest` is the media ID behind its type byte, and `len` the length of the whole.
parse_sticker : Bytes → ℕ → Result MediaInfo
parse_sticker rest len =
    if not (len == direct_media_sticker_len)
    then fail bad_sticker_length
    else done
        (sticker (record {
          pack_id = take pack_id_len rest;
          pack_key = take pack_key_len (drop pack_id_len rest);
          sticker_id = get_uint32 (drop (pack_id_len + pack_key_len) rest);
        }))
        []

pub parse : Bytes → Result MediaInfo
unfolding parse_attachment parse_group_avatar parse_profile_avatar parse_sticker
parse [] = fail empty_id
parse (typ ∷ rest) =
    let len = length (typ ∷ rest) in
    if typ == type_attachment
    then parse_attachment false rest len
    else (if typ == type_plaintext_digest_attachment
        then parse_attachment true rest len
        else (if typ == type_group_avatar
            then parse_group_avatar rest len
            else (if typ == type_profile_avatar
                then parse_profile_avatar rest len
                else (if typ == type_sticker
                    then parse_sticker rest len
                    else fail (bad_media_type typ)))))
