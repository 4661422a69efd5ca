-- ===== src/Storage/Runs/Ciphers.antt =====
-- Ciphers that hide nothing but have the laws of the real ones.
use mautrix_signal.Common.{
  ℕ, zero, suc, ◌<◌, ◌≡◌, refl, ap, subst, Bool, true, false, Option, some, none, List, [], ◌∷◌,
  ◌++◌, length, take, drop, replicate, take-length, drop-length, arith,
}
use mautrix_signal.Storage.Records.{
  Bytes, StorageRecord, contact, group, account, other, Identifier, Manifest,
}
use mautrix_signal.Storage.Crypto.{Ciphers}
use mautrix_signal.Storage.Write.{new_manifest}

abbrev bit : Bool → ℕ
bit true = 1
bit false = 0

abbrev bool_of : ℕ → Bool
bool_of zero = false
bool_of (suc n) = true

bool_of-bit : (b : Bool) → bool_of (bit b) ≡ b
bool_of-bit true = refl
bool_of-bit false = refl

-- Groups and unknown records, which are enough here.
abbrev pub marshal : StorageRecord → Option Bytes
marshal (contact r) = none
marshal (account r) = none
marshal (other rest) = some (1 ∷ rest)
marshal (group r) = some (
    2
    ∷ r.fields.muted_until
    ∷ bit r.fields.archived
    ∷ bit r.fields.marked_unread
    ∷ length r.master_key
    ∷ (r.master_key ++ r.rest))

abbrev unmarshal_group : ℕ → Bytes → Option StorageRecord
unmarshal_group m (a ∷ u ∷ n ∷ bytes) = some (
    group (record {
      master_key = take n bytes;
      fields = record { muted_until = m; archived = bool_of a; marked_unread = bool_of u };
      rest = drop n bytes;
    }))
unmarshal_group m short = none

abbrev pub unmarshal : Bytes → Option StorageRecord
unmarshal [] = none
unmarshal (zero ∷ bytes) = none
unmarshal (suc zero ∷ rest) = some (other rest)
unmarshal (suc (suc n) ∷ []) = none
unmarshal (suc (suc n) ∷ m ∷ bytes) = unmarshal_group m bytes

abbrev or_nothing : Option Bytes → Bytes
or_nothing none = []
or_nothing (some b) = b

pub unmarshal-marshal : (r : StorageRecord) (b : Bytes) → marshal r ≡ some b → unmarshal b ≡ some r
unmarshal-marshal (contact r) b e = absurd (ground arith)
unmarshal-marshal (account r) b e = absurd (ground arith)
unmarshal-marshal (other rest) b e =
    subst (λ c. unmarshal c ≡ some (other rest)) (ap or_nothing e) refl
unmarshal-marshal (group r) b e =
    subst (λ c. unmarshal c ≡ some (group r)) (ap or_nothing e)
      (rw
        (
          take-length r.master_key r.rest,
          drop-length r.master_key r.rest,
          bool_of-bit r.fields.archived,
          bool_of-bit r.fields.marked_unread,
        )
        refl)

-- A list of identifiers, with how many they are in front.
abbrev put_identifiers : List Identifier → Bytes → Bytes
put_identifiers [] rest = rest
put_identifiers (i ∷ is) rest = i.typ ∷ length i.raw ∷ (i.raw ++ put_identifiers is rest)

abbrev with_identifier : Identifier → List Identifier × Bytes → List Identifier × Bytes
with_identifier i (is, rest) = (i ∷ is, rest)

abbrev get_identifiers : ℕ → Bytes → List Identifier × Bytes
get_identifiers zero bytes = ([], bytes)
get_identifiers (suc k) [] = ([], [])
get_identifiers (suc k) (t ∷ []) = ([], [])
get_identifiers (suc k) (t ∷ n ∷ bytes) =
    with_identifier (record { raw = take n bytes; typ = t }) (get_identifiers k (drop n bytes))

get-put_identifiers :
    (is : List Identifier) (rest : Bytes)
    → get_identifiers (length is) (put_identifiers is rest) ≡ (is, rest)
get-put_identifiers [] rest = refl
get-put_identifiers (i ∷ is) rest =
    rw
      (
        take-length i.raw (put_identifiers is rest),
        drop-length i.raw (put_identifiers is rest),
        get-put_identifiers is rest,
      )
      refl

abbrev pub put_manifest : Manifest → Bytes
put_manifest m =
    m.version
    ∷ m.source_device
    ∷ length m.record_ikm
    ∷ length m.identifiers
    ∷ (m.record_ikm ++ put_identifiers m.identifiers m.rest)

abbrev manifest_of : ℕ → ℕ → Bytes → List Identifier × Bytes → Manifest
manifest_of version device ikm (is, rest) = record {
  version = version;
  source_device = device;
  record_ikm = ikm;
  identifiers = is;
  rest = rest;
}

abbrev pub get_manifest : Bytes → Option Manifest
get_manifest (v ∷ d ∷ n ∷ k ∷ bytes) =
    some (manifest_of v d (take n bytes) (get_identifiers k (drop n bytes)))
get_manifest short = none

pub get-put_manifest : (m : Manifest) → get_manifest (put_manifest m) ≡ some m
get-put_manifest m =
    rw
      (
        take-length m.record_ikm (put_identifiers m.identifiers m.rest),
        drop-length m.record_ikm (put_identifiers m.identifiers m.rest),
        get-put_identifiers m.identifiers m.rest,
      )
      refl

pub length-replicate : (n x : ℕ) → length (replicate n x) ≡ n
length-replicate zero x = refl
length-replicate (suc n) x = ap suc (length-replicate n x)

abbrev tag : Bytes
tag = replicate 16 7

abbrev plain_seal : Bytes → Bytes → Bytes → Option Bytes
plain_seal key nonce plaintext = some (tag ++ plaintext)

abbrev plain_open : Bytes → Bytes → Bytes → Option Bytes
plain_open key nonce ciphertext = some (drop 16 ciphertext)

abbrev pub plain_ciphers : Ciphers
plain_ciphers = record {
  seal = plain_seal;
  open_sealed = plain_open;
  hmac = λ key message. replicate 32 0;
  hkdf = λ ikm info n. replicate n 0;
  to_base64 = λ b. 66 ∷ b;
  of_base64 = λ b. some (drop 1 b);
  marshal_record = marshal;
  unmarshal_record = unmarshal;
  marshal_manifest = λ m. some (put_manifest m);
  unmarshal_manifest = get_manifest;
  random = λ call n. replicate n call;
  open-seal = λ key nonce plaintext k n. (tag ++ plaintext, refl, omega arith, refl);
  length-hmac = λ key message. refl;
  length-hkdf = λ ikm info n. length-replicate n 0;
  of_base64-to_base64 = λ b. refl;
  unmarshal-marshal_record = unmarshal-marshal;
  unmarshal-marshal_manifest =
      λ m b e. subst (λ c. get_manifest c ≡ some m) (ap or_nothing e) (get-put_manifest m);
  length-random = λ call n. length-replicate n call;
}

-- Every manifest that follows a manifest can be marshalled.
pub marshal_next :
    (m : Manifest) (device : ℕ) (ids : List Identifier)
    → (bytes : Bytes) × (plain_ciphers.marshal_manifest (new_manifest m device ids) ≡ some bytes)
      × (0 < length bytes)
marshal_next m device ids = (put_manifest (new_manifest m device ids), refl, omega arith)
