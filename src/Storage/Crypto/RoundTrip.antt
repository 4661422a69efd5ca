-- ===== src/Storage/Crypto/RoundTrip.antt =====
-- What was encrypted is decrypted.
use mautrix_signal.Common.{
  ℕ, suc, zero, ◌+◌, ◌-◌, ◌≤◌, ◌<◌, ◌≡◌, ◌≢◌, inr, refl, ap, le→ltb, ◌==◌, Option, none, some, [],
  ◌∷◌, ◌++◌, length, replicate, length-append, take-append_exact, drop-append_exact, append-nil,
  arith, false,
}
use mautrix_signal.Storage.Records.{Bytes, Manifest, StorageRecord}
use mautrix_signal.Storage.Crypto.{
  Ciphers, IsAesKey, nonce_length, encrypt_storage_blob, decrypt_bytes, derive_storage_item_key,
  derive_storage_manifest_key, encrypt_storage_record, decrypt_storage_item,
  encrypt_storage_manifest, decrypt_storage_manifest, encrypt_string, decrypt_string, trim_right,
  ◌>>=◌,
}

module _ (ciphers : Ciphers) where
  open ciphers use {
    seal, open-seal, length-hmac, length-hkdf, length-random, marshal_record, marshal_manifest,
    unmarshal-marshal_record, unmarshal-marshal_manifest, to_base64, random,
  }

  -- A blob of a text that is not empty is there, and is decrypted.
  decrypt-encrypt_blob :
      (call : ℕ) (key plaintext : Bytes)
      → IsAesKey key
      → 0 < length plaintext
      → (b : Bytes) × (encrypt_storage_blob ciphers call key plaintext ≡ some b)
        × (decrypt_bytes ciphers key b ≡ some plaintext)
  unfolding encrypt_storage_blob decrypt_bytes
  decrypt-encrypt_blob call key plaintext h n =
      let nonce = random call nonce_length in
      let ln = length-random call nonce_length in
      let (c, e, l, o) = open-seal key nonce plaintext h ln in
      let long : nonce_length + 16 + 1 ≤ length (nonce ++ c) =
        omega (arith, length-append nonce c) in
      (
        nonce ++ c,
        rw e refl,
        rw
            (
              le→ltb (length (nonce ++ c)) (nonce_length + 16 + 1) long,
              take-append_exact nonce_length nonce c ln,
              drop-append_exact nonce_length nonce c ln,
              append-nil c,
            )
            o,
      )

  item_key-IsAesKey :
      (storage_key ikm id text : Bytes)
      → IsAesKey (derive_storage_item_key ciphers storage_key ikm id text)
  unfolding derive_storage_item_key
  item_key-IsAesKey storage_key [] id text = inr (inr (length-hmac storage_key _))
  item_key-IsAesKey storage_key (k ∷ ks) id text = inr (inr (length-hkdf (k ∷ ks) _ 32))

  -- A storage record that marshals to some bytes is encrypted, and decrypted to itself.
  pub decrypt-encrypt_record :
      (call : ℕ) (storage_key ikm id : Bytes) (r : StorageRecord) (b : Bytes)
      → marshal_record r ≡ some b
      → 0 < length b
      → (value : Bytes) × (encrypt_storage_record ciphers call storage_key ikm id r ≡ some value)
        × (decrypt_storage_item ciphers storage_key ikm id value ≡ some r)
  unfolding encrypt_storage_record decrypt_storage_item
  decrypt-encrypt_record call storage_key ikm id r b m n =
      let key = derive_storage_item_key ciphers storage_key ikm id (to_base64 id) in
      let (value, e, d) =
        decrypt-encrypt_blob call key b (item_key-IsAesKey storage_key ikm id (to_base64 id)) n in
      (value, rw m e, rw d (unmarshal-marshal_record r b m))

  -- The same of a manifest, with its version.
  pub decrypt-encrypt_manifest :
      (call : ℕ) (storage_key : Bytes) (m : Manifest) (b : Bytes)
      → marshal_manifest m ≡ some b
      → 0 < length b
      → (value : Bytes) × (encrypt_storage_manifest ciphers call storage_key m
          ≡ some (m.version, value))
        × (decrypt_storage_manifest ciphers storage_key (m.version, value) ≡ some m)
  unfolding encrypt_storage_manifest decrypt_storage_manifest derive_storage_manifest_key
  decrypt-encrypt_manifest call storage_key m b e n =
      let key = derive_storage_manifest_key ciphers storage_key m.version in
      let (value, v, d) =
        decrypt-encrypt_blob call key b (inr (inr (length-hmac storage_key _))) n in
      (value, rw (e, v) refl, rw d (unmarshal-marshal_manifest m b e))

-- The version beside the manifest's value, if there is one.
abbrev pub VersionIs : ℕ → Option (ℕ × Bytes) → Type 0
VersionIs n none = Unit {0}
VersionIs n (some v) = v.0 ≡ n

bind_VersionIs :
    {A : Type 0} (n : ℕ) (o : Option A) (f : A → Option (ℕ × Bytes))
    → ((a : A) → VersionIs n (f a))
    → VersionIs n (o >>= f)
bind_VersionIs n none f h = tt
bind_VersionIs n (some a) f h = h a

pub encrypt_manifest-VersionIs :
    (ciphers : Ciphers) (call : ℕ) (key : Bytes) (m : Manifest)
    → VersionIs m.version (encrypt_storage_manifest ciphers call key m)
unfolding encrypt_storage_manifest
encrypt_manifest-VersionIs ciphers call key m =
    bind_VersionIs m.version (ciphers.marshal_manifest m) _ (λ plaintext.
      bind_VersionIs m.version
        (encrypt_storage_blob ciphers call (derive_storage_manifest_key ciphers key m.version)
          plaintext)
        _ (λ value. refl))

trim_right-zeros : (n : ℕ) → trim_right (replicate n 0) ≡ []
unfolding trim_right
trim_right-zeros zero = refl
trim_right-zeros (suc n) = rw (trim_right-zeros n) refl

-- The last byte is not zero.
abbrev pub NoZeroEnd : Bytes → Type 0
NoZeroEnd [] = Unit {0}
NoZeroEnd (b ∷ []) = b ≢ 0
NoZeroEnd (b ∷ c ∷ cs) = NoZeroEnd (c ∷ cs)

trim_right-padded :
    (text : Bytes) (n : ℕ) → NoZeroEnd text → trim_right (text ++ replicate n 0) ≡ text
unfolding trim_right
trim_right-padded [] n h = trim_right-zeros n
trim_right-padded (b ∷ []) n h =
    let other : (b == 0) ≡ false = ground arith in rw (trim_right-zeros n, other) refl
trim_right-padded (b ∷ c ∷ cs) n h = rw (trim_right-padded (c ∷ cs) n h) refl

-- A text without a zero at its end, padded to a length of at least one byte that it fits, is encrypted
-- and decrypted to itself.
pub decrypt-encrypt_string :
    (ciphers : Ciphers) (call : ℕ) (key plaintext : Bytes) (padded_length : ℕ)
    → IsAesKey key
    → NoZeroEnd plaintext
    → length plaintext ≤ padded_length
    → 0 < padded_length
    → (b : Bytes) × (encrypt_string ciphers call key plaintext padded_length ≡ some b)
      × (decrypt_string ciphers key b ≡ some plaintext)
unfolding encrypt_string decrypt_string
decrypt-encrypt_string ciphers call key plaintext n k h l p =
    let padding = replicate (n - length plaintext) 0 in
    let long : 0 < length (plaintext ++ padding) =
      omega (arith, length-append plaintext padding, length-replicate (n - length plaintext)) in
    let (b, e, d) = decrypt-encrypt_blob ciphers call key (plaintext ++ padding) k long in
    (b, rw (le→ltb n (length plaintext) l) e, rw (d, trim_right-padded plaintext _ h) refl)
  where
    length-replicate : (m : ℕ) → length (replicate {A = ℕ} m 0) ≡ m
    length-replicate zero = refl
    length-replicate (suc m) = ap suc (length-replicate m)
