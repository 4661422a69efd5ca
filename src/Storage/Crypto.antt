-- ===== src/Storage/Crypto.antt =====
-- The encryption of pkg/signalmeow/storagewrite.go, storageservice.go and profile.go: keys that are
-- derived, blobs with their nonce in front, storage items and manifests, and padded texts. A nil slice
-- of a protobuf message is the empty one.
pub mod RoundTrip
use mautrix_signal.Common.{
  ℕ, suc, ◌+◌, ◌-◌, ◌^◌, ◌≤◌, ◌<◌, ◌≡◌, ◌⊎◌, ltb, ◌==◌, if◌then◌else◌, Option, none, some, List, [],
  ◌∷◌, ◌++◌, length, take, drop, replicate, codes,
}
use mautrix_signal.Encoding.Decimal.{format_uint}
use mautrix_signal.Storage.Records.{Bytes, Manifest, StorageRecord}

abbrev pub nonce_length : ℕ
nonce_length = 12

abbrev pub tag_length_bytes : ℕ
tag_length_bytes = 16

abbrev pub IsAesKey : Bytes → Type 0
IsAesKey key = (length key ≡ 16) ⊎ ((length key ≡ 24) ⊎ (length key ≡ 32))

-- crypto/aes with GCM, HMAC and HKDF on SHA-256, encoding/base64, protobuf's marshalling of the two
-- messages, and random.Bytes, whose first argument counts the calls.
pub record Ciphers : Type 0 where
  pub seal : Bytes → Bytes → Bytes → Option Bytes
  pub open_sealed : Bytes → Bytes → Bytes → Option Bytes
  pub hmac : Bytes → Bytes → Bytes
  pub hkdf : Bytes → Bytes → ℕ → Bytes
  pub to_base64 : Bytes → Bytes
  pub of_base64 : Bytes → Option Bytes
  pub marshal_record : StorageRecord → Option Bytes
  pub unmarshal_record : Bytes → Option StorageRecord
  pub marshal_manifest : Manifest → Option Bytes
  pub unmarshal_manifest : Bytes → Option Manifest
  pub random : ℕ → ℕ → Bytes
  -- A key of a valid length seals every text, with a tag of 16 bytes, and opens what it sealed.
  pub open-seal :
      (key nonce plaintext : Bytes)
      → IsAesKey key
      → length nonce ≡ nonce_length
      → (c : Bytes) × (seal key nonce plaintext ≡ some c)
        × (length c ≡ length plaintext + tag_length_bytes)
        × (open_sealed key nonce c ≡ some plaintext)
  pub length-hmac : (key message : Bytes) → length (hmac key message) ≡ 32
  pub length-hkdf : (ikm info : Bytes) (n : ℕ) → length (hkdf ikm info n) ≡ n
  pub of_base64-to_base64 : (b : Bytes) → of_base64 (to_base64 b) ≡ some b
  pub unmarshal-marshal_record :
      (r : StorageRecord) (b : Bytes) → marshal_record r ≡ some b → unmarshal_record b ≡ some r
  pub unmarshal-marshal_manifest :
      (m : Manifest) (b : Bytes) → marshal_manifest m ≡ some b → unmarshal_manifest b ≡ some m
  pub length-random : (call n : ℕ) → length (random call n) ≡ n

infixl 5 ◌>>=◌
abbrev pub ◌>>=◌ : {A B : Type 0} → Option A → (A → Option B) → Option B
none >>= f = none
some a >>= f = f a

-- bytes.TrimRight(data, "\x00").
abbrev cons_trimmed : ℕ → Bytes → Bytes
cons_trimmed b [] = if b == 0 then [] else b ∷ []
cons_trimmed b (c ∷ cs) = b ∷ c ∷ cs

pub trim_right : Bytes → Bytes
trim_right [] = []
trim_right (b ∷ bs) = cons_trimmed b (trim_right bs)

module _ (ciphers : Ciphers) where
  open ciphers use {
    seal, open_sealed, hmac, hkdf, to_base64, marshal_record, unmarshal_record, marshal_manifest,
    unmarshal_manifest, random,
  }

  pub derive_storage_service_key : Bytes → Bytes
  derive_storage_service_key master_key = hmac master_key (codes "Storage Service Encryption")

  pub derive_storage_manifest_key : Bytes → ℕ → Bytes
  derive_storage_manifest_key storage_key version =
      hmac storage_key (codes "Manifest_" ++ format_uint version)

  pub derive_storage_item_key : Bytes → Bytes → Bytes → Bytes → Bytes
  derive_storage_item_key storage_key [] raw_id base64_id =
      hmac storage_key (codes "Item_" ++ base64_id)
  derive_storage_item_key storage_key (k ∷ ks) raw_id base64_id =
      hkdf (k ∷ ks) (codes "20240801_SIGNAL_STORAGE_SERVICE_ITEM_" ++ raw_id) 32

  -- encryptStorageBlob, where `call` is the number of the call of random.Bytes.
  pub encrypt_storage_blob : ℕ → Bytes → Bytes → Option Bytes
  encrypt_storage_blob call key plaintext = do
    let nonce = random call nonce_length
    ciphertext ← seal key nonce plaintext
    some (nonce ++ ciphertext)

  -- decryptBytes, with AesgcmDecrypt.
  pub decrypt_bytes : Bytes → Bytes → Option Bytes
  decrypt_bytes key encrypted_text =
      if ltb (length encrypted_text) (nonce_length + 16 + 1)
      then none
      else open_sealed key (take nonce_length encrypted_text)
          (drop nonce_length encrypted_text ++ [])

  pub encrypt_storage_record : ℕ → Bytes → Bytes → Bytes → StorageRecord → Option Bytes
  unfolding derive_storage_item_key encrypt_storage_blob
  encrypt_storage_record call storage_key record_ikm id content = do
    plaintext ← marshal_record content
    encrypt_storage_blob call (derive_storage_item_key storage_key record_ikm id (to_base64 id))
        plaintext

  pub decrypt_storage_item : Bytes → Bytes → Bytes → Bytes → Option StorageRecord
  unfolding derive_storage_item_key decrypt_bytes
  decrypt_storage_item storage_key record_ikm key value = do
    decrypted ←
        decrypt_bytes (derive_storage_item_key storage_key record_ikm key (to_base64 key)) value
    unmarshal_record decrypted

  pub encrypt_storage_manifest : ℕ → Bytes → Manifest → Option (ℕ × Bytes)
  unfolding derive_storage_manifest_key encrypt_storage_blob
  encrypt_storage_manifest call storage_key manifest = do
    plaintext ← marshal_manifest manifest
    value ←
        encrypt_storage_blob call (derive_storage_manifest_key storage_key manifest.version)
          plaintext
    some (manifest.version, value)

  pub decrypt_storage_manifest : Bytes → ℕ × Bytes → Option Manifest
  unfolding derive_storage_manifest_key decrypt_bytes
  decrypt_storage_manifest storage_key (version, value) = do
    decrypted ← decrypt_bytes (derive_storage_manifest_key storage_key version) value
    unmarshal_manifest decrypted

  -- profile.go: encryptString and decryptString.
  pub encrypt_string : ℕ → Bytes → Bytes → ℕ → Option Bytes
  unfolding encrypt_storage_blob
  encrypt_string call key plaintext padded_length =
      if ltb padded_length (length plaintext)
      then none
      else encrypt_storage_blob call key
          (plaintext ++ replicate (padded_length - length plaintext) 0)

  pub decrypt_string : Bytes → Bytes → Option Bytes
  unfolding decrypt_bytes trim_right
  decrypt_string key encrypted_text = do
    decrypted ← decrypt_bytes key encrypted_text
    some (trim_right decrypted)
