-- ===== src/Storage/Write.antt =====
-- pkg/signalmeow/storagewrite.go: building a write operation, and the loop that writes it.
pub mod Built
pub mod Retry
use mautrix_signal.Common.{
  ℕ, zero, suc, ◌+◌, ◌*◌, ◌%◌, ◌^◌, ◌==◌, if◌then◌else◌, Bool, true, false, ◌||◌, Option, none,
  some, List, [], ◌∷◌, ◌++◌, list_eq, length, store_key,
}
use mautrix_signal.Groups.Change.{contains_func}
use mautrix_signal.Storage.Records.{
  Bytes, StorageRecord, Identifier, Manifest, DecryptedRecord, Edit, Snapshot, Error,
  storage_conflict, nothing_to_do, edited_twice, invalid_storage_id, not_in_manifest,
  encryption_failed, no_manifest, Result, ok, err, panic, ◌>>=◌,
}
use mautrix_signal.Storage.Crypto.{Ciphers, encrypt_storage_record, encrypt_storage_manifest}

abbrev pub storage_item_id_length : ℕ
storage_item_id_length = 16

abbrev pub max_storage_write_retries : ℕ
max_storage_write_retries = 5

pub record StorageItem : Type 0 where
  pub key : Bytes
  pub value : Bytes

-- The manifest is its version and its encrypted value.
pub record WriteOperation : Type 0 where
  pub manifest : ℕ × Bytes
  pub insert_item : List StorageItem
  pub delete_key : List Bytes

pub record BuiltStorageWrite : Type 0 where
  pub op : WriteOperation
  pub new_records : List DecryptedRecord

-- What the loop of buildStorageWrite changes, with the number of calls of random.Bytes so far.
pub record Building : Type 0 where
  pub identifiers : List Identifier
  pub insert_item : List StorageItem
  pub delete_key : List Bytes
  pub new_records : List DecryptedRecord
  pub replaced : List Bytes
  pub calls : ℕ

abbrev swapped : Bytes → Identifier → Option (ℕ × List Identifier) → Option (ℕ × List Identifier)
swapped new_id ident none = none
swapped new_id ident (some (typ, rest)) = some (typ, ident ∷ rest)

-- The first identifier with the old ID gets the new one: its type, and the identifiers then.
pub swap_identifier : Bytes → Bytes → List Identifier → Option (ℕ × List Identifier)
swap_identifier old_raw new_id [] = none
swap_identifier old_raw new_id (ident ∷ idents) =
    let later = swapped new_id ident (swap_identifier old_raw new_id idents) in
    if list_eq ident.raw old_raw
    then some (ident.typ, record ident { raw = new_id } ∷ idents)
    else later

abbrev pub of_option : {A : Type 0} → Error → Option A → Result A
of_option e none = err e
of_option e (some a) = ok a

abbrev pub no_edits_yet : Manifest → ℕ → Building
no_edits_yet manifest calls = record {
  identifiers = manifest.identifiers;
  insert_item = [];
  delete_key = [];
  new_records = [];
  replaced = [];
  calls = calls;
}

abbrev pub new_manifest : Manifest → ℕ → List Identifier → Manifest
new_manifest manifest source_device identifiers = record manifest {
  version = (manifest.version + 1) % 2 ^ 64;
  source_device = source_device;
  identifiers = identifiers;
}

module _ (ciphers : Ciphers) where
  open ciphers use {random, to_base64, of_base64}

  -- One round of the loop over the edits.
  pub build_edit : Bytes → Bytes → Edit → Building → Result Building
  unfolding swap_identifier
  build_edit storage_key record_ikm edit b =
      if contains_func (list_eq edit.old_id) b.replaced then err edited_twice else (do
        old_raw ← of_option invalid_storage_id (of_base64 edit.old_id)
        let new_id = random b.calls storage_item_id_length
        (typ, identifiers) ←
            of_option not_in_manifest (swap_identifier old_raw new_id b.identifiers)
        encrypted ← of_option encryption_failed (
            encrypt_storage_record ciphers (b.calls + 1) storage_key record_ikm new_id edit.content)
        ok (record {
          identifiers = identifiers;
          insert_item = b.insert_item ++ record { key = new_id; value = encrypted } ∷ [];
          delete_key = b.delete_key ++ old_raw ∷ [];
          new_records =
              b.new_records
              ++ record { item_type = typ; storage_id = to_base64 new_id; content = edit.content }
                ∷ [];
          replaced = edit.old_id ∷ b.replaced;
          calls = b.calls + 2;
        }))

  pub build_edits : Bytes → Bytes → List Edit → Building → Result Building
  unfolding build_edit
  build_edits storage_key record_ikm [] b = ok b
  build_edits storage_key record_ikm (edit ∷ edits) b = do
    next ← build_edit storage_key record_ikm edit b
    build_edits storage_key record_ikm edits next

  pub finish_write : Bytes → Manifest → ℕ → Building → Result BuiltStorageWrite
  finish_write storage_key manifest source_device b = do
    encrypted ← of_option encryption_failed (
        encrypt_storage_manifest ciphers b.calls storage_key
          (new_manifest manifest source_device b.identifiers))
    ok (record {
      op = record { manifest = encrypted; insert_item = b.insert_item; delete_key = b.delete_key };
      new_records = b.new_records;
    })

  -- `calls` is the number of calls of random.Bytes before this one.
  pub build_storage_write : ℕ → Bytes → Manifest → ℕ → List Edit → Result BuiltStorageWrite
  unfolding build_edits finish_write
  build_storage_write calls storage_key manifest source_device [] = err nothing_to_do
  build_storage_write calls storage_key manifest source_device (e ∷ es) = do
    b ← build_edits storage_key manifest.record_ikm (e ∷ es) (no_edits_yet manifest calls)
    finish_write storage_key manifest source_device b

-- The storage service, with the state that it and the network keep. A call fails, or it returns: a
-- manifest or none, the records of some IDs, and whether a write conflicts.
pub record StorageApi (S : Type 0) : Type 0 where
  pub fetch_manifest : S → S × Result (Option Manifest)
  pub fetch_records : Bytes → List (Bytes × ℕ) → S → S × Result (List DecryptedRecord)
  pub write_storage : WriteOperation → S → S × Result Bool

-- The loops that collect the IDs of the wanted types, as a map to the type.
abbrev wanted_ident : (Bytes → Bytes) → Identifier → List ℕ → List (Bytes × ℕ) → List (Bytes × ℕ)
wanted_ident to_base64 ident [] ids = ids
wanted_ident to_base64 ident (typ ∷ types) ids =
    wanted_ident to_base64 ident types
      (if ident.typ == typ then store_key (to_base64 ident.raw) typ ids else ids)

pub wanted_ids : (Bytes → Bytes) → List Identifier → List ℕ → List (Bytes × ℕ) → List (Bytes × ℕ)
wanted_ids to_base64 [] wanted ids = ids
wanted_ids to_base64 (ident ∷ idents) wanted ids =
    wanted_ids to_base64 idents wanted (wanted_ident to_base64 ident wanted ids)

module _ (ciphers : Ciphers) (storage_key : Bytes) (source_device : ℕ) (wanted : List ℕ)
    (mutate : Snapshot → Result (List Edit)) where
  module _ {S : Type 0} (api : StorageApi S) (calls : ℕ → ℕ) where
    abbrev pub Attempt : Type 0
    Attempt = S × Result (Option BuiltStorageWrite)

    -- After the write: the next attempt if there is a conflict.
    abbrev pub after_write : (S → Attempt) → BuiltStorageWrite → S × Result Bool → Attempt
    after_write retry built (s, ok true) = retry s
    after_write retry built (s, ok false) = (s, ok (some built))
    after_write retry built (s, err e) = (s, err e)
    after_write retry built (s, panic) = (s, panic)

    abbrev pub after_build : (S → Attempt) → S → Result BuiltStorageWrite → Attempt
    after_build retry s (ok built) = after_write retry built (api.write_storage built.op s)
    after_build retry s (err e) = (s, err e)
    after_build retry s panic = (s, panic)

    abbrev pub after_mutate : (S → Attempt) → ℕ → Manifest → S → Result (List Edit) → Attempt
    unfolding build_storage_write
    after_mutate retry attempt manifest s (ok []) = (s, ok none)
    after_mutate retry attempt manifest s (ok (e ∷ es)) =
        after_build retry s
          (build_storage_write ciphers (calls attempt) storage_key manifest source_device (e ∷ es))
    after_mutate retry attempt manifest s (err e) = (s, err e)
    after_mutate retry attempt manifest s panic = (s, panic)

    abbrev pub after_records :
        (S → Attempt) → ℕ → Manifest → S × Result (List DecryptedRecord) → Attempt
    unfolding after_mutate
    after_records retry attempt manifest (s, ok records) =
        after_mutate retry attempt manifest s
          (mutate (record { manifest = manifest; records = records }))
    after_records retry attempt manifest (s, err e) = (s, err e)
    after_records retry attempt manifest (s, panic) = (s, panic)

    abbrev pub after_manifest : (S → Attempt) → ℕ → S × Result (Option Manifest) → Attempt
    unfolding wanted_ids after_records
    after_manifest retry attempt (s, ok (some manifest)) = after_records retry attempt manifest (
        api.fetch_records manifest.record_ikm
          (wanted_ids ciphers.to_base64 manifest.identifiers wanted []) s)
    after_manifest retry attempt (s, ok none) = (s, err no_manifest)
    after_manifest retry attempt (s, err e) = (s, err e)
    after_manifest retry attempt (s, panic) = (s, panic)

    -- The loop with the attempts that are left.
    modify_attempts : ℕ → ℕ → S → Attempt
    unfolding after_manifest
    modify_attempts zero attempt s = (s, err storage_conflict)
    modify_attempts (suc left) attempt s =
        after_manifest (modify_attempts left (attempt + 1)) attempt (api.fetch_manifest s)

    -- `calls` says how often random.Bytes was called before an attempt.
    pub modify_storage : S → Attempt
    unfolding modify_attempts
    modify_storage s = modify_attempts max_storage_write_retries 0 s
