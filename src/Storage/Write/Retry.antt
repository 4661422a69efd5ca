-- ===== src/Storage/Write/Retry.antt =====
-- What modifyStorage promises of a storage service that checks versions.
use mautrix_signal.Common.{
  ℕ, zero, suc, ◌+◌, ◌%◌, ◌^◌, ◌<◌, ◌≡◌, ◌⊎◌, inl, inr, refl, sym, ap, subst, Bool, true, false,
  Option, none, some, List, [], ◌∷◌, arith,
}
use mautrix_signal.Storage.Records.{
  Bytes, Manifest, DecryptedRecord, Edit, Snapshot, encryption_failed, Result, ok, err, panic,
  ◌>>=◌,
}
use mautrix_signal.Storage.Crypto.{Ciphers, encrypt_storage_manifest}
use mautrix_signal.Storage.Crypto.RoundTrip.{VersionIs, encrypt_manifest-VersionIs}
use mautrix_signal.Storage.Write.{
  WriteOperation, BuiltStorageWrite, Building, build_edits, finish_write, build_storage_write,
  new_manifest, no_edits_yet, of_option, StorageApi, wanted_ids, after_write, after_build,
  after_mutate, after_records, after_manifest, modify_attempts, modify_storage,
  max_storage_write_retries,
}

abbrev HasVersion : ℕ → Result BuiltStorageWrite → Type 0
HasVersion v (ok built) = built.op.manifest.0 ≡ v
HasVersion v (err e) = Unit {0}
HasVersion v panic = Unit {0}

bind_HasVersion :
    {A : Type 0} (v : ℕ) (r : Result A) (f : A → Result BuiltStorageWrite)
    → ((a : A) → HasVersion v (f a))
    → HasVersion v (r >>= f)
bind_HasVersion v (ok a) f h = h a
bind_HasVersion v (err e) f h = tt
bind_HasVersion v panic f h = tt

-- Every write that is built is for the version after the manifest's.
build_storage_write-version :
    (ciphers : Ciphers) (calls : ℕ) (key : Bytes) (m : Manifest) (device : ℕ) (edits : List Edit)
    → HasVersion ((m.version + 1) % 2 ^ 64) (build_storage_write ciphers calls key m device edits)
unfolding build_storage_write finish_write
build_storage_write-version ciphers calls key m device [] = tt
build_storage_write-version ciphers calls key m device (e ∷ es) =
    bind_HasVersion ((m.version + 1) % 2 ^ 64)
      (build_edits ciphers key m.record_ikm (e ∷ es) (no_edits_yet m calls)) _
      (λ b.
        encrypted b
          (encrypt_storage_manifest ciphers b.calls key (new_manifest m device b.identifiers))
          (encrypt_manifest-VersionIs ciphers b.calls key (new_manifest m device b.identifiers)))
  where
    encrypted :
        (b : Building) (o : Option (ℕ × Bytes))
        → VersionIs ((m.version + 1) % 2 ^ 64) o
        → HasVersion ((m.version + 1) % 2 ^ 64) (
            of_option encryption_failed o >>= λ v. ok (record {
              op = record { manifest = v; insert_item = b.insert_item; delete_key = b.delete_key };
              new_records = b.new_records;
            }))
    encrypted b none h = tt
    encrypted b (some v) h = h

-- Between two looks at the service the manifest stays, or it is a later one.
abbrev pub Evolves : Manifest → Manifest → Type 0
Evolves a b = (a ≡ b) ⊎ (a.version < b.version)

-- A service with a current manifest, which others may replace by later ones while records are fetched.
-- It gives out the current one, and takes a write only for the version after it.
pub record IsVersioned {S : Type 0} (api : StorageApi S) (current : S → Manifest) : Type 0 where
  pub fetched : (s t : S) (m : Manifest) → api.fetch_manifest s ≡ (t, ok (some m)) → m ≡ current t
  pub evolves :
      (s t : S) (ikm : Bytes) (ids : List (Bytes × ℕ)) (r : Result (List DecryptedRecord))
      → api.fetch_records ikm ids s ≡ (t, r)
      → Evolves (current s) (current t)
  pub checked :
      (s t : S) (op : WriteOperation)
      → api.write_storage op s ≡ (t, ok false)
      → op.manifest.0 ≡ (current s).version + 1

module _ (ciphers : Ciphers) (storage_key : Bytes) (source_device : ℕ) (wanted : List ℕ)
    (mutate : Snapshot → Result (List Edit)) where
  module _ {S : Type 0} (api : StorageApi S) (calls : ℕ → ℕ) (current : S → Manifest)
      (versioned : IsVersioned api current) where
    -- The write was taken, and was built from the manifest that was current then.
    abbrev pub IsUpToDate : BuiltStorageWrite → Type 0
    IsUpToDate built =
        (before : S) × (attempt : ℕ) × (edits : List Edit) × (build_storage_write ciphers
            (calls attempt) storage_key (current before) source_device edits
          ≡ ok built)
        × ((api.write_storage built.op before).1 ≡ ok false)

    abbrev pub NothingLost : S × Result (Option BuiltStorageWrite) → Type 0
    NothingLost (s, ok (some built)) = IsUpToDate built
    NothingLost (s, ok none) = Unit {0}
    NothingLost (s, err e) = Unit {0}
    NothingLost (s, panic) = Unit {0}

    fits_version :
        (a b : Manifest) (v : ℕ)
        → Evolves a b
        → v ≡ (a.version + 1) % 2 ^ 64
        → v ≡ b.version + 1
        → a ≡ b
    fits_version a b v (inl e) h k = e
    fits_version a b v (inr l) h k = absurd (omega arith)

    write_NothingLost :
        (retry : S → S × Result (Option BuiltStorageWrite)) (attempt : ℕ) (m : Manifest) (s : S)
        (edits : List Edit) (built : BuiltStorageWrite) (r : S × Result Bool)
        → ((t : S) → NothingLost (retry t))
        → Evolves m (current s)
        → build_storage_write ciphers (calls attempt) storage_key m source_device edits ≡ ok built
        → api.write_storage built.op s ≡ r
        → NothingLost
            (after_write ciphers storage_key source_device wanted mutate api calls retry built r)
    write_NothingLost retry attempt m s edits built (t, ok true) h v e w = h t
    write_NothingLost retry attempt m s edits built (t, err x) h v e w = tt
    write_NothingLost retry attempt m s edits built (t, panic) h v e w = tt
    write_NothingLost retry attempt m s edits built (t, ok false) h v e w =
        let next =
          subst (HasVersion ((m.version + 1) % 2 ^ 64)) e (
            build_storage_write-version ciphers (calls attempt) storage_key m source_device
              edits) in
        let same =
          fits_version m (current s) built.op.manifest.0 v next
            (versioned.checked s t built.op w) in
        (
          s,
          attempt,
          edits,
          subst
              (λ n.
                build_storage_write ciphers (calls attempt) storage_key n source_device edits
                ≡ ok built)
              same e,
          ap (λ (p : S × Result Bool). p.1) w,
        )

    -- The steps of an attempt, from the last to the first.
    build_NothingLost :
        (retry : S → S × Result (Option BuiltStorageWrite)) (attempt : ℕ) (m : Manifest) (s : S)
        (edits : List Edit) (r : Result BuiltStorageWrite)
        → ((t : S) → NothingLost (retry t))
        → Evolves m (current s)
        → build_storage_write ciphers (calls attempt) storage_key m source_device edits ≡ r
        → NothingLost
            (after_build ciphers storage_key source_device wanted mutate api calls retry s r)
    build_NothingLost retry attempt m s edits (err x) h v e = tt
    build_NothingLost retry attempt m s edits panic h v e = tt
    build_NothingLost retry attempt m s edits (ok built) h v e =
        write_NothingLost retry attempt m s edits built (api.write_storage built.op s) h v e refl

    mutate_NothingLost :
        (retry : S → S × Result (Option BuiltStorageWrite)) (attempt : ℕ) (m : Manifest) (s : S)
        (r : Result (List Edit))
        → ((t : S) → NothingLost (retry t))
        → Evolves m (current s)
        → NothingLost (
            after_mutate ciphers storage_key source_device wanted mutate api calls retry attempt m s
              r)
    unfolding after_mutate
    mutate_NothingLost retry attempt m s (err x) h v = tt
    mutate_NothingLost retry attempt m s panic h v = tt
    mutate_NothingLost retry attempt m s (ok []) h v = tt
    mutate_NothingLost retry attempt m s (ok (e ∷ es)) h v =
        build_NothingLost retry attempt m s (e ∷ es)
          (build_storage_write ciphers (calls attempt) storage_key m source_device (e ∷ es)) h v
          refl

    records_NothingLost :
        (retry : S → S × Result (Option BuiltStorageWrite)) (attempt : ℕ) (m : Manifest)
        (r : S × Result (List DecryptedRecord))
        → ((t : S) → NothingLost (retry t))
        → Evolves m (current r.0)
        → NothingLost (
            after_records ciphers storage_key source_device wanted mutate api calls retry attempt m
              r)
    unfolding after_records
    records_NothingLost retry attempt m (s, err x) h v = tt
    records_NothingLost retry attempt m (s, panic) h v = tt
    records_NothingLost retry attempt m (s, ok records) h v =
        mutate_NothingLost retry attempt m s (mutate (record { manifest = m; records = records })) h
          v

    manifest_NothingLost :
        (retry : S → S × Result (Option BuiltStorageWrite)) (attempt : ℕ) (s : S)
        (r : S × Result (Option Manifest))
        → ((t : S) → NothingLost (retry t))
        → api.fetch_manifest s ≡ r
        → NothingLost (
            after_manifest ciphers storage_key source_device wanted mutate api calls retry attempt
              r)
    unfolding after_manifest
    manifest_NothingLost retry attempt s (t, err x) h e = tt
    manifest_NothingLost retry attempt s (t, panic) h e = tt
    manifest_NothingLost retry attempt s (t, ok none) h e = tt
    manifest_NothingLost retry attempt s (t, ok (some m)) h e =
        let ids = wanted_ids ciphers.to_base64 m.identifiers wanted [] in
        let fetched = api.fetch_records m.record_ikm ids t in
        records_NothingLost retry attempt m fetched h (
          subst (λ n. Evolves n (current fetched.0)) (sym (versioned.fetched s t m e))
            (versioned.evolves t fetched.0 m.record_ikm ids fetched.1 refl))

    attempts_NothingLost :
        (left attempt : ℕ) (s : S)
        → NothingLost (
            modify_attempts ciphers storage_key source_device wanted mutate api calls left attempt
              s)
    unfolding modify_attempts
    attempts_NothingLost zero attempt s = tt
    attempts_NothingLost (suc left) attempt s =
        manifest_NothingLost
          (modify_attempts ciphers storage_key source_device wanted mutate api calls left
            (attempt + 1))
          attempt s (api.fetch_manifest s) (λ t. attempts_NothingLost left (attempt + 1) t) refl

    -- When modifyStorage reports a write, a service that checks versions has taken it, and it was built
    -- from the manifest that was current at that moment, so that it undoes no write of another device.
    pub modify_storage-NothingLost :
        (s : S)
        → NothingLost (modify_storage ciphers storage_key source_device wanted mutate api calls s)
    unfolding modify_storage
    modify_storage-NothingLost s = attempts_NothingLost max_storage_write_retries 0 s
