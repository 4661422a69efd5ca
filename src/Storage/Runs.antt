-- ===== src/Storage/Runs.antt =====
-- Concrete ciphers and a concrete storage service, and the theorems at concrete inputs.
pub mod Ciphers
use mautrix_signal.Common.{
  ℕ, ◌+◌, ◌-◌, ◌%◌, ◌^◌, ◌≤◌, ◌<◌, ◌≡◌, ◌≢◌, inl, inr, refl, ap, ==→eq, Bool, true, false, ◌==◌,
  if◌then◌else◌, Option, some, none, List, [], ◌∷◌, ◌++◌, length, replicate, codes, map, arith,
}
use mautrix_signal.Signalid.ServiceId.{new_pni, is_empty}
use mautrix_signal.Signalid.Runs.{hex_text}
use mautrix_signal.Storage.Records.{
  Bytes, ChatFields, GroupRecord, StorageRecord, group, other, Pin, pin_group, pin_other,
  pin_contact, Identifier, Manifest, DecryptedRecord, Edit, Snapshot, Result, ok, err, panic,
}
use mautrix_signal.Storage.Crypto.{encrypt_string, decrypt_string}
use mautrix_signal.Storage.Crypto.RoundTrip.{decrypt-encrypt_string}
use mautrix_signal.Storage.Settings.{
  Libraries, ChatRef, ChatSettingsChange, change_pins, apply_chat_fields,
}
use mautrix_signal.Storage.Settings.Pins.{PinsChanged, change_pins-PinsChanged}
use mautrix_signal.Storage.Settings.Fields.{override_record, apply_chat_fields-override}
use mautrix_signal.Storage.Write.{
  WriteOperation, StorageApi, build_storage_write, modify_storage, new_manifest,
  storage_item_id_length,
}
use mautrix_signal.Storage.Write.Built.{Target, edit_of, WriteOf, build_storage_write-WriteOf}
use mautrix_signal.Storage.Write.Retry.{IsVersioned, NothingLost, modify_storage-NothingLost}
use mautrix_signal.Storage.Runs.Ciphers.{plain_ciphers, marshal_next}

abbrev some_libraries : Libraries
some_libraries = record {
  uuid_text = hex_text;
  parse_left = λ text. [];
  group_identifier = λ key. some (1 ∷ []);
}

abbrev a_contact : ChatRef
a_contact = record {
  service_id = new_pni (replicate 16 0xa7);
  group_id = [];
  group_master_key = [];
}

abbrev three_pins : List Pin
three_pins = pin_other ∷ pin_group (replicate 32 1) ∷ pin_other ∷ []

change_pins-PinsChanged_example :
    PinsChanged some_libraries a_contact true three_pins
      (change_pins some_libraries a_contact true none three_pins)
unfolding is_empty
change_pins-PinsChanged_example =
    change_pins-PinsChanged some_libraries a_contact true none three_pins
      (inr (refl, (inr refl, (refl, omega arith)), refl))

abbrev a_group : StorageRecord
a_group = group (record {
  master_key = replicate 32 1;
  fields = record { muted_until = 0; archived = false; marked_unread = true };
  rest = 9 ∷ [];
})

abbrev mute_it : ChatSettingsChange
mute_it = record {
  muted_until = some (2 ^ 63 - 1);
  archived = none;
  marked_unread = some false;
  pinned = none;
}

apply_chat_fields-override_example :
    ((apply_chat_fields a_group mute_it).0 ≡ some (override_record mute_it a_group))
    × ((apply_chat_fields a_group mute_it).1 ≡ false → override_record mute_it a_group ≡ a_group)
    × (apply_chat_fields (override_record mute_it a_group) mute_it
        ≡ (some (override_record mute_it a_group), false))
apply_chat_fields-override_example = apply_chat_fields-override a_group mute_it tt

decrypt-encrypt_string_example :
    (b : Bytes) × (encrypt_string plain_ciphers 0 (replicate 32 2) (codes "Tulir") 53 ≡ some b)
    × (decrypt_string plain_ciphers (replicate 32 2) b ≡ some (codes "Tulir"))
decrypt-encrypt_string_example =
    decrypt-encrypt_string plain_ciphers 0 (replicate 32 2) (codes "Tulir") 53 (inr (inr refl))
      (λ e. omega arith) (omega arith) (omega arith)

abbrev some_manifest : Manifest
some_manifest = record {
  version = 7;
  source_device = 1;
  record_ikm = [];
  identifiers = record { raw = 1 ∷ []; typ = 4 } ∷ record { raw = 2 ∷ []; typ = 3 } ∷ [];
  rest = 5 ∷ [];
}

abbrev a_target : Target
a_target = record { raw = 2 ∷ []; content = a_group }

not_drawn : (n : ℕ) → plain_ciphers.random n storage_item_id_length ≢ a_target.raw
not_drawn n e =
    absurd (omega (arith, plain_ciphers.length-random n storage_item_id_length, ap length e))

another_id : (1 ∷ []) ≢ a_target.raw
another_id e = absurd (ground (arith, ap first_byte e))
  where
    first_byte : Bytes → ℕ
    first_byte [] = 0
    first_byte (b ∷ bs) = b

build_storage_write-WriteOf_example :
    WriteOf plain_ciphers (3 ∷ []) some_manifest 2 (a_target ∷ []) (
      build_storage_write plain_ciphers 0
        (3 ∷ [])
        some_manifest
        2
        (map (edit_of plain_ciphers (3 ∷ [])) (a_target ∷ [])))
build_storage_write-WriteOf_example =
    build_storage_write-WriteOf plain_ciphers (3 ∷ []) 0 some_manifest 2 a_target []
      (marshal_next some_manifest 2) (λ n. (not_drawn n, tt))
      (inr (another_id, inl (refl, tt)), refl, (_, refl, omega arith), tt, tt)

-- A service whose state is its manifest. It takes the next version, as the identifiers do not matter.
abbrev take_next : WriteOperation → Manifest → Bool → Manifest × Result Bool
take_next op m true = (record m { version = m.version + 1 }, ok false)
take_next op m false = (m, ok true)

abbrev one_service : StorageApi Manifest
one_service = record {
  fetch_manifest = λ m. (m, ok (some m));
  fetch_records = λ ikm ids m. (m, ok []);
  write_storage = λ op m. take_next op m (op.manifest.0 == m.version + 1);
}

taken_version :
    (op : WriteOperation) (m t : Manifest) (b : Bool) → take_next op m b ≡ (t, ok false) → b ≡ true
taken_version op m t true e = refl
taken_version op m t false e = absurd (ground arith)

one_service-IsVersioned : IsVersioned one_service (λ m. m)
one_service-IsVersioned = record {
  fetched = λ s t m e. ground (arith, e);
  evolves = λ s t ikm ids r e. inl (ap (λ (p : Manifest × Result (List DecryptedRecord)). p.0) e);
  checked = λ s t op e.
      ==→eq op.manifest.0 (s.version + 1) (taken_version op s t (op.manifest.0 == s.version + 1) e);
}

abbrev edit_group : Snapshot → Result (List Edit)
edit_group snap = ok (record { old_id = 66 ∷ 2 ∷ []; content = a_group } ∷ [])

modify_storage-NothingLost_example :
    NothingLost plain_ciphers
      (3 ∷ [])
      2
      (3 ∷ [])
      edit_group
      one_service
      (λ attempt. 0)
      (λ m. m)
      one_service-IsVersioned
      (modify_storage plain_ciphers
        (3 ∷ [])
        2
        (3 ∷ [])
        edit_group
        one_service
        (λ attempt. 0)
        some_manifest)
modify_storage-NothingLost_example =
    modify_storage-NothingLost plain_ciphers (3 ∷ []) 2 (3 ∷ []) edit_group one_service
      (λ attempt. 0) (λ m. m) one_service-IsVersioned some_manifest
