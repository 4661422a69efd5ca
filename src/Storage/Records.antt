-- ===== src/Storage/Records.antt =====
-- The protobuf records of the storage service, with the fields that pkg/signalmeow/storagewrite.go and
-- chatsettings.go read. `rest` stands for every other field, the unknown ones included. A missing text
-- or byte string is the empty one, as the getters give it.
use mautrix_signal.Common.{ℕ, Bool, List}

abbrev pub Bytes : Type 0
Bytes = List ℕ

-- The three fields that contacts and groups have.
pub record ChatFields : Type 0 where
  pub muted_until : ℕ
  pub archived : Bool
  pub marked_unread : Bool

pub record ContactRecord : Type 0 where
  pub aci : Bytes
  pub aci_binary : Bytes
  pub pni : Bytes
  pub pni_binary : Bytes
  pub e164 : Bytes
  pub fields : ChatFields
  pub rest : Bytes

pub record GroupRecord : Type 0 where
  pub master_key : Bytes
  pub fields : ChatFields
  pub rest : Bytes

pub record PinnedContact : Type 0 where
  pub service_id : Bytes
  pub service_id_binary : Bytes
  pub e164 : Bytes

pub data Pin : Type 0 where
  pin_contact : PinnedContact → Pin
  pin_group : Bytes → Pin
  pin_other : Pin

pub record AccountRecord : Type 0 where
  pub pinned : List Pin
  pub rest : Bytes

pub data StorageRecord : Type 0 where
  contact : ContactRecord → StorageRecord
  group : GroupRecord → StorageRecord
  account : AccountRecord → StorageRecord
  other : Bytes → StorageRecord

abbrev pub type_contact : ℕ
type_contact = 1

abbrev pub type_group : ℕ
type_group = 3

abbrev pub type_account : ℕ
type_account = 4

pub record Identifier : Type 0 where
  pub raw : Bytes
  pub typ : ℕ

pub record Manifest : Type 0 where
  pub version : ℕ
  pub source_device : ℕ
  pub record_ikm : Bytes
  pub identifiers : List Identifier
  pub rest : Bytes

pub record DecryptedRecord : Type 0 where
  pub item_type : ℕ
  pub storage_id : Bytes
  pub content : StorageRecord

pub record Edit : Type 0 where
  pub old_id : Bytes
  pub content : StorageRecord

pub record Snapshot : Type 0 where
  pub manifest : Manifest
  pub records : List DecryptedRecord

pub data Error : Type 0 where
  no_storage_record no_account_record too_many_pinned storage_conflict nothing_to_do : Error
  no_group_master_key not_an_account edited_twice invalid_storage_id not_in_manifest : Error
  encryption_failed no_manifest request_failed : Error

-- A call returns a value or an error, or it panics.
pub data Result (A : Type 0) : Type 0 where
  ok : A → Result A
  err : Error → Result A
  panic : Result A

infixl 5 ◌>>=◌
abbrev pub ◌>>=◌ : {A B : Type 0} → Result A → (A → Result B) → Result B
ok a >>= f = f a
err e >>= f = err e
panic >>= f = panic
