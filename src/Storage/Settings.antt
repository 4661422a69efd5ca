-- ===== src/Storage/Settings.antt =====
-- pkg/signalmeow/storagewrite.go: from a change of chat settings to edits of storage records.
pub mod Pins
pub mod Fields
use mautrix_signal.Common.{
  ℕ, leb, ltb, ◌==◌, if◌then◌else◌, Bool, true, false, not, ◌&&◌, ◌||◌, Option, none, some, List,
  [], ◌∷◌, ◌++◌, length, list_eq,
}
use mautrix_signal.Signalid.Uuid.{UuidText, nil_uuid}
use mautrix_signal.Signalid.ServiceId.{
  ServiceId, type_aci, is_empty, to_bytes, from_bytes, to_string, from_string,
}
use mautrix_signal.Chats.Settings.{bool_eq}
use mautrix_signal.Groups.Change.{service_id_eq}
use mautrix_signal.Storage.Records.{
  Bytes, ChatFields, ContactRecord, PinnedContact, Pin, pin_contact, pin_group, pin_other,
  StorageRecord, contact, group, account, other, type_contact, type_group, type_account,
  DecryptedRecord, Edit, Snapshot, no_storage_record, no_account_record, too_many_pinned,
  no_group_master_key, not_an_account, Result, ok, err, panic, ◌>>=◌,
}

abbrev pub max_pinned_chats : ℕ
max_pinned_chats = 4

abbrev pub group_master_key_length : ℕ
group_master_key_length = 32

-- UUID texts, what uuid.Parse returns beside an error, and libsignal's group identifier of a master key.
pub record Libraries : Type 0 where
  pub uuid_text : UuidText
  pub parse_left : Bytes → Bytes
  pub group_identifier : Bytes → Option Bytes

pub record ChatRef : Type 0 where
  pub service_id : ServiceId
  pub group_id : Bytes
  pub group_master_key : Bytes

pub record ChatSettingsChange : Type 0 where
  pub muted_until : Option ℕ
  pub archived : Option Bool
  pub marked_unread : Option Bool
  pub pinned : Option Bool

abbrev pub is_set : {A : Type 0} → Option A → Bool
is_set none = false
is_set (some a) = true

abbrev pub present : Bytes → Bool
present [] = false
present (b ∷ bs) = true

pub needs_chat_record : ChatSettingsChange → Bool
needs_chat_record c = is_set c.muted_until || is_set c.archived || is_set c.marked_unread

pub wanted_record_types : ChatSettingsChange → ChatRef → List ℕ
unfolding needs_chat_record
wanted_record_types c chat =
    (if needs_chat_record c || (is_set c.pinned && not (present chat.group_id))
      then (if present chat.group_id then type_group ∷ [] else type_contact ∷ [])
      else [])
    ++ (if is_set c.pinned then type_account ∷ [] else [])

-- One field of applyChatFields, and whether it changed.
abbrev pub set_field : {A : Type 0} → (A → A → Bool) → Option A → A → A × Bool
set_field same none old = (old, false)
set_field same (some new) old = if same old new then (old, false) else (new, true)

unfoldable pub change_fields : ChatSettingsChange → ChatFields → ChatFields × Bool
change_fields c f =
    let (muted, c1) = set_field (◌==◌) c.muted_until f.muted_until in
    let (archived, c2) = set_field bool_eq c.archived f.archived in
    let (unread, c3) = set_field bool_eq c.marked_unread f.marked_unread in
    (record { muted_until = muted; archived = archived; marked_unread = unread }, c1 || c2 || c3)

unfoldable pub apply_chat_fields : StorageRecord → ChatSettingsChange → Option StorageRecord × Bool
unfolding change_fields
apply_chat_fields (contact r) c =
    let (fields, changed) = change_fields c r.fields in
    (some (contact (record r { fields = fields })), changed)
apply_chat_fields (group r) c =
    let (fields, changed) = change_fields c r.fields in
    (some (group (record r { fields = fields })), changed)
apply_chat_fields (account r) c = (none, false)
apply_chat_fields (other r) c = (none, false)

pub find_account_record : List DecryptedRecord → Option DecryptedRecord
find_account_record [] = none
find_account_record (r ∷ rs) = elim r.content [ account a ↦ some r | _ ↦ find_account_record rs ]

abbrev pub contact_of : StorageRecord → Option ContactRecord
contact_of (contact r) = some r
contact_of (group r) = none
contact_of (account r) = none
contact_of (other r) = none

abbrev pub is_group : Option Bytes → Bytes → Bool
is_group none group_id = false
is_group (some g) group_id = list_eq g group_id

abbrev pub unless_empty : Option ServiceId → Option ServiceId
unless_empty none = none
unless_empty (some s) = if is_empty s then none else some s

abbrev or_else : {A : Type 0} → Option A → Option A → Option A
or_else none b = b
or_else (some a) b = some a

abbrev pub is_service_id : Option ServiceId → ServiceId → Bool
is_service_id none s = false
is_service_id (some t) s = service_id_eq t s

abbrev uses_binary : Pin → Bool
uses_binary (pin_contact c) = not (present c.service_id) && present c.service_id_binary
uses_binary (pin_group key) = false
uses_binary pin_other = false

abbrev pub any_binary : List Pin → Bool
any_binary [] = false
any_binary (p ∷ ps) = uses_binary p || any_binary ps

abbrev pub record_is_binary : Option ContactRecord → Bool
record_is_binary none = false
record_is_binary (some r) = not (present r.aci) && present r.aci_binary

abbrev pub e164_of : Option ContactRecord → Bytes
e164_of none = []
e164_of (some r) = r.e164

abbrev text_pin : Bytes → Bytes → Result Pin
text_pin e164 t = ok (pin_contact (record { service_id = t; service_id_binary = []; e164 = e164 }))

-- The edit of a record that an update changed.
abbrev pub edit_if : DecryptedRecord → Option StorageRecord × Bool → List Edit
edit_if r (some updated, true) = record { old_id = r.storage_id; content = updated } ∷ []
edit_if r (some updated, false) = []
edit_if r (none, changed) = []

abbrev field_edits : ChatSettingsChange → Option DecryptedRecord → Result (List Edit)
unfolding needs_chat_record apply_chat_fields
field_edits change none = if needs_chat_record change then err no_storage_record else ok []
field_edits change (some r) =
    if needs_chat_record change then ok (edit_if r (apply_chat_fields r.content change)) else ok []

abbrev contact_record_of : Option DecryptedRecord → Option ContactRecord
contact_record_of none = none
contact_record_of (some r) = contact_of r.content

module _ (libraries : Libraries) where
  open libraries use {uuid_text, parse_left, group_identifier}

  -- The UUID that ParseStringOrBinaryUUID returns, also beside an error.
  pub parse_string_or_binary : Bytes → Bytes → Bytes
  parse_string_or_binary [] binary = if length binary == 16 then binary else nil_uuid
  parse_string_or_binary (c ∷ cs) binary = elim (uuid_text.parse (c ∷ cs)) [
    | none ↦ parse_left (c ∷ cs)
    | some u ↦ u
  ]

  unfoldable pub group_id_from_master_key : Bytes → Option Bytes
  group_id_from_master_key key =
      if length key == group_master_key_length then group_identifier key else none

  pub record_matches_chat : StorageRecord → ChatRef → Bool
  unfolding parse_string_or_binary group_id_from_master_key
  record_matches_chat (contact r) chat =
      if present chat.group_id || is_empty chat.service_id
      then false
      else (if chat.service_id.typ == type_aci
          then list_eq (parse_string_or_binary r.aci r.aci_binary) chat.service_id.uuid
          else list_eq (parse_string_or_binary r.pni r.pni_binary) chat.service_id.uuid)
  record_matches_chat (group r) chat =
      present chat.group_id && is_group (group_id_from_master_key r.master_key) chat.group_id
  record_matches_chat (account r) chat = false
  record_matches_chat (other r) chat = false

  pub find_chat_record : List DecryptedRecord → ChatRef → Option DecryptedRecord
  unfolding record_matches_chat
  find_chat_record [] chat = none
  find_chat_record (r ∷ rs) chat =
      if record_matches_chat r.content chat then some r else find_chat_record rs chat

  -- chatsettings.go: the binary form is preferred.
  unfoldable pub pinned_contact_service_id : PinnedContact → Option ServiceId
  pinned_contact_service_id c =
      or_else
        (if present c.service_id_binary
          then unless_empty (from_bytes c.service_id_binary)
          else none)
        (if present c.service_id then unless_empty (from_string uuid_text c.service_id) else none)

  unfoldable pub pin_matches_chat : ChatRef → Pin → Bool
  unfolding pinned_contact_service_id group_id_from_master_key
  pin_matches_chat chat (pin_contact c) =
      not (present chat.group_id) && is_service_id (pinned_contact_service_id c) chat.service_id
  pin_matches_chat chat (pin_group key) =
      present chat.group_id && is_group (group_id_from_master_key key) chat.group_id
  pin_matches_chat chat pin_other = false

  unfoldable pub new_pin_entry : ChatRef → Option ContactRecord → List Pin → Result Pin
  new_pin_entry chat contact_record existing =
      let e164 = e164_of contact_record in
      if present chat.group_id
      then (if length chat.group_master_key == group_master_key_length
          then ok (pin_group chat.group_master_key)
          else err no_group_master_key)
      else (if record_is_binary contact_record || any_binary existing
          then ok (
              pin_contact (record {
                service_id = [];
                service_id_binary = to_bytes chat.service_id;
                e164 = e164;
              }))
          else text_pin e164 (to_string uuid_text chat.service_id))

  -- The loop of applyPinChange: whether the chat is pinned, and the entries that are kept.
  pub scan_pins : ChatRef → Bool → List Pin → Bool × List Pin
  unfolding pin_matches_chat
  scan_pins chat pinned [] = (false, [])
  scan_pins chat pinned (p ∷ ps) =
      let (is_pinned, kept) = scan_pins chat pinned ps in
      if pin_matches_chat chat p
      then (true, if pinned then p ∷ kept else kept)
      else (is_pinned, p ∷ kept)

  abbrev pub add_pin : ChatRef → Option ContactRecord → List Pin → List Pin → Result (List Pin)
  unfolding new_pin_entry
  add_pin chat contact_record existing kept = do
    entry ← new_pin_entry chat contact_record existing
    ok (kept ++ entry ∷ [])

  -- The list of pins after a change, and whether it changed.
  pub change_pins : ChatRef → Bool → Option ContactRecord → List Pin → Result (List Pin × Bool)
  unfolding scan_pins add_pin
  change_pins chat pinned contact_record pins =
      let (is_pinned, kept) = scan_pins chat pinned pins in
      if bool_eq is_pinned pinned
      then ok (pins, false)
      else (if pinned
          then (if leb max_pinned_chats (length kept)
              then err too_many_pinned
              else (do new_pins ← add_pin chat contact_record pins kept; ok (new_pins, true)))
          else ok (kept, true))

  pub apply_pin_change :
      StorageRecord → ChatRef → Bool → Option ContactRecord → Result (StorageRecord × Bool)
  unfolding change_pins
  apply_pin_change (account a) chat pinned contact_record = do
    (pins, changed) ← change_pins chat pinned contact_record a.pinned
    ok (account (record a { pinned = pins }), changed)
  apply_pin_change (contact r) chat pinned contact_record = err not_an_account
  apply_pin_change (group r) chat pinned contact_record = err not_an_account
  apply_pin_change (other r) chat pinned contact_record = err not_an_account

  abbrev pin_edits :
      ChatRef → Option Bool → Option DecryptedRecord → Option DecryptedRecord → Result (List Edit)
  unfolding apply_pin_change
  pin_edits chat none chat_record account_record = ok []
  pin_edits chat (some pinned) chat_record none = err no_account_record
  pin_edits chat (some pinned) chat_record (some a) = do
    (updated, changed) ← apply_pin_change a.content chat pinned (contact_record_of chat_record)
    ok (edit_if a (some updated, changed))

  pub apply_chat_settings_change : Snapshot → ChatRef → ChatSettingsChange → Result (List Edit)
  unfolding field_edits pin_edits find_chat_record find_account_record
  apply_chat_settings_change snap chat change = do
    let chat_record = find_chat_record snap.records chat
    edits ← field_edits change chat_record
    more ← pin_edits chat change.pinned chat_record (find_account_record snap.records)
    ok (edits ++ more)
