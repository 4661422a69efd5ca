-- ===== src/Storage/Settings/Fields.antt =====
-- Changing the mute, archive and unread fields of a contact or group.
use mautrix_signal.Common.{
  ◌≡◌, refl, sym, ap, ◌∙◌, ◌==◌, ==→eq, ==_refl, if_cases, Bool, true, false, ◌||◌, Option, none,
  some, arith,
}
use mautrix_signal.Chats.Settings.{bool_eq}
use mautrix_signal.Storage.Records.{ChatFields, StorageRecord, contact, group, account, other}
use mautrix_signal.Storage.Settings.{
  ChatSettingsChange, set_field, change_fields, apply_chat_fields,
}

abbrev or_keep : {A : Type 0} → Option A → A → A
or_keep none old = old
or_keep (some new) old = new

-- The fields with those that the change gives.
abbrev pub override : ChatSettingsChange → ChatFields → ChatFields
override c f = record {
  muted_until = or_keep c.muted_until f.muted_until;
  archived = or_keep c.archived f.archived;
  marked_unread = or_keep c.marked_unread f.marked_unread;
}

abbrev pub override_record : ChatSettingsChange → StorageRecord → StorageRecord
override_record c (contact r) = contact (record r { fields = override c r.fields })
override_record c (group r) = group (record r { fields = override c r.fields })
override_record c (account r) = account r
override_record c (other r) = other r

abbrev pub IsChatRecord : StorageRecord → Type 0
IsChatRecord (contact r) = Unit {0}
IsChatRecord (group r) = Unit {0}
IsChatRecord (account r) = ⊥
IsChatRecord (other r) = ⊥

bool_eq→eq : (a b : Bool) → bool_eq a b ≡ true → a ≡ b
bool_eq→eq true b h = sym h
bool_eq→eq false true h = h
bool_eq→eq false false h = refl

bool_eq_refl : (a : Bool) → bool_eq a a ≡ true
bool_eq_refl true = refl
bool_eq_refl false = refl

-- A field that is set reads as the new value, and setting it again changes nothing.
module _ {A : Type 0} (same : A → A → Bool) where
  set_field-or_keep :
      ((a b : A) → same a b ≡ true → a ≡ b)
      → (new : Option A) (old : A) → (set_field same new old).0 ≡ or_keep new old
  set_field-or_keep sound none old = refl
  set_field-or_keep sound (some new) old =
      if_cases (λ (r : A × Bool). r.0 ≡ new) (same old new) (λ q. sound old new q) (λ _. refl)

  set_field_again :
      ((a : A) → same a a ≡ true)
      → (new : Option A) (old : A) → set_field same new (or_keep new old) ≡ (or_keep new old, false)
  set_field_again reflexive none old = refl
  set_field_again reflexive (some new) old = rw (reflexive new) refl

  set_field_unchanged :
      (new : Option A) (old : A)
      → (set_field same new old).1 ≡ false
      → (set_field same new old).0 ≡ old
  set_field_unchanged none old = λ h. refl
  set_field_unchanged (some new) old =
      if_cases (λ (r : A × Bool). r.1 ≡ false → r.0 ≡ old) (same old new) (λ _ _. refl)
        (λ _ h. absurd (ground arith))

change_fields-override :
    (c : ChatSettingsChange) (f : ChatFields) → (change_fields c f).0 ≡ override c f
unfolding change_fields
change_fields-override c f = λ i. record {
  muted_until = set_field-or_keep (◌==◌) ==→eq c.muted_until f.muted_until i;
  archived = set_field-or_keep bool_eq bool_eq→eq c.archived f.archived i;
  marked_unread = set_field-or_keep bool_eq bool_eq→eq c.marked_unread f.marked_unread i;
}

change_fields_again :
    (c : ChatSettingsChange) (f : ChatFields)
    → change_fields c (override c f) ≡ (override c f, false)
unfolding change_fields
change_fields_again c f =
    rw
      (
        change_fields,
        set_field_again (◌==◌) ==_refl c.muted_until f.muted_until,
        set_field_again bool_eq bool_eq_refl c.archived f.archived,
        set_field_again bool_eq bool_eq_refl c.marked_unread f.marked_unread,
      )
      refl

none_changed : (a b c : Bool) → (a || b || c) ≡ false → (a ≡ false) × (b ≡ false) × (c ≡ false)
none_changed a b c h = ground arith

change_fields_unchanged :
    (c : ChatSettingsChange) (f : ChatFields)
    → (change_fields c f).1 ≡ false
    → (change_fields c f).0 ≡ f
unfolding change_fields
change_fields_unchanged c f h =
    let (h1, h2, h3) = none_changed _ _ _ h in
    λ i. record {
      muted_until = set_field_unchanged (◌==◌) c.muted_until f.muted_until h1 i;
      archived = set_field_unchanged bool_eq c.archived f.archived h2 i;
      marked_unread = set_field_unchanged bool_eq c.marked_unread f.marked_unread h3 i;
    }

-- Applying a change to a contact or group gives the record with the fields of the change and nothing
-- else changed; applying it again is no change.
pub apply_chat_fields-override :
    (r : StorageRecord) (c : ChatSettingsChange)
    → IsChatRecord r
    → ((apply_chat_fields r c).0 ≡ some (override_record c r))
      × ((apply_chat_fields r c).1 ≡ false → override_record c r ≡ r)
      × (apply_chat_fields (override_record c r) c ≡ (some (override_record c r), false))
unfolding apply_chat_fields
apply_chat_fields-override (contact r) c h = (
  ap (λ f. some (contact (record r { fields = f }))) (change_fields-override c r.fields),
  (λ q.
      ap (λ f. contact (record r { fields = f }))
        (sym (change_fields-override c r.fields) ∙ change_fields_unchanged c r.fields q)),
  ap (λ (p : ChatFields × Bool). (some (contact (record r { fields = p.0 })), p.1))
      (change_fields_again c r.fields),
)
apply_chat_fields-override (group r) c h = (
  ap (λ f. some (group (record r { fields = f }))) (change_fields-override c r.fields),
  (λ q.
      ap (λ f. group (record r { fields = f }))
        (sym (change_fields-override c r.fields) ∙ change_fields_unchanged c r.fields q)),
  ap (λ (p : ChatFields × Bool). (some (group (record r { fields = p.0 })), p.1))
      (change_fields_again c r.fields),
)
apply_chat_fields-override (account r) c h = absurd h
apply_chat_fields-override (other r) c h = absurd h
