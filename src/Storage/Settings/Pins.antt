-- ===== src/Storage/Settings/Pins.antt =====
-- Pinning and unpinning a chat.
use mautrix_signal.Common.{
  ℕ, ◌≤◌, ◌≡◌, ◌⊎◌, inl, inr, refl, ap, leb, ==_refl, if_cases, if◌then◌else◌, Bool-cases, Bool,
  true, false, ◌||◌, Option, some, List, [], ◌∷◌, ◌++◌, length, length-append, list_eq_refl, arith,
}
use mautrix_signal.Signalid.ServiceId.{ServiceId, is_empty, to_bytes, from_string}
use mautrix_signal.Signalid.ServiceId.RoundTrip.{
  IsValid, valid_cases, from_string-to_string, from_bytes-to_bytes,
}
use mautrix_signal.Groups.Change.{contains_func, delete_func, service_id_eq}
use mautrix_signal.Storage.Records.{
  Bytes, ContactRecord, Pin, pin_contact, pin_group, too_many_pinned, Result, ok, err, panic, ◌>>=◌,
}
use mautrix_signal.Storage.Settings.{
  Libraries, ChatRef, present, group_master_key_length, max_pinned_chats, pin_matches_chat,
  pinned_contact_service_id, group_id_from_master_key, new_pin_entry, scan_pins, change_pins,
  add_pin, record_is_binary, any_binary, e164_of,
}

service_id_eq_refl : (s : ServiceId) → service_id_eq s s ≡ true
service_id_eq_refl s = rw (==_refl s.typ, list_eq_refl s.uuid) refl

to_bytes-present : (s : ServiceId) → IsValid s → present (to_bytes s) ≡ true
unfolding to_bytes
to_bytes-present = valid_cases _ (λ u h. uuid_present u h.0) (λ u h. refl)
  where
    uuid_present : (u : List ℕ) → length u ≡ 16 → present u ≡ true
    uuid_present [] e = absurd (omega arith)
    uuid_present (b ∷ bs) e = refl

module _ (libraries : Libraries) where
  -- A group with its master key, or an ACI or PNI that is not empty.
  abbrev pub IsPinnable : ChatRef → Type 0
  IsPinnable chat =
      ((present chat.group_id ≡ true)
        × (length chat.group_master_key ≡ group_master_key_length)
        × (libraries.group_identifier chat.group_master_key ≡ some chat.group_id))
      ⊎ ((present chat.group_id ≡ false)
          × IsValid chat.service_id
          × (is_empty chat.service_id ≡ false))

  -- An entry in either form gives back the service ID that it was made of.
  binary_entry :
      (s : ServiceId) (e164 : Bytes)
      → IsValid s
      → is_empty s ≡ false
      → pinned_contact_service_id libraries
          (record { service_id = []; service_id_binary = to_bytes s; e164 = e164 })
        ≡ some s
  unfolding pinned_contact_service_id
  binary_entry s e164 h e =
      let (b, _, _) = from_bytes-to_bytes s h in rw (to_bytes-present s h, b, e) refl

  text_entry :
      (s : ServiceId) (text e164 : Bytes)
      → from_string libraries.uuid_text text ≡ some s
      → is_empty s ≡ false
      → pinned_contact_service_id libraries
          (record { service_id = text; service_id_binary = []; e164 = e164 })
        ≡ some s
  unfolding pinned_contact_service_id from_string
  text_entry s [] e164 h e = absurd (ground arith)
  text_entry s (c ∷ cs) e164 h e = rw (h, e) refl

  new_pin_entry-matches :
      (chat : ChatRef) (r : Option ContactRecord) (existing : List Pin)
      → IsPinnable chat
      → (entry : Pin) × (new_pin_entry libraries chat r existing ≡ ok entry)
        × (pin_matches_chat libraries chat entry ≡ true)
  unfolding new_pin_entry pin_matches_chat group_id_from_master_key
  new_pin_entry-matches chat r existing (inl (g, l, i)) = (
    pin_group chat.group_master_key,
    rw (g, l) refl,
    rw (g, l, i, list_eq_refl chat.group_id) refl,
  )
  new_pin_entry-matches chat r existing (inr (g, h, e)) =
      elim (Bool-cases (record_is_binary r || any_binary existing)) [
        | inl b ↦ (
          pin_contact (record {
            service_id = [];
            service_id_binary = to_bytes chat.service_id;
            e164 = e164_of r;
          }),
          rw (g, b) refl,
          rw (g, binary_entry chat.service_id (e164_of r) h e, service_id_eq_refl chat.service_id)
              refl,
        )
        | inr b ↦
            let (text, t, f) = from_string-to_string libraries.uuid_text chat.service_id h in
            (
              pin_contact (record { service_id = text; service_id_binary = []; e164 = e164_of r }),
              rw (g, b, t) refl,
              rw
                  (
                    g,
                    text_entry chat.service_id text (e164_of r) f e,
                    service_id_eq_refl chat.service_id,
                  )
                  refl,
            )
      ]

  abbrev pub is_pinned : ChatRef → List Pin → Bool
  is_pinned chat pins = contains_func (pin_matches_chat libraries chat) pins

  abbrev pub other_pins : ChatRef → List Pin → List Pin
  other_pins chat pins = delete_func (pin_matches_chat libraries chat) pins

  scan_pins-is_pinned :
      (chat : ChatRef) (pinned : Bool) (pins : List Pin)
      → (scan_pins libraries chat pinned pins).0 ≡ is_pinned chat pins
  unfolding scan_pins
  scan_pins-is_pinned chat pinned [] = refl
  scan_pins-is_pinned chat pinned (p ∷ ps) = elim (Bool-cases (pin_matches_chat libraries chat p)) [
    | inl q ↦ rw (scan_pins, q) refl
    | inr q ↦ rw (scan_pins, q) (scan_pins-is_pinned chat pinned ps)
  ]

  -- When a chat is to be pinned the loop keeps every entry, and otherwise those of other chats.
  scan_pins_kept :
      (chat : ChatRef) (pins : List Pin)
      → ((scan_pins libraries chat true pins).1 ≡ pins)
        × ((scan_pins libraries chat false pins).1 ≡ other_pins chat pins)
  unfolding scan_pins
  scan_pins_kept chat [] = (refl, refl)
  scan_pins_kept chat (p ∷ ps) =
      let (all, others) = scan_pins_kept chat ps in
      elim (Bool-cases (pin_matches_chat libraries chat p)) [
        | inl q ↦ rw (scan_pins, q) (ap (◌∷◌ p) all, others)
        | inr q ↦ rw (scan_pins, q) (ap (◌∷◌ p) all, ap (◌∷◌ p) others)
      ]

  other_pins-not_pinned :
      (chat : ChatRef) (pins : List Pin) → is_pinned chat (other_pins chat pins) ≡ false
  other_pins-not_pinned chat [] = refl
  other_pins-not_pinned chat (p ∷ ps) =
      if_cases (λ l. is_pinned chat l ≡ false) (pin_matches_chat libraries chat p)
        (λ _. other_pins-not_pinned chat ps) (λ q. rw q (other_pins-not_pinned chat ps))

  other_pins-twice :
      (chat : ChatRef) (pins : List Pin)
      → other_pins chat (other_pins chat pins) ≡ other_pins chat pins
  other_pins-twice chat [] = refl
  other_pins-twice chat (p ∷ ps) =
      if_cases (λ l. other_pins chat l ≡ l) (pin_matches_chat libraries chat p)
        (λ _. other_pins-twice chat ps) (λ q. rw q (ap (◌∷◌ p) (other_pins-twice chat ps)))

  length-other_pins :
      (chat : ChatRef) (pins : List Pin) → length (other_pins chat pins) ≤ length pins
  length-other_pins chat [] = omega arith
  length-other_pins chat (p ∷ ps) =
      if_cases (λ (l : List Pin). length l ≤ length (p ∷ ps)) (pin_matches_chat libraries chat p)
        (λ _. omega (arith, length-other_pins chat ps))
        (λ _. omega (arith, length-other_pins chat ps))

  -- An entry for the chat at the end of the list pins the chat and leaves the others.
  added :
      (chat : ChatRef) (pins : List Pin) (entry : Pin)
      → pin_matches_chat libraries chat entry ≡ true
      → (is_pinned chat (pins ++ entry ∷ []) ≡ true)
        × (other_pins chat (pins ++ entry ∷ []) ≡ other_pins chat pins)
  added chat [] entry e = rw e (refl, refl)
  added chat (p ∷ ps) entry e =
      let (a, b) = added chat ps entry e in
      elim (Bool-cases (pin_matches_chat libraries chat p)) [
        | inl q ↦ rw q (refl, b)
        | inr q ↦ rw q (a, ap (◌∷◌ p) b)
      ]

  -- What a change of a list of pins has to give: the chat is pinned or not as was asked, the entries of
  -- the other chats are as they were and in their order, and the list is within the limit or not longer
  -- than before; or the list is full.
  abbrev pub PinsChanged : ChatRef → Bool → List Pin → Result (List Pin × Bool) → Type 0
  PinsChanged chat pinned pins (ok (new, changed)) =
      (is_pinned chat new ≡ pinned)
      × (other_pins chat new ≡ other_pins chat pins)
      × ((length new ≤ max_pinned_chats) ⊎ (length new ≤ length pins))
  PinsChanged chat pinned pins (err e) =
      (e ≡ too_many_pinned)
      × (pinned ≡ true)
      × (is_pinned chat pins ≡ false)
      × (max_pinned_chats ≤ length pins)
  PinsChanged chat pinned pins panic = ⊥

  pinned_now :
      (chat : ChatRef) (r : Option ContactRecord) (pins : List Pin)
      → IsPinnable chat
      → is_pinned chat pins ≡ false
      → PinsChanged chat true pins (
          if leb max_pinned_chats (length pins)
          then err too_many_pinned
          else (add_pin libraries chat r pins pins >>= λ new. ok (new, true)))
  unfolding add_pin
  pinned_now chat r pins h n =
      let (entry, e, matches) = new_pin_entry-matches chat r pins h in
      if_cases (PinsChanged chat true pins) (leb max_pinned_chats (length pins))
        (λ q. (refl, refl, n, ground arith))
        (λ q.
          let (a, b) = added chat pins entry matches in
          rw e (a, b, inl (ground (arith, length-append pins (entry ∷ [])))))

  -- Changing the pins for a chat that can be pinned never panics: it makes the chat pinned or not, as
  -- was asked, and keeps the other chats' entries in their order and the list within the limit of four,
  -- or it refuses as the list is full and the chat is not in it.
  pub change_pins-PinsChanged :
      (chat : ChatRef) (pinned : Bool) (r : Option ContactRecord) (pins : List Pin)
      → IsPinnable chat
      → PinsChanged chat pinned pins (change_pins libraries chat pinned r pins)
  unfolding change_pins
  change_pins-PinsChanged chat true r pins h = elim (Bool-cases (is_pinned chat pins)) [
    | inl q ↦ rw (change_pins, scan_pins-is_pinned chat true pins, q) (q, refl, inr (omega arith))
    | inr q ↦
        rw (change_pins, scan_pins-is_pinned chat true pins, q, (scan_pins_kept chat pins).0)
          (pinned_now chat r pins h q)
  ]
  change_pins-PinsChanged chat false r pins h = elim (Bool-cases (is_pinned chat pins)) [
    | inr q ↦ rw (change_pins, scan_pins-is_pinned chat false pins, q) (q, refl, inr (omega arith))
    | inl q ↦
        rw (change_pins, scan_pins-is_pinned chat false pins, q, (scan_pins_kept chat pins).1)
          (
            other_pins-not_pinned chat pins,
            other_pins-twice chat pins,
            inr (length-other_pins chat pins),
          )
  ]
