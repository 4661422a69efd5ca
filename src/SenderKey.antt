-- ===== src/SenderKey.antt =====
-- pkg/signalmeow/senderkey.go: who gets the sender key of a group, and when it is reset. A service ID is
-- the list of its bytes, as the key of a map, and exslices.Diff is a parameter. The loop goes over the
-- map `collector` in the order in which its keys were stored.
pub mod Masks
pub mod Rounds
pub mod Covered
mod Runs
use Prim.Native.Nat.{bit_xor}
use mautrix_signal.Common.{
  ℕ, ◌==◌, if◌then◌else◌, Bool, true, false, not, Option, none, some, on_some, List, [], ◌∷◌, ◌++◌,
  map, bit_or, lookup, store_key,
}

abbrev pub Bytes : Type 0
Bytes = List ℕ

abbrev pub Map : Type 0 → Type 0
Map V = List (Bytes × V)

pub record SendMeta : Type 0 where
  pub device_ids : List ℕ
  pub access_key : Option Bytes

abbrev pub keys : {V : Type 0} → Map V → List Bytes
keys m = map (λ e. e.0) m

-- `collector[key] |= bit` for every key of a map.
pub mark : {V : Type 0} → ℕ → Map V → Map ℕ → Map ℕ
mark bit [] collector = collector
mark bit ((k, v) ∷ m) collector =
    mark bit m (store_key k (bit_or (on_some 0 (λ mask. mask) (lookup k collector)) bit) collector)

abbrev pub devices : Bytes → Map (List ℕ) → List ℕ
devices k prev = on_some [] (λ ids. ids) (lookup k prev)

abbrev pub new_devices : Bytes → Map SendMeta → List ℕ
new_devices k new = on_some [] (λ (meta : SendMeta). meta.device_ids) (lookup k new)

abbrev pub access_key_of : Bytes → Map SendMeta → Option Bytes
access_key_of k new = on_some none (λ (meta : SendMeta). meta.access_key) (lookup k new)

pub record Difference : Type 0 where
  pub xak : Option Bytes
  pub devices_added_to : List Bytes
  pub removed_devices : Map (List ℕ)

abbrev pub is_empty : {A : Type 0} → List A → Bool
is_empty [] = true
is_empty (x ∷ xs) = false

abbrev pub removes : Bytes → List ℕ → Difference → Difference
removes k ids d = record d { removed_devices = store_key k ids d.removed_devices }

abbrev pub adds_to : Bytes → Difference → Difference
adds_to k d = record d { devices_added_to = d.devices_added_to ++ k ∷ [] }

-- AccessKey.Xor: arrays of the same length.
abbrev pub xor_bytes : Bytes → Bytes → Bytes
xor_bytes [] bs = []
xor_bytes (a ∷ rest) [] = []
xor_bytes (a ∷ rest) (b ∷ bs) = bit_xor a b ∷ xor_bytes rest bs

abbrev pub xor : Option Bytes → Option Bytes → Option Bytes
xor none other = other
xor (some ak) none = some ak
xor (some ak) (some other) = some (xor_bytes ak other)

module _ (diff : List ℕ → List ℕ → List ℕ × List ℕ) (prev : Map (List ℕ)) (new : Map SendMeta) where
  abbrev pub changed_devices : Bytes → Difference → Difference
  changed_devices k d =
      if not (is_empty (diff (devices k prev) (new_devices k new)).0)
      then removes k (diff (devices k prev) (new_devices k new)).0 d
      else (if not (is_empty (diff (devices k prev) (new_devices k new)).1) then adds_to k d else d)

  abbrev pub with_key : Bytes → ℕ → Difference → Difference
  with_key k mask d =
      if not (mask == 1) then record d { xak = xor d.xak (access_key_of k new) } else d

  -- One round of the loop over the collector.
  pub diff_round : Bytes → ℕ → Difference → Difference
  diff_round k mask d =
      let e = with_key k mask d in
      if mask == 1
      then removes k (devices k prev) e
      else (if mask == 2 then adds_to k e else (if mask == 3 then changed_devices k e else e))

  pub diff_rounds : Map ℕ → Difference → Difference
  unfolding diff_round
  diff_rounds [] d = d
  diff_rounds ((k, mask) ∷ collector) d = diff_rounds collector (diff_round k mask d)

  pub diff_recipients : Difference
  unfolding mark diff_rounds
  diff_recipients =
      diff_rounds (mark 2 new (mark 1 prev []))
        (record { xak = none; devices_added_to = []; removed_devices = [] })

  -- sendToGroupWithSenderKey: whom the key is shared with then, and who gets it.
  pub plan_distribution : Map (List ℕ) × List Bytes
  unfolding diff_recipients
  plan_distribution =
      if not (is_empty diff_recipients.removed_devices)
      then ([], keys new)
      else (prev, diff_recipients.devices_added_to)
