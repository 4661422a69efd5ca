-- ===== src/Chats/Settings.antt =====
-- pkg/signalmeow/types/chatsettings.go, and the planning of pkg/connector/chatsettings.go. Times are
-- nanoseconds since the epoch, and mutes milliseconds, as in the storage service.
pub mod Plan
use mautrix_signal.Common.{
  ℕ, ◌*◌, ◌-◌, ◌^◌, ltb, leb, ◌==◌, if◌then◌else◌, Bool, true, false, not, ◌&&◌, ◌||◌, Option, none,
  some, List, [], list_eq,
}

pub record ChatSettings : Type 0 where
  pub muted_until : ℕ
  pub archived : Bool
  pub marked_unread : Bool
  pub pinned : Bool

abbrev pub default_settings : ChatSettings
default_settings = record {
  muted_until = 0;
  archived = false;
  marked_unread = false;
  pinned = false;
}

abbrev pub max_safe_date_millis : ℕ
max_safe_date_millis = 8640000000000000

pub muted_forever : ChatSettings → Bool
muted_forever cs = leb max_safe_date_millis cs.muted_until

-- The time.Time{} of the first case is 0: no caller reads it.
pub mute_expiry : ChatSettings → ℕ → ℕ × Bool
unfolding muted_forever
mute_expiry cs now =
    if (cs.muted_until == 0) || muted_forever cs
    then (0, muted_forever cs)
    else (cs.muted_until, ltb now (cs.muted_until * 1000000))

-- bridgev2.Unmuted, a time in milliseconds, and event.MutedForever.
pub data MuteTime : Type 0 where
  unmuted : MuteTime
  until : ℕ → MuteTime
  forever : MuteTime

pub record Tags : Type 0 where
  pub pinned : List ℕ
  pub archive : List ℕ

pub tag_for : Tags → ChatSettings → List ℕ
tag_for t cs =
    if cs.pinned && not (list_eq t.pinned [])
    then t.pinned
    else (if cs.archived && not (list_eq t.archive []) then t.archive else [])

pub effective_mute : ChatSettings → ℕ → ℕ
unfolding muted_forever mute_expiry
effective_mute cs now =
    if muted_forever cs
    then 2 ^ 64 - 1
    else (if not (mute_expiry cs now).1 then 0 else cs.muted_until)

pub mute_time : ChatSettings → ℕ → MuteTime
unfolding muted_forever mute_expiry
mute_time cs now =
    if muted_forever cs
    then forever
    else (if (mute_expiry cs now).1 then until (mute_expiry cs now).0 else unmuted)

pub record UserLocal : Type 0 where
  pub muted_until : Option MuteTime
  pub tag : Option (List ℕ)

pub record SettingsPlan : Type 0 where
  pub user_local : Option UserLocal
  pub mark_unread : Option Bool

abbrev pub is_none : {A : Type 0} → Option A → Bool
is_none none = true
is_none (some a) = false

pub plan_is_empty : SettingsPlan → Bool
plan_is_empty p = is_none p.user_local && is_none p.mark_unread

-- `local`, unless both of its fields are nil.
abbrev pub unless_nil : UserLocal → Option UserLocal
unless_nil local =
    if not (is_none local.muted_until) || not (is_none local.tag) then some local else none

abbrev pub bool_eq : Bool → Bool → Bool
bool_eq true b = b
bool_eq false b = not b

-- `ptr.Val`.
abbrev pub settings_of : Option ChatSettings → ChatSettings
settings_of none = default_settings
settings_of (some cs) = cs

pub plan_chat_settings : Option ChatSettings → ChatSettings → Tags → ℕ → SettingsPlan
unfolding effective_mute mute_time tag_for
plan_chat_settings prev cur tags now =
    let old = settings_of prev in
    record {
      user_local = unless_nil (record {
        muted_until =
            if not (effective_mute old now == effective_mute cur now)
            then some (mute_time cur now)
            else none;
        tag =
            if not (list_eq (tag_for tags old) (tag_for tags cur))
            then some (tag_for tags cur)
            else none;
      });
      mark_unread =
          if not (bool_eq old.marked_unread cur.marked_unread)
          then some cur.marked_unread
          else none;
    }

pub initial_user_local : ChatSettings → Tags → ℕ → Option UserLocal
unfolding effective_mute mute_time tag_for
initial_user_local cur tags now =
    let local : UserLocal = record {
      muted_until = if not (effective_mute cur now == 0) then some (mute_time cur now) else none;
      tag = if not (list_eq (tag_for tags cur) []) then some (tag_for tags cur) else none;
    } in
    if is_none local.muted_until && is_none local.tag then none else some local
