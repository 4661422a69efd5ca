-- ===== src/Groups/Conflict.antt =====
-- pkg/signalmeow/groups.go: isEmpty, and the settings in resolveConflict, which the rest of it follows.
-- `none` is the panic on a nil pointer.
use mautrix_signal.Common.{
  ◌==◌, if◌then◌else◌, Bool, true, false, not, ◌&&◌, Option, none, some, List, [], ◌∷◌, list_eq,
}
use mautrix_signal.Groups.Data.{Group, GroupChange}
use mautrix_signal.Groups.Change.{◌>>=◌}

abbrev is_nil : {A : Type 0} → Option A → Bool
is_nil none = true
is_nil (some a) = false

abbrev no_elements : {A : Type 0} → List A → Bool
no_elements [] = true
no_elements (x ∷ xs) = false

pub change_is_empty : GroupChange → Bool
change_is_empty c =
    no_elements c.add_members
    && no_elements c.delete_members
    && no_elements c.modify_member_roles
    && no_elements c.modify_member_profile_keys
    && no_elements c.add_pending_members
    && no_elements c.promote_pending_members
    && is_nil c.modify_title
    && is_nil c.modify_avatar
    && is_nil c.modify_disappearing_messages_duration
    && is_nil c.modify_attributes_access
    && is_nil c.modify_member_access
    && is_nil c.modify_add_from_invite_link_access
    && no_elements c.add_requesting_members
    && no_elements c.delete_requesting_members
    && no_elements c.promote_requesting_members
    && is_nil c.modify_description
    && is_nil c.modify_announcements_only
    && no_elements c.add_banned_members

abbrev bool_same : Bool → Bool → Bool
bool_same true b = b
bool_same false b = not b

-- `if *new == old { target = nil }`.
abbrev clear_if_same : {A B : Type 0} → (A → A → Bool) → Option A → A → Option B → Option (Option B)
clear_if_same same none old target = none
clear_if_same same (some new) old target = some (if same new old then none else target)

-- The comparison of the member access clears the attributes access, as the code does.
unfoldable pub resolve_settings : GroupChange → Group → Option GroupChange
resolve_settings c g = do
  title ← clear_if_same list_eq c.modify_title g.title c.modify_title
  description ← clear_if_same list_eq c.modify_description g.description c.modify_description
  avatar ← clear_if_same list_eq c.modify_avatar g.avatar_path c.modify_avatar
  duration ←
      clear_if_same (◌==◌) c.modify_disappearing_messages_duration g.disappearing_messages_duration
        c.modify_disappearing_messages_duration
  access ← g.access_control
  attributes ←
      clear_if_same (◌==◌) c.modify_attributes_access access.attributes c.modify_attributes_access
  attributes_again ← clear_if_same (◌==◌) c.modify_member_access access.members attributes
  invite_link ←
      clear_if_same (◌==◌) c.modify_add_from_invite_link_access access.add_from_invite_link
        c.modify_add_from_invite_link_access
  announcements_only ←
      clear_if_same bool_same c.modify_announcements_only g.announcements_only
        c.modify_announcements_only
  some (record c {
    modify_title = title;
    modify_description = description;
    modify_avatar = avatar;
    modify_disappearing_messages_duration = duration;
    modify_attributes_access = attributes_again;
    modify_add_from_invite_link_access = invite_link;
    modify_announcements_only = announcements_only;
  })
