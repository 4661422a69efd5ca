-- ===== src/Groups/Data.antt =====
-- pkg/signalmeow/groups.go: groups and group changes. UUIDs, keys and strings are lists of bytes; the
-- pointers of a list of a change that the code tests for nil are options.
use mautrix_signal.Common.{ℕ, Bool, Option, List}
use mautrix_signal.Signalid.ServiceId.{ServiceId}

abbrev pub Bytes : Type 0
Bytes = List ℕ

abbrev pub role_default : ℕ
role_default = 1

pub record GroupMember : Type 0 where
  pub aci : Bytes
  pub role : ℕ
  pub profile_key : Bytes
  pub joined_at_revision : ℕ

pub record AccessControl : Type 0 where
  pub members : ℕ
  pub add_from_invite_link : ℕ
  pub attributes : ℕ

pub record AddMember : Type 0 where
  pub member : GroupMember
  pub join_from_invite_link : Bool

pub record PendingMember : Type 0 where
  pub service_id : ServiceId
  pub role : ℕ
  pub added_by_user_id : Bytes
  pub timestamp : ℕ

-- ProfileKeyMember and PromotePendingMember, which have the same fields.
pub record ProfileKeyMember : Type 0 where
  pub aci : Bytes
  pub profile_key : Bytes

pub record RequestingMember : Type 0 where
  pub aci : Bytes
  pub profile_key : Bytes
  pub timestamp : ℕ

pub record PromotePendingPniAciMember : Type 0 where
  pub aci : Bytes
  pub profile_key : Bytes
  pub pni : Bytes

pub record RoleMember : Type 0 where
  pub aci : Bytes
  pub role : ℕ

pub record BannedMember : Type 0 where
  pub service_id : ServiceId
  pub timestamp : ℕ

pub record Group : Type 0 where
  pub master_key : Bytes
  pub group_identifier : Bytes
  pub title : Bytes
  pub avatar_path : Bytes
  pub members : List GroupMember
  pub description : Bytes
  pub announcements_only : Bool
  pub revision : ℕ
  pub disappearing_messages_duration : ℕ
  pub access_control : Option AccessControl
  pub pending_members : List PendingMember
  pub requesting_members : List RequestingMember
  pub banned_members : List BannedMember
  pub invite_link_password : Option Bytes

pub record GroupChange : Type 0 where
  pub master_key : Bytes
  pub revision : ℕ
  pub add_members : List AddMember
  pub delete_members : List (Option Bytes)
  pub modify_member_roles : List RoleMember
  pub modify_member_profile_keys : List ProfileKeyMember
  pub add_pending_members : List PendingMember
  pub delete_pending_members : List (Option ServiceId)
  pub promote_pending_members : List ProfileKeyMember
  pub modify_title : Option Bytes
  pub modify_avatar : Option Bytes
  pub modify_disappearing_messages_duration : Option ℕ
  pub modify_attributes_access : Option ℕ
  pub modify_member_access : Option ℕ
  pub modify_add_from_invite_link_access : Option ℕ
  pub add_requesting_members : List RequestingMember
  pub delete_requesting_members : List (Option Bytes)
  pub promote_requesting_members : List RoleMember
  pub modify_description : Option Bytes
  pub modify_announcements_only : Option Bool
  pub add_banned_members : List BannedMember
  pub delete_banned_members : List (Option ServiceId)
  pub promote_pending_pni_aci_members : List PromotePendingPniAciMember
  pub modify_invite_link_password : Option Bytes
