-- ===== src/Groups/Change.antt =====
-- pkg/signalmeow/groupcache.go: what ApplyUpdate does to the cached group. `none` is the panic on an
-- access change of a group without access control.
pub mod Members
pub mod Deleted
use mautrix_signal.Common.{
  ℕ, ◌==◌, if◌then◌else◌, Bool, true, false, ◌&&◌, ◌||◌, Option, none, some, List, [], ◌∷◌, ◌++◌,
  map, list_eq, replicate,
}
use mautrix_signal.Signalid.ServiceId.{ServiceId, type_aci, type_pni}
use mautrix_signal.Groups.Data.{
  Bytes, role_default, GroupMember, AccessControl, AddMember, PendingMember, ProfileKeyMember,
  RequestingMember, PromotePendingPniAciMember, RoleMember, BannedMember, Group, GroupChange,
}

-- slices.DeleteFunc and slices.ContainsFunc.
abbrev pub delete_func : {A : Type 0} → (A → Bool) → List A → List A
delete_func f [] = []
delete_func f (x ∷ xs) = let rest = delete_func f xs in if f x then rest else x ∷ rest

abbrev pub contains_func : {A : Type 0} → (A → Bool) → List A → Bool
contains_func f [] = false
contains_func f (x ∷ xs) = f x || contains_func f xs

abbrev pub service_id_eq : ServiceId → ServiceId → Bool
service_id_eq a b = (a.typ == b.typ) && list_eq a.uuid b.uuid

abbrev pub is_service_id : ServiceId → Option ServiceId → Bool
is_service_id s none = false
is_service_id s (some t) = service_id_eq s t

abbrev pub is_uuid : Bytes → Option Bytes → Bool
is_uuid u none = false
is_uuid u (some v) = list_eq v u

abbrev pub default_member : Bytes → Bytes → ℕ → GroupMember
default_member aci profile_key revision = record {
  aci = aci;
  role = role_default;
  profile_key = profile_key;
  joined_at_revision = revision;
}

abbrev pub has_aci : Bytes → ServiceId → Bool
has_aci aci s = (s.typ == type_aci) && list_eq s.uuid aci

abbrev pub has_pni : Bytes → ServiceId → Bool
has_pni pni s = (s.typ == type_pni) && list_eq s.uuid pni

-- The loop over PromotePendingMembers.
unfoldable pub promote_pending : ℕ → List ProfileKeyMember → Group → Group
promote_pending revision [] g = g
promote_pending revision (promo ∷ promos) g = promote_pending revision promos (record g {
  pending_members =
      delete_func (λ (p : PendingMember). has_aci promo.aci p.service_id) g.pending_members;
  members = g.members ++ default_member promo.aci promo.profile_key revision ∷ [];
})

-- The loop over PromotePendingPniAciMembers.
unfoldable pub promote_pending_pni_aci : ℕ → List PromotePendingPniAciMember → Group → Group
promote_pending_pni_aci revision [] g = g
promote_pending_pni_aci revision (promo ∷ promos) g =
    promote_pending_pni_aci revision promos (record g {
      pending_members =
          delete_func
            (λ (p : PendingMember).
              has_pni promo.pni p.service_id || has_aci promo.aci p.service_id)
            g.pending_members;
      members = g.members ++ default_member promo.aci promo.profile_key revision ∷ [];
    })

unfoldable pub delete_pending : List (Option ServiceId) → Group → Group
delete_pending deleted g = record g {
  pending_members =
      delete_func (λ (p : PendingMember). contains_func (is_service_id p.service_id) deleted)
        g.pending_members;
}

unfoldable pub apply_pending : GroupChange → Group → Group
unfolding promote_pending promote_pending_pni_aci delete_pending
apply_pending change g =
    let added = record g { pending_members = g.pending_members ++ change.add_pending_members } in
    let promoted = promote_pending change.revision change.promote_pending_members added in
    let pni_promoted =
      promote_pending_pni_aci change.revision change.promote_pending_pni_aci_members promoted in
    delete_pending change.delete_pending_members pni_promoted

-- `profileKey` after the DeleteFunc of a promotion: that of the last member with the ACI.
abbrev requested_key : Bytes → Bytes → List RequestingMember → Bytes
requested_key aci found [] = found
requested_key aci found (r ∷ rs) =
    requested_key aci (if list_eq r.aci aci then r.profile_key else found) rs

-- An empty libsignalgo.ProfileKey.
abbrev blank_profile_key : Bytes
blank_profile_key = replicate 32 0

unfoldable pub promote_requesting : ℕ → List RoleMember → Group → Group
promote_requesting revision [] g = g
promote_requesting revision (promo ∷ promos) g = promote_requesting revision promos (record g {
  requesting_members =
      delete_func (λ (r : RequestingMember). list_eq r.aci promo.aci) g.requesting_members;
  members =
      g.members
      ++ record {
        aci = promo.aci;
        role = promo.role;
        profile_key = requested_key promo.aci blank_profile_key g.requesting_members;
        joined_at_revision = revision;
      }
        ∷ [];
})

unfoldable pub delete_requesting : List (Option Bytes) → Group → Group
delete_requesting deleted g = record g {
  requesting_members =
      delete_func (λ (r : RequestingMember). contains_func (is_uuid r.aci) deleted)
        g.requesting_members;
}

unfoldable pub apply_requesting : GroupChange → Group → Group
unfolding promote_requesting delete_requesting
apply_requesting change g =
    let added = record g {
      requesting_members = g.requesting_members ++ change.add_requesting_members;
    } in
    delete_requesting change.delete_requesting_members
      (promote_requesting change.revision change.promote_requesting_members added)

-- `findMemberOrEmpty(aci)` and the assignment to the member that it returns: the first member with
-- the ACI is changed, and without one nothing is.
abbrev pub change_member : Bytes → (GroupMember → GroupMember) → List GroupMember → List GroupMember
change_member aci f [] = []
change_member aci f (member ∷ members) =
    let rest = change_member aci f members in
    if list_eq member.aci aci then f member ∷ members else member ∷ rest

unfoldable pub modify_roles : List RoleMember → List GroupMember → List GroupMember
modify_roles [] members = members
modify_roles (rm ∷ rms) members =
    modify_roles rms (change_member rm.aci (λ member. record member { role = rm.role }) members)

unfoldable pub modify_profile_keys : List ProfileKeyMember → List GroupMember → List GroupMember
modify_profile_keys [] members = members
modify_profile_keys (pk ∷ pks) members =
    modify_profile_keys pks
      (change_member pk.aci (λ member. record member { profile_key = pk.profile_key }) members)

unfoldable pub delete_members : List (Option Bytes) → List GroupMember → List GroupMember
delete_members deleted members =
    delete_func (λ (member : GroupMember). contains_func (is_uuid member.aci) deleted) members

unfoldable pub apply_members : GroupChange → Group → Group
unfolding modify_roles modify_profile_keys delete_members
apply_members change g =
    let added = g.members ++ map (λ (a : AddMember). a.member) change.add_members in
    let with_roles = modify_roles change.modify_member_roles added in
    let with_keys = modify_profile_keys change.modify_member_profile_keys with_roles in
    record g { members = delete_members change.delete_members with_keys }

unfoldable pub apply_banned : GroupChange → Group → Group
apply_banned change g = record g {
  banned_members =
      delete_func
        (λ (b : BannedMember).
          contains_func (is_service_id b.service_id) change.delete_banned_members)
        (g.banned_members ++ change.add_banned_members);
}

infixl 5 ◌>>=◌
abbrev pub ◌>>=◌ : {A B : Type 0} → Option A → (A → Option B) → Option B
none >>= f = none
some a >>= f = f a

abbrev or_keep : {A : Type 0} → Option A → A → A
or_keep none old = old
or_keep (some new) old = new

abbrev pub set_access :
    Option ℕ
    → (ℕ → AccessControl → AccessControl)
    → Option AccessControl
    → Option (Option AccessControl)
set_access none f access = some access
set_access (some level) f none = none
set_access (some level) f (some access) = some (some (f level access))

abbrev with_password : Option Bytes → Option Bytes → Option Bytes
with_password none old = old
with_password (some new) old = some new

-- The non-member modifications.
unfoldable pub apply_settings : GroupChange → Group → Option Group
apply_settings change g = do
  attributes ←
      set_access change.modify_attributes_access
        (λ level access. record access { attributes = level }) g.access_control
  members ←
      set_access change.modify_member_access (λ level access. record access { members = level })
        attributes
  access ←
      set_access change.modify_add_from_invite_link_access
        (λ level access. record access { add_from_invite_link = level }) members
  some (record g {
    invite_link_password = with_password change.modify_invite_link_password g.invite_link_password;
    title = or_keep change.modify_title g.title;
    description = or_keep change.modify_description g.description;
    avatar_path = or_keep change.modify_avatar g.avatar_path;
    announcements_only = or_keep change.modify_announcements_only g.announcements_only;
    disappearing_messages_duration =
        or_keep change.modify_disappearing_messages_duration g.disappearing_messages_duration;
    access_control = access;
  })

-- The whole change, with the revision that the group has after it.
unfoldable pub apply_change : GroupChange → Group → Option Group
unfolding apply_pending apply_requesting apply_members apply_banned apply_settings
apply_change change g = do
  changed ← apply_settings change (
      apply_banned change (apply_members change (apply_requesting change (apply_pending change g))))
  some (record changed { revision = change.revision })
