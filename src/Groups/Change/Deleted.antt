-- ===== src/Groups/Change/Deleted.antt =====
-- Whom a change deletes from a group.
use mautrix_signal.Common.{
  ◌++◌, ◌≡◌, Option, refl, sym, ℕ, List, [], ◌∷◌, subst, false, Bool, All, if_cases,
}
use mautrix_signal.Groups.Data.{
  Bytes, Group, GroupChange, RoleMember, GroupMember, PendingMember, RequestingMember, BannedMember,
}
use mautrix_signal.Groups.Change.{
  apply_change, apply_settings, apply_pending, promote_pending, delete_pending,
  promote_pending_pni_aci, apply_requesting, promote_requesting, delete_requesting, apply_members,
  delete_members, delete_func, contains_func, is_uuid, is_service_id, apply_banned,
}
use mautrix_signal.Groups.Change.Members.{
  Holds, Holds-bind, HasAccess, SameMembers, apply_settings-SameMembers, member_parts,
  members_access,
}

delete_func-All :
    {A : Type 0} (f : A → Bool) (xs : List A) → All (λ x. f x ≡ false) (delete_func f xs)
delete_func-All f [] = tt
delete_func-All f (x ∷ xs) =
    if_cases (All (λ y. f y ≡ false)) (f x) (λ _. delete_func-All f xs)
      (λ q. (q, delete_func-All f xs))

promote_requesting-pending :
    (revision : ℕ) (promos : List RoleMember) (g : Group)
    → (promote_requesting revision promos g).pending_members ≡ g.pending_members
unfolding promote_requesting
promote_requesting-pending revision [] g = refl
promote_requesting-pending revision (promo ∷ promos) g =
    promote_requesting-pending revision promos _

-- Nobody is left in a list of the group who stands in the change's list of deletions for it.
abbrev pub NoneDeleted : GroupChange → Group → Type 0
NoneDeleted change h =
    All (λ (m : GroupMember). contains_func (is_uuid m.aci) change.delete_members ≡ false) h.members
    × All
        (λ (m : PendingMember).
          contains_func (is_service_id m.service_id) change.delete_pending_members ≡ false)
        h.pending_members
    × All
        (λ (m : RequestingMember).
          contains_func (is_uuid m.aci) change.delete_requesting_members ≡ false)
        h.requesting_members
    × All
        (λ (m : BannedMember).
          contains_func (is_service_id m.service_id) change.delete_banned_members ≡ false)
        h.banned_members

members_deleted :
    (deleted : List (Option Bytes)) (members : List GroupMember)
    → All
        (λ (m : GroupMember). contains_func (is_uuid m.aci) deleted ≡ false)
        (delete_members deleted members)
unfolding delete_members
members_deleted deleted members =
    delete_func-All (λ (m : GroupMember). contains_func (is_uuid m.aci) deleted) members

pending_deleted :
    (change : GroupChange) (g : Group)
    → All
        (λ (m : PendingMember).
          contains_func (is_service_id m.service_id) change.delete_pending_members ≡ false)
        (apply_pending change g).pending_members
unfolding apply_pending delete_pending
pending_deleted change g =
    let added : Group = record g {
      pending_members = g.pending_members ++ change.add_pending_members;
    } in
    let promoted = promote_pending change.revision change.promote_pending_members added in
    delete_func-All
      (λ (m : PendingMember).
        contains_func (is_service_id m.service_id) change.delete_pending_members)
      (promote_pending_pni_aci change.revision change.promote_pending_pni_aci_members
        promoted).pending_members

requesting_deleted :
    (change : GroupChange) (g : Group)
    → All
        (λ (m : RequestingMember).
          contains_func (is_uuid m.aci) change.delete_requesting_members ≡ false)
        (apply_requesting change g).requesting_members
unfolding apply_requesting delete_requesting
requesting_deleted change g =
    let added : Group = record g {
      requesting_members = g.requesting_members ++ change.add_requesting_members;
    } in
    delete_func-All
      (λ (m : RequestingMember). contains_func (is_uuid m.aci) change.delete_requesting_members)
      (promote_requesting change.revision change.promote_requesting_members
        added).requesting_members

requesting_keeps_pending :
    (change : GroupChange) (g : Group)
    → (apply_requesting change g).pending_members ≡ g.pending_members
unfolding apply_requesting delete_requesting
requesting_keeps_pending change g =
    promote_requesting-pending change.revision change.promote_requesting_members _

parts-NoneDeleted : (change : GroupChange) (g : Group) → NoneDeleted change (member_parts change g)
unfolding apply_members apply_banned
parts-NoneDeleted change g = (
  members_deleted change.delete_members _,
  subst
      (λ l.
        All
          (λ (m : PendingMember).
            contains_func (is_service_id m.service_id) change.delete_pending_members ≡ false)
          l)
      (sym (requesting_keeps_pending change (apply_pending change g))) (pending_deleted change g),
  requesting_deleted change (apply_pending change g),
  delete_func-All
      (λ (b : BannedMember).
        contains_func (is_service_id b.service_id) change.delete_banned_members)
      ((apply_members change (apply_requesting change (apply_pending change g))).banned_members
        ++ change.add_banned_members),
)

same-NoneDeleted :
    (change : GroupChange) (g h : Group)
    → SameMembers g h
    → NoneDeleted change g
    → NoneDeleted change h
same-NoneDeleted change g h (m, p, r, b) (dm, dp, dr, db) = (
  subst (All _) (sym m) dm,
  subst (All _) (sym p) dp,
  subst (All _) (sym r) dr,
  subst (All _) (sym b) db,
)

-- A change to a group with access control leaves nobody whom it deletes among the members, the
-- pending, the requesting and the banned members, also if it adds or promotes them.
pub apply_change-NoneDeleted :
    (change : GroupChange) (g : Group)
    → HasAccess g.access_control
    → Holds (NoneDeleted change) (apply_change change g)
unfolding apply_change
apply_change-NoneDeleted change g h =
    let parts = member_parts change g in
    Holds-bind (SameMembers parts) (NoneDeleted change) (apply_settings change parts) _
      (apply_settings-SameMembers change parts (subst HasAccess (sym (members_access change g)) h))
      (λ a same. same-NoneDeleted change parts a same (parts-NoneDeleted change g))
