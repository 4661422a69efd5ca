-- ===== src/Groups/Change/Members.antt =====
-- What a change leaves in a group.
use mautrix_signal.Common.{◌≡◌, some, Option, none, refl, ◌∙◌, sym, ℕ, List, [], ◌∷◌, subst}
use mautrix_signal.Groups.Data.{
  Group, GroupChange, AccessControl, ProfileKeyMember, PromotePendingPniAciMember, RoleMember,
}
use mautrix_signal.Groups.Change.{
  apply_change, apply_settings, set_access, ◌>>=◌, apply_pending, promote_pending, delete_pending,
  promote_pending_pni_aci, apply_requesting, promote_requesting, delete_requesting, apply_members,
  apply_banned,
}

-- The result is there, and has the property.
abbrev pub Holds : {A : Type 0} → (A → Type 0) → Option A → Type 0
Holds P none = ⊥
Holds P (some a) = P a

pub Holds-bind :
    {A B : Type 0} (P : A → Type 0) (Q : B → Type 0) (o : Option A) (f : A → Option B)
    → Holds P o
    → ((a : A) → P a → Holds Q (f a))
    → Holds Q (o >>= f)
Holds-bind P Q none f h k = h
Holds-bind P Q (some a) f h k = k a h

abbrev pub HasAccess : Option AccessControl → Type 0
HasAccess access = Holds (λ _. Unit {0}) access

set_access-HasAccess :
    (l : Option ℕ) (f : ℕ → AccessControl → AccessControl) (access : Option AccessControl)
    → HasAccess access
    → Holds HasAccess (set_access l f access)
set_access-HasAccess none f access h = h
set_access-HasAccess (some l) f none h = h
set_access-HasAccess (some l) f (some access) h = tt

-- The lists of members that the settings leave.
abbrev pub SameMembers : Group → Group → Type 0
SameMembers g h =
    (h.members ≡ g.members)
    × (h.pending_members ≡ g.pending_members)
    × (h.requesting_members ≡ g.requesting_members)
    × (h.banned_members ≡ g.banned_members)

pub apply_settings-SameMembers :
    (change : GroupChange) (g : Group)
    → HasAccess g.access_control
    → Holds (SameMembers g) (apply_settings change g)
unfolding apply_settings
apply_settings-SameMembers change g h =
    Holds-bind HasAccess (SameMembers g)
      (set_access change.modify_attributes_access _ g.access_control) _
      (set_access-HasAccess change.modify_attributes_access _ g.access_control h)
      (λ a ha.
        Holds-bind HasAccess (SameMembers g) (set_access change.modify_member_access _ a) _
          (set_access-HasAccess change.modify_member_access _ a ha)
          (λ b hb.
            Holds-bind HasAccess (SameMembers g)
              (set_access change.modify_add_from_invite_link_access _ b) _
              (set_access-HasAccess change.modify_add_from_invite_link_access _ b hb)
              (λ c hc. (refl, refl, refl, refl))))

promote_pending-access :
    (revision : ℕ) (promos : List ProfileKeyMember) (g : Group)
    → (promote_pending revision promos g).access_control ≡ g.access_control
unfolding promote_pending
promote_pending-access revision [] g = refl
promote_pending-access revision (promo ∷ promos) g = promote_pending-access revision promos _

promote_pending_pni_aci-access :
    (revision : ℕ) (promos : List PromotePendingPniAciMember) (g : Group)
    → (promote_pending_pni_aci revision promos g).access_control ≡ g.access_control
unfolding promote_pending_pni_aci
promote_pending_pni_aci-access revision [] g = refl
promote_pending_pni_aci-access revision (promo ∷ promos) g =
    promote_pending_pni_aci-access revision promos _

promote_requesting-access :
    (revision : ℕ) (promos : List RoleMember) (g : Group)
    → (promote_requesting revision promos g).access_control ≡ g.access_control
unfolding promote_requesting
promote_requesting-access revision [] g = refl
promote_requesting-access revision (promo ∷ promos) g = promote_requesting-access revision promos _

-- The member parts of a change leave the access control.
pub members_access :
    (change : GroupChange) (g : Group)
    → (apply_banned change
        (apply_members change (apply_requesting change (apply_pending change g)))).access_control
      ≡ g.access_control
unfolding apply_pending apply_requesting apply_members apply_banned delete_pending delete_requesting
members_access change g =
    promote_requesting-access change.revision change.promote_requesting_members _
    ∙ promote_pending_pni_aci-access change.revision change.promote_pending_pni_aci_members _
    ∙ promote_pending-access change.revision change.promote_pending_members _

abbrev pub member_parts : GroupChange → Group → Group
member_parts change g =
    apply_banned change (apply_members change (apply_requesting change (apply_pending change g)))

-- A change to a group with access control gives a group with the revision of the change.
pub apply_change-revision :
    (change : GroupChange) (g : Group)
    → HasAccess g.access_control
    → Holds (λ (h : Group). h.revision ≡ change.revision) (apply_change change g)
unfolding apply_change
apply_change-revision change g h =
    let parts = member_parts change g in
    Holds-bind (SameMembers parts) (λ (t : Group). t.revision ≡ change.revision)
      (apply_settings change parts) _
      (apply_settings-SameMembers change parts (subst HasAccess (sym (members_access change g)) h))
      (λ a _. refl)
