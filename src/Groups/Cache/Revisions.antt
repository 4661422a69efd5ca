-- ===== src/Groups/Cache/Revisions.antt =====
-- The revisions of the cached groups.
use mautrix_signal.Common.{
  ℕ, ◌+◌, ◌-◌, ◌≡◌, ◌≢◌, ◌⊎◌, inl, inr, refl, ltb, leb, if_cases, Option, none, some, Option-cases,
  lookup, remove_key, lookup-store_key, lookup-store_key_other, lookup-remove_key,
  lookup-remove_key_other, arith, subst,
}
use mautrix_signal.Groups.Data.{Bytes, Group, GroupChange}
use mautrix_signal.Groups.Change.{apply_change}
use mautrix_signal.Groups.Change.Members.{Holds, HasAccess, apply_change-revision}
use mautrix_signal.Groups.Cache.{
  Libsignal, GroupCache, CachedGroup, Outcome, done, failed, panic, apply_update, update_entry,
  finish_update, get_member_service_ids,
}

-- The operation returns, and the cache that it leaves has the property.
abbrev pub Leaves : Outcome → (GroupCache → Type 0) → Type 0
Leaves (done c) P = P c
Leaves (failed c) P = P c
Leaves panic P = ⊥

-- How ApplyUpdate with a revision may change what the cache has for one group: not at all, evict it,
-- or take it from the revision just before to the revision.
abbrev pub Moves : ℕ → Option CachedGroup → Option CachedGroup → Type 0
Moves revision old new =
    (new ≡ old)
    ⊎ ((new ≡ none)
        ⊎ ((a b : CachedGroup) × (old ≡ some a)
            × (new ≡ some b)
            × (a.group.revision + 1 ≡ revision)
            × (b.group.revision ≡ revision)))

abbrev pub SameOthers : Bytes → GroupCache → GroupCache → Type 0
SameOthers id cache d = (j : Bytes) → id ≢ j → lookup j d.entries ≡ lookup j cache.entries

abbrev pub MovesOnly : Bytes → ℕ → GroupCache → GroupCache → Type 0
MovesOnly id revision cache d =
    Moves revision (lookup id cache.entries) (lookup id d.entries) × SameOthers id cache d

abbrev pub CachedHasAccess : Option CachedGroup → Type 0
CachedHasAccess none = Unit {0}
CachedHasAccess (some cached) = HasAccess cached.group.access_control

evicted :
    (cache : GroupCache) (id : Bytes) (revision : ℕ)
    → MovesOnly id revision cache (record cache { entries = remove_key id cache.entries })
evicted cache id revision = (
  inr (inl (lookup-remove_key id cache.entries)),
  λ j h. lookup-remove_key_other j id cache.entries h,
)

unchanged : (cache : GroupCache) (id : Bytes) (revision : ℕ) → MovesOnly id revision cache cache
unchanged cache id revision = (inl refl, λ j h. refl)

module _ (lib : Libsignal) where
  finish_moves :
      (cache : GroupCache) (now : ℕ) (id gsp : Bytes) (cached : CachedGroup) (changed : Group)
      (response : Bytes) (revision : ℕ)
      → lookup id cache.entries ≡ some cached
      → cached.group.revision + 1 ≡ revision
      → changed.revision ≡ revision
      → Leaves
          (finish_update lib cache now id gsp cached changed response)
          (MovesOnly id revision cache)
  unfolding finish_update
  finish_moves cache now id gsp cached changed response revision e h r =
      elim (Option-cases
        (lib.receive response (get_member_service_ids changed) cache.service_id gsp)) [
          | inl q ↦ rw (finish_update, q) (evicted cache id revision)
          | inr (endorsement, q) ↦ elim (Option-cases (lib.get_expiration response)) [
            | inl x ↦ rw (finish_update, q, x) (evicted cache id revision)
            | inr (expiration, x) ↦
                rw (finish_update, q, x)
                  (
                    inr (inr (cached, _, e, lookup-store_key id _ cache.entries, h, r)),
                    λ j k. lookup-store_key_other j id _ cache.entries k,
                  )
          ]
        ]

  update_moves :
      (cache : GroupCache) (now : ℕ) (id gsp : Bytes) (change : GroupChange) (response : Bytes)
      (old : Option CachedGroup)
      → lookup id cache.entries ≡ old
      → CachedHasAccess old
      → Leaves
          (update_entry lib cache now id gsp change response old)
          (MovesOnly id change.revision cache)
  unfolding update_entry
  update_moves cache now id gsp change response none e h = unchanged cache id change.revision
  update_moves cache now id gsp change response (some cached) e h =
      if_cases (λ o. Leaves o (MovesOnly id change.revision cache))
        (leb change.revision cached.group.revision) (λ _. unchanged cache id change.revision)
        (λ q.
          if_cases (λ o. Leaves o (MovesOnly id change.revision cache))
            (ltb cached.group.revision (change.revision - 1))
            (λ _. evicted cache id change.revision)
            (λ k.
              let next : cached.group.revision + 1 ≡ change.revision = ground arith in
              let good = apply_change-revision change cached.group h in
              elim (Option-cases (apply_change change cached.group)) [
                | inl n ↦ absurd (subst (Holds _) n good)
                | inr (changed, n) ↦ rw n (
                    finish_moves cache now id gsp cached changed response change.revision e next
                      (subst (Holds _) n good))
              ]))

  -- ApplyUpdate never panics on a cached group that has access control, and leaves the entry of the
  -- group as it was, evicts it, or takes it from the revision before the change's to the change's; no
  -- other entry changes.
  pub apply_update-MovesOnly :
      (cache : GroupCache) (now : ℕ) (id : Bytes) (change : GroupChange) (response : Bytes)
      → lib.group_identifier change.master_key ≡ some id
      → CachedHasAccess (lookup id cache.entries)
      → Leaves (apply_update lib cache now change response) (MovesOnly id change.revision cache)
  unfolding apply_update
  apply_update-MovesOnly cache now id change response i h =
      elim (Option-cases (lib.secret_params change.master_key)) [
        | inl q ↦ rw (apply_update, i, q) (unchanged cache id change.revision)
        | inr (gsp, q) ↦
            rw (apply_update, i, q)
              (update_moves cache now id gsp change response (lookup id cache.entries) refl h)
      ]
