-- ===== src/Groups/Cache/Use.antt =====
-- What the cache returns.
use mautrix_signal.Common.{
  inl, inr, ℕ, ◌+◌, ◌-◌, ◌≤◌, ◌≡◌, ◌≢◌, refl, sym, ap, ◌∙◌, ◌==◌, ==→eq, le→ltb, lt→leb, if_cases,
  true, false, Option, none, some, Option-cases, List, [], ◌∷◌, lookup, remove_key, store_key,
  lookup-store_key, lookup-store_key_other, lookup-remove_key, lookup-remove_key_other,
  list_eq_refl, arith, subst,
}
use mautrix_signal.Groups.Data.{Bytes, Group, GroupChange}
use mautrix_signal.Groups.Change.{apply_change}
use mautrix_signal.Groups.Cache.{
  Libsignal, GroupCache, GroupCredential, Endorsement, newer_than, put_group, endorse, put_endorsed,
  get_group, get_member_service_ids, five_minutes, update_active_call, get_credentials,
  get_cached_credentials, find_credential, fetch_credentials, CachedGroup, apply_update,
  update_entry, finish_update, day_of,
}
use mautrix_signal.Groups.Cache.Revisions.{Leaves}

-- When libsignal accepts the endorsements and the cache has no newer revision, Put makes Get return
-- the group with them until five minutes before they expire.
pub put_group-get_group :
    (lib : Libsignal) (cache : GroupCache) (now later : ℕ) (g : Group) (response gsp : Bytes)
    (expiration : ℕ) (endorsement : Endorsement)
    → lib.secret_params g.master_key ≡ some gsp
    → lib.get_expiration response ≡ some expiration
    → lib.receive response (get_member_service_ids g) cache.service_id gsp ≡ some endorsement
    → newer_than (lookup g.group_identifier cache.entries) g.revision ≡ false
    → later + five_minutes ≤ expiration
    → Leaves (put_group lib cache now g response) (λ d.
      get_group d later g.group_identifier
      ≡ some (g, record { endorsement = endorsement; expiration = expiration; params = gsp }))
unfolding put_group endorse put_endorsed get_group
put_group-get_group lib cache now later g response gsp expiration endorsement e1 e2 e3 n h =
    rw
      (
        put_group,
        endorse,
        e1,
        e2,
        e3,
        n,
        lookup-store_key g.group_identifier _ cache.entries,
        le→ltb expiration (later + five_minutes) h,
      )
      refl

-- When the cache has the revision just before a change's, libsignal accepts the endorsements, and the
-- change applies, ApplyUpdate makes Get return the changed group with them until five minutes before
-- they expire.
pub apply_update-get_group :
    (lib : Libsignal) (cache : GroupCache) (now later : ℕ) (id gsp response : Bytes)
    (change : GroupChange) (cached : CachedGroup) (changed : Group) (expiration : ℕ)
    (endorsement : Endorsement)
    → lib.group_identifier change.master_key ≡ some id
    → lib.secret_params change.master_key ≡ some gsp
    → lookup id cache.entries ≡ some cached
    → cached.group.revision + 1 ≡ change.revision
    → apply_change change cached.group ≡ some changed
    → lib.receive response (get_member_service_ids changed) cache.service_id gsp ≡ some endorsement
    → lib.get_expiration response ≡ some expiration
    → later + five_minutes ≤ expiration
    → Leaves (apply_update lib cache now change response) (λ d.
      get_group d later id
      ≡ some (changed, record { endorsement = endorsement; expiration = expiration; params = gsp }))
unfolding apply_update update_entry finish_update get_group
apply_update-get_group lib cache now later id gsp response change cached changed expiration
      endorsement e1 e2 e3 r e4 e5 e6 h =
    rw
      (
        apply_update,
        update_entry,
        finish_update,
        e1,
        e2,
        e3,
        lt→leb change.revision cached.group.revision (omega arith),
        le→ltb cached.group.revision (change.revision - 1) (omega arith),
        e4,
        e5,
        e6,
        lookup-store_key id _ cache.entries,
        le→ltb expiration (later + five_minutes) h,
      )
      refl

-- The first update with a call starts it, a second one with the same call ends it, and no other group's
-- call changes.
pub update_active_call_twice :
    (cache : GroupCache) (id call_id : Bytes)
    → lookup id cache.active_calls ≡ none
    → let (started, after) = update_active_call cache id call_id in
      let (again, last) = update_active_call after id call_id in
      (started ≡ true)
      × (lookup id after.active_calls ≡ some call_id)
      × (again ≡ false)
      × (lookup id last.active_calls ≡ none)
      × ((j : Bytes) → id ≢ j → lookup j last.active_calls ≡ lookup j cache.active_calls)
unfolding update_active_call
update_active_call_twice cache id call_id e =
    rw (update_active_call, e, list_eq_refl id, list_eq_refl call_id)
      (refl, refl, refl, lookup-remove_key id (store_key id call_id cache.active_calls), others)
  where
    others :
        (j : Bytes)
        → id ≢ j
        → lookup j (remove_key id (store_key id call_id cache.active_calls))
          ≡ lookup j cache.active_calls
    others j h =
        lookup-remove_key_other j id (store_key id call_id cache.active_calls) h
        ∙ lookup-store_key_other j id call_id cache.active_calls h

find_credential-today :
    (today : ℕ) (cs : List GroupCredential) (c : GroupCredential)
    → find_credential today cs ≡ some c
    → c.redemption_time ≡ today
find_credential-today today [] c = λ e. absurd (ground arith)
find_credential-today today (x ∷ cs) c =
    if_cases (λ o. o ≡ some c → c.redemption_time ≡ today) (x.redemption_time == today)
      (λ q e. ap redemption_or (sym e) ∙ ==→eq x.redemption_time today q)
      (λ _ e. find_credential-today today cs c e)
  where
    redemption_or : Option GroupCredential → ℕ
    redemption_or none = 0
    redemption_or (some d) = d.redemption_time

get_cached_credentials-today :
    (creds : Option (List GroupCredential)) (today : ℕ) (c : GroupCredential)
    → get_cached_credentials creds today ≡ some c
    → c.redemption_time ≡ today
unfolding get_cached_credentials
get_cached_credentials-today none today c e = absurd (ground arith)
get_cached_credentials-today (some cs) today c e = find_credential-today today cs c e

-- A result that the cache has for a day, with the credentials that it keeps.
abbrev Served : ℕ → Option GroupCredential × Option (List GroupCredential) → Type 0
Served today (none, creds) = Unit {0}
Served today (some c, creds) =
    (c.redemption_time ≡ today) × (get_cached_credentials creds today ≡ some c)

fetch-Served :
    (fetch : ℕ → Option (List GroupCredential)) (today : ℕ) (locked : Option (List GroupCredential))
    → Served today (fetch_credentials fetch today locked)
unfolding fetch_credentials
fetch-Served fetch today locked = elim (Option-cases (fetch today)) [
  | inl q ↦ rw (fetch_credentials, q) tt
  | inr (creds, q) ↦ elim (Option-cases (get_cached_credentials (some creds) today)) [
    | inl x ↦ rw (fetch_credentials, q, x) tt
    | inr (c, x) ↦
        rw (fetch_credentials, q, x) (get_cached_credentials-today (some creds) today c x, x)
  ]
]

get_credentials-Served :
    (now : ℕ) (fetch : ℕ → Option (List GroupCredential))
    (before locked : Option (List GroupCredential))
    → Served (day_of now) (get_credentials now fetch before locked)
unfolding get_credentials
get_credentials-Served now fetch before locked =
    elim (Option-cases (get_cached_credentials before (day_of now))) [
      | inr (c, q) ↦
          rw (get_credentials, q) (get_cached_credentials-today before (day_of now) c q, q)
      | inl q ↦ elim (Option-cases (get_cached_credentials locked (day_of now))) [
        | inr (c, x) ↦
            rw (get_credentials, q, x) (get_cached_credentials-today locked (day_of now) c x, x)
        | inl x ↦ rw (get_credentials, q, x) (fetch-Served fetch (day_of now) locked)
      ]
    ]

credential_found :
    (today : ℕ) (r : Option GroupCredential × Option (List GroupCredential)) (c : GroupCredential)
    → Served today r
    → r.0 ≡ some c
    → (c.redemption_time ≡ today) × (get_cached_credentials r.1 today ≡ some c)
credential_found today (none, creds) c h e = absurd (ground arith)
credential_found today (some d, creds) c h e = subst (λ o. Served today (o, creds)) e h

-- A credential that GetCredentials returns is for the day, and later on that day it is returned again
-- whatever a fetch would give, and the credentials that are kept stay.
pub get_credentials-again :
    (now later : ℕ) (fetch other : ℕ → Option (List GroupCredential))
    (before locked later_locked : Option (List GroupCredential)) (c : GroupCredential)
    → day_of later ≡ day_of now
    → (get_credentials now fetch before locked).0 ≡ some c
    → let kept = (get_credentials now fetch before locked).1 in
      (c.redemption_time ≡ day_of now)
      × (get_credentials later other kept later_locked ≡ (some c, kept))
unfolding get_credentials
get_credentials-again now later fetch other before locked later_locked c d e =
    let kept = (get_credentials now fetch before locked).1 in
    let (time, found) =
      credential_found (day_of now) (get_credentials now fetch before locked) c
        (get_credentials-Served now fetch before locked) e in
    (time, from_cache kept (ap (get_cached_credentials kept) d ∙ found))
  where
    from_cache :
        (kept : Option (List GroupCredential))
        → get_cached_credentials kept (day_of later) ≡ some c
        → get_credentials later other kept later_locked ≡ (some c, kept)
    from_cache kept q = rw (get_credentials, q) refl
