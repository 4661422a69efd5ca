-- ===== src/Groups/Cache.antt =====
-- pkg/signalmeow/groupcache.go: the group cache. What libsignal computes from keys and endorsement
-- responses is a parameter; times are numbers of seconds, and the locks make each operation one step.
-- The Group of an entry is a pointer in the source, and what Get returned before changes with it; here
-- it is a value.
pub mod Revisions
pub mod Use
use mautrix_signal.Common.{
  ℕ, ◌+◌, ◌-◌, ◌*◌, ◌/◌, ltb, leb, ◌==◌, if◌then◌else◌, Bool, true, false, Option, none, some, List,
  [], ◌∷◌, map, lookup, remove_key, store_key, list_eq,
}
use mautrix_signal.Signalid.ServiceId.{ServiceId, new_aci}
use mautrix_signal.Groups.Data.{Bytes, GroupMember, Group, GroupChange}
use mautrix_signal.Groups.Change.{apply_change, ◌>>=◌}

pub record Endorsement : Type 0 where
  pub group : Bytes
  pub members : List (ServiceId × Bytes)

-- The functions of libsignal that the cache calls; `none` is an error.
pub record Libsignal : Type 0 where
  pub secret_params : Bytes → Option Bytes
  pub group_identifier : Bytes → Option Bytes
  pub get_expiration : Bytes → Option ℕ
  pub receive : Bytes → List ServiceId → ServiceId → Bytes → Option Endorsement

pub record SendEndorsementCache : Type 0 where
  pub endorsement : Endorsement
  pub expiration : ℕ
  pub params : Bytes

pub record CachedGroup : Type 0 where
  pub group : Group
  pub endorsements : SendEndorsementCache
  pub fetched_at : ℕ
  pub updated_at : ℕ

pub record GroupCredential : Type 0 where
  pub credential : Bytes
  pub redemption_time : ℕ

pub record GroupCache : Type 0 where
  pub service_id : ServiceId
  pub credentials : Option (List GroupCredential)
  pub entries : List (Bytes × CachedGroup)
  pub active_calls : List (Bytes × Bytes)

pub new_group_cache : ServiceId → GroupCache
new_group_cache s = record { service_id = s; credentials = none; entries = []; active_calls = [] }

-- An operation returns, with an error or without one, or it panics.
pub data Outcome : Type 0 where
  done : GroupCache → Outcome
  failed : GroupCache → Outcome
  panic : Outcome

abbrev find_credential : ℕ → List GroupCredential → Option GroupCredential
find_credential today [] = none
find_credential today (c ∷ cs) =
    if c.redemption_time == today then some c else find_credential today cs

unfoldable pub get_cached_credentials : Option (List GroupCredential) → ℕ → Option GroupCredential
get_cached_credentials none today = none
get_cached_credentials (some cs) today = find_credential today cs

-- The day of a time, as in `Truncate(24 * time.Hour)`.
abbrev pub day_of : ℕ → ℕ
day_of now = now / 86400 * 86400

-- The fetch, under the write lock.
unfoldable pub fetch_credentials :
    (ℕ → Option (List GroupCredential))
    → ℕ
    → Option (List GroupCredential)
    → Option GroupCredential × Option (List GroupCredential)
unfolding get_cached_credentials
fetch_credentials fetch today locked = elim (fetch today) [
  | none ↦ (none, locked)
  | some creds ↦ (get_cached_credentials (some creds) today, some creds)
]

-- `before` is what the read lock shows and `locked` what the write lock does. The result is the
-- credential, where `none` is an error, and the credentials that the cache has then.
unfoldable pub get_credentials :
    ℕ
    → (ℕ → Option (List GroupCredential))
    → Option (List GroupCredential)
    → Option (List GroupCredential)
    → Option GroupCredential × Option (List GroupCredential)
unfolding get_cached_credentials fetch_credentials
get_credentials now fetch before locked =
    let today = day_of now in
    elim (get_cached_credentials before today) [
      | some cred ↦ (some cred, before)
      | none ↦ elim (get_cached_credentials locked today) [
        | some cred ↦ (some cred, locked)
        | none ↦ fetch_credentials fetch today locked
      ]
    ]

abbrev toggle_call : GroupCache → Bytes → Bytes → Option Bytes → Bool × GroupCache
toggle_call cache id call_id none =
    (true, record cache { active_calls = store_key id call_id cache.active_calls })
toggle_call cache id call_id (some current) =
    if list_eq current call_id
    then (false, record cache { active_calls = remove_key id cache.active_calls })
    else (true, record cache { active_calls = store_key id call_id cache.active_calls })

pub update_active_call : GroupCache → Bytes → Bytes → Bool × GroupCache
update_active_call cache id call_id = toggle_call cache id call_id (lookup id cache.active_calls)

abbrev pub five_minutes : ℕ
five_minutes = 300

abbrev unless_expiring : ℕ → Option CachedGroup → Option (Group × SendEndorsementCache)
unless_expiring now none = none
unless_expiring now (some c) =
    if ltb c.endorsements.expiration (now + five_minutes)
    then none
    else some (c.group, c.endorsements)

pub get_group : GroupCache → ℕ → Bytes → Option (Group × SendEndorsementCache)
get_group cache now id = unless_expiring now (lookup id cache.entries)

pub delete_group : GroupCache → Bytes → GroupCache
delete_group cache id = record cache { entries = remove_key id cache.entries }

pub get_member_service_ids : Group → List ServiceId
get_member_service_ids g = map (λ (m : GroupMember). new_aci m.aci) g.members

-- Whether the entry in the cache is kept over new data of a revision.
abbrev pub newer_than : Option CachedGroup → ℕ → Bool
newer_than none revision = false
newer_than (some cached) revision = ltb revision cached.group.revision

put_endorsed : GroupCache → ℕ → Group → SendEndorsementCache → GroupCache
put_endorsed cache now g sec =
    if newer_than (lookup g.group_identifier cache.entries) g.revision
    then cache
    else record cache {
      entries =
          store_key g.group_identifier
            (record { group = g; endorsements = sec; fetched_at = now; updated_at = now })
            cache.entries;
    }

module _ (lib : Libsignal) where
  endorse : GroupCache → Group → Bytes → Option SendEndorsementCache
  unfolding get_member_service_ids
  endorse cache g response = do
    gsp ← lib.secret_params g.master_key
    expiration ← lib.get_expiration response
    endorsement ← lib.receive response (get_member_service_ids g) cache.service_id gsp
    some (record { endorsement = endorsement; expiration = expiration; params = gsp })

  pub put_group : GroupCache → ℕ → Group → Bytes → Outcome
  unfolding endorse put_endorsed
  put_group cache now g response = elim (endorse cache g response) [
    | none ↦ failed cache
    | some sec ↦ done (put_endorsed cache now g sec)
  ]

  -- The entry with the changed group and its new endorsements, or what deletes the entry.
  finish_update : GroupCache → ℕ → Bytes → Bytes → CachedGroup → Group → Bytes → Outcome
  unfolding get_member_service_ids
  finish_update cache now id gsp cached changed response =
      let dropped : GroupCache = record cache { entries = remove_key id cache.entries } in
      elim (lib.receive response (get_member_service_ids changed) cache.service_id gsp) [
        | none ↦ failed dropped
        | some endorsement ↦ elim (lib.get_expiration response) [
          | none ↦ failed dropped
          | some expiration ↦ done (record cache {
            entries =
                store_key id
                  (record cached {
                    group = changed;
                    endorsements = record {
                      endorsement = endorsement;
                      expiration = expiration;
                      params = gsp;
                    };
                    updated_at = now;
                  })
                  cache.entries;
          })
        ]
      ]

  -- `cached.Revision < change.Revision-1` on uint32, where the test before it leaves no wrap-around.
  update_entry : GroupCache → ℕ → Bytes → Bytes → GroupChange → Bytes → Option CachedGroup → Outcome
  unfolding finish_update
  update_entry cache now id gsp change response none = done cache
  update_entry cache now id gsp change response (some cached) =
      let updated : Outcome = elim (apply_change change cached.group) [
        | none ↦ panic
        | some changed ↦ finish_update cache now id gsp cached changed response
      ] in
      if leb change.revision cached.group.revision
      then done cache
      else (if ltb cached.group.revision (change.revision - 1)
          then done (record cache { entries = remove_key id cache.entries })
          else updated)

  pub apply_update : GroupCache → ℕ → GroupChange → Bytes → Outcome
  unfolding update_entry
  apply_update cache now change response = elim (lib.group_identifier change.master_key) [
    | none ↦ failed cache
    | some id ↦ elim (lib.secret_params change.master_key) [
      | none ↦ failed cache
      | some gsp ↦ update_entry cache now id gsp change response (lookup id cache.entries)
    ]
  ]
