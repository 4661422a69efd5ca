-- ===== src/Groups/Runs.antt =====
-- The theorems on groups at concrete inputs.
use mautrix_signal.Common.{
  ℕ, ◌≡◌, ◌≢◌, refl, true, false, Option, some, none, List, [], ◌∷◌, replicate, lookup, arith,
}
use mautrix_signal.Signalid.ServiceId.{new_aci}
use mautrix_signal.Groups.Data.{Bytes, Group, GroupChange, GroupMember}
use mautrix_signal.Groups.Change.{
  apply_change, apply_pending, promote_pending, promote_pending_pni_aci, delete_pending,
  apply_requesting, promote_requesting, delete_requesting, apply_members, modify_roles,
  modify_profile_keys, delete_members, apply_banned, apply_settings,
}
use mautrix_signal.Groups.Change.Members.{Holds}
use mautrix_signal.Groups.Change.Deleted.{NoneDeleted, apply_change-NoneDeleted}
use mautrix_signal.Groups.Conflict.{resolve_settings}
use mautrix_signal.Groups.Cache.{
  Libsignal, GroupCache, CachedGroup, Endorsement, GroupCredential, apply_update, put_group,
  get_group, update_active_call, get_credentials, day_of, get_cached_credentials, fetch_credentials,
}
use mautrix_signal.Groups.Cache.Revisions.{Leaves, MovesOnly, apply_update-MovesOnly}
use mautrix_signal.Groups.Cache.Use.{
  put_group-get_group, apply_update-get_group, update_active_call_twice, get_credentials-again,
}

abbrev alice : Bytes
alice = replicate 16 1

abbrev bob : Bytes
bob = replicate 16 2

abbrev member_of : Bytes → GroupMember
member_of u = record { aci = u; role = 1; profile_key = replicate 32 9; joined_at_revision = 0 }

abbrev some_group : Group
some_group = record {
  master_key = replicate 32 5;
  group_identifier = 7 ∷ [];
  title = [];
  avatar_path = [];
  members = member_of alice ∷ [];
  description = [];
  announcements_only = false;
  revision = 3;
  disappearing_messages_duration = 0;
  access_control = some (record { members = 1; add_from_invite_link = 1; attributes = 1 });
  pending_members =
      record { service_id = new_aci bob; role = 1; added_by_user_id = alice; timestamp = 0 } ∷ [];
  requesting_members = [];
  banned_members = [];
  invite_link_password = none;
}

abbrev some_change : GroupChange
some_change = record {
  master_key = replicate 32 5;
  revision = 4;
  add_members = [];
  delete_members = some alice ∷ none ∷ [];
  modify_member_roles = [];
  modify_member_profile_keys = [];
  add_pending_members = [];
  delete_pending_members = [];
  promote_pending_members = record { aci = bob; profile_key = replicate 32 8 } ∷ [];
  modify_title = some (65 ∷ []);
  modify_avatar = none;
  modify_disappearing_messages_duration = none;
  modify_attributes_access = none;
  modify_member_access = some 2;
  modify_add_from_invite_link_access = none;
  add_requesting_members = [];
  delete_requesting_members = [];
  promote_requesting_members = [];
  modify_description = none;
  modify_announcements_only = some true;
  add_banned_members = [];
  delete_banned_members = [];
  promote_pending_pni_aci_members = [];
  modify_invite_link_password = none;
}

abbrev some_endorsement : Endorsement
some_endorsement = record { group = 1 ∷ []; members = [] }

-- Responses are the time at which they expire.
abbrev expiration_in : Bytes → Option ℕ
expiration_in [] = none
expiration_in (t ∷ rest) = some t

abbrev plain_libsignal : Libsignal
plain_libsignal = record {
  secret_params = λ key. some key;
  group_identifier = λ key. some (7 ∷ []);
  get_expiration = expiration_in;
  receive = λ response ids self params. some some_endorsement;
}

abbrev some_entry : CachedGroup
some_entry = record {
  group = some_group;
  endorsements = record {
    endorsement = some_endorsement;
    expiration = 5000;
    params = replicate 32 5;
  };
  fetched_at = 10;
  updated_at = 10;
}

abbrev some_cache : GroupCache
some_cache = record {
  service_id = new_aci alice;
  credentials = none;
  entries = (7 ∷ [], some_entry) ∷ [];
  active_calls = [];
}

apply_change-NoneDeleted_example :
    Holds (NoneDeleted some_change) (apply_change some_change some_group)
apply_change-NoneDeleted_example = apply_change-NoneDeleted some_change some_group tt

apply_update-MovesOnly_example :
    Leaves
      (apply_update plain_libsignal some_cache 20 some_change (9000 ∷ []))
      (MovesOnly (7 ∷ []) 4 some_cache)
apply_update-MovesOnly_example =
    apply_update-MovesOnly plain_libsignal some_cache 20 (7 ∷ []) some_change (9000 ∷ []) refl tt

put_group-get_group_example :
    Leaves (put_group plain_libsignal some_cache 20 some_group (9000 ∷ [])) (λ d.
      get_group d 8000 (7 ∷ [])
      ≡ some (
        some_group,
        record { endorsement = some_endorsement; expiration = 9000; params = replicate 32 5 },
      ))
put_group-get_group_example =
    put_group-get_group plain_libsignal some_cache 20 8000 some_group (9000 ∷ []) (replicate 32 5)
      9000 some_endorsement refl refl refl refl (omega arith)

update_active_call_twice_example :
    let (started, after) = update_active_call some_cache (7 ∷ []) (1 ∷ []) in
    let (again, last) = update_active_call after (7 ∷ []) (1 ∷ []) in
    (started ≡ true)
    × (lookup (7 ∷ []) after.active_calls ≡ some (1 ∷ []))
    × (again ≡ false)
    × (lookup (7 ∷ []) last.active_calls ≡ none)
    × ((j : Bytes) → (7 ∷ []) ≢ j → lookup j last.active_calls ≡ lookup j some_cache.active_calls)
update_active_call_twice_example = update_active_call_twice some_cache (7 ∷ []) (1 ∷ []) refl

abbrev today_only : ℕ → Option (List GroupCredential)
today_only today = some (record { credential = 3 ∷ []; redemption_time = today } ∷ [])

abbrev no_fetch : ℕ → Option (List GroupCredential)
no_fetch today = none

abbrev first_credential : GroupCredential
first_credential = record { credential = 3 ∷ []; redemption_time = 86400 }

get_credentials-again_example :
    (first_credential.redemption_time ≡ day_of 90000)
    × (get_credentials 100000 no_fetch (get_credentials 90000 today_only none none).1 none
        ≡ (some first_credential, (get_credentials 90000 today_only none none).1))
unfolding get_credentials get_cached_credentials fetch_credentials
get_credentials-again_example =
    get_credentials-again 90000 100000 today_only no_fetch none none none first_credential refl refl

abbrev changed_group : Group
changed_group = record some_group {
  title = 65 ∷ [];
  announcements_only = true;
  revision = 4;
  access_control = some (record { members = 2; add_from_invite_link = 1; attributes = 1 });
  pending_members = [];
  members =
      record { aci = bob; role = 1; profile_key = replicate 32 8; joined_at_revision = 4 } ∷ [];
}

apply_update-get_group_example :
    Leaves (apply_update plain_libsignal some_cache 20 some_change (9000 ∷ [])) (λ d.
      get_group d 8000 (7 ∷ [])
      ≡ some (
        changed_group,
        record { endorsement = some_endorsement; expiration = 9000; params = replicate 32 5 },
      ))
unfolding apply_change apply_pending promote_pending promote_pending_pni_aci delete_pending
    apply_requesting promote_requesting delete_requesting apply_members modify_roles
    modify_profile_keys delete_members apply_banned apply_settings
apply_update-get_group_example =
    apply_update-get_group plain_libsignal some_cache 20 8000 (7 ∷ []) (replicate 32 5) (9000 ∷ [])
      some_change some_entry changed_group 9000 some_endorsement refl refl refl refl refl refl refl
      (omega arith)

-- A change that leaves the description alone panics.
nil_description_test : resolve_settings some_change some_group ≡ none
unfolding resolve_settings
nil_description_test = refl
