-- ===== src/Signalid/Ids.antt =====
-- pkg/signalid/ids.go. A network ID is the list of its bytes; `none` is a returned error, or the panic of
-- MakeUserIDFromServiceID on an unknown type.
pub mod RoundTrip
use mautrix_signal.Common.{
  ℕ, ◌+◌, ltb, leb, ◌==◌, if◌then◌else◌, Bool, Option, none, some, List, [], ◌∷◌, ◌++◌, length,
  take, drop, codes, list_eq,
}
use mautrix_signal.Encoding.Decimal.{format_uint, parse_uint}
use mautrix_signal.Signalid.Uuid.{UuidText}
use mautrix_signal.Signalid.ServiceId.{
  ServiceId, type_aci, type_pni, new_aci, to_string, from_string,
}

abbrev pub pni_user_id_prefix : List ℕ
pni_user_id_prefix = codes "pni_"

abbrev pub pni_service_id_prefix : List ℕ
pni_service_id_prefix = codes "PNI:"

abbrev has_prefix : List ℕ → List ℕ → Bool
has_prefix s prefix = list_eq (take (length prefix) s) prefix

pub data GhostOrUserLogin : Type 0 where
  user_login : List ℕ → GhostOrUserLogin
  ghost : List ℕ → GhostOrUserLogin
  neither : GhostOrUserLogin

-- What a portal ID stands for.
pub data Portal : Type 0 where
  user : ServiceId → Portal
  group : List ℕ → Portal

-- strings.Split at one character.
split_onto : ℕ → List ℕ → List ℕ → List (List ℕ)
split_onto c part [] = part ∷ []
split_onto c part (x ∷ xs) =
    if x == c then part ∷ split_onto c [] xs else split_onto c (part ++ (x ∷ [])) xs

pub split : ℕ → List ℕ → List (List ℕ)
unfolding split_onto
split c s = split_onto c [] s

-- MakeGroupPortalID, MakeMessagePartID.
unfoldable pub make_group_portal_id : List ℕ → List ℕ
make_group_portal_id group_id = group_id

unfoldable pub make_message_part_id : ℕ → List ℕ
make_message_part_id index = if index == 0 then [] else format_uint index

infixl 5 ◌>>=◌
abbrev ◌>>=◌ {ℓ κ} : {A : Type ℓ} {B : Type κ} → Option A → (A → Option B) → Option B
none >>= f = none
some a >>= f = f a

module _ (codec : UuidText) where
  open codec use {to_text, parse}

  pub parse_user_id_as_service_id : List ℕ → Option ServiceId
  parse_user_id_as_service_id user_id =
      if has_prefix user_id pni_user_id_prefix
      then from_string codec (pni_service_id_prefix ++ drop (length pni_user_id_prefix) user_id)
      else from_string codec user_id

  pub parse_user_id : List ℕ → Option (List ℕ)
  parse_user_id user_id = do
    service_id ← parse_user_id_as_service_id user_id
    if service_id.typ == type_aci then some service_id.uuid else none

  unfoldable pub parse_user_login_id : List ℕ → Option (List ℕ)
  parse_user_login_id user_login_id = parse user_login_id

  pub parse_ghost_or_user_login_id : GhostOrUserLogin → Option ServiceId
  unfolding parse_user_login_id
  parse_ghost_or_user_login_id (user_login id) = do u ← parse_user_login_id id; some (new_aci u)
  parse_ghost_or_user_login_id (ghost id) = parse_user_id_as_service_id id
  parse_ghost_or_user_login_id neither = none

  pub parse_portal_id : List ℕ → Option Portal
  parse_portal_id portal_id =
      if length portal_id == 44
      then some (group portal_id)
      else (do service_id ← from_string codec portal_id; some (user service_id))

  two_parts : List (List ℕ) → Option (List ℕ × ℕ)
  two_parts (first ∷ second ∷ []) = do
    sender ← parse first
    timestamp ← parse_uint second
    some (sender, timestamp)
  two_parts other = none

  pub parse_message_id : List ℕ → Option (List ℕ × ℕ)
  unfolding two_parts
  parse_message_id message_id = two_parts (split b'|' message_id)

  unfoldable pub make_dm_portal_id : ServiceId → List ℕ
  make_dm_portal_id service_id = to_string codec service_id

  unfoldable pub make_message_id : List ℕ → ℕ → List ℕ
  make_message_id sender timestamp = to_text sender ++ (codes "|" ++ format_uint timestamp)

  unfoldable pub make_user_id : List ℕ → List ℕ
  make_user_id u = to_text u

  unfoldable pub make_user_login_id : List ℕ → List ℕ
  make_user_login_id u = to_text u

  pub make_user_id_from_service_id : ServiceId → Option (List ℕ)
  unfolding make_user_id
  make_user_id_from_service_id s =
      if s.typ == type_aci
      then some (make_user_id s.uuid)
      else (if s.typ == type_pni then some (pni_user_id_prefix ++ to_text s.uuid) else none)
