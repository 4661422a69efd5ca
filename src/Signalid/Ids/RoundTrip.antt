-- ===== src/Signalid/Ids/RoundTrip.antt =====
-- Identifiers survive their text forms, and the text forms cannot be confused.
use mautrix_signal.Common.{
  ℕ, ◌+◌, ◌^◌, ◌<◌, ◌≡◌, refl, ap, ◌∙◌, sym, ◌==◌, if◌then◌else◌, false, true, none, some, List, [],
  ◌∷◌, ◌++◌, length, codes, All, arith, append_assoc, append-nil,
}
use mautrix_signal.Encoding.Decimal.{format_uint, parse_uint-format_uint, format_uint-All}
use mautrix_signal.Signalid.Uuid.{UuidText, IsUuid, IsUuidChar}
use mautrix_signal.Signalid.ServiceId.{ServiceId, type_aci, new_aci, to_string}
use mautrix_signal.Signalid.ServiceId.RoundTrip.{
  IsValid, valid_cases, from_string_aci, from_string_pni,
}
use mautrix_signal.Signalid.Ids.{
  user, group, split, split_onto, has_prefix, pni_user_id_prefix, parse_user_id_as_service_id,
  parse_user_id, parse_portal_id, parse_message_id, make_group_portal_id, make_dm_portal_id,
  make_message_id, make_user_id_from_service_id,
}

no_prefix : (s : List ℕ) → All IsUuidChar s → has_prefix s pni_user_id_prefix ≡ false
no_prefix [] h = refl
no_prefix (c ∷ cs) (h, hs) = rw (not_p c h)
  where
    not_p : (c : ℕ) → IsUuidChar c → (c == b'p') ≡ false
    not_p c h = ground arith

abbrev IsNot : ℕ → ℕ → Type 0
IsNot c x = (x == c) ≡ false

split_onto-clean :
    (c : ℕ) (part xs : List ℕ) → All (IsNot c) xs → split_onto c part xs ≡ (part ++ xs) ∷ []
unfolding split_onto
split_onto-clean c part [] h = ap (λ l. l ∷ []) (sym (append-nil part))
split_onto-clean c part (x ∷ xs) (h, hs) =
    rw h (
      split_onto-clean c (part ++ (x ∷ [])) xs hs
      ∙ ap (λ l. l ∷ []) (append_assoc part (x ∷ []) xs))

split_onto-at :
    (c : ℕ) (part xs ys : List ℕ)
    → All (IsNot c) xs
    → All (IsNot c) ys
    → (c == c) ≡ true
    → split_onto c part (xs ++ (c ∷ ys)) ≡ (part ++ xs) ∷ ys ∷ []
unfolding split_onto
split_onto-at c part [] ys h k e =
    rw e
      (ap (◌∷◌ part) (split_onto-clean c [] ys k) ∙ ap (λ l. l ∷ ys ∷ []) (sym (append-nil part)))
split_onto-at c part (x ∷ xs) ys (h, hs) k e = rw h (
    split_onto-at c (part ++ (x ∷ [])) xs ys hs k e
    ∙ ap (λ l. l ∷ ys ∷ []) (append_assoc part (x ∷ []) xs))

All-map-IsNot : (xs : List ℕ) → All IsUuidChar xs → All (IsNot b'|') xs
All-map-IsNot [] h = tt
All-map-IsNot (x ∷ xs) (h, hs) = (bar x h, All-map-IsNot xs hs)
  where
    bar : (x : ℕ) → IsUuidChar x → (x == b'|') ≡ false
    bar x h = ground arith

digit_IsNot : (d : ℕ) → d < 10 → IsNot b'|' (b'0' + d)
digit_IsNot d h = ground arith

module _ (codec : UuidText) where
  open codec use {to_text, parse, parse-to_text, length-to_text, to_text-chars}

  -- A message ID parses to the sender and timestamp that it was made of.
  pub parse_message_id-make_message_id :
      (sender : List ℕ) (timestamp : ℕ)
      → IsUuid sender
      → timestamp < 2 ^ 64
      → parse_message_id codec (make_message_id codec sender timestamp) ≡ some (sender, timestamp)
  unfolding parse_message_id make_message_id split
  parse_message_id-make_message_id sender timestamp h q = rw (
    split_onto-at b'|' [] (to_text sender) (format_uint timestamp)
        (All-map-IsNot (to_text sender) (to_text-chars sender h))
        (format_uint-All (IsNot b'|') timestamp digit_IsNot) refl,
    parse-to_text sender h,
    parse_uint-format_uint timestamp q,
  )

  -- Every ACI and PNI has a user ID, and parsing the user ID gives it back. Only an ACI's user ID
  -- parses to a UUID.
  pub parse_user_id-make_user_id :
      (s : ServiceId)
      → IsValid s
      → (id : List ℕ) × (make_user_id_from_service_id codec s ≡ some id)
        × (parse_user_id_as_service_id codec id ≡ some s)
        × (parse_user_id codec id ≡ (if s.typ == type_aci then some s.uuid else none))
  unfolding make_user_id_from_service_id parse_user_id_as_service_id parse_user_id
  parse_user_id-make_user_id =
      valid_cases _ (λ u h. (to_text u, refl, aci u h, rw (aci u h) refl))
        (λ u h. (
          pni_user_id_prefix ++ to_text u,
          refl,
          from_string_pni codec u h,
          rw (from_string_pni codec u h) refl,
        ))
    where
      aci :
          (u : List ℕ) → IsUuid u → parse_user_id_as_service_id codec (to_text u) ≡ some (new_aci u)
      aci u h = rw (no_prefix (to_text u) (to_text-chars u h)) (from_string_aci codec u h)

  -- A portal ID parses to what it was made from: a direct chat's service ID, or a group's ID, if that
  -- has the 44 characters of a group ID.
  pub parse_portal_id-make :
      (s : ServiceId) (group_id : List ℕ)
      → IsValid s
      → length group_id ≡ 44
      → ((id : List ℕ) × (make_dm_portal_id codec s ≡ id)
          × (parse_portal_id codec id ≡ some (user s)))
        × (parse_portal_id codec (make_group_portal_id group_id) ≡ some (group group_id))
  unfolding parse_portal_id make_dm_portal_id make_group_portal_id
  parse_portal_id-make s group_id h q = (
    valid_cases
        (λ s.
          (id : List ℕ) × (make_dm_portal_id codec s ≡ id)
          × (parse_portal_id codec id ≡ some (user s)))
        (λ u h.
          (to_text u, unfold to_string in refl, rw (length-to_text u h, from_string_aci codec u h)))
        (λ u h. (
          codes "PNI:" ++ to_text u,
          unfold to_string in refl,
          rw (length-to_text u h, from_string_pni codec u h),
        ))
        s h,
    rw q,
  )
