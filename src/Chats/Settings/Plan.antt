-- ===== src/Chats/Settings/Plan.antt =====
-- What a plan does to the settings that Matrix shows.
use mautrix_signal.Common.{
  ℕ, ◌*◌, ◌-◌, ◌^◌, ◌≡◌, refl, ap, sym, ◌∙◌, ltb, leb, ◌==◌, ==→eq, Bool-cases, inl, inr, ◌∷◌, ◌&&◌,
  if◌then◌else◌, Bool, true, false, not, Option, none, some, List, [], list_eq, list_eq→eq, arith,
}
use mautrix_signal.Chats.Settings.{
  ChatSettings, max_safe_date_millis, muted_forever, mute_expiry, MuteTime, unmuted, until, forever,
  Tags, tag_for, effective_mute, mute_time, UserLocal, SettingsPlan, unless_nil, bool_eq, is_none,
  settings_of, plan_chat_settings, initial_user_local,
}

-- What Matrix shows of the settings of a chat.
pub record View : Type 0 where
  pub mute : MuteTime
  pub tag : List ℕ
  pub unread : Bool

unfoldable pub view : ChatSettings → Tags → ℕ → View
view cs tags now = record {
  mute = mute_time cs now;
  tag = tag_for tags cs;
  unread = cs.marked_unread;
}

abbrev or_keep : {A : Type 0} → Option A → A → A
or_keep none old = old
or_keep (some new) old = new

abbrev pub apply_local : Option UserLocal → View → View
apply_local none v = v
apply_local (some local) v = record v {
  mute = or_keep local.muted_until v.mute;
  tag = or_keep local.tag v.tag;
}

abbrev pub apply_plan : SettingsPlan → View → View
apply_plan p v =
    let local = apply_local p.user_local v in
    record local { unread = or_keep p.mark_unread local.unread }

-- The mute that a number of effectiveMute stands for.
time_of : ℕ → MuteTime
time_of n = if n == 2 ^ 64 - 1 then forever else (if n == 0 then unmuted else until n)

time_of-until :
    (n : ℕ) → leb max_safe_date_millis n ≡ false → (n == 0) ≡ false → time_of n ≡ until n
unfolding time_of
time_of-until n h z = let small : (n == 2 ^ 64 - 1) ≡ false = ground arith in rw (small, z) refl

mute_time-time_of :
    (cs : ChatSettings) (now : ℕ) → mute_time cs now ≡ time_of (effective_mute cs now)
unfolding mute_time effective_mute time_of mute_expiry muted_forever
mute_time-time_of cs now = elim (Bool-cases (muted_forever cs)) [
  | inl q ↦ rw (mute_time, effective_mute, mute_expiry, muted_forever, q) refl
  | inr q ↦ elim (Bool-cases (cs.muted_until == 0)) [
    | inl z ↦ rw (mute_time, effective_mute, mute_expiry, muted_forever, q, z) refl
    | inr z ↦ elim (Bool-cases (ltb now (cs.muted_until * 1000000))) [
      | inr l ↦ rw (mute_time, effective_mute, mute_expiry, muted_forever, q, z, l) refl
      | inl l ↦
          rw (mute_time, effective_mute, mute_expiry, muted_forever, q, z, l)
            (sym (time_of-until cs.muted_until q z))
    ]
  ]
]

same_mute :
    (a b : ChatSettings) (now : ℕ)
    → (effective_mute a now == effective_mute b now) ≡ true
    → mute_time a now ≡ mute_time b now
same_mute a b now h =
    mute_time-time_of a now
    ∙ ap time_of (==→eq (effective_mute a now) (effective_mute b now) h)
    ∙ sym (mute_time-time_of b now)

apply_unless_nil :
    (m : Option MuteTime) (t : Option (List ℕ)) (v : View)
    → apply_local (unless_nil (record { muted_until = m; tag = t })) v
      ≡ record v { mute = or_keep m v.mute; tag = or_keep t v.tag }
apply_unless_nil none none v = refl
apply_unless_nil none (some t) v = refl
apply_unless_nil (some m) none v = refl
apply_unless_nil (some m) (some t) v = refl

-- A value that is set when a comparison says that it changed.
keep_changed :
    {A : Type 0} (same : Bool) (new old : A)
    → (same ≡ true → old ≡ new)
    → or_keep (if not same then some new else none) old ≡ new
keep_changed true new old h = h refl
keep_changed false new old h = refl

same_bool : (a b : Bool) → bool_eq a b ≡ true → a ≡ b
same_bool true b h = sym h
same_bool false true h = h
same_bool false false h = refl

-- Applying a plan to what Matrix shows of the settings last seen gives what it has to show of the
-- current ones.
pub apply-plan_chat_settings :
    (prev : Option ChatSettings) (cur : ChatSettings) (tags : Tags) (now : ℕ)
    → apply_plan (plan_chat_settings prev cur tags now) (view (settings_of prev) tags now)
      ≡ view cur tags now
unfolding plan_chat_settings view
apply-plan_chat_settings prev cur tags now =
    let old = settings_of prev in
    let p = plan_chat_settings prev cur tags now in
    ap (λ (w : View). record w { unread = or_keep p.mark_unread w.unread })
      (apply_unless_nil
        (if not (effective_mute old now == effective_mute cur now)
          then some (mute_time cur now)
          else none)
        (if not (list_eq (tag_for tags old) (tag_for tags cur))
          then some (tag_for tags cur)
          else none)
        (view old tags now))
    ∙ (λ i. record {
      mute =
          keep_changed (effective_mute old now == effective_mute cur now) (mute_time cur now)
            (mute_time old now) (same_mute old cur now) i;
      tag =
          keep_changed (list_eq (tag_for tags old) (tag_for tags cur)) (tag_for tags cur)
            (tag_for tags old) (list_eq→eq (tag_for tags old) (tag_for tags cur)) i;
      unread =
          keep_changed (bool_eq old.marked_unread cur.marked_unread) cur.marked_unread
            old.marked_unread (same_bool old.marked_unread cur.marked_unread) i;
    })

nil_swapped :
    (m : Option MuteTime) (t : Option (List ℕ))
    → (if is_none m && is_none t then none else some (record { muted_until = m; tag = t }))
      ≡ unless_nil (record { muted_until = m; tag = t })
nil_swapped none none = refl
nil_swapped none (some t) = refl
nil_swapped (some m) none = refl
nil_swapped (some m) (some t) = refl

list_eq_nil : (t : List ℕ) → list_eq t [] ≡ list_eq [] t
list_eq_nil [] = refl
list_eq_nil (x ∷ xs) = refl

zero_first : (n : ℕ) → (n == 0) ≡ (0 == n)
zero_first n = ground arith

-- A new room gets the part of the plan for a chat that was never seen.
pub initial_user_local-plan :
    (cur : ChatSettings) (tags : Tags) (now : ℕ)
    → initial_user_local cur tags now ≡ (plan_chat_settings none cur tags now).user_local
unfolding initial_user_local plan_chat_settings
initial_user_local-plan cur tags now =
    rw (initial_user_local, zero_first (effective_mute cur now), list_eq_nil (tag_for tags cur))
      (nil_swapped _ _)
