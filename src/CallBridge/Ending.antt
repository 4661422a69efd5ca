-- ===== src/CallBridge/Ending.antt =====
-- The steps that are left of the end of a call: every step of the bridge keeps a bound of them.
use mautrix_signal.Common.{
  ℕ, zero, suc, ◌≤◌, ◌≡◌, refl, ap, sym, ◌∙◌, subst, ◌==◌, ==→eq, Bool-cases, Bool, true, false,
  Option, none, some, List, [], ◌∷◌, ◌++◌, inl, inr, arith,
}
use mautrix_signal.CallBridge.Session.{
  EndReason, EndStage, running, told, cancelled, closed, ended, begun, taken, Session, once,
  end_from,
}
use mautrix_signal.CallBridge.Bridge.{
  World, lookup_session, put_session, Action, start_step, answer_step, end_step, end_call, act,
  act_on, perform,
}
use mautrix_signal.CallBridge.Invariant.{lookup-put, lookup-put_other}
use mautrix_signal.CallBridge.Invariant.Ends.{start_end, answer_end}
use mautrix_signal.CallBridge.Invariant.Handled.{Keeps}

-- The steps that are left of the end of a call, which has begun if they are at most five.
abbrev pub left : EndStage → ℕ
left running = 6
left (begun reason notify) = 5
left told = 4
left cancelled = 3
left (taken mx signal) = 2
left closed = 1
left ended = 0

abbrev pub has_begun : EndStage → Bool
has_begun running = false
has_begun _ = true

-- At most `n` steps are left of the end of session `i`.
abbrev EndingIn : ℕ → ℕ → List Session → Type 0
EndingIn n i ss = (s : Session) × (lookup_session i ss ≡ some s) × (left s.end_stage ≤ n)

abbrev pub Ending : ℕ → ℕ → World → Type 0
Ending n i w = EndingIn n i w.sessions

abbrev left_in : Option Session → ℕ
left_in none = 0
left_in (some s) = left s.end_stage

put-EndingIn :
    (i j n : ℕ) (s t : Session) (ss : List Session)
    → lookup_session j ss ≡ some s
    → left t.end_stage ≤ left s.end_stage
    → EndingIn n i ss
    → EndingIn n i (put_session j t ss)
put-EndingIn i j n s t ss e lower (u, l, k) = elim (Bool-cases (i == j)) [
  | inl q ↦
      let same : i ≡ j = ==→eq i j q in
      let found : some u ≡ some s = sym l ∙ (ap (λ m. lookup_session m ss) same ∙ e) in
      let left_same : left u.end_stage ≡ left s.end_stage = ap left_in found in
      (t, ap (λ m. lookup_session m (put_session j t ss)) same ∙ lookup-put j t s ss e, omega arith)
  | inr q ↦ (u, lookup-put_other j i t ss q ∙ l, k)
]

-- No step of a session, and no call of end, adds to what is left.
abbrev Lower : Session → EndStage → Bool → Type 0
Lower s stage frees = left stage ≤ left s.end_stage

once-Lower : (s : Session) (r : EndReason) (n : Bool) → Lower s (once r n s.end_stage) false
once-Lower s r n = at s.end_stage
  where
    at : (stage : EndStage) → left (once r n stage) ≤ left stage
    at running = omega arith
    at (begun q m) = omega arith
    at told = omega arith
    at cancelled = omega arith
    at (taken m g) = omega arith
    at closed = omega arith
    at ended = omega arith

-- A step of the end leaves one step fewer.
end-Nearer :
    (n : ℕ) (stage : EndStage) (s : Session)
    → s.end_stage ≡ stage
    → left stage ≤ suc n
    → n ≤ 4
    → left (end_from stage s).session.end_stage ≤ n
unfolding end_from
end-Nearer n running s e h k = absurd (omega arith)
end-Nearer n (begun r m) s e h k = omega arith
end-Nearer n told s e h k = omega arith
end-Nearer n cancelled s e h k = omega arith
end-Nearer n (taken mx signal) s e h k = omega arith
end-Nearer n closed s e h k = omega arith
end-Nearer n ended s e h k = rw e (omega arith)

end-Lower :
    (stage : EndStage) (s : Session)
    → s.end_stage ≡ stage
    → Lower s (end_from stage s).session.end_stage false
unfolding end_from
end-Lower running s e = omega arith
end-Lower (begun r m) s e = rw e (omega arith)
end-Lower told s e = rw e (omega arith)
end-Lower cancelled s e = rw e (omega arith)
end-Lower (taken mx signal) s e = rw e (omega arith)
end-Lower closed s e = rw e (omega arith)
end-Lower ended s e = omega arith

act-Lower : (a : Action) (leg : ℕ) (s : Session) → Lower s (act a leg s).session.end_stage false
unfolding act
act-Lower (start_step ok) leg s = start_end s (Lower s) (omega arith) (once-Lower s) s.start ok leg
act-Lower (answer_step ok) leg s =
    answer_end s (Lower s) (omega arith) (once-Lower s) s.answer ok leg
act-Lower end_step leg s = end-Lower s.end_stage s refl
act-Lower (end_call r n) leg s = once-Lower s r n

perform-Ending :
    (n i : ℕ) (a : Action) (j : ℕ) (w : World) → Ending n i w → Ending n i (perform a j w)
unfolding perform act_on
perform-Ending n i a j w h = at (lookup_session j w.sessions) refl
  where
    at : (o : Option Session) → lookup_session j w.sessions ≡ o → Ending n i (act_on a j o w)
    at none e = h
    at (some s) e =
        put-EndingIn i j n s (act a w.next_leg s).session w.sessions e (act-Lower a w.next_leg s) h

lookup-append_first :
    (i : ℕ) (s t : Session) (ss : List Session)
    → lookup_session i ss ≡ some t
    → lookup_session i (ss ++ s ∷ []) ≡ some t
lookup-append_first i s t [] e = absurd (ground arith)
lookup-append_first zero s t (u ∷ ss) e = e
lookup-append_first (suc i) s t (u ∷ ss) e = lookup-append_first i s t ss e

pub Ending-Keeps : (n i : ℕ) → Keeps (Ending n i)
Ending-Keeps n i = record {
  same = λ v w s a c h. subst (EndingIn n i) s h;
  performed = perform-Ending n i;
  replaced = λ j s t w e h k f.
      put-EndingIn i j n s t w.sessions e
        (let same : left t.end_stage ≡ left s.end_stage = ap left f in omega arith) h;
  added = λ s w a h k f. let (t, l, le) = h in (t, lookup-append_first i s t w.sessions l, le);
}

pub end_step-Ending :
    (i n : ℕ) (w : World) → n ≤ 4 → Ending (suc n) i w → Ending n i (perform end_step i w)
unfolding perform act_on act
end_step-Ending i n w k (s, l, le) = rw l (
  (end_from s.end_stage s).session,
  lookup-put i (end_from s.end_stage s).session s w.sessions l,
  end-Nearer n s.end_stage s refl le k,
)

pub left_begun : (stage : EndStage) → has_begun stage ≡ true → left stage ≤ 5
left_begun running h = absurd (ground arith)
left_begun (begun r n) h = omega arith
left_begun told h = omega arith
left_begun cancelled h = omega arith
left_begun (taken m g) h = omega arith
left_begun closed h = omega arith
left_begun ended h = omega arith

pub left_zero : (stage : EndStage) → left stage ≤ 0 → stage ≡ ended
left_zero running h = absurd (omega arith)
left_zero (begun r n) h = absurd (omega arith)
left_zero told h = absurd (omega arith)
left_zero cancelled h = absurd (omega arith)
left_zero (taken m g) h = absurd (omega arith)
left_zero closed h = absurd (omega arith)
left_zero ended h = refl
