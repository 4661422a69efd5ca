-- ===== src/CallBridge/Invariant/Kept.antt =====
-- A step of a session, and a new session, keep the invariant of the bridge.
use mautrix_signal.Common.{
  ℕ, ◌≡◌, inl, inr, refl, ap, sym, if◌then◌else◌, Bool, true, false, Option, none, some, List, [],
  ◌∷◌, ◌++◌, All-append, arith,
}
use mautrix_signal.CallBridge.Session.{
  EndReason, EndStage, running, told, cancelled, closed, ended, begun, taken, Session, Outcome,
  once, end_session, end_from,
}
use mautrix_signal.CallBridge.Goroutines.{answer_from}
use mautrix_signal.CallBridge.Bridge.{
  World, lookup_session, put_session, freed, commit, Action, start_step, answer_step, end_step,
  end_call, act, act_on, perform, adds,
}
use mautrix_signal.CallBridge.Handlers.{replace}
use mautrix_signal.CallBridge.Invariant.{
  SessionInv, is_ended, Inv, is_ended-once, put-All, lookup-All, lookup-append_last, put-Live,
  freed-Live, Live, lookup-append,
}
use mautrix_signal.CallBridge.Invariant.Legs.{start-Inv, answer-Inv, end-Inv}
use mautrix_signal.CallBridge.Invariant.Appended.{
  All-SessionInv-append, SessionInv-append, LegKept-once,
}
use mautrix_signal.CallBridge.Invariant.Ends.{start_end, answer_end}

-- A step frees the bridge exactly when it ends the session.
abbrev Stays : Session → EndStage → Bool → Type 0
Stays s stage frees =
    (frees ≡ true → is_ended stage ≡ true) × (frees ≡ false → is_ended stage ≡ is_ended s.end_stage)

commit-Live :
    (frees : Bool) (i : ℕ) (s t : Session) (active : Option ℕ) (ss : List Session)
    → lookup_session i ss ≡ some s
    → Live active ss
    → Stays s t.end_stage frees
    → Live (if frees then freed i active else active) (put_session i t ss)
commit-Live true i s t active ss e r (f, g) = freed-Live i s t active ss e r (f refl)
commit-Live false i s t active ss e r (f, g) = put-Live i s t active ss e r (g refl)

commit-Inv :
    (i : ℕ) (s : Session) (o : Outcome) (w : World)
    → lookup_session i w.sessions ≡ some s
    → Inv w
    → SessionInv (w.closed_legs ++ o.closes) o.session
    → Stays s o.session.end_stage o.frees
    → Inv (commit i o w)
commit-Inv i s o w e (all, r) h f = (
  put-All (SessionInv (w.closed_legs ++ o.closes)) i o.session w.sessions
      (All-SessionInv-append w.closed_legs o.closes w.sessions all) h,
  commit-Live o.frees i s o.session w.active w.sessions e r f,
)

act-SessionInv :
    (a : Action) (leg : ℕ) (legs : List ℕ) (s : Session)
    → SessionInv legs s
    → SessionInv (legs ++ (act a leg s).closes) (act a leg s).session
unfolding act
act-SessionInv (start_step ok) leg legs s h = start-Inv legs s s.start ok leg h
act-SessionInv (answer_step ok) leg legs s h =
    SessionInv-append legs (answer_from s.answer ok leg s).closes
      (answer_from s.answer ok leg s).session (answer-Inv legs s s.answer ok leg h)
act-SessionInv end_step leg legs s h = end-Inv legs s s.end_stage h (λ i. (h i).1)
act-SessionInv (end_call r n) leg legs s h =
    SessionInv-append legs [] (end_session r n s)
      (λ i. let (ring, l) = h i in (ring, LegKept-once legs s.mx_leg r n s.end_stage l))

end-Stays :
    (stage : EndStage) (s : Session)
    → s.end_stage ≡ stage
    → Stays s (end_from stage s).session.end_stage (end_from stage s).frees
unfolding end_from
end-Stays running s e = (λ f. absurd (ground arith), λ f. refl)
end-Stays (begun r n) s e = (λ f. absurd (ground arith), λ f. rw e refl)
end-Stays told s e = (λ f. absurd (ground arith), λ f. rw e refl)
end-Stays cancelled s e = (λ f. absurd (ground arith), λ f. rw e refl)
end-Stays (taken mx signal) s e = (λ f. absurd (ground arith), λ f. rw e refl)
end-Stays closed s e = (λ f. refl, λ f. absurd (ground arith))
end-Stays ended s e = (λ f. absurd (ground arith), λ f. refl)

once-Stays : (s : Session) (r : EndReason) (n : Bool) → Stays s (once r n s.end_stage) false
once-Stays s r n = (λ f. absurd (ground arith), λ f. is_ended-once r n s.end_stage)

same-Stays : (s : Session) → Stays s s.end_stage false
same-Stays s = (λ f. absurd (ground arith), λ f. refl)

act-Stays :
    (a : Action) (leg : ℕ) (s : Session)
    → Stays s (act a leg s).session.end_stage (act a leg s).frees
unfolding act
act-Stays (start_step ok) leg s = start_end s (Stays s) (same-Stays s) (once-Stays s) s.start ok leg
act-Stays (answer_step ok) leg s =
    answer_end s (Stays s) (same-Stays s) (once-Stays s) s.answer ok leg
act-Stays end_step leg s = end-Stays s.end_stage s refl
act-Stays (end_call r n) leg s = once-Stays s r n

pub perform-Inv : (a : Action) (i : ℕ) (w : World) → Inv w → Inv (perform a i w)
unfolding perform act_on
perform-Inv a i w h = at (lookup_session i w.sessions) refl
  where
    at : (o : Option Session) → lookup_session i w.sessions ≡ o → Inv (act_on a i o w)
    at none e = h
    at (some s) e =
        commit-Inv i s (act a w.next_leg s) w e h
          (act-SessionInv a w.next_leg w.closed_legs s
            (lookup-All (SessionInv w.closed_legs) i s w.sessions h.0 e))
          (act-Stays a w.next_leg s)

pub replace-Inv :
    (i : ℕ) (s t : Session) (w : World)
    → lookup_session i w.sessions ≡ some s
    → Inv w
    → (SessionInv w.closed_legs s → SessionInv w.closed_legs t)
    → is_ended t.end_stage ≡ is_ended s.end_stage
    → Inv (replace i t w)
replace-Inv i s t w e (all, r) h f = (
  put-All (SessionInv w.closed_legs) i t w.sessions all
      (h (lookup-All (SessionInv w.closed_legs) i s w.sessions all e)),
  put-Live i s t w.active w.sessions e r f,
)

pub adds-Inv :
    (s : Session) (w : World)
    → w.active ≡ none
    → Inv w
    → SessionInv w.closed_legs s
    → is_ended s.end_stage ≡ false
    → Inv (adds s w)
adds-Inv s w n (all, r) h f = (
  All-append (SessionInv w.closed_legs) w.sessions (s ∷ []) all (h, tt),
  record {
    runs = rw (lookup-append_last s w.sessions) f;
    one = λ j t e. elim (lookup-append j s t w.sessions e) [
      | inl l ↦ elim (r.one j t l) [ inl d ↦ inl d | inr a ↦ absurd (ground arith) ]
      | inr l ↦ inr (ap some (sym l))
    ];
  },
)
