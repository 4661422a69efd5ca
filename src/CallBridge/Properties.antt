-- ===== src/CallBridge/Properties.antt =====
-- What holds of every state that the bridge reaches.
use mautrix_signal.Common.{
  ℕ, ◌≡◌, ◌==◌, ==→eq, ◌∙◌, ap, Bool, true, false, not, Bool-cases, inl, inr, Option, none, some,
  on_some, List, [], ◌∷◌, subst, refl, arith,
}
use mautrix_signal.CallBridge.Session.{
  ended, Session, RingStage, ring_new, ring_send, ring_store, ring_offer, StartStage, ringing,
  calling, waiting, start_done,
}
use mautrix_signal.CallBridge.Bridge.{World, lookup_session}
use mautrix_signal.CallBridge.Steps.{IsReachable}
use mautrix_signal.CallBridge.Invariant.{
  SessionInv, is_ended, Runs, ActiveRuns, AllClosed, LegKept, Stored, Made, Has, Live, lookup-All,
}
use mautrix_signal.CallBridge.Invariant.Reached.{reachable-Inv}

abbrev pub is_active : ℕ → World → Bool
is_active j w = on_some false (λ i. i == j) w.active

-- In every state that the bridge reaches by any order of its steps, a session has ended exactly when it
-- is not the active one: at most one call is bridged at a time, and the bridge is free for the next
-- one as soon as it has ended.
pub reachable-is_ended :
    (w : World) (j : ℕ) (s : Session)
    → IsReachable w
    → lookup_session j w.sessions ≡ some s
    → is_ended s.end_stage ≡ not (is_active j w)
reachable-is_ended w j s r e = at w.active refl
  where
    live : Live w.active w.sessions
    live = (reachable-Inv w r).1

    at : (o : Option ℕ) → w.active ≡ o → is_ended s.end_stage ≡ not (on_some false (λ i. i == j) o)
    at none a = elim (live.one j s e) [ inl h ↦ h | inr h ↦ absurd (ground arith) ]
    at (some i) a = elim (Bool-cases (i == j)) [
      | inl q ↦ rw q (
          subst Runs (ap (λ k. lookup_session k w.sessions) (==→eq i j q) ∙ e)
            (subst (λ o. ActiveRuns o w.sessions) a live.runs))
      | inr q ↦ rw q (elim (live.one j s e) [ inl h ↦ h | inr h ↦ absurd (ground arith) ])
    ]

abbrev pub holds_leg_at : RingStage → Bool
holds_leg_at (ring_store leg) = true
holds_leg_at _ = false

-- The goroutine has made a leg that it has neither stored nor closed yet.
abbrev pub holds_leg : StartStage → Bool
holds_leg (ringing stage) = holds_leg_at stage
holds_leg _ = false

Stored-closed :
    (legs : List ℕ) (mx : Option ℕ) (leg : ℕ) (made : List ℕ)
    → Stored legs mx made
    → AllClosed legs mx
    → Has leg made
    → Has leg legs
Stored-closed legs mx leg [] h c m = absurd m
Stored-closed legs mx leg (x ∷ xs) (h, hs) c (inr m) = Stored-closed legs mx leg xs hs c m
Stored-closed legs mx leg (x ∷ xs) (inl p, hs) c (inl e) =
    subst (λ l. Has l legs) e (subst (AllClosed legs) p c)
Stored-closed legs mx leg (x ∷ xs) (inr p, hs) c (inl e) = subst (λ l. Has l legs) e p

Made-Stored :
    (legs : List ℕ) (mx : Option ℕ) (leg : ℕ) (made : List ℕ) (stage : StartStage)
    → holds_leg stage ≡ false
    → Made legs mx made stage
    → Has leg made
    → Stored legs mx made
Made-Stored legs mx leg made (ringing ring_new) q (n, e) m = absurd (subst (Has leg) e m)
Made-Stored legs mx leg made (ringing (ring_store mine)) q h m = absurd (ground arith)
Made-Stored legs mx leg made (ringing (ring_offer mine)) q h m = h
Made-Stored legs mx leg made (ringing ring_send) q h m = h
Made-Stored legs mx leg made (calling stage) q h m = absurd h
Made-Stored legs mx leg made waiting q h m = h
Made-Stored legs mx leg made start_done q h m = h

-- In every state that the bridge reaches by any order of its steps, each Matrix leg that was made for a
-- call from Signal that has ended is closed, whether or not the session ever stored it, unless its
-- goroutine has just made it and is yet to take the lock under which it stores or closes it.
pub reachable-MatrixLegClosed :
    (w : World) (i : ℕ) (s : Session) (leg : ℕ)
    → IsReachable w
    → lookup_session i w.sessions ≡ some s
    → s.incoming ≡ true
    → s.end_stage ≡ ended
    → holds_leg s.start ≡ false
    → Has leg s.made
    → Has leg w.closed_legs
reachable-MatrixLegClosed w i s leg r e b d q m =
    let inv : SessionInv w.closed_legs s =
      lookup-All (SessionInv w.closed_legs) i s w.sessions (reachable-Inv w r).0 e in
    let (made, kept) = inv b in
    Stored-closed w.closed_legs s.mx_leg leg s.made
      (Made-Stored w.closed_legs s.mx_leg leg s.made s.start q made m)
      (subst (LegKept w.closed_legs s.mx_leg) d kept) m
