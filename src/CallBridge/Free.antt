-- ===== src/CallBridge/Free.antt =====
-- The end of a call frees the bridge, whatever else happens before it is over.
use mautrix_signal.Common.{
  ℕ, zero, suc, ◌≤◌, ◌≡◌, refl, ap, sym, ◌∙◌, subst, ◌==◌, ==→eq, Bool-cases, Bool, true, false,
  not, ◌&&◌, some, inl, inr, if◌then◌else◌, arith,
}
use mautrix_signal.CallBridge.Session.{ended, Session}
use mautrix_signal.CallBridge.Bridge.{
  World, lookup_session, Action, start_step, answer_step, end_step, end_call, perform,
}
use mautrix_signal.CallBridge.Invariant.{is_ended}
use mautrix_signal.CallBridge.Invariant.Handled.{step-P}
use mautrix_signal.CallBridge.Properties.{is_active, reachable-is_ended}
use mautrix_signal.CallBridge.Steps.{
  ◌⟶◌, ◌⟶*◌, from_signal, rings, misses, from_matrix, invites, stops, goes, here, after,
  IsReachable,
}
use mautrix_signal.CallBridge.Ending.{
  has_begun, Ending, Ending-Keeps, end_step-Ending, left_begun, left_zero,
}

abbrev is_end : Action → Bool
is_end (start_step ok) = false
is_end (answer_step ok) = false
is_end end_step = true
is_end (end_call reason notify) = false

-- A step of the goroutine that ends session `i`.
abbrev is_end_of : (i : ℕ) (v w : World) → v ⟶ w → Bool
is_end_of i v _ (from_signal evt _) = false
is_end_of i v _ (rings n evt names _ b) = false
is_end_of i v _ (misses n _) = false
is_end_of i v _ (from_matrix room call_id party evt _) = false
is_end_of i v _ (invites peer call_id video names _) = false
is_end_of i v _ (stops _) = false
is_end_of i v _ (goes a j _ g) = is_end a && j == i

-- How many steps of a run are of the goroutine that ends session `i`.
abbrev pub end_steps : (i : ℕ) (u w : World) → u ⟶* w → ℕ
end_steps i u w here = 0
end_steps i u w (after s r) = let n = end_steps i _ w r in if is_end_of i u _ s then suc n else n

end_of-Ending :
    (i n : ℕ) (v w : World) (s : v ⟶ w)
    → is_end_of i v w s ≡ true
    → n ≤ 4
    → Ending (suc n) i v
    → Ending n i w
end_of-Ending i n v _ (from_signal evt _) q k h = absurd (ground arith)
end_of-Ending i n v _ (rings m evt names _ b) q k h = absurd (ground arith)
end_of-Ending i n v _ (misses m _) q k h = absurd (ground arith)
end_of-Ending i n v _ (from_matrix room call_id party evt _) q k h = absurd (ground arith)
end_of-Ending i n v _ (invites peer call_id video names _) q k h = absurd (ground arith)
end_of-Ending i n v _ (stops _) q k h = absurd (ground arith)
end_of-Ending i n v _ (goes (start_step ok) j _ g) q k h = absurd (ground arith)
end_of-Ending i n v _ (goes (answer_step ok) j _ g) q k h = absurd (ground arith)
end_of-Ending i n v _ (goes end_step j _ g) q k h =
    subst (λ m. Ending n i (perform end_step m v)) (sym (==→eq j i q)) (end_step-Ending i n v k h)
end_of-Ending i n v _ (goes (end_call r m) j _ g) q k h = absurd (ground arith)

run-Ending :
    (i n : ℕ) (u w : World) (r : u ⟶* w)
    → n ≤ 5
    → n ≤ end_steps i u w r
    → Ending n i u
    → Ending zero i w
run-Ending i n u w here k m h = subst (λ n. Ending n i u) (omega arith) h
run-Ending i zero u w (after s r) k m h =
    run-Ending i zero _ w r k (omega arith) (step-P (Ending zero i) (Ending-Keeps zero i) u _ s h)
run-Ending i (suc n) u w (after s r) k m h = elim (Bool-cases (is_end_of i u _ s)) [
  | inl q ↦
      let steps : end_steps i u w (after s r) ≡ suc (end_steps i _ w r) = rw q refl in
      run-Ending i n _ w r (omega arith) (omega arith) (end_of-Ending i n u _ s q (omega arith) h)
  | inr q ↦
      let steps : end_steps i u w (after s r) ≡ end_steps i _ w r = rw q refl in
      run-Ending i (suc n) _ w r k (omega arith)
        (step-P (Ending (suc n) i) (Ending-Keeps (suc n) i) u _ s h)
]

follow : (u v w : World) → u ⟶* v → v ⟶* w → u ⟶* w
follow u v w here r = r
follow u v w (after s q) r = after s (follow _ v w q r)

-- When end was called for a session in a state that the bridge reaches, every run from there in which
-- the goroutine of that end makes at least five steps leads to a state in which the session has
-- ended and is not the active one. The run may have any other steps before, between and after
-- these: messages from Signal, offers that ring, events, invites and stops from Matrix, and the
-- goroutines of this session and of all others. That the goroutine makes its steps is a condition.
pub end_steps-ended :
    (u w : World) (i : ℕ) (s : Session) (r : u ⟶* w)
    → IsReachable u
    → lookup_session i u.sessions ≡ some s
    → has_begun s.end_stage ≡ true
    → 5 ≤ end_steps i u w r
    → (t : Session) × (lookup_session i w.sessions ≡ some t)
      × (t.end_stage ≡ ended)
      × (is_active i w ≡ false)
end_steps-ended u w i s r reached e b five =
    let (t, l, le) = run-Ending i 5 u w r (omega arith) five (s, e, left_begun s.end_stage b) in
    let over : t.end_stage ≡ ended = left_zero t.end_stage le in
    let idle : is_ended t.end_stage ≡ not (is_active i w) =
      reachable-is_ended w i t (follow _ u w reached r) l in
    (t, l, over, ended_idle (is_active i w) (sym (ap is_ended over) ∙ idle))
  where
    ended_idle : (b : Bool) → true ≡ not b → b ≡ false
    ended_idle true h = h
    ended_idle false h = refl
