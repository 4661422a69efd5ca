-- ===== src/CallBridge/Runs/Answered.antt =====
-- Runs of calls that are answered, and of one that is hung up while its Matrix leg is made.
use mautrix_signal.Common.{ℕ, ◌≡◌, refl, Bool, true, false, Option, none, some, [], ◌∷◌}
use mautrix_signal.CallBridge.Session.{
  timeout, running, begun, waiting, start_done, relaying, Session, end_from,
}
use mautrix_signal.CallBridge.Goroutines.{ring_from, start_from, local_from, answer_from}
use mautrix_signal.CallBridge.Bridge.{
  World, lookup_session, start_step, answer_step, act, act_on, perform, start_incoming,
}
use mautrix_signal.CallBridge.Handlers.{
  answers_call, rejects, matrix_event_of, for_call, handle_matrix_event, handle_typed,
  start_outgoing,
}
use mautrix_signal.CallBridge.Steps.{new_bridge}
use mautrix_signal.CallBridge.Invariant.{is_ended}
use mautrix_signal.CallBridge.Runs.{caller, names, rung, with_leg, five_steps, over_session}

-- The Matrix user answers the call, and both legs are connected.
abbrev connected : World
unfolding perform start_incoming handle_matrix_event with_leg
connected = answered_steps (handle_matrix_event (10 ∷ []) (11 ∷ []) (20 ∷ []) answers_call sent)
  where
    sent : World
    sent = perform (start_step true) 0 (perform (start_step true) 0 with_leg)

    step : World → World
    step w = perform (answer_step true) 0 w

    answered_steps : World → World
    answered_steps w = step (step (step (step (step (step (step (step w)))))))

connected_test :
    lookup_session 0 connected.sessions
    ≡ some (record over_session {
      signal_leg = some 6;
      answering = true;
      end_stage = running;
      start = waiting;
      answer = relaying;
    })
unfolding connected with_leg rung perform act_on act start_from ring_from answer_from local_from
    start_incoming handle_matrix_event for_call matrix_event_of handle_typed
connected_test = refl

-- The timer of the invite ends the connected call all the same.
timer_test :
    lookup_session 0 (perform (start_step true) 0 connected).sessions
    ≡ some (record over_session {
      signal_leg = some 6;
      answering = true;
      end_stage = begun timeout true;
      start = start_done;
      answer = relaying;
    })
unfolding connected with_leg rung perform act_on act start_from ring_from answer_from local_from
    start_incoming handle_matrix_event for_call matrix_event_of handle_typed
timer_test = refl

-- A call from Matrix that is hung up while its Matrix leg is made: the leg is stored after the end, and
-- is never closed.
abbrev leaked : World
unfolding perform start_outgoing handle_matrix_event five_steps
leaked = perform (start_step true) 0 (
    five_steps (
      handle_matrix_event (10 ∷ []) (11 ∷ []) (20 ∷ []) rejects
        (perform (start_step true) 0 (start_outgoing caller 9 false names new_bridge))))

abbrev leg_and_end : Option Session → Option ℕ × Bool
leg_and_end none = (none, false)
leg_and_end (some s) = (s.mx_leg, is_ended s.end_stage)

leak_test :
    (leg_and_end (lookup_session 0 leaked.sessions) ≡ (some 0, true)) × (leaked.closed_legs ≡ [])
unfolding leaked five_steps perform act_on act start_from end_from start_outgoing
    handle_matrix_event for_call matrix_event_of
leak_test = (refl, refl)
