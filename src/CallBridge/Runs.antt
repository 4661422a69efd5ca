-- ===== src/CallBridge/Runs.antt =====
-- A call that is bridged, and the theorems applied to it.
mod Answered
use mautrix_signal.Common.{
  ℕ, ◌≡◌, refl, inl, Bool, true, false, not, Option, none, some, [], ◌∷◌, arith,
}
use mautrix_signal.Ringrtc.Signaling.{no_parameters}
use mautrix_signal.Ringrtc.CallMessage.{
  offer_message, hangup_message, audio, CallMessage, base_message,
}
use mautrix_signal.CallBridge.Session.{
  Bytes, remote_hangup, timeout, running, ended, begun, ring_offer, ringing, waiting, start_done,
  not_answered, relaying, Session, end_from, signal_busy,
}
use mautrix_signal.CallBridge.Goroutines.{ring_from, start_from, local_from, answer_from}
use mautrix_signal.CallBridge.Bridge.{
  CallEvent, World, Names, lookup_session, start_step, answer_step, end_step, act, act_on, perform,
  is_bridgeable_offer, start_incoming, offer_arrives, found, aci,
}
use mautrix_signal.CallBridge.Handlers.{
  answers_call, rejects, matrix_event_of, for_call, handle_matrix_event, handle_signal_call,
  handle_typed, handle_remote_end, end_for, start_outgoing,
}
use mautrix_signal.CallBridge.Steps.{
  ◌⟶*◌, from_signal, rings, invites, goes, starts, ends, here, after, IsReachable, new_bridge,
}
use mautrix_signal.CallBridge.Invariant.{Has, is_ended}
use mautrix_signal.CallBridge.Properties.{is_active, reachable-is_ended, reachable-MatrixLegClosed}
use mautrix_signal.CallBridge.Free.{end_steps-ended}
use mautrix_signal.CallBridge.Foreign.{refused, handle_signal_call-foreign}

abbrev pub caller : Bytes
caller = 1 ∷ 2 ∷ []

abbrev stranger : Bytes
stranger = 3 ∷ []

abbrev pub names : Names
names = record { room = 10 ∷ []; mx_call_id = 11 ∷ []; mx_party = 12 ∷ [] }

abbrev offer_call : CallMessage
offer_call = record (base_message 0) {
  id = 7;
  message_type = offer_message;
  call_type = audio;
  offer = some (record { v4 = some no_parameters });
}

abbrev offer_event : Bytes → CallEvent
offer_event sender = record { sender = sender; source_device = 1; call = offer_call }

abbrev hangup_event : Bytes → CallEvent
hangup_event sender = record {
  sender = sender;
  source_device = 1;
  call = record (base_message 0) { id = 7; message_type = hangup_message };
}

-- The offer rings, and the goroutine makes the Matrix leg and stores it.
abbrev pub rung : World
unfolding start_incoming handle_signal_call found
rung =
    start_incoming (offer_event caller) names
      (found 0 (handle_signal_call (offer_event caller) new_bridge))

abbrev pub with_leg : World
unfolding perform start_incoming
with_leg = perform (start_step true) 0 (perform (start_step true) 0 rung)

abbrev hung_up : World
unfolding perform handle_signal_call
hung_up = handle_signal_call (hangup_event caller) with_leg

abbrev pub five_steps : World → World
unfolding perform
five_steps w =
    perform end_step 0
      (perform end_step 0 (perform end_step 0 (perform end_step 0 (perform end_step 0 w))))

abbrev over : World
over = five_steps hung_up

rung-IsReachable : IsReachable rung
unfolding is_bridgeable_offer handle_signal_call handle_typed offer_arrives rung
rung-IsReachable =
    after (from_signal (offer_event caller) new_bridge)
      (after (rings 0 (offer_event caller) names _ refl) here)

over-IsReachable : IsReachable over
unfolding is_bridgeable_offer handle_signal_call handle_typed offer_arrives rung with_leg hung_up
    five_steps
over-IsReachable = after (from_signal (offer_event caller) new_bridge) (
    after (rings 0 (offer_event caller) names _ refl) (
      after (goes (start_step true) 0 _ (starts true)) (
        after (goes (start_step true) 0 _ (starts true)) (
          after (from_signal (hangup_event caller) _) (
            after (goes end_step 0 _ ends) (
              after (goes end_step 0 _ ends) (
                after (goes end_step 0 _ ends)
                  (after (goes end_step 0 _ ends) (after (goes end_step 0 _ ends) here)))))))))

-- The session of the call, as it is when the call is over.
abbrev pub over_session : Session
over_session = record {
  room = 10 ∷ [];
  peer = aci caller;
  signal_id = 7;
  source_device = 1;
  incoming = true;
  call_type = audio;
  video_codec_id = 0;
  mx_call_id = 11 ∷ [];
  mx_party = 12 ∷ [];
  made = 0 ∷ [];
  mx_leg = some 0;
  signal_leg = none;
  pending_ice = [];
  answering = false;
  end_stage = ended;
  start = ringing (ring_offer 0);
  answer = not_answered;
}

over_lookup : lookup_session 0 over.sessions ≡ some over_session
unfolding five_steps hung_up with_leg rung perform act_on act end_from start_from start_incoming
    handle_signal_call handle_typed handle_remote_end end_for
over_lookup = refl

reachable-is_ended_example : is_ended ended ≡ not (is_active 0 over)
reachable-is_ended_example = reachable-is_ended over 0 over_session over-IsReachable over_lookup

-- The caller hangs up while the Matrix leg is made, and the goroutine finds the context cancelled.
abbrev cut_short : World
unfolding perform handle_signal_call five_steps rung
cut_short =
    perform (start_step true) 0
      (five_steps (handle_signal_call (hangup_event caller) (perform (start_step true) 0 rung)))

cut_short-IsReachable : IsReachable cut_short
unfolding is_bridgeable_offer handle_signal_call handle_typed offer_arrives rung five_steps
cut_short-IsReachable = after (from_signal (offer_event caller) new_bridge) (
    after (rings 0 (offer_event caller) names _ refl) (
      after (goes (start_step true) 0 _ (starts true)) (
        after (from_signal (hangup_event caller) _) (
          after (goes end_step 0 _ ends) (
            after (goes end_step 0 _ ends) (
              after (goes end_step 0 _ ends) (
                after (goes end_step 0 _ ends) (
                  after (goes end_step 0 _ ends)
                    (after (goes (start_step true) 0 _ (starts true)) here)))))))))

abbrev cut_session : Session
cut_session = record over_session { mx_leg = none; start = start_done }

cut_lookup : lookup_session 0 cut_short.sessions ≡ some cut_session
unfolding five_steps rung perform act_on act end_from start_from ring_from start_incoming
    handle_signal_call handle_typed handle_remote_end end_for
cut_lookup = refl

reachable-MatrixLegClosed_example : Has 0 cut_short.closed_legs
reachable-MatrixLegClosed_example =
    reachable-MatrixLegClosed cut_short 0 cut_session 0 cut_short-IsReachable cut_lookup refl refl
      refl (inl refl)

hung_up-IsReachable : IsReachable hung_up
unfolding is_bridgeable_offer handle_signal_call handle_typed offer_arrives rung with_leg
hung_up-IsReachable = after (from_signal (offer_event caller) new_bridge) (
    after (rings 0 (offer_event caller) names _ refl) (
      after (goes (start_step true) 0 _ (starts true)) (
        after (goes (start_step true) 0 _ (starts true))
          (after (from_signal (hangup_event caller) _) here))))

abbrev hung_session : Session
hung_session = record over_session { end_stage = begun remote_hangup false }

hung_lookup : lookup_session 0 hung_up.sessions ≡ some hung_session
unfolding hung_up with_leg rung perform act_on act start_from ring_from start_incoming
    handle_signal_call handle_typed handle_remote_end end_for
hung_lookup = refl

-- The end of the call, with the offer of a stranger, a step of the goroutine that rings, a call from
-- Matrix that is refused and one that starts.
abbrev next_call : World
unfolding perform start_outgoing handle_signal_call
next_call = start_outgoing stranger 9 false names (
    perform end_step 0 (
      perform end_step 0 (
        start_outgoing stranger 8 false names (
          perform end_step 0 (
            perform (start_step true) 0 (
              perform end_step 0
                (handle_signal_call (offer_event stranger) (perform end_step 0 hung_up))))))))

abbrev next_run : hung_up ⟶* next_call
unfolding start_outgoing next_call
next_run = after (goes end_step 0 _ ends) (
    after (from_signal (offer_event stranger) _) (
      after (goes end_step 0 _ ends) (
        after (goes (start_step true) 0 _ (starts true)) (
          after (goes end_step 0 _ ends) (
            after (invites stranger 8 false names _) (
              after (goes end_step 0 _ ends) (
                after (goes end_step 0 _ ends)
                  (after (invites stranger 9 false names _) here))))))))

end_steps-ended_example :
    (t : Session) × (lookup_session 0 next_call.sessions ≡ some t)
    × (t.end_stage ≡ ended)
    × (is_active 0 next_call ≡ false)
unfolding next_run
end_steps-ended_example =
    end_steps-ended hung_up next_call 0 hung_session next_run hung_up-IsReachable hung_lookup refl
      (omega arith)

next_test : next_call.active ≡ some 1
unfolding next_call hung_up with_leg rung perform act_on act end_from start_from ring_from
    start_incoming start_outgoing handle_signal_call handle_typed is_bridgeable_offer offer_arrives
    handle_remote_end end_for
next_test = refl

handle_signal_call-foreign_example :
    handle_signal_call (hangup_event stranger) rung ≡ refused (hangup_event stranger) rung
unfolding rung start_incoming handle_typed
handle_signal_call-foreign_example = handle_signal_call-foreign (hangup_event stranger) rung refl

-- An offer of a stranger is answered with busy.
busy_test :
    (handle_signal_call (offer_event stranger) rung).sent ≡ signal_busy (aci stranger) 7 ∷ []
unfolding rung start_incoming handle_signal_call handle_typed is_bridgeable_offer offer_arrives
busy_test = refl
