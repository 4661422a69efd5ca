-- ===== src/CallBridge/Invariant/Handled.antt =====
-- What is kept by every step is kept by the four changes that the handlers make: those that leave the
-- sessions, a step of a session, a session that a handler sets a field of, and a new session.
use mautrix_signal.Common.{
  ℕ, ◌≡◌, refl, ◌==◌, if_cases, if◌then◌else◌, Bool, true, false, not, ◌&&◌, ◌||◌, on_some_cases,
  Option, none, some, List, [], ◌∷◌, ◌++◌, list_eq, arith,
}
use mautrix_signal.CallBridge.Session.{
  Bytes, EndReason, Session, running, signal_busy, matrix_hangup, user_busy, local_decline, failed,
  bridge_shutdown, is_cancelled,
}
use mautrix_signal.CallBridge.Bridge.{
  CallEvent, World, Names, lookup_session, Action, end_call, perform, adds, says, aci, arrives,
  found, same_call, active_session, is_bridgeable_offer, offer_arrives, parsed, start_incoming,
  signal_video_selection, is_video, incoming_session,
}
use mautrix_signal.Ringrtc.CallMessage.{
  MessageType, no_message, offer_message, answer_message, ice_message, busy_message, hangup_message,
  opaque_message,
}
use mautrix_signal.CallBridge.Handlers.{
  with_active, for_peer, from_peer, hand_candidate, queue_candidate, remote_ice_of, is_other_device,
  handle_remote_ice, remote_answer_of, handle_remote_answer, end_for, remote_end_of,
  remote_end_reason, handle_remote_end, handle_typed, has_answer, has_candidate, handle_signal_call,
  MatrixEvent, rejects, answers_call, bad_answer, others, matrix_event_of, for_call,
  handle_matrix_event, stop, start_outgoing, outgoing_session, replace,
}
use mautrix_signal.CallBridge.Invariant.{SessionInv}
use mautrix_signal.CallBridge.Steps.{
  ◌⟶◌, from_signal, rings, misses, from_matrix, invites, stops, goes,
}

pub record Keeps (P : World → Type 0) : Type 1 where
  pub same :
      (v w : World)
      → v.sessions ≡ w.sessions
      → v.active ≡ w.active
      → v.closed_legs ≡ w.closed_legs
      → P v
      → P w
  pub performed : (a : Action) (i : ℕ) (w : World) → P w → P (perform a i w)
  pub replaced :
      (i : ℕ) (s t : Session) (w : World)
      → lookup_session i w.sessions ≡ some s
      → P w
      → ((legs : List ℕ) → SessionInv legs s → SessionInv legs t)
      → t.end_stage ≡ s.end_stage
      → P (replace i t w)
  pub added :
      (s : Session) (w : World)
      → w.active ≡ none
      → P w
      → ((legs : List ℕ) → SessionInv legs s)
      → s.end_stage ≡ running
      → P (adds s w)

module _ (P : World → Type 0) (K : Keeps P) where
  -- A handler of the active session keeps the invariant if what it does with it does.
  with_active-P :
      (f : ℕ → Session → World → World) (w : World)
      → P w
      → ((i : ℕ) (s : Session) → lookup_session i w.sessions ≡ some s → P (f i s w))
      → P (with_active f w)
  with_active-P f w h k =
      on_some_cases P w.active (λ _. h)
        (λ i _. on_some_cases P (lookup_session i w.sessions) (λ _. h) (λ s e. k i s e))

  for_peer-P :
      (f : ℕ → CallEvent → Session → World → World) (evt : CallEvent) (w : World)
      → P w
      → ((i : ℕ) (s : Session) → lookup_session i w.sessions ≡ some s → P (f i evt s w))
      → P (for_peer f evt w)
  for_peer-P f evt w h k =
      with_active-P (λ i s w. if from_peer evt s then f i evt s w else w) w h
        (λ i s e. if_cases P (from_peer evt s) (λ _. k i s e) (λ _. h))

  hand_candidate-P :
      (i : ℕ) (evt : CallEvent) (sdp : Bytes) (s : Session) (w : World) (leg : Option ℕ)
      → lookup_session i w.sessions ≡ some s
      → P w
      → P (hand_candidate i evt sdp s w leg)
  hand_candidate-P i evt sdp s w none e h =
      K.replaced i s (queue_candidate evt sdp s) w e h (λ legs k. k) refl
  hand_candidate-P i evt sdp s w (some leg) e h =
      if_cases P (not s.incoming && s.source_device == 0)
        (λ _. K.replaced i s (queue_candidate evt sdp s) w e h (λ legs k. k) refl)
        (λ _. K.same w (record w { candidates = w.candidates ++ (leg, sdp) ∷ [] }) refl refl refl h)

  ice-P : (evt : CallEvent) (w : World) → P w → P (handle_remote_ice evt w)
  unfolding handle_remote_ice
  ice-P evt w h = for_peer-P remote_ice_of evt w h (λ i s e.
      on_some_cases P evt.call.ice_candidate (λ _. h)
        (λ candidate _.
          on_some_cases P candidate.added_v3 (λ _. h)
            (λ added _.
              if_cases P (is_other_device evt s) (λ _. h)
                (λ _. hand_candidate-P i evt added.sdp s w s.signal_leg e h))))

  answer_message-P : (evt : CallEvent) (w : World) → P w → P (handle_remote_answer evt w)
  unfolding handle_remote_answer
  answer_message-P evt w h = for_peer-P remote_answer_of evt w h (λ i s e.
      if_cases P (s.incoming || evt.source_device == 0) (λ _. h)
        (λ _.
          if_cases P (s.answering || is_cancelled s) (λ _. h)
            (λ _. K.replaced i s _ w e h (λ legs k. k) refl)))

  end_for-P :
      (i : ℕ) (reason : Option EndReason) (notify : Bool) (w : World)
      → P w
      → P (end_for i reason notify w)
  unfolding end_for
  end_for-P i none notify w h = h
  end_for-P i (some reason) notify w h = K.performed (end_call reason notify) i w h

  end_message-P : (evt : CallEvent) (w : World) → P w → P (handle_remote_end evt w)
  unfolding handle_remote_end
  end_message-P evt w h =
      for_peer-P remote_end_of evt w h
        (λ i s e. end_for-P i (remote_end_reason evt s.incoming) false w h)

  busy-P :
      (evt : CallEvent) (w : World) → P w → P (says (signal_busy (aci evt.sender) evt.call.id) w)
  busy-P evt w h = K.same w (says (signal_busy (aci evt.sender) evt.call.id) w) refl refl refl h

  offer-P : (evt : CallEvent) (w : World) → P w → P (offer_arrives evt w)
  unfolding offer_arrives
  offer-P evt w h =
      on_some_cases P (active_session w) (λ _. K.same w (arrives evt w) refl refl refl h)
        (λ s _. if_cases P (same_call evt s) (λ _. h) (λ _. busy-P evt w h))

  typed-P : (t : MessageType) (evt : CallEvent) (w : World) → P w → P (handle_typed t evt w)
  unfolding handle_typed
  typed-P no_message evt w h = h
  typed-P offer_message evt w h =
      if_cases P (is_bridgeable_offer evt.call) (λ _. offer-P evt w h) (λ _. h)
  typed-P answer_message evt w h =
      if_cases P (has_answer evt.call.answer && parsed evt.call) (λ _. answer_message-P evt w h)
        (λ _. h)
  typed-P ice_message evt w h =
      if_cases P (has_candidate evt.call.ice_candidate && parsed evt.call) (λ _. ice-P evt w h)
        (λ _. h)
  typed-P busy_message evt w h = end_message-P evt w h
  typed-P hangup_message evt w h = end_message-P evt w h
  typed-P opaque_message evt w h = h

  signal-P : (evt : CallEvent) (w : World) → P w → P (handle_signal_call evt w)
  unfolding handle_signal_call
  signal-P evt w h = typed-P evt.call.message_type evt w h

  incoming-P : (evt : CallEvent) (names : Names) (w : World) → P w → P (start_incoming evt names w)
  unfolding start_incoming
  incoming-P evt names w h =
      if_cases P (is_video evt.call.call_type && signal_video_selection evt.call == 0) (λ _. h)
        (λ _.
          on_some_cases P w.active
            (λ n. K.added (incoming_session evt names) w n h (λ legs i. ((refl, refl), tt)) refl)
            (λ i _. busy-P evt w h))

  outgoing-P :
      (peer : Bytes) (call_id : ℕ) (v : Bool) (names : Names) (w : World)
      → P w
      → P (start_outgoing peer call_id v names w)
  unfolding start_outgoing
  outgoing-P peer call_id v names w h =
      on_some_cases P w.active
        (λ n.
          K.added (outgoing_session (aci peer) call_id v names) w n h
            (λ legs i. absurd (ground arith)) refl)
        (λ i _.
          K.same w (says (matrix_hangup names.room names.mx_call_id user_busy) w) refl refl refl h)

  matrix_of-P :
      (evt : MatrixEvent) (i : ℕ) (s : Session) (w : World)
      → lookup_session i w.sessions ≡ some s
      → P w
      → P (matrix_event_of evt i s w)
  unfolding matrix_event_of
  matrix_of-P rejects i s w e h = K.performed (end_call local_decline true) i w h
  matrix_of-P answers_call i s w e h =
      if_cases P s.incoming
        (λ _.
          if_cases P (s.answering || is_cancelled s) (λ _. h)
            (λ _. K.replaced i s _ w e h (λ legs k. k) refl))
        (λ _. h)
  matrix_of-P bad_answer i s w e h =
      if_cases P s.incoming (λ _. K.performed (end_call failed true) i w h) (λ _. h)
  matrix_of-P others i s w e h = h

  matrix-P :
      (room call_id party : Bytes) (evt : MatrixEvent) (w : World)
      → P w
      → P (handle_matrix_event room call_id party evt w)
  unfolding handle_matrix_event for_call
  matrix-P room call_id party evt w h =
      with_active-P (for_call room call_id party evt) w h (λ i s e.
        if_cases P
          (not (list_eq s.mx_call_id call_id)
            || not (list_eq s.room room)
            || list_eq party s.mx_party)
          (λ _. h) (λ _. matrix_of-P evt i s w e h))

  stop-P : (w : World) → P w → P (stop w)
  unfolding stop
  stop-P w h =
      on_some_cases P w.active (λ _. h) (λ i _. K.performed (end_call bridge_shutdown false) i w h)

  -- Every step keeps it.
  pub step-P : (v w : World) → v ⟶ w → P v → P w
  unfolding found
  step-P v _ (from_signal evt _) h = signal-P evt v h
  step-P v _ (rings i evt names _ b) h =
      incoming-P evt names (found i v) (K.same v (found i v) refl refl refl h)
  step-P v _ (misses i _) h = K.same v (found i v) refl refl refl h
  step-P v _ (from_matrix room call_id party evt _) h = matrix-P room call_id party evt v h
  step-P v _ (invites peer call_id video names _) h = outgoing-P peer call_id video names v h
  step-P v _ (stops _) h = stop-P v h
  step-P v _ (goes a i _ g) h = K.performed a i v h
