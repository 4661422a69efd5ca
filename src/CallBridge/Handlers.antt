-- ===== src/CallBridge/Handlers.antt =====
-- pkg/connector/callbridging.go: the handlers of the messages from Signal and from Matrix, and the
-- start of a call from Matrix.
use mautrix_signal.Common.{
  ℕ, ◌==◌, if◌then◌else◌, Bool, true, false, not, ◌&&◌, ◌||◌, Option, none, some, on_some, [], ◌∷◌,
  ◌++◌, list_eq,
}
use mautrix_signal.Signalid.ServiceId.{ServiceId, type_aci}
use mautrix_signal.Ringrtc.Signaling.{Answer, IceCandidate}
use mautrix_signal.Ringrtc.CallMessage.{
  MessageType, no_message, offer_message, answer_message, ice_message, busy_message, hangup_message,
  opaque_message, audio, video,
}
use mautrix_signal.CallBridge.Session.{
  Bytes, EndReason, failed, running, call_new, calling, in_answer, out_answer, answering_local,
  answering_remote, not_answered, Session, is_cancelled, remote_hangup, remote_busy,
  answered_elsewhere, local_decline, bridge_shutdown, matrix_hangup, user_busy,
}
use mautrix_signal.CallBridge.Bridge.{
  CallEvent, World, Names, lookup_session, put_session, end_call, perform, says, adds, parsed,
  video_codec_vp8, is_bridgeable_offer, offer_arrives,
}

-- The type of a hangup, as the protobuf message numbers it.
abbrev pub hangup_accepted : ℕ
hangup_accepted = 1

abbrev pub hangup_declined : ℕ
hangup_declined = 2

abbrev pub hangup_busy : ℕ
hangup_busy = 3

abbrev pub replace : ℕ → Session → World → World
replace i s w = record w { sessions = put_session i s w.sessions }

-- The guard that the handlers share: the call and the peer.
abbrev pub from_peer : CallEvent → Session → Bool
from_peer evt s = s.signal_id == evt.call.id && list_eq s.peer.uuid evt.sender

abbrev pub is_other_device : CallEvent → Session → Bool
is_other_device evt s = not (s.source_device == 0) && not (s.source_device == evt.source_device)

abbrev pub queue_candidate : CallEvent → Bytes → Session → Session
queue_candidate evt sdp s = record s {
  pending_ice = s.pending_ice ++ record { device = evt.source_device; sdp = sdp } ∷ [];
}

abbrev pub hand_candidate : ℕ → CallEvent → Bytes → Session → World → Option ℕ → World
hand_candidate i evt sdp s w none = replace i (queue_candidate evt sdp s) w
hand_candidate i evt sdp s w (some leg) =
    if not s.incoming && s.source_device == 0
    then replace i (queue_candidate evt sdp s) w
    else record w { candidates = w.candidates ++ (leg, sdp) ∷ [] }

abbrev pub remote_ice_of : ℕ → CallEvent → Session → World → World
remote_ice_of i evt s w =
    on_some w
      (λ candidate.
        on_some w
          (λ added.
            if is_other_device evt s then w else hand_candidate i evt added.sdp s w s.signal_leg)
          candidate.added_v3)
      evt.call.ice_candidate

abbrev pub remote_answer_of : ℕ → CallEvent → Session → World → World
remote_answer_of i evt s w =
    if s.incoming || evt.source_device == 0
    then w
    else (if s.answering || is_cancelled s
        then w
        else replace i
            (record s {
              answering = true;
              source_device = evt.source_device;
              pending_ice = [];
              answer = answering_remote (out_answer s.signal_leg s.pending_ice);
            })
            w)

abbrev pub is_busy : MessageType → Bool
is_busy busy_message = true
is_busy _ = false

-- The reason that handleRemoteEnd gives, if it ends the call.
abbrev pub remote_end_reason : CallEvent → Bool → Option EndReason
remote_end_reason evt incoming =
    if is_busy evt.call.message_type
      || (evt.call.hangup_type == hangup_busy)
      || (evt.call.hangup_type == hangup_declined)
    then some remote_busy
    else (if evt.call.hangup_type == hangup_accepted
        then (if incoming then some answered_elsewhere else none)
        else some remote_hangup)

unfoldable pub end_for : ℕ → Option EndReason → Bool → World → World
unfolding perform
end_for i none notify w = w
end_for i (some reason) notify w = perform (end_call reason notify) i w

abbrev pub remote_end_of : ℕ → CallEvent → Session → World → World
remote_end_of i evt s w = end_for i (remote_end_reason evt s.incoming) false w

-- What is done with the active session, if there is one.
abbrev pub with_active : (ℕ → Session → World → World) → World → World
with_active f w = on_some w (λ i. on_some w (λ s. f i s w) (lookup_session i w.sessions)) w.active

-- A handler of the active session, when it is the call and the peer of the message.
abbrev pub for_peer : (ℕ → CallEvent → Session → World → World) → CallEvent → World → World
for_peer f evt w = with_active (λ i s w. if from_peer evt s then f i evt s w else w) w

unfoldable pub handle_remote_ice : CallEvent → World → World
handle_remote_ice evt w = for_peer remote_ice_of evt w

unfoldable pub handle_remote_answer : CallEvent → World → World
handle_remote_answer evt w = for_peer remote_answer_of evt w

unfoldable pub handle_remote_end : CallEvent → World → World
handle_remote_end evt w = for_peer remote_end_of evt w

abbrev pub has_answer : Option Answer → Bool
has_answer none = false
has_answer (some answer) = elim answer.v4 [ none ↦ false | some v4 ↦ true ]

abbrev pub has_candidate : Option IceCandidate → Bool
has_candidate none = false
has_candidate (some candidate) = true

unfoldable pub handle_typed : MessageType → CallEvent → World → World
unfolding is_bridgeable_offer offer_arrives handle_remote_ice handle_remote_answer handle_remote_end
handle_typed no_message evt w = w
handle_typed offer_message evt w = if is_bridgeable_offer evt.call then offer_arrives evt w else w
handle_typed answer_message evt w =
    if has_answer evt.call.answer && parsed evt.call then handle_remote_answer evt w else w
handle_typed ice_message evt w =
    if has_candidate evt.call.ice_candidate && parsed evt.call then handle_remote_ice evt w else w
handle_typed busy_message evt w = handle_remote_end evt w
handle_typed hangup_message evt w = handle_remote_end evt w
handle_typed opaque_message evt w = w

unfoldable pub handle_signal_call : CallEvent → World → World
handle_signal_call evt w = handle_typed evt.call.message_type evt w

-- The events from Matrix other than an invite, as far as they are used here: an answer without an SDP
-- is `bad_answer`, and an event whose content does not parse has no effect and is none of them.
pub data MatrixEvent : Type 0 where
  rejects answers_call bad_answer : MatrixEvent
  others : MatrixEvent

unfoldable pub matrix_event_of : MatrixEvent → ℕ → Session → World → World
unfolding perform
matrix_event_of rejects i s w = perform (end_call local_decline true) i w
matrix_event_of answers_call i s w =
    if s.incoming
    then (if s.answering || is_cancelled s
        then w
        else replace i
            (record s { answering = true; answer = answering_local (in_answer s.mx_leg) }) w)
    else w
matrix_event_of bad_answer i s w = if s.incoming then perform (end_call failed true) i w else w
matrix_event_of others i s w = w

-- The guard of handleMatrixEvent: the call, its room, and another party than the bridge's.
unfoldable pub for_call : Bytes → Bytes → Bytes → MatrixEvent → ℕ → Session → World → World
unfolding matrix_event_of
for_call room call_id party evt i s w =
    if not (list_eq s.mx_call_id call_id) || not (list_eq s.room room) || list_eq party s.mx_party
    then w
    else matrix_event_of evt i s w

unfoldable pub handle_matrix_event : Bytes → Bytes → Bytes → MatrixEvent → World → World
unfolding for_call
handle_matrix_event room call_id party evt w = with_active (for_call room call_id party evt) w

unfoldable pub stop : World → World
unfolding perform
stop w = on_some w (λ i. perform (end_call bridge_shutdown false) i w) w.active

-- startOutgoing from where it has the peer and the ghost: `call_id` are the 64 bits of the new UUID.
abbrev pub outgoing_session : ServiceId → ℕ → Bool → Names → Session
outgoing_session peer call_id sends_video names = record {
  room = names.room;
  peer = peer;
  signal_id = if call_id == 0 then 1 else call_id;
  source_device = 0;
  incoming = false;
  call_type = if sends_video then video else audio;
  video_codec_id = if sends_video then video_codec_vp8 else 0;
  mx_call_id = names.mx_call_id;
  mx_party = names.mx_party;
  made = [];
  mx_leg = none;
  signal_leg = none;
  pending_ice = [];
  answering = false;
  end_stage = running;
  start = calling call_new;
  answer = not_answered;
}

unfoldable pub start_outgoing : Bytes → ℕ → Bool → Names → World → World
start_outgoing peer call_id sends_video names w =
    on_some
      (adds (outgoing_session (record { typ = type_aci; uuid = peer }) call_id sends_video names) w)
      (λ i. says (matrix_hangup names.room names.mx_call_id user_busy) w) w.active
