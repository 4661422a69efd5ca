-- ===== src/CallBridge/Bridge.antt =====
-- pkg/connector/callbridging.go: the bridge of a login, with the calls that it has started so far. A
-- session is the place at which it stands in the list, as a goroutine keeps its session when another
-- one is active.
use mautrix_signal.Common.{
  ℕ, zero, suc, ◌+◌, ◌==◌, if◌then◌else◌, Bool, true, false, ◌&&◌, Option, none, some, on_some,
  List, [], ◌∷◌, ◌++◌, length,
}
use mautrix_signal.Signalid.ServiceId.{ServiceId, type_aci}
use mautrix_signal.Groups.Change.{service_id_eq}
use mautrix_signal.Ringrtc.Signaling.{VideoCodec, ConnectionParameters, Offer}
use mautrix_signal.Ringrtc.CallMessage.{
  MessageType, offer_message, CallType, no_type, audio, video, CallMessage,
}
use mautrix_signal.CallBridge.Session.{
  Bytes, EndReason, running, ring_new, ringing, not_answered, Session, Message, Outcome,
  end_session, end_from, signal_busy,
}
use mautrix_signal.CallBridge.Goroutines.{start_from, answer_from}

-- A call message with the ACI and the device that sent it.
pub record CallEvent : Type 0 where
  pub sender : Bytes
  pub source_device : ℕ
  pub call : CallMessage

-- `arriving` are the offers with which startIncoming searches for the portal and the ghost.
pub record World : Type 0 where
  pub sessions : List Session
  pub active : Option ℕ
  pub sent : List Message
  pub closed_legs : List ℕ
  pub candidates : List (ℕ × Bytes)
  pub next_leg : ℕ
  pub arriving : List CallEvent

abbrev pub lookup_session : ℕ → List Session → Option Session
lookup_session i [] = none
lookup_session zero (s ∷ ss) = some s
lookup_session (suc i) (s ∷ ss) = lookup_session i ss

abbrev pub put_session : ℕ → Session → List Session → List Session
put_session i s [] = []
put_session zero s (t ∷ ss) = s ∷ ss
put_session (suc i) s (t ∷ ss) = t ∷ put_session i s ss

-- `if s.bridge.active == s`.
abbrev pub freed : ℕ → Option ℕ → Option ℕ
freed i none = none
freed i (some j) = if j == i then none else some j

abbrev pub commit : ℕ → Outcome → World → World
commit i o w = record {
  sessions = put_session i o.session w.sessions;
  active = if o.frees then freed i w.active else w.active;
  sent = w.sent ++ o.sent;
  closed_legs = w.closed_legs ++ o.closes;
  candidates = w.candidates ++ o.candidates;
  next_leg = w.next_leg + 1;
  arriving = w.arriving;
}

-- What can happen to a session: a step of one of its goroutines, or a call of end.
pub data Action : Type 0 where
  start_step answer_step : Bool → Action
  end_step : Action
  end_call : EndReason → Bool → Action

unfoldable pub act : Action → ℕ → Session → Outcome
unfolding start_from answer_from end_from
act (start_step ok) leg s = start_from s.start ok leg s
act (answer_step ok) leg s = answer_from s.answer ok leg s
act end_step leg s = end_from s.end_stage s
act (end_call reason notify) leg s = record {
  session = end_session reason notify s;
  sent = [];
  closes = [];
  candidates = [];
  frees = false;
}

unfoldable pub act_on : Action → ℕ → Option Session → World → World
unfolding act
act_on action i none w = w
act_on action i (some s) w = commit i (act action w.next_leg s) w

unfoldable pub perform : Action → ℕ → World → World
unfolding act_on
perform action i w = act_on action i (lookup_session i w.sessions) w

abbrev pub has_parameters : Option Offer → Bool
has_parameters none = false
has_parameters (some offer) = on_some false (λ v4. true) offer.v4

abbrev pub is_offer : MessageType → Bool
is_offer offer_message = true
is_offer _ = false

abbrev pub is_call : CallType → Bool
is_call no_type = false
is_call audio = true
is_call video = true

abbrev pub is_video : CallType → Bool
is_video no_type = false
is_video audio = false
is_video video = true

abbrev pub parsed : CallMessage → Bool
parsed call = elim call.parse_error [ none ↦ true | some e ↦ false ]

unfoldable pub is_bridgeable_offer : CallMessage → Bool
is_bridgeable_offer call =
    is_offer call.message_type && is_call call.call_type && has_parameters call.offer && parsed call

abbrev pub video_codec_vp8 : ℕ
video_codec_vp8 = 8

pub has_signal_video_codec : List VideoCodec → ℕ → Bool
has_signal_video_codec [] typ = false
has_signal_video_codec (codec ∷ codecs) typ =
    let rest = has_signal_video_codec codecs typ in if codec.codec_type == typ then true else rest

abbrev pub or_receive : List VideoCodec → List VideoCodec → List VideoCodec
or_receive [] receive = receive
or_receive (c ∷ cs) receive = c ∷ cs

abbrev select_of : ConnectionParameters → ℕ
unfolding has_signal_video_codec
select_of params =
    if has_signal_video_codec
        (or_receive params.encode_only_video_codecs params.receive_video_codecs) video_codec_vp8
      && has_signal_video_codec
          (or_receive params.decode_only_video_codecs params.receive_video_codecs) video_codec_vp8
    then video_codec_vp8
    else 0

-- The codec's number: its name is empty exactly when this is 0.
unfoldable pub signal_video_selection : CallMessage → ℕ
unfolding select_of
signal_video_selection call =
    if is_video call.call_type
    then on_some 0 (λ offer. on_some 0 select_of offer.v4) call.offer
    else 0

abbrev pub aci : Bytes → ServiceId
aci uuid = record { typ = type_aci; uuid = uuid }

abbrev pub says : Message → World → World
says message w = record w { sent = w.sent ++ message ∷ [] }

abbrev pub adds : Session → World → World
adds s w = record w { sessions = w.sessions ++ s ∷ []; active = some (length w.sessions) }

abbrev pub same_call : CallEvent → Session → Bool
same_call evt s = s.signal_id == evt.call.id && service_id_eq s.peer (aci evt.sender)

abbrev pub active_session : World → Option Session
active_session w = on_some none (λ i. lookup_session i w.sessions) w.active

abbrev pub busy_unless_same : CallEvent → Session → World → World
busy_unless_same evt s w =
    if same_call evt s then w else says (signal_busy (aci evt.sender) evt.call.id) w

abbrev pub arrives : CallEvent → World → World
arrives evt w = record w { arriving = w.arriving ++ evt ∷ [] }

-- startIncoming up to the search of the portal and the ghost, which begins when there is no active
-- session.
unfoldable pub offer_arrives : CallEvent → World → World
offer_arrives evt w = on_some (arrives evt w) (λ s. busy_unless_same evt s w) (active_session w)

abbrev pub arriving_at : ℕ → List CallEvent → Option CallEvent
arriving_at i [] = none
arriving_at zero (evt ∷ evts) = some evt
arriving_at (suc i) (evt ∷ evts) = arriving_at i evts

abbrev remaining : ℕ → List CallEvent → List CallEvent
remaining i [] = []
remaining zero (evt ∷ evts) = evts
remaining (suc i) (evt ∷ evts) = evt ∷ remaining i evts

-- The search of an offer is over.
unfoldable pub found : ℕ → World → World
found i w = record w { arriving = remaining i w.arriving }

-- The names that the bridge makes for a call: the Matrix room, the call and the party.
pub record Names : Type 0 where
  pub room : Bytes
  pub mx_call_id : Bytes
  pub mx_party : Bytes

abbrev pub incoming_session : CallEvent → Names → Session
unfolding signal_video_selection
incoming_session evt names = record {
  room = names.room;
  peer = aci evt.sender;
  signal_id = evt.call.id;
  source_device = evt.source_device;
  incoming = true;
  call_type = evt.call.call_type;
  video_codec_id = signal_video_selection evt.call;
  mx_call_id = names.mx_call_id;
  mx_party = names.mx_party;
  made = [];
  mx_leg = none;
  signal_leg = none;
  pending_ice = [];
  answering = false;
  end_stage = running;
  start = ringing ring_new;
  answer = not_answered;
}

-- startIncoming from where it has the portal and the ghost, until the session is the active one.
unfoldable pub start_incoming : CallEvent → Names → World → World
unfolding signal_video_selection
start_incoming evt names w =
    if is_video evt.call.call_type && signal_video_selection evt.call == 0
    then w
    else on_some (adds (incoming_session evt names) w)
        (λ i. says (signal_busy (aci evt.sender) evt.call.id) w) w.active
