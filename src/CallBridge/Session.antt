-- ===== src/CallBridge/Session.antt =====
-- pkg/connector/callbridging.go: the state of a call, with the stages of its goroutines, and its end.
use mautrix_signal.Common.{
  ℕ, if◌then◌else◌, Bool, true, false, Option, none, some, List, [], ◌∷◌, ◌++◌,
}
use mautrix_signal.Signalid.ServiceId.{ServiceId}
use mautrix_signal.Ringrtc.CallMessage.{CallType}

abbrev pub Bytes : Type 0
Bytes = List ℕ

pub data EndReason : Type 0 where
  remote_hangup remote_busy answered_elsewhere local_decline timeout failed bridge_shutdown :
      EndReason

pub data MatrixReason : Type 0 where
  user_hangup user_busy other_device invite_timeout unknown_error : MatrixReason

-- How far the function of endOnce has come. The context is cancelled from `cancelled` on.
pub data EndStage : Type 0 where
  running told cancelled closed ended : EndStage
  begun : EndReason → Bool → EndStage
  taken : Option ℕ → Option ℕ → EndStage

pub record RemoteCandidate : Type 0 where
  pub device : ℕ
  pub sdp : Bytes

-- The goroutine that starts the call: ringMatrix for startIncoming, or startOutgoing, and then the
-- timer that either sets.
pub data RingStage : Type 0 where
  ring_new ring_send : RingStage
  ring_store ring_offer : ℕ → RingStage

pub data CallStage : Type 0 where
  call_new call_answer call_gathered call_prepare call_offer call_gather : CallStage
  call_store call_signal : ℕ → CallStage

pub data StartStage : Type 0 where
  ringing : RingStage → StartStage
  calling : CallStage → StartStage
  waiting start_done : StartStage

-- The goroutine that answers it: answerIncoming, or handleRemoteAnswer.
pub data LocalStage : Type 0 where
  in_select in_prepare in_send in_gather in_connect in_accept : LocalStage
  in_answer : Option ℕ → LocalStage
  in_store : ℕ → LocalStage

pub data RemoteStage : Type 0 where
  out_answer : Option ℕ → List RemoteCandidate → RemoteStage
  out_connect out_wait out_dismiss out_matrix : RemoteStage

pub data AnswerStage : Type 0 where
  answering_local : LocalStage → AnswerStage
  answering_remote : RemoteStage → AnswerStage
  not_answered relaying answer_done : AnswerStage

-- `made` are the Matrix legs that were made for it, which no field of the source holds.
pub record Session : Type 0 where
  pub room : Bytes
  pub peer : ServiceId
  pub signal_id : ℕ
  pub source_device : ℕ
  pub incoming : Bool
  pub call_type : CallType
  pub video_codec_id : ℕ
  pub mx_call_id : Bytes
  pub mx_party : Bytes
  pub made : List ℕ
  pub mx_leg : Option ℕ
  pub signal_leg : Option ℕ
  pub pending_ice : List RemoteCandidate
  pub answering : Bool
  pub end_stage : EndStage
  pub start : StartStage
  pub answer : AnswerStage

-- The messages that it tries to send.
pub data Message : Type 0 where
  signal_busy signal_hangup : ServiceId → ℕ → Message
  signal_accepted signal_answer : ServiceId → ℕ → ℕ → Message
  signal_offer : ServiceId → ℕ → CallType → Message
  matrix_invite matrix_answer matrix_select : Bytes → Bytes → Message
  matrix_hangup : Bytes → Bytes → MatrixReason → Message

-- What a step does: the session after it, the messages, the legs it closes, the remote candidates it
-- hands to a leg, and whether the session stops being the active one.
pub record Outcome : Type 0 where
  pub session : Session
  pub sent : List Message
  pub closes : List ℕ
  pub candidates : List (ℕ × Bytes)
  pub frees : Bool

abbrev pub quiet : Session → Outcome
quiet s = record { session = s; sent = []; closes = []; candidates = []; frees = false }

abbrev pub sends : Message → Session → Outcome
sends message s = record (quiet s) { sent = message ∷ [] }

abbrev pub is_cancelled_at : EndStage → Bool
is_cancelled_at running = false
is_cancelled_at (begun reason notify) = false
is_cancelled_at told = false
is_cancelled_at cancelled = true
is_cancelled_at (taken mx signal) = true
is_cancelled_at closed = true
is_cancelled_at ended = true

-- `ctx.Err() != nil`.
abbrev pub is_cancelled : Session → Bool
is_cancelled s = is_cancelled_at s.end_stage

abbrev pub once : EndReason → Bool → EndStage → EndStage
once reason notify running = begun reason notify
once reason notify (begun r n) = begun r n
once reason notify told = told
once reason notify cancelled = cancelled
once reason notify (taken mx signal) = taken mx signal
once reason notify closed = closed
once reason notify ended = ended

-- A call of end: only the first one has an effect.
abbrev pub end_session : EndReason → Bool → Session → Session
end_session reason notify s = record s { end_stage = once reason notify s.end_stage }

abbrev pub matrix_reason : EndReason → MatrixReason
matrix_reason remote_hangup = user_hangup
matrix_reason remote_busy = user_busy
matrix_reason answered_elsewhere = other_device
matrix_reason local_decline = user_hangup
matrix_reason timeout = invite_timeout
matrix_reason failed = unknown_error
matrix_reason bridge_shutdown = unknown_error

abbrev pub is_local_decline : EndReason → Bool
is_local_decline local_decline = true
is_local_decline _ = false

abbrev pub leg_list : Option ℕ → List ℕ
leg_list none = []
leg_list (some leg) = leg ∷ []

abbrev pub end_messages : EndReason → Bool → Session → List Message
end_messages reason notify s =
    (if notify then signal_hangup s.peer s.signal_id ∷ [] else [])
    ++ (if is_local_decline reason
        then []
        else matrix_hangup s.room s.mx_call_id (matrix_reason reason) ∷ [])

-- The function of endOnce, one step after the other.
unfoldable pub end_from : EndStage → Session → Outcome
end_from running s = quiet s
end_from (begun reason notify) s = record (quiet (record s { end_stage = told })) {
  sent = end_messages reason notify s;
}
end_from told s = quiet (record s { end_stage = cancelled })
end_from cancelled s = quiet (record s { end_stage = taken s.mx_leg s.signal_leg })
end_from (taken mx signal) s = record (quiet (record s { end_stage = closed })) {
  closes = leg_list mx ++ leg_list signal;
}
end_from closed s = record (quiet (record s { end_stage = ended })) { frees = true }
end_from ended s = quiet s
