-- ===== src/CallBridge/Goroutines.antt =====
-- pkg/connector/callbridging.go: the goroutines that start and answer a call. A goroutine is the stage
-- that it has reached, and each stage up to the next shared access or call of a library is one step. A
-- step takes whether that call succeeds, and the number of the leg that it creates.
use mautrix_signal.Common.{
  ℕ, ◌==◌, if◌then◌else◌, Bool, true, false, Option, none, some, List, [], ◌∷◌,
}
use mautrix_signal.CallBridge.Session.{
  Bytes, failed, timeout, RemoteCandidate, RingStage, ring_new, ring_send, ring_store, ring_offer,
  CallStage, call_new, call_answer, call_gathered, call_prepare, call_offer, call_gather,
  call_store, call_signal, StartStage, ringing, calling, waiting, start_done, LocalStage, in_select,
  in_prepare, in_send, in_gather, in_connect, in_accept, in_answer, in_store, RemoteStage,
  out_answer, out_connect, out_wait, out_dismiss, out_matrix, AnswerStage, answering_local,
  answering_remote, not_answered, relaying, answer_done, Session, signal_offer, signal_accepted,
  signal_answer, matrix_invite, matrix_answer, matrix_select, Outcome, quiet, sends, is_cancelled,
  end_session,
}

abbrev pub fails_start : Bool → Session → Session
fails_start notify s = record (end_session failed notify s) { start = start_done }

abbrev pub next_start : StartStage → Session → Session
next_start stage s = record s { start = stage }

abbrev pub makes : ℕ → Session → Session
makes leg s = record s { made = leg ∷ s.made }

-- ringMatrix, and the failure of startIncoming.
unfoldable pub ring_from : RingStage → Bool → ℕ → Session → Outcome
ring_from ring_new ok leg s =
    quiet (if ok then next_start (ringing (ring_store leg)) (makes leg s) else fails_start true s)
ring_from (ring_store mine) ok leg s =
    if is_cancelled s
    then record (quiet (fails_start true s)) { closes = mine ∷ [] }
    else quiet (record s { mx_leg = some mine; start = ringing (ring_offer mine) })
ring_from (ring_offer mine) ok leg s =
    if ok
    then quiet (next_start (ringing ring_send) s)
    else record (quiet (fails_start true s)) { closes = mine ∷ [] }
ring_from ring_send ok leg s =
    if is_cancelled s
    then quiet (fails_start true s)
    else sends (matrix_invite s.room s.mx_call_id)
        (if ok then next_start waiting s else fails_start true s)

-- startOutgoing.
unfoldable pub call_from : CallStage → Bool → ℕ → Session → Outcome
call_from call_new ok leg s =
    quiet (if ok then next_start (calling (call_store leg)) (makes leg s) else fails_start false s)
call_from (call_store mine) ok leg s =
    quiet (record s { mx_leg = some mine; start = calling call_answer })
call_from call_answer ok leg s =
    quiet (if ok then next_start (calling call_gathered) s else fails_start false s)
call_from call_gathered ok leg s =
    quiet (next_start (if is_cancelled s then start_done else (calling call_prepare)) s)
call_from call_prepare ok leg s =
    quiet (if ok then next_start (calling (call_signal leg)) s else fails_start false s)
call_from (call_signal mine) ok leg s =
    quiet (record s { signal_leg = some mine; start = calling call_offer })
call_from call_offer ok leg s =
    sends (signal_offer s.peer s.signal_id s.call_type)
      (if ok then next_start (calling call_gather) s else fails_start false s)
call_from call_gather ok leg s = quiet (if ok then next_start waiting s else fails_start true s)

unfoldable pub start_from : StartStage → Bool → ℕ → Session → Outcome
unfolding ring_from call_from
start_from (ringing stage) ok leg s = ring_from stage ok leg s
start_from (calling stage) ok leg s = call_from stage ok leg s
start_from waiting ok leg s = quiet (
    if is_cancelled s
    then next_start start_done s
    else next_start start_done (end_session timeout true s))
start_from start_done ok leg s = quiet (next_start start_done s)

abbrev pub fails_answer : Session → Session
fails_answer s = record (end_session failed true s) { answer = answer_done }

abbrev pub next_answer : AnswerStage → Session → Session
next_answer stage s = record s { answer = stage }

abbrev pub answers : Bool → AnswerStage → Session → Session
answers ok stage s = if ok then next_answer stage s else fails_answer s

-- The loop over the queued candidates: those of the device of the call go to the leg.
unfoldable pub queued_candidates : ℕ → ℕ → List RemoteCandidate → List (ℕ × Bytes)
queued_candidates device leg [] = []
queued_candidates device leg (c ∷ cs) =
    let rest = queued_candidates device leg cs in
    if c.device == device then (leg, c.sdp) ∷ rest else rest

unfoldable pub remote_answered : Bool → List RemoteCandidate → Session → Option ℕ → Outcome
unfolding queued_candidates
remote_answered ok pending s none = quiet (fails_answer s)
remote_answered ok pending s (some leg) =
    if ok
    then record (quiet (next_answer (answering_remote out_connect) s)) {
      candidates = queued_candidates s.source_device leg pending;
    }
    else quiet (fails_answer s)

abbrev pub matrix_answered : Bool → Session → Option ℕ → Session
matrix_answered ok s none = fails_answer s
matrix_answered ok s (some leg) = answers ok (answering_local in_select) s

-- answerIncoming.
unfoldable pub local_from : LocalStage → Bool → ℕ → Session → Outcome
local_from (in_answer mine) ok leg s = quiet (matrix_answered ok s mine)
local_from in_select ok leg s =
    sends (matrix_select s.room s.mx_call_id) (next_answer (answering_local in_prepare) s)
local_from in_prepare ok leg s = quiet (answers ok (answering_local (in_store leg)) s)
local_from (in_store mine) ok leg s =
    record (quiet
      (record s { signal_leg = some mine; pending_ice = []; answer = answering_local in_send })) {
        candidates = queued_candidates s.source_device mine s.pending_ice;
      }
local_from in_send ok leg s =
    sends (signal_answer s.peer s.signal_id s.source_device)
      (answers ok (answering_local in_gather) s)
local_from in_gather ok leg s = quiet (answers ok (answering_local in_connect) s)
local_from in_connect ok leg s = quiet (answers ok (answering_local in_accept) s)
local_from in_accept ok leg s = quiet (answers ok relaying s)

-- handleRemoteAnswer.
unfoldable pub remote_from : RemoteStage → Bool → ℕ → Session → Outcome
unfolding remote_answered
remote_from (out_answer mine pending) ok leg s = remote_answered ok pending s mine
remote_from out_connect ok leg s = quiet (answers ok (answering_remote out_wait) s)
remote_from out_wait ok leg s = quiet (answers ok (answering_remote out_dismiss) s)
remote_from out_dismiss ok leg s =
    sends (signal_accepted s.peer s.signal_id s.source_device)
      (next_answer (answering_remote out_matrix) s)
remote_from out_matrix ok leg s = sends (matrix_answer s.room s.mx_call_id) (answers ok relaying s)

unfoldable pub answer_from : AnswerStage → Bool → ℕ → Session → Outcome
unfolding local_from remote_from
answer_from not_answered ok leg s = quiet s
answer_from (answering_local stage) ok leg s = local_from stage ok leg s
answer_from (answering_remote stage) ok leg s = remote_from stage ok leg s
answer_from relaying ok leg s = quiet (answers ok relaying s)
answer_from answer_done ok leg s = quiet s
