-- ===== src/CallBridge/Invariant/Ends.antt =====
-- The goroutines that start and answer a call change the end of it only by a call of end.
use mautrix_signal.Common.{ℕ, if_cases, if◌then◌else◌, Bool, true, false, Option, none, some, List}
use mautrix_signal.CallBridge.Session.{
  EndReason, failed, timeout, EndStage, RemoteCandidate, RingStage, ring_new, ring_send, ring_store,
  ring_offer, CallStage, call_new, call_answer, call_gathered, call_prepare, call_offer,
  call_gather, call_store, call_signal, StartStage, ringing, calling, waiting, start_done,
  LocalStage, in_select, in_prepare, in_send, in_gather, in_connect, in_accept, in_answer, in_store,
  RemoteStage, out_answer, out_connect, out_wait, out_dismiss, out_matrix, AnswerStage,
  answering_local, answering_remote, not_answered, relaying, answer_done, Session, Outcome,
  is_cancelled, once,
}
use mautrix_signal.CallBridge.Goroutines.{
  fails_start, next_start, ring_from, call_from, start_from, answers, remote_answered,
  matrix_answered, local_from, remote_from, answer_from,
}

module _ (s : Session) (P : EndStage → Bool → Type 0) (same : P s.end_stage false)
    (end_called : (r : EndReason) (n : Bool) → P (once r n s.end_stage) false) where
  either_end :
      (ok n : Bool) (next : StartStage)
      → P (if ok then next_start next s else fails_start n s).end_stage false
  either_end true n next = same
  either_end false n next = end_called failed n

  ring_end :
      (stage : RingStage) (ok : Bool) (leg : ℕ)
      → P (ring_from stage ok leg s).session.end_stage (ring_from stage ok leg s).frees
  unfolding ring_from
  ring_end ring_new true leg = same
  ring_end ring_new false leg = end_called failed true
  ring_end (ring_store mine) ok leg =
      if_cases (λ (o : Outcome). P o.session.end_stage o.frees) (is_cancelled s)
        (λ _. end_called failed true) (λ _. same)
  ring_end (ring_offer mine) true leg = same
  ring_end (ring_offer mine) false leg = end_called failed true
  ring_end ring_send ok leg =
      if_cases (λ (o : Outcome). P o.session.end_stage o.frees) (is_cancelled s)
        (λ _. end_called failed true) (λ _. either_end ok true waiting)

  call_end :
      (stage : CallStage) (ok : Bool) (leg : ℕ)
      → P (call_from stage ok leg s).session.end_stage (call_from stage ok leg s).frees
  unfolding call_from
  call_end call_new true leg = same
  call_end call_new false leg = end_called failed false
  call_end (call_store mine) ok leg = same
  call_end call_answer ok leg = either_end ok false (calling call_gathered)
  call_end call_gathered ok leg = same
  call_end call_prepare ok leg = either_end ok false (calling (call_signal leg))
  call_end (call_signal mine) ok leg = same
  call_end call_offer ok leg = either_end ok false (calling call_gather)
  call_end call_gather ok leg = either_end ok true waiting

  pub start_end :
      (stage : StartStage) (ok : Bool) (leg : ℕ)
      → P (start_from stage ok leg s).session.end_stage (start_from stage ok leg s).frees
  unfolding start_from
  start_end (ringing stage) ok leg = ring_end stage ok leg
  start_end (calling stage) ok leg = call_end stage ok leg
  start_end waiting ok leg =
      if_cases (λ (t : Session). P t.end_stage false) (is_cancelled s) (λ _. same)
        (λ _. end_called timeout true)
  start_end start_done ok leg = same

  answers_end : (ok : Bool) (next : AnswerStage) → P (answers ok next s).end_stage false
  answers_end true next = same
  answers_end false next = end_called failed true

  matrix_end : (ok : Bool) (mine : Option ℕ) → P (matrix_answered ok s mine).end_stage false
  matrix_end ok none = end_called failed true
  matrix_end ok (some leg) = answers_end ok (answering_local in_select)

  remote_end :
      (ok : Bool) (pending : List RemoteCandidate) (mine : Option ℕ)
      → P
          (remote_answered ok pending s mine).session.end_stage
          (remote_answered ok pending s mine).frees
  unfolding remote_answered
  remote_end ok pending none = end_called failed true
  remote_end true pending (some leg) = same
  remote_end false pending (some leg) = end_called failed true

  local_end :
      (stage : LocalStage) (ok : Bool) (leg : ℕ)
      → P (local_from stage ok leg s).session.end_stage (local_from stage ok leg s).frees
  unfolding local_from
  local_end (in_answer mine) ok leg = matrix_end ok mine
  local_end in_select ok leg = same
  local_end in_prepare ok leg = answers_end ok (answering_local (in_store leg))
  local_end (in_store mine) ok leg = same
  local_end in_send ok leg = answers_end ok (answering_local in_gather)
  local_end in_gather ok leg = answers_end ok (answering_local in_connect)
  local_end in_connect ok leg = answers_end ok (answering_local in_accept)
  local_end in_accept ok leg = answers_end ok relaying

  remote_call_end :
      (stage : RemoteStage) (ok : Bool) (leg : ℕ)
      → P (remote_from stage ok leg s).session.end_stage (remote_from stage ok leg s).frees
  unfolding remote_from
  remote_call_end (out_answer mine pending) ok leg = remote_end ok pending mine
  remote_call_end out_connect ok leg = answers_end ok (answering_remote out_wait)
  remote_call_end out_wait ok leg = answers_end ok (answering_remote out_dismiss)
  remote_call_end out_dismiss ok leg = same
  remote_call_end out_matrix ok leg = answers_end ok relaying

  pub answer_end :
      (stage : AnswerStage) (ok : Bool) (leg : ℕ)
      → P (answer_from stage ok leg s).session.end_stage (answer_from stage ok leg s).frees
  unfolding answer_from
  answer_end not_answered ok leg = same
  answer_end (answering_local stage) ok leg = local_end stage ok leg
  answer_end (answering_remote stage) ok leg = remote_call_end stage ok leg
  answer_end relaying ok leg = answers_end ok relaying
  answer_end answer_done ok leg = same
