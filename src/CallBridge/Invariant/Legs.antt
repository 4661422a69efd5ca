-- ===== src/CallBridge/Invariant/Legs.antt =====
-- The steps of a session keep what holds of its Matrix leg.
use mautrix_signal.Common.{
  ℕ, ◌≡◌, inl, inr, refl, if_cases, ap, sym, subst, if◌then◌else◌, Bool, true, false, Option, none,
  some, List, [], ◌∷◌, ◌++◌, append-nil, arith,
}
use mautrix_signal.CallBridge.Session.{
  failed, timeout, EndStage, running, told, cancelled, closed, ended, begun, taken, RemoteCandidate,
  RingStage, ring_new, ring_send, ring_store, ring_offer, CallStage, call_new, call_answer,
  call_gathered, call_prepare, call_offer, call_gather, call_store, call_signal, StartStage,
  ringing, calling, waiting, start_done, LocalStage, in_select, in_prepare, in_send, in_gather,
  in_connect, in_accept, in_answer, in_store, RemoteStage, out_answer, out_connect, out_wait,
  out_dismiss, out_matrix, AnswerStage, answering_local, answering_remote, not_answered, relaying,
  answer_done, Session, Outcome, is_cancelled, once, end_session, leg_list, end_from,
}
use mautrix_signal.CallBridge.Goroutines.{
  fails_start, next_start, makes, ring_from, call_from, start_from, fails_answer, answers,
  remote_answered, matrix_answered, local_from, remote_from, answer_from,
}
use mautrix_signal.CallBridge.Invariant.{AllClosed, LegKept, Stored, Made, SessionInv}
use mautrix_signal.CallBridge.Invariant.Appended.{
  Has-append_right, LegKept-append, Made-append, SessionInv-append, LegKept-once, LegKept-open,
}

module _ (legs : List ℕ) (s : Session) where
  abbrev RingInv : StartStage → Type 0
  RingInv stage =
      s.incoming ≡ true → Made legs s.mx_leg s.made stage × LegKept legs s.mx_leg s.end_stage

  -- The legs are stored, and no other one is made.
  abbrev StoredInv : Type 0
  StoredInv = s.incoming ≡ true → Stored legs s.mx_leg s.made × LegKept legs s.mx_leg s.end_stage

  fails-Inv : (n : Bool) → StoredInv → SessionInv legs (fails_start n s)
  fails-Inv n h i = ((h i).0, LegKept-once legs s.mx_leg failed n s.end_stage (h i).1)

  ends-Inv :
      (ok : Bool)
      → StoredInv
      → SessionInv legs (if ok then next_start waiting s else fails_start true s)
  ends-Inv true h = h
  ends-Inv false h = fails-Inv true h

  new-Inv :
      (ok : Bool) (leg : ℕ)
      → RingInv (ringing ring_new)
      → SessionInv legs
          (if ok then next_start (ringing (ring_store leg)) (makes leg s) else fails_start true s)
  new-Inv true leg h =
      λ i. let ((none_yet, nothing), l) = h i in ((none_yet, ap (◌∷◌ leg) nothing), l)
  new-Inv false leg h = fails-Inv true (λ i.
      let ((none_yet, nothing), l) = h i in (subst (Stored legs s.mx_leg) (sym nothing) tt, l))

  -- The leg that was made is stored, or closed if the context is cancelled.
  store-Inv :
      (mine leg : ℕ) (ok : Bool)
      → RingInv (ringing (ring_store mine))
      → SessionInv
          (legs ++ (ring_from (ring_store mine) ok leg s).closes)
          (ring_from (ring_store mine) ok leg s).session
  unfolding ring_from
  store-Inv mine leg ok h =
      if_cases (λ (o : Outcome). SessionInv (legs ++ o.closes) o.session) (is_cancelled s)
        (λ _. λ i.
          let ((none_yet, one), l) = h i in
          (
            subst (Stored (legs ++ mine ∷ []) s.mx_leg) (sym one)
                (inr (Has-append_right mine legs (mine ∷ []) (inl refl)), tt),
            LegKept-append (once failed true s.end_stage) s.mx_leg legs (mine ∷ [])
                (LegKept-once legs s.mx_leg failed true s.end_stage l),
          ))
        (λ c. λ i.
          let ((none_yet, one), l) = h i in
          (
            subst (Stored (legs ++ []) (some mine)) (sym one) (inl refl, tt),
            LegKept-open (legs ++ []) (some mine) s.end_stage c,
          ))

  ring-Inv :
      (stage : RingStage) (ok : Bool) (leg : ℕ)
      → RingInv (ringing stage)
      → SessionInv (legs ++ (ring_from stage ok leg s).closes) (ring_from stage ok leg s).session
  unfolding ring_from
  ring-Inv ring_new ok leg h =
      SessionInv-append legs []
        (if ok then next_start (ringing (ring_store leg)) (makes leg s) else fails_start true s)
        (new-Inv ok leg h)
  ring-Inv (ring_store mine) ok leg h = store-Inv mine leg ok h
  ring-Inv (ring_offer mine) true leg h =
      SessionInv-append legs [] (next_start (ringing ring_send) s) h
  ring-Inv (ring_offer mine) false leg h =
      SessionInv-append legs (mine ∷ []) (fails_start true s) (fails-Inv true h)
  ring-Inv ring_send ok leg h =
      if_cases (λ (o : Outcome). SessionInv (legs ++ o.closes) o.session) (is_cancelled s)
        (λ _. SessionInv-append legs [] (fails_start true s) (fails-Inv true h))
        (λ _.
          SessionInv-append legs [] (if ok then next_start waiting s else fails_start true s)
            (ends-Inv ok h))

  call-Inv :
      (stage : CallStage) (ok : Bool) (leg : ℕ)
      → RingInv (calling stage)
      → SessionInv legs (call_from stage ok leg s).session
  unfolding call_from
  call-Inv call_new true leg h = λ i. absurd (h i).0
  call-Inv call_new false leg h = λ i. absurd (h i).0
  call-Inv (call_store mine) ok leg h = λ i. absurd (h i).0
  call-Inv call_answer true leg h = λ i. absurd (h i).0
  call-Inv call_answer false leg h = λ i. absurd (h i).0
  call-Inv call_gathered ok leg h = λ i. absurd (h i).0
  call-Inv call_prepare true leg h = λ i. absurd (h i).0
  call-Inv call_prepare false leg h = λ i. absurd (h i).0
  call-Inv (call_signal mine) ok leg h = λ i. absurd (h i).0
  call-Inv call_offer true leg h = λ i. absurd (h i).0
  call-Inv call_offer false leg h = λ i. absurd (h i).0
  call-Inv call_gather true leg h = λ i. absurd (h i).0
  call-Inv call_gather false leg h = λ i. absurd (h i).0

  pub start-Inv :
      (stage : StartStage) (ok : Bool) (leg : ℕ)
      → RingInv stage
      → SessionInv (legs ++ (start_from stage ok leg s).closes) (start_from stage ok leg s).session
  unfolding start_from
  start-Inv (ringing stage) ok leg h = ring-Inv stage ok leg h
  start-Inv (calling stage) ok leg h =
      SessionInv-append legs (call_from stage ok leg s).closes (call_from stage ok leg s).session
        (call-Inv stage ok leg h)
  start-Inv waiting ok leg h =
      SessionInv-append legs []
        (if is_cancelled s
          then next_start start_done s
          else next_start start_done (end_session timeout true s))
        (if_cases (SessionInv legs) (is_cancelled s) (λ _. h)
          (λ _. λ i. ((h i).0, LegKept-once legs s.mx_leg timeout true s.end_stage (h i).1)))
  start-Inv start_done ok leg h = SessionInv-append legs [] (next_start start_done s) h

  fails_answer-Inv : SessionInv legs s → SessionInv legs (fails_answer s)
  fails_answer-Inv h i =
      let (r, l) = h i in (r, LegKept-once legs s.mx_leg failed true s.end_stage l)

  answers-Inv :
      (ok : Bool) (next : AnswerStage) → SessionInv legs s → SessionInv legs (answers ok next s)
  answers-Inv true next h = h
  answers-Inv false next h = fails_answer-Inv h

  matrix_answered-Inv :
      (ok : Bool) (mine : Option ℕ)
      → SessionInv legs s
      → SessionInv legs (matrix_answered ok s mine)
  matrix_answered-Inv ok none h = fails_answer-Inv h
  matrix_answered-Inv ok (some leg) h = answers-Inv ok (answering_local in_select) h

  remote_answered-Inv :
      (ok : Bool) (pending : List RemoteCandidate) (mine : Option ℕ)
      → SessionInv legs s
      → SessionInv legs (remote_answered ok pending s mine).session
  unfolding remote_answered
  remote_answered-Inv ok pending none h = fails_answer-Inv h
  remote_answered-Inv true pending (some leg) h = h
  remote_answered-Inv false pending (some leg) h = fails_answer-Inv h

  local-Inv :
      (stage : LocalStage) (ok : Bool) (leg : ℕ)
      → SessionInv legs s
      → SessionInv legs (local_from stage ok leg s).session
  unfolding local_from
  local-Inv (in_answer mine) ok leg h = matrix_answered-Inv ok mine h
  local-Inv in_select ok leg h = h
  local-Inv in_prepare ok leg h = answers-Inv ok (answering_local (in_store leg)) h
  local-Inv (in_store mine) ok leg h = h
  local-Inv in_send ok leg h = answers-Inv ok (answering_local in_gather) h
  local-Inv in_gather ok leg h = answers-Inv ok (answering_local in_connect) h
  local-Inv in_connect ok leg h = answers-Inv ok (answering_local in_accept) h
  local-Inv in_accept ok leg h = answers-Inv ok relaying h

  remote-Inv :
      (stage : RemoteStage) (ok : Bool) (leg : ℕ)
      → SessionInv legs s
      → SessionInv legs (remote_from stage ok leg s).session
  unfolding remote_from
  remote-Inv (out_answer mine pending) ok leg h = remote_answered-Inv ok pending mine h
  remote-Inv out_connect ok leg h = answers-Inv ok (answering_remote out_wait) h
  remote-Inv out_wait ok leg h = answers-Inv ok (answering_remote out_dismiss) h
  remote-Inv out_dismiss ok leg h = h
  remote-Inv out_matrix ok leg h = answers-Inv ok relaying h

  pub answer-Inv :
      (stage : AnswerStage) (ok : Bool) (leg : ℕ)
      → SessionInv legs s
      → SessionInv legs (answer_from stage ok leg s).session
  unfolding answer_from
  answer-Inv not_answered ok leg h = h
  answer-Inv (answering_local stage) ok leg h = local-Inv stage ok leg h
  answer-Inv (answering_remote stage) ok leg h = remote-Inv stage ok leg h
  answer-Inv relaying ok leg h = answers-Inv ok relaying h
  answer-Inv answer_done ok leg h = h

  taken_closed :
      (taken_mx signal mx : Option ℕ)
      → taken_mx ≡ mx
      → AllClosed (legs ++ (leg_list taken_mx ++ leg_list signal)) mx
  taken_closed taken_mx signal none e = tt
  taken_closed none signal (some leg) e = absurd (ground arith)
  taken_closed (some mine) signal (some leg) e =
      Has-append_right leg legs (mine ∷ leg_list signal) (inl (ground arith))

  pub end-Inv :
      (stage : EndStage)
      → SessionInv legs s
      → (s.incoming ≡ true → LegKept legs s.mx_leg stage)
      → SessionInv (legs ++ (end_from stage s).closes) (end_from stage s).session
  unfolding end_from
  end-Inv running h k = rw append-nil h
  end-Inv (begun r n) h k = λ i. (Made-append legs [] s.mx_leg s.made s.start (h i).0, tt)
  end-Inv told h k = λ i. (Made-append legs [] s.mx_leg s.made s.start (h i).0, tt)
  end-Inv cancelled h k = λ i. (Made-append legs [] s.mx_leg s.made s.start (h i).0, refl)
  end-Inv (taken mx signal) h k = λ i. (
    Made-append legs (leg_list mx ++ leg_list signal) s.mx_leg s.made s.start (h i).0,
    taken_closed mx signal s.mx_leg (k i),
  )
  end-Inv closed h k =
      λ i. (Made-append legs [] s.mx_leg s.made s.start (h i).0, rw append-nil (k i))
  end-Inv ended h k = rw append-nil h
