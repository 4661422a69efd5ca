-- ===== src/CallBridge/Invariant.antt =====
-- What holds of the bridge between two steps.
pub mod Ends
pub mod Appended
pub mod Legs
pub mod Kept
pub mod Handled
pub mod Reached
use mautrix_signal.Common.{
  ℕ, zero, suc, ◌≡◌, ◌≢◌, ◌⊎◌, inl, inr, refl, ap, sym, ◌∙◌, ◌==◌, ==→eq, subst, if_cases,
  if◌then◌else◌, Bool-cases, Bool, true, false, Option, none, some, List, [], ◌∷◌, ◌++◌, All, Any,
  All-append, length, append-nil, arith,
}
use mautrix_signal.CallBridge.Session.{
  Bytes, EndReason, failed, timeout, EndStage, running, told, cancelled, closed, ended, begun,
  taken, RemoteCandidate, RingStage, ring_new, ring_send, ring_store, ring_offer, CallStage,
  call_new, call_answer, call_gathered, call_prepare, call_offer, call_gather, call_store,
  call_signal, StartStage, ringing, calling, waiting, start_done, LocalStage, in_select, in_prepare,
  in_send, in_gather, in_connect, in_accept, in_answer, in_store, RemoteStage, out_answer,
  out_connect, out_wait, out_dismiss, out_matrix, AnswerStage, answering_local, answering_remote,
  not_answered, relaying, answer_done, Session, Message, signal_offer, signal_accepted,
  signal_answer, matrix_invite, matrix_answer, matrix_select, Outcome, quiet, sends,
  is_cancelled_at, is_cancelled, once, end_session, leg_list, end_from,
}
use mautrix_signal.CallBridge.Bridge.{
  CallEvent, World, Names, lookup_session, put_session, freed, commit, Action, start_step,
  answer_step, end_step, end_call, act, act_on, perform,
}

abbrev pub Has : ℕ → List ℕ → Type 0
Has leg legs = Any (λ l. l ≡ leg) legs

abbrev pub AllClosed : List ℕ → Option ℕ → Type 0
AllClosed legs none = Unit
AllClosed legs (some leg) = Has leg legs

-- The Matrix leg is taken as it is when the context is cancelled, and closed then.
abbrev pub LegKept : List ℕ → Option ℕ → EndStage → Type 0
LegKept legs mx (taken taken_mx signal) = taken_mx ≡ mx
LegKept legs mx closed = AllClosed legs mx
LegKept legs mx ended = AllClosed legs mx
LegKept legs mx _ = Unit

-- Every leg that was made is the Matrix leg of the session, or it is closed.
abbrev pub Stored : List ℕ → Option ℕ → List ℕ → Type 0
Stored legs mx made = All (λ leg. (mx ≡ some leg) ⊎ Has leg legs) made

-- Where the leg of a call from Signal is: none is made yet, the goroutine has it, or it is stored.
abbrev pub MadeRing : List ℕ → Option ℕ → List ℕ → RingStage → Type 0
MadeRing legs mx made ring_new = (mx ≡ none) × (made ≡ [])
MadeRing legs mx made (ring_store leg) = (mx ≡ none) × (made ≡ leg ∷ [])
MadeRing legs mx made (ring_offer leg) = Stored legs mx made
MadeRing legs mx made ring_send = Stored legs mx made

abbrev pub Made : List ℕ → Option ℕ → List ℕ → StartStage → Type 0
Made legs mx made (ringing stage) = MadeRing legs mx made stage
Made legs mx made (calling stage) = ⊥
Made legs mx made waiting = Stored legs mx made
Made legs mx made start_done = Stored legs mx made

abbrev pub SessionInv : List ℕ → Session → Type 0
SessionInv legs s =
    s.incoming ≡ true → Made legs s.mx_leg s.made s.start × LegKept legs s.mx_leg s.end_stage

abbrev pub is_ended : EndStage → Bool
is_ended ended = true
is_ended _ = false

abbrev is_ended_in : Option Session → Bool
is_ended_in none = true
is_ended_in (some s) = is_ended s.end_stage

abbrev pub Runs : Option Session → Type 0
Runs none = ⊥
Runs (some s) = is_ended s.end_stage ≡ false

abbrev pub ActiveRuns : Option ℕ → List Session → Type 0
ActiveRuns none ss = Unit
ActiveRuns (some i) ss = Runs (lookup_session i ss)

-- Every other session has ended.
abbrev pub OneLive : Option ℕ → List Session → Type 0
OneLive active ss =
    (j : ℕ) (s : Session)
    → lookup_session j ss ≡ some s
    → (is_ended s.end_stage ≡ true) ⊎ (active ≡ some j)

pub record Live (active : Option ℕ) (ss : List Session) : Type 0 where
  pub runs : ActiveRuns active ss
  pub one : OneLive active ss

abbrev pub Inv : World → Type 0
Inv w = All (SessionInv w.closed_legs) w.sessions × Live w.active w.sessions

pub is_ended-once :
    (r : EndReason) (n : Bool) (stage : EndStage) → is_ended (once r n stage) ≡ is_ended stage
is_ended-once r n running = refl
is_ended-once r n told = refl
is_ended-once r n cancelled = refl
is_ended-once r n (begun q m) = refl
is_ended-once r n (taken m g) = refl
is_ended-once r n closed = refl
is_ended-once r n ended = refl

-- Sessions in their list.
pub put-All :
    (P : Session → Type 0) (i : ℕ) (s : Session) (ss : List Session)
    → All P ss
    → P s
    → All P (put_session i s ss)
put-All P i s [] h p = tt
put-All P zero s (t ∷ ss) (q, h) p = (p, h)
put-All P (suc i) s (t ∷ ss) (q, h) p = (q, put-All P i s ss h p)

pub lookup-All :
    (P : Session → Type 0) (i : ℕ) (s : Session) (ss : List Session)
    → All P ss
    → lookup_session i ss ≡ some s
    → P s
lookup-All P i s [] h e = absurd (ground arith)
lookup-All P zero s (t ∷ ss) (q, h) e = subst P (ground arith) q
lookup-All P (suc i) s (t ∷ ss) (q, h) e = lookup-All P i s ss h e

pub lookup-put :
    (i : ℕ) (s t : Session) (ss : List Session)
    → lookup_session i ss ≡ some t
    → lookup_session i (put_session i s ss) ≡ some s
lookup-put i s t [] e = absurd (ground arith)
lookup-put zero s t (u ∷ ss) e = refl
lookup-put (suc i) s t (u ∷ ss) e = lookup-put i s t ss e

pub lookup-put_other :
    (i j : ℕ) (s : Session) (ss : List Session)
    → (j == i) ≡ false
    → lookup_session j (put_session i s ss) ≡ lookup_session j ss
lookup-put_other i j s [] e = refl
lookup-put_other zero zero s (u ∷ ss) e = absurd (ground arith)
lookup-put_other zero (suc j) s (u ∷ ss) e = refl
lookup-put_other (suc i) zero s (u ∷ ss) e = refl
lookup-put_other (suc i) (suc j) s (u ∷ ss) e = lookup-put_other i j s ss (ground arith)

pub lookup-append_last :
    (s : Session) (ss : List Session) → lookup_session (length ss) (ss ++ s ∷ []) ≡ some s
lookup-append_last s [] = refl
lookup-append_last s (t ∷ ss) = lookup-append_last s ss

pub lookup-append :
    (j : ℕ) (s t : Session) (ss : List Session)
    → lookup_session j (ss ++ s ∷ []) ≡ some t
    → (lookup_session j ss ≡ some t) ⊎ (j ≡ length ss)
lookup-append zero s t [] e = inr refl
lookup-append (suc j) s t [] e = absurd (ground arith)
lookup-append zero s t (u ∷ ss) e = inl e
lookup-append (suc j) s t (u ∷ ss) e = elim (lookup-append j s t ss e) [
  | inl h ↦ inl h
  | inr h ↦ inr (ap suc h)
]

put-ActiveRuns :
    (i : ℕ) (s t : Session) (active : Option ℕ) (ss : List Session)
    → lookup_session i ss ≡ some s
    → ActiveRuns active ss
    → is_ended t.end_stage ≡ is_ended s.end_stage
    → ActiveRuns active (put_session i t ss)
put-ActiveRuns i s t none ss e r f = tt
put-ActiveRuns i s t (some j) ss e r f = elim (Bool-cases (j == i)) [
  | inl q ↦
      rw (==→eq j i q, lookup-put i t s ss e)
        (f ∙ subst Runs e (subst (λ k. Runs (lookup_session k ss)) (==→eq j i q) r))
  | inr q ↦ rw (lookup-put_other i j t ss q) r
]

put-OneLive :
    (i : ℕ) (s t : Session) (active : Option ℕ) (ss : List Session)
    → lookup_session i ss ≡ some s
    → OneLive active ss
    → is_ended t.end_stage ≡ is_ended s.end_stage
    → OneLive active (put_session i t ss)
put-OneLive i s t active ss e r f j u l = elim (Bool-cases (j == i)) [
  | inl q ↦
      let k : j ≡ i = ==→eq j i q in
      let same : some t ≡ some u =
        sym (lookup-put i t s ss e)
        ∙ (ap (λ k. lookup_session k (put_session i t ss)) (sym k) ∙ l) in
      elim (r i s e) [
        | inl h ↦ inl (subst (λ o. is_ended_in o ≡ true) same (f ∙ h))
        | inr h ↦ inr (h ∙ ap some (sym k))
      ]
  | inr q ↦ r j u (sym (lookup-put_other i j t ss q) ∙ l)
]

-- A step that changes one session and keeps whether it has ended.
pub put-Live :
    (i : ℕ) (s t : Session) (active : Option ℕ) (ss : List Session)
    → lookup_session i ss ≡ some s
    → Live active ss
    → is_ended t.end_stage ≡ is_ended s.end_stage
    → Live active (put_session i t ss)
put-Live i s t active ss e r f = record {
  runs = put-ActiveRuns i s t active ss e r.runs f;
  one = put-OneLive i s t active ss e r.one f;
}

freed-ActiveRuns :
    (i : ℕ) (t : Session) (active : Option ℕ) (ss : List Session)
    → ActiveRuns active ss
    → ActiveRuns (freed i active) (put_session i t ss)
freed-ActiveRuns i t none ss r = tt
freed-ActiveRuns i t (some j) ss r = elim (Bool-cases (j == i)) [
  | inl q ↦ rw q tt
  | inr q ↦ rw (q, lookup-put_other i j t ss q) r
]

-- A step that ends a session frees the bridge of it.
pub freed-Live :
    (i : ℕ) (s t : Session) (active : Option ℕ) (ss : List Session)
    → lookup_session i ss ≡ some s
    → Live active ss
    → is_ended t.end_stage ≡ true
    → Live (freed i active) (put_session i t ss)
freed-Live i s t active ss e r f = record {
  runs = freed-ActiveRuns i t active ss r.runs;
  one = λ j u l. elim (Bool-cases (j == i)) [
    | inl q ↦
        let k : j ≡ i = ==→eq j i q in
        let same : some t ≡ some u =
          sym (lookup-put i t s ss e)
          ∙ (ap (λ k. lookup_session k (put_session i t ss)) (sym k) ∙ l) in
        inl (subst (λ o. is_ended_in o ≡ true) same f)
    | inr q ↦ elim (r.one j u (sym (lookup-put_other i j t ss q) ∙ l)) [
      | inl h ↦ inl h
      | inr h ↦ inr (rw h (rw q refl))
    ]
  ];
}
