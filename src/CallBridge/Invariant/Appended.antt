-- ===== src/CallBridge/Invariant/Appended.antt =====
-- What holds of the legs of a session still holds when more legs are closed, and when end is called.
use mautrix_signal.Common.{
  ℕ, ◌≡◌, inl, inr, Bool, false, Option, none, some, List, [], ◌∷◌, ◌++◌, All, arith,
}
use mautrix_signal.CallBridge.Session.{
  EndReason, EndStage, running, told, cancelled, closed, ended, begun, taken, ring_new, ring_send,
  ring_store, ring_offer, StartStage, ringing, calling, waiting, start_done, Session,
  is_cancelled_at, once,
}
use mautrix_signal.CallBridge.Invariant.{Has, AllClosed, LegKept, Stored, Made, SessionInv}

Has-append : (leg : ℕ) (xs ys : List ℕ) → Has leg xs → Has leg (xs ++ ys)
Has-append leg [] ys h = absurd h
Has-append leg (x ∷ xs) ys (inl e) = inl e
Has-append leg (x ∷ xs) ys (inr h) = inr (Has-append leg xs ys h)

pub Has-append_right : (leg : ℕ) (xs ys : List ℕ) → Has leg ys → Has leg (xs ++ ys)
Has-append_right leg [] ys h = h
Has-append_right leg (x ∷ xs) ys h = inr (Has-append_right leg xs ys h)

AllClosed-append : (mx : Option ℕ) (xs ys : List ℕ) → AllClosed xs mx → AllClosed (xs ++ ys) mx
AllClosed-append none xs ys h = tt
AllClosed-append (some leg) xs ys h = Has-append leg xs ys h

pub LegKept-append :
    (stage : EndStage) (mx : Option ℕ) (xs ys : List ℕ)
    → LegKept xs mx stage
    → LegKept (xs ++ ys) mx stage
LegKept-append running mx xs ys h = tt
LegKept-append told mx xs ys h = tt
LegKept-append cancelled mx xs ys h = tt
LegKept-append (begun r n) mx xs ys h = tt
LegKept-append (taken m g) mx xs ys h = h
LegKept-append closed mx xs ys h = AllClosed-append mx xs ys h
LegKept-append ended mx xs ys h = AllClosed-append mx xs ys h

pub Stored-append :
    (xs ys : List ℕ) (mx : Option ℕ) (made : List ℕ) → Stored xs mx made → Stored (xs ++ ys) mx made
Stored-append xs ys mx [] h = tt
Stored-append xs ys mx (leg ∷ legs) (inl e, h) = (inl e, Stored-append xs ys mx legs h)
Stored-append xs ys mx (leg ∷ legs) (inr c, h) =
    (inr (Has-append leg xs ys c), Stored-append xs ys mx legs h)

pub Made-append :
    (xs ys : List ℕ) (mx : Option ℕ) (made : List ℕ) (stage : StartStage)
    → Made xs mx made stage
    → Made (xs ++ ys) mx made stage
Made-append xs ys mx made (ringing ring_new) h = h
Made-append xs ys mx made (ringing (ring_store leg)) h = h
Made-append xs ys mx made (ringing (ring_offer leg)) h = Stored-append xs ys mx made h
Made-append xs ys mx made (ringing ring_send) h = Stored-append xs ys mx made h
Made-append xs ys mx made (calling stage) h = h
Made-append xs ys mx made waiting h = Stored-append xs ys mx made h
Made-append xs ys mx made start_done h = Stored-append xs ys mx made h

pub SessionInv-append : (xs ys : List ℕ) (s : Session) → SessionInv xs s → SessionInv (xs ++ ys) s
SessionInv-append xs ys s h i =
    let (m, l) = h i in
    (Made-append xs ys s.mx_leg s.made s.start m, LegKept-append s.end_stage s.mx_leg xs ys l)

pub All-SessionInv-append :
    (xs ys : List ℕ) (ss : List Session) → All (SessionInv xs) ss → All (SessionInv (xs ++ ys)) ss
All-SessionInv-append xs ys [] h = tt
All-SessionInv-append xs ys (s ∷ ss) (p, h) =
    (SessionInv-append xs ys s p, All-SessionInv-append xs ys ss h)

pub LegKept-once :
    (legs : List ℕ) (mx : Option ℕ) (r : EndReason) (n : Bool) (stage : EndStage)
    → LegKept legs mx stage
    → LegKept legs mx (once r n stage)
LegKept-once legs mx r n running h = tt
LegKept-once legs mx r n told h = tt
LegKept-once legs mx r n cancelled h = tt
LegKept-once legs mx r n (begun q m) h = tt
LegKept-once legs mx r n (taken m g) h = h
LegKept-once legs mx r n closed h = h
LegKept-once legs mx r n ended h = h

-- Before the context is cancelled the session may get another Matrix leg.
pub LegKept-open :
    (legs : List ℕ) (mx : Option ℕ) (stage : EndStage)
    → is_cancelled_at stage ≡ false
    → LegKept legs mx stage
LegKept-open legs mx running h = tt
LegKept-open legs mx told h = tt
LegKept-open legs mx (begun q m) h = tt
LegKept-open legs mx cancelled h = absurd (ground arith)
LegKept-open legs mx (taken m g) h = absurd (ground arith)
LegKept-open legs mx closed h = absurd (ground arith)
LegKept-open legs mx ended h = absurd (ground arith)
