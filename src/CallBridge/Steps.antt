-- ===== src/CallBridge/Steps.antt =====
-- pkg/connector/callbridging.go: what can happen next, where the bridge's lock, the session's locks and
-- the calls of libraries separate the steps. A handler is one step, with the first lock that a
-- goroutine it starts takes: a handler that is delayed until then does the same, and once the session
-- has ended that lock does nothing. The rest of the goroutine are later steps of the session. An offer
-- for which startIncoming finds the portal and the ghost `rings`, and another one `misses`.
use mautrix_signal.Common.{ℕ, ◌≡◌, Bool, none, some, []}
use mautrix_signal.CallBridge.Session.{Bytes}
use mautrix_signal.CallBridge.Bridge.{
  CallEvent, World, Names, Action, start_step, answer_step, end_step, perform, start_incoming,
  arriving_at, found,
}
use mautrix_signal.CallBridge.Handlers.{
  MatrixEvent, handle_signal_call, handle_matrix_event, stop, start_outgoing,
}

pub data IsGoroutine : Action → Type 0 where
  starts : (ok : Bool) → IsGoroutine (start_step ok)
  answers : (ok : Bool) → IsGoroutine (answer_step ok)
  ends : IsGoroutine end_step

infix 40 ◌⟶◌ ◌⟶*◌
pub data ◌⟶◌ : World → World → Type 0 where
  from_signal : (evt : CallEvent) (w : World) → w ⟶ handle_signal_call evt w
  rings :
      (i : ℕ) (evt : CallEvent) (names : Names) (w : World)
      → arriving_at i w.arriving ≡ some evt
      → w ⟶ start_incoming evt names (found i w)
  misses : (i : ℕ) (w : World) → w ⟶ found i w
  from_matrix :
      (room call_id party : Bytes) (evt : MatrixEvent) (w : World)
      → w ⟶ handle_matrix_event room call_id party evt w
  invites :
      (peer : Bytes) (call_id : ℕ) (sends_video : Bool) (names : Names) (w : World)
      → w ⟶ start_outgoing peer call_id sends_video names w
  stops : (w : World) → w ⟶ stop w
  goes : (a : Action) (i : ℕ) (w : World) → IsGoroutine a → w ⟶ perform a i w

pub data ◌⟶*◌ : World → World → Type 0 where
  here : {w : World} → w ⟶* w
  after : {u v w : World} → u ⟶ v → v ⟶* w → u ⟶* w

abbrev pub new_bridge : World
new_bridge = record {
  sessions = [];
  active = none;
  sent = [];
  closed_legs = [];
  candidates = [];
  next_leg = 0;
  arriving = [];
}

abbrev pub IsReachable : World → Type 0
IsReachable w = new_bridge ⟶* w

-- What every step keeps holds of every state that is reached.
pub along :
    (P : World → Type 0) → ((v w : World) → v ⟶ w → P v → P w) → (v w : World) → v ⟶* w → P v → P w
along P keep v w here p = p
along P keep u w (after s r) p = along P keep _ w r (keep u _ s p)
