-- ===== src/CallBridge/Invariant/Reached.antt =====
-- Every state that the bridge reaches has the invariant.
use mautrix_signal.Common.{◌≡◌, ap, subst, All, arith}
use mautrix_signal.CallBridge.Bridge.{World}
use mautrix_signal.CallBridge.Steps.{IsReachable, new_bridge, along}
use mautrix_signal.CallBridge.Invariant.{SessionInv, is_ended, Inv, Live}
use mautrix_signal.CallBridge.Invariant.Kept.{perform-Inv, replace-Inv, adds-Inv}
use mautrix_signal.CallBridge.Invariant.Handled.{Keeps, step-P}

same-Inv :
    (v w : World)
    → v.sessions ≡ w.sessions
    → v.active ≡ w.active
    → v.closed_legs ≡ w.closed_legs
    → Inv v
    → Inv w
same-Inv v w s a c (all, live) = (
  subst (λ legs. All (SessionInv legs) w.sessions) c
      (subst (λ ss. All (SessionInv v.closed_legs) ss) s all),
  subst (λ active. Live active w.sessions) a (subst (λ ss. Live v.active ss) s live),
)

Inv-Keeps : Keeps Inv
Inv-Keeps = record {
  same = same-Inv;
  performed = perform-Inv;
  replaced = λ i s t w e h k f. replace-Inv i s t w e h (k w.closed_legs) (ap is_ended f);
  added = λ s w n h k f. adds-Inv s w n h (k w.closed_legs) (ap is_ended f);
}

pub reachable-Inv : (w : World) → IsReachable w → Inv w
reachable-Inv w r =
    along Inv (step-P Inv Inv-Keeps) new_bridge w r
      (tt, record { runs = tt; one = λ j s e. absurd (ground arith) })
