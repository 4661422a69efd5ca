-- ===== src/CallBridge/Foreign.antt =====
-- Messages from Signal that are not of the active call.
use mautrix_signal.Common.{
  ◌≡◌, refl, sym, ap, ◌∙◌, if◌then◌else◌, if_cases, Bool-cases, Bool, true, false, not, ◌&&◌,
  Option-cases, on_some, on_some_cases, inl, inr, ℕ, arith,
}
use mautrix_signal.Ringrtc.CallMessage.{
  MessageType, no_message, offer_message, answer_message, ice_message, busy_message, hangup_message,
  opaque_message,
}
use mautrix_signal.CallBridge.Session.{Session, signal_busy}
use mautrix_signal.CallBridge.Bridge.{
  CallEvent, World, lookup_session, active_session, same_call, says, arrives, aci,
  is_bridgeable_offer, is_offer, offer_arrives, parsed,
}
use mautrix_signal.CallBridge.Handlers.{
  from_peer, for_peer, handle_typed, handle_signal_call, has_answer, has_candidate,
  handle_remote_ice, handle_remote_answer, handle_remote_end, remote_ice_of, remote_answer_of,
  remote_end_of,
}

-- No call is active, or the message is of another call or from another sender.
abbrev pub is_foreign : CallEvent → World → Bool
is_foreign evt w = on_some true (λ s. not (from_peer evt s)) (active_session w)

abbrev pub has_active : World → Bool
has_active w = on_some false (λ s. true) (active_session w)

-- What a foreign offer does that can be bridged: it is answered with busy if there is an active call,
-- and otherwise startIncoming goes on with it.
abbrev pub offered : CallEvent → World → World
offered evt w =
    if has_active w then says (signal_busy (aci evt.sender) evt.call.id) w else arrives evt w

abbrev pub refused : CallEvent → World → World
refused evt w = if is_bridgeable_offer evt.call then offered evt w else w

for_peer-foreign :
    (f : ℕ → CallEvent → Session → World → World) (evt : CallEvent) (w : World)
    → is_foreign evt w ≡ true
    → for_peer f evt w ≡ w
for_peer-foreign f evt w h =
    on_some_cases (λ v. v ≡ w) w.active (λ _. refl)
      (λ i a.
        on_some_cases (λ v. v ≡ w) (lookup_session i w.sessions) (λ _. refl)
          (λ s e.
            let guard : not (from_peer evt s) ≡ true = sym (rw (a, e) refl) ∙ h in
            if_cases (λ v. v ≡ w) (from_peer evt s) (λ q. absurd (ground (arith, guard, q)))
              (λ _. refl)))

same_call-from_peer :
    (evt : CallEvent) (s : Session) → same_call evt s ≡ true → from_peer evt s ≡ true
same_call-from_peer evt s h = ground arith

offer-foreign :
    (evt : CallEvent) (w : World) → is_foreign evt w ≡ true → offer_arrives evt w ≡ offered evt w
unfolding offer_arrives
offer-foreign evt w h = elim (Option-cases (active_session w)) [
  | inl e ↦ rw e refl
  | inr (s, e) ↦
      let guard : not (from_peer evt s) ≡ true = sym (rw e refl) ∙ h in
      rw e (elim (Bool-cases (same_call evt s)) [
        | inl q ↦ absurd (ground (arith, guard, same_call-from_peer evt s q))
        | inr q ↦ rw q refl
      ])
]

typed-foreign :
    (t : MessageType) (evt : CallEvent) (w : World)
    → is_foreign evt w ≡ true
    → handle_typed t evt w
      ≡ (if is_offer t && is_bridgeable_offer evt.call then offered evt w else w)
unfolding handle_typed handle_remote_ice handle_remote_answer handle_remote_end
typed-foreign no_message evt w h = refl
typed-foreign offer_message evt w h = elim (Bool-cases (is_bridgeable_offer evt.call)) [
  | inl q ↦ rw q (offer-foreign evt w h)
  | inr q ↦ rw q refl
]
typed-foreign answer_message evt w h =
    if_cases (λ v. v ≡ w) (has_answer evt.call.answer && parsed evt.call)
      (λ _. for_peer-foreign remote_answer_of evt w h) (λ _. refl)
typed-foreign ice_message evt w h =
    if_cases (λ v. v ≡ w) (has_candidate evt.call.ice_candidate && parsed evt.call)
      (λ _. for_peer-foreign remote_ice_of evt w h) (λ _. refl)
typed-foreign busy_message evt w h = for_peer-foreign remote_end_of evt w h
typed-foreign hangup_message evt w h = for_peer-foreign remote_end_of evt w h
typed-foreign opaque_message evt w h = refl

bridgeable-offer :
    (evt : CallEvent)
    → (is_offer evt.call.message_type && is_bridgeable_offer evt.call)
      ≡ is_bridgeable_offer evt.call
unfolding is_bridgeable_offer
bridgeable-offer evt = ground arith

-- A message from Signal that is of another call than the active one, or from another sender, or that
-- comes when no call is active: an offer that can be bridged is answered with busy and changes
-- nothing else when a call is active, and is the one with which startIncoming goes on, and the only
-- change, when none is. Every other such message changes nothing at all.
pub handle_signal_call-foreign :
    (evt : CallEvent) (w : World)
    → is_foreign evt w ≡ true
    → handle_signal_call evt w ≡ refused evt w
unfolding handle_signal_call
handle_signal_call-foreign evt w h =
    typed-foreign evt.call.message_type evt w h
    ∙ ap (λ b. if b then offered evt w else w) (bridgeable-offer evt)
