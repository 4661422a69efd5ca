-- ===== src/Ringrtc/CallMessage.antt =====
-- pkg/signalmeow/ringrtc/callmessage.go. The protobuf message that comes in is a record of what its
-- getters return, and ParseError the error whose text it is, where `none` is the empty text.
use mautrix_signal.Common.{
  ℕ, ◌≡◌, sym, ◌∙◌, if◌then◌else◌, Bool, Option, none, some, List, [], ◌∷◌, ◌++◌, length, All,
  append-nil, append_assoc,
}
use mautrix_signal.Ringrtc.Protowire.{Bytes, Protowire}
use mautrix_signal.Ringrtc.Wire.{Error}
use mautrix_signal.Ringrtc.Signaling.{
  Offer, Answer, IceCandidate, ConnectionParameters, decode_offer, decode_answer,
  decode_ice_candidate, encode_offer, encode_ice_candidate,
}
use mautrix_signal.Ringrtc.Signaling.RoundTrip.{
  IsEncodableVersion, IsEncodableCandidate, decode-encode_offer_answer, decode-encode_ice_candidate,
}

pub data MessageType : Type 0 where
  no_message offer_message answer_message ice_message busy_message hangup_message opaque_message :
      MessageType

pub data CallType : Type 0 where
  no_type audio video : CallType

-- The parts of the protobuf CallMessage.
pub record OfferPart : Type 0 where
  pub id : ℕ
  pub is_video : Bool
  pub opaque : Bytes

pub record OpaquePart : Type 0 where
  pub id : ℕ
  pub opaque : Bytes

pub record HangupPart : Type 0 where
  pub id : ℕ
  pub hangup_type : ℕ
  pub device_id : ℕ

pub record UrgentPart : Type 0 where
  pub urgency : ℕ
  pub content : Bytes

pub record ProtoCallMessage : Type 0 where
  pub destination_device_id : ℕ
  pub offer : Option OfferPart
  pub answer : Option OpaquePart
  pub ice_update : List OpaquePart
  pub busy : Option ℕ
  pub hangup : Option HangupPart
  pub opaque : Option UrgentPart

pub record CallMessage : Type 0 where
  pub id : ℕ
  pub message_type : MessageType
  pub call_type : CallType
  pub destination_device_id : ℕ
  pub hangup_type : ℕ
  pub hangup_device_id : ℕ
  pub opaque_urgency : ℕ
  pub opaque_length : ℕ
  pub offer : Option Offer
  pub answer : Option Answer
  pub ice_candidate : Option IceCandidate
  pub parse_error : Option Error

abbrev pub base_message : ℕ → CallMessage
base_message device = record {
  id = 0;
  message_type = no_message;
  call_type = no_type;
  destination_device_id = device;
  hangup_type = 0;
  hangup_device_id = 0;
  opaque_urgency = 0;
  opaque_length = 0;
  offer = none;
  answer = none;
  ice_candidate = none;
  parse_error = none;
}

module _ (p : Protowire) where
  decode_offer_part : CallMessage → OfferPart → CallMessage
  decode_offer_part base part =
      let (decoded, e) = decode_offer p part.opaque in
      record base {
        id = part.id;
        message_type = offer_message;
        call_type = if part.is_video then video else audio;
        offer = some decoded;
        parse_error = e;
      }

  decode_answer_part : CallMessage → OpaquePart → CallMessage
  decode_answer_part base part =
      let (decoded, e) = decode_answer p part.opaque in
      record base {
        id = part.id;
        message_type = answer_message;
        answer = some decoded;
        parse_error = e;
      }

  decode_ice_part : CallMessage → OpaquePart → CallMessage
  decode_ice_part base part =
      let (decoded, e) = decode_ice_candidate p part.opaque in
      record base {
        id = part.id;
        message_type = ice_message;
        ice_candidate = some decoded;
        parse_error = e;
      }

  abbrev append_part :
      {A : Type 0} → (A → CallMessage) → Option A → List CallMessage → List CallMessage
  append_part f none out = out
  append_part f (some part) out = out ++ f part ∷ []

  append_ice : CallMessage → List OpaquePart → List CallMessage → List CallMessage
  unfolding decode_ice_part
  append_ice base [] out = out
  append_ice base (ice ∷ ices) out = append_ice base ices (out ++ decode_ice_part base ice ∷ [])

  pub decode_call_message : ProtoCallMessage → List CallMessage
  unfolding decode_offer_part decode_answer_part append_ice
  decode_call_message message =
      let base = base_message message.destination_device_id in
      let offers = append_part (decode_offer_part base) message.offer [] in
      let answers = append_part (decode_answer_part base) message.answer offers in
      let ices = append_ice base message.ice_update answers in
      let busy =
        append_part (λ id. record base { id = id; message_type = busy_message }) message.busy
          ices in
      let hangup =
        append_part
          (λ (part : HangupPart). record base {
            id = part.id;
            message_type = hangup_message;
            hangup_type = part.hangup_type;
            hangup_device_id = part.device_id;
          })
          message.hangup busy in
      append_part
        (λ (part : UrgentPart). record base {
          message_type = opaque_message;
          opaque_urgency = part.urgency;
          opaque_length = length part.content;
        })
        message.opaque hangup

  -- The ICE updates that carry candidates, each with its ID.
  abbrev pub ice_parts : List (ℕ × IceCandidate) → List OpaquePart
  ice_parts [] = []
  ice_parts ((id, c) ∷ cs) =
      record { id = id; opaque = encode_ice_candidate p (some c) } ∷ ice_parts cs

  abbrev pub ice_messages : CallMessage → List (ℕ × IceCandidate) → List CallMessage
  ice_messages base [] = []
  ice_messages base ((id, c) ∷ cs) =
      record base { id = id; message_type = ice_message; ice_candidate = some c }
      ∷ ice_messages base cs

  append-ice_parts :
      (device : ℕ) (cs : List (ℕ × IceCandidate)) (out : List CallMessage)
      → All (λ (c : ℕ × IceCandidate). IsEncodableCandidate p c.1) cs
      → append_ice (base_message device) (ice_parts cs) out
        ≡ out ++ ice_messages (base_message device) cs
  unfolding append_ice decode_ice_part
  append-ice_parts device [] out h = sym (append-nil out)
  append-ice_parts device ((id, c) ∷ cs) out (h, hs) =
      rw (append_ice, decode-encode_ice_candidate p c h)
        (append-ice_parts device cs _ hs
          ∙ append_assoc out
              (record (base_message device) {
                id = id;
                message_type = ice_message;
                ice_candidate = some c;
              }
                ∷ [])
              (ice_messages (base_message device) cs))

  -- A message with an encoded offer and encoded ICE candidates decodes to the offer first and then to
  -- every candidate in order, each in a result of its own and without a parse error.
  pub decode-offer_ice :
      (device id : ℕ) (is_video : Bool) (v4 : Option ConnectionParameters)
      (cs : List (ℕ × IceCandidate))
      → IsEncodableVersion p v4
      → All (λ (c : ℕ × IceCandidate). IsEncodableCandidate p c.1) cs
      → decode_call_message (record {
        destination_device_id = device;
        offer = some (record {
          id = id;
          is_video = is_video;
          opaque = encode_offer p (some (record { v4 = v4 }));
        });
        answer = none;
        ice_update = ice_parts cs;
        busy = none;
        hangup = none;
        opaque = none;
      })
        ≡ record (base_message device) {
          id = id;
          message_type = offer_message;
          call_type = if is_video then video else audio;
          offer = some (record { v4 = v4 });
        }
          ∷ ice_messages (base_message device) cs
  unfolding decode_call_message decode_offer_part
  decode-offer_ice device id is_video v4 cs h hs =
      let (e, _) = decode-encode_offer_answer p v4 h in rw e (append-ice_parts device cs _ hs)
