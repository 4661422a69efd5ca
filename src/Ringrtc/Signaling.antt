-- ===== src/Ringrtc/Signaling.antt =====
-- pkg/signalmeow/ringrtc/signaling.go: offers, answers and ICE candidates. A nil pointer is `none`, a
-- Go string the list of its bytes, a nil slice the empty one, as the code does not tell them apart.
-- A VideoCodecType is the number of its 32 bits.
pub mod RoundTrip
pub mod Fields
use mautrix_signal.Common.{
  ℕ, ◌+◌, ◌-◌, ◌%◌, ◌^◌, ltb, leb, ◌==◌, if◌then◌else◌, not, ◌&&◌, ◌||◌, Option, none, some, List,
  [], ◌∷◌, ◌++◌, length,
}
use mautrix_signal.Ringrtc.Protowire.{Bytes, varint_type, bytes_type, Protowire}
use mautrix_signal.Ringrtc.Wire.{
  Decoded, FieldConsumer, wrong_wire_type, consume_message, append_bytes_field, append_varint_field,
}

pub record VideoCodec : Type 0 where
  pub codec_type : ℕ

pub record ConnectionParameters : Type 0 where
  pub public_key : Bytes
  pub ice_ufrag : Bytes
  pub ice_pwd : Bytes
  pub receive_video_codecs : List VideoCodec
  pub max_bitrate_bps : ℕ
  pub encode_only_video_codecs : List VideoCodec
  pub decode_only_video_codecs : List VideoCodec

pub record Offer : Type 0 where
  pub v4 : Option ConnectionParameters

pub record Answer : Type 0 where
  pub v4 : Option ConnectionParameters

pub record SocketAddr : Type 0 where
  pub ip : Bytes
  pub port : ℕ

-- IceCandidateV3 holds only its SDP.
pub record IceCandidateV3 : Type 0 where
  pub sdp : Bytes

pub record IceCandidate : Type 0 where
  pub added_v3 : Option IceCandidateV3
  pub removed : Option SocketAddr

abbrev pub no_parameters : ConnectionParameters
no_parameters = record {
  public_key = [];
  ice_ufrag = [];
  ice_pwd = [];
  receive_video_codecs = [];
  max_bitrate_bps = 0;
  encode_only_video_codecs = [];
  decode_only_video_codecs = [];
}

abbrev pub no_address : SocketAddr
no_address = record { ip = []; port = 0 }

abbrev pub no_candidate : IceCandidate
no_candidate = record { added_v3 = none; removed = none }

-- The conversions between int32 and uint64: the sign is extended, and the upper half dropped.
unfoldable pub uint64_of_codec : VideoCodec → ℕ
uint64_of_codec codec =
    if ltb codec.codec_type (2 ^ 31) then codec.codec_type else codec.codec_type + (2 ^ 64 - 2 ^ 32)

pub codec_of_uint64 : ℕ → VideoCodec
codec_of_uint64 value = record { codec_type = value % 2 ^ 32 }

module _ (p : Protowire) where
  unfoldable pub encode_video_codec : VideoCodec → Bytes
  encode_video_codec codec = append_varint_field p [] 1 (uint64_of_codec codec)

  pub consume_video_codec : FieldConsumer VideoCodec
  consume_video_codec number typ bytes value out =
      if not (number == 1)
      then (out, none)
      else (if not (typ == varint_type)
          then (out, some (wrong_wire_type number typ varint_type))
          else (codec_of_uint64 value, none))

  pub decode_video_codec : Bytes → Decoded VideoCodec
  decode_video_codec bytes = consume_message p consume_video_codec bytes (record { codec_type = 0 })

  -- A loop over codecs of encodeConnectionParametersV4.
  unfoldable pub append_codecs : Bytes → ℕ → List VideoCodec → Bytes
  append_codecs out number [] = out
  append_codecs out number (codec ∷ codecs) =
      append_codecs (append_bytes_field p out number (encode_video_codec codec)) number codecs

  -- `len(value) > 0` and `value != ""`.
  abbrev pub append_present : Bytes → ℕ → Bytes → Bytes
  append_present out number value =
      if ltb 0 (length value) then append_bytes_field p out number value else out

  abbrev pub append_nonzero : Bytes → ℕ → ℕ → Bytes
  append_nonzero out number value =
      if not (value == 0) then append_varint_field p out number value else out

  unfoldable pub encode_parameters : ConnectionParameters → Bytes
  encode_parameters params =
      let key = append_present [] 1 params.public_key in
      let ufrag = append_present key 2 params.ice_ufrag in
      let pwd = append_present ufrag 3 params.ice_pwd in
      let receive = append_codecs pwd 4 params.receive_video_codecs in
      let bitrate = append_nonzero receive 5 params.max_bitrate_bps in
      let encode_only = append_codecs bitrate 6 params.encode_only_video_codecs in
      append_codecs encode_only 7 params.decode_only_video_codecs

  -- The inner switch of the cases 4, 6 and 7.
  abbrev add_codec : ℕ → VideoCodec → ConnectionParameters → ConnectionParameters
  add_codec number codec out =
      if number == 4
      then record out { receive_video_codecs = out.receive_video_codecs ++ codec ∷ [] }
      else (if number == 6
          then record out { encode_only_video_codecs = out.encode_only_video_codecs ++ codec ∷ [] }
          else record out { decode_only_video_codecs = out.decode_only_video_codecs ++ codec ∷ [] })

  abbrev pub with_codec :
      ℕ → Decoded VideoCodec → ConnectionParameters → Decoded ConnectionParameters
  with_codec number (codec, some e) out = (out, some e)
  with_codec number (codec, none) out = (add_codec number codec out, none)

  -- The closure of decodeConnectionParametersV4, for the numbers of the byte fields and for 5.
  pub consume_parameters : FieldConsumer ConnectionParameters
  consume_parameters number typ bytes value out =
      if (number == 1 || number == 2 || number == 3 || number == 4 || number == 6 || number == 7)
        && not (typ == bytes_type)
      then (out, some (wrong_wire_type number typ bytes_type))
      else (if number == 1
          then (record out { public_key = bytes }, none)
          else (if number == 2
              then (record out { ice_ufrag = bytes }, none)
              else (if number == 3
                  then (record out { ice_pwd = bytes }, none)
                  else (if number == 4 || number == 6 || number == 7
                      then with_codec number (decode_video_codec bytes) out
                      else (if number == 5
                          then (if not (typ == varint_type)
                              then (out, some (wrong_wire_type number typ varint_type))
                              else (record out { max_bitrate_bps = value }, none))
                          else (out, none))))))

  pub decode_parameters : Bytes → Decoded ConnectionParameters
  decode_parameters bytes = consume_message p consume_parameters bytes no_parameters

  abbrev of_parameters : Decoded ConnectionParameters → Decoded (Option ConnectionParameters)
  of_parameters (out, e) = (some out, e)

  pub consume_versioned : FieldConsumer (Option ConnectionParameters)
  consume_versioned number typ bytes value out =
      if not (number == 4)
      then (out, none)
      else (if not (typ == bytes_type)
          then (out, some (wrong_wire_type number typ bytes_type))
          else of_parameters (decode_parameters bytes))

  pub decode_versioned_parameters : Bytes → Decoded (Option ConnectionParameters)
  decode_versioned_parameters bytes = consume_message p consume_versioned bytes none

  abbrev pub encode_versioned : Option ConnectionParameters → Bytes
  encode_versioned none = []
  encode_versioned (some params) = append_bytes_field p [] 4 (encode_parameters params)

  -- A nil offer, an offer without parameters, an offer with them.
  pub encode_offer : Option Offer → Bytes
  encode_offer none = []
  encode_offer (some offer) = encode_versioned offer.v4

  pub encode_answer : Option Answer → Bytes
  encode_answer none = []
  encode_answer (some answer) = encode_versioned answer.v4

  pub decode_offer : Bytes → Decoded Offer
  decode_offer bytes = let (v4, e) = decode_versioned_parameters bytes in (record { v4 = v4 }, e)

  pub decode_answer : Bytes → Decoded Answer
  decode_answer bytes = let (v4, e) = decode_versioned_parameters bytes in (record { v4 = v4 }, e)

  pub consume_socket_addr : FieldConsumer SocketAddr
  consume_socket_addr number typ bytes value out =
      if number == 1
      then (if not (typ == bytes_type)
          then (out, some (wrong_wire_type number typ bytes_type))
          else (record out { ip = bytes }, none))
      else (if number == 2
          then (if not (typ == varint_type)
              then (out, some (wrong_wire_type number typ varint_type))
              else (record out { port = value % 2 ^ 32 }, none))
          else (out, none))

  pub decode_socket_addr : Bytes → Decoded SocketAddr
  decode_socket_addr bytes = consume_message p consume_socket_addr bytes no_address

  pub consume_candidate_v3 : FieldConsumer IceCandidateV3
  consume_candidate_v3 number typ bytes value out =
      if number == 1
      then (if not (typ == bytes_type)
          then (out, some (wrong_wire_type number typ bytes_type))
          else (record { sdp = bytes }, none))
      else (out, none)

  pub decode_candidate_v3 : Bytes → Decoded IceCandidateV3
  decode_candidate_v3 bytes = consume_message p consume_candidate_v3 bytes (record { sdp = [] })

  abbrev with_added : Decoded IceCandidateV3 → IceCandidate → Decoded IceCandidate
  with_added (added, e) out = (record out { added_v3 = some added }, e)

  abbrev with_removed : Decoded SocketAddr → IceCandidate → Decoded IceCandidate
  with_removed (removed, e) out = (record out { removed = some removed }, e)

  pub consume_candidate : FieldConsumer IceCandidate
  consume_candidate number typ bytes value out =
      if not (number == 2) && not (number == 3)
      then (out, none)
      else (if not (typ == bytes_type)
          then (out, some (wrong_wire_type number typ bytes_type))
          else (if number == 2
              then with_added (decode_candidate_v3 bytes) out
              else with_removed (decode_socket_addr bytes) out))

  pub decode_ice_candidate : Bytes → Decoded IceCandidate
  decode_ice_candidate bytes = consume_message p consume_candidate bytes no_candidate

  unfoldable pub encode_candidate_v3 : IceCandidateV3 → Bytes
  encode_candidate_v3 added = append_bytes_field p [] 1 added.sdp

  unfoldable pub encode_socket_addr : SocketAddr → Bytes
  encode_socket_addr removed =
      let with_ip = append_present [] 1 removed.ip in append_nonzero with_ip 2 removed.port

  abbrev pub append_added : Bytes → Option IceCandidateV3 → Bytes
  append_added out none = out
  append_added out (some added) = append_bytes_field p out 2 (encode_candidate_v3 added)

  abbrev pub append_removed : Bytes → Option SocketAddr → Bytes
  append_removed out none = out
  append_removed out (some removed) = append_bytes_field p out 3 (encode_socket_addr removed)

  pub encode_ice_candidate : Option IceCandidate → Bytes
  encode_ice_candidate none = []
  encode_ice_candidate (some candidate) =
      append_removed (append_added [] candidate.added_v3) candidate.removed
