-- ===== src/Ringrtc/Signaling/RoundTrip.antt =====
-- Payloads of signaling.go that are decoded after being encoded.
use mautrix_signal.Common.{
  ℕ, ◌+◌, ◌-◌, ◌%◌, ◌^◌, ◌<◌, ◌≡◌, refl, ap, sym, subst, ltb, ◌==◌, if_cases, if◌then◌else◌, not,
  false, Option, none, some, List, [], ◌∷◌, ◌++◌, length, All, append_assoc, append-nil, arith,
}
use mautrix_signal.Ringrtc.Protowire.{
  Bytes, varint_type, bytes_type, FitsSlice, IsFieldNumber, Protowire,
}
use mautrix_signal.Ringrtc.Wire.{
  FieldConsumer, append_bytes_field, Reads, Reads-append_bytes_field, Reads-append_varint_field,
  Reads-all, length-append_varint_field,
}
use mautrix_signal.Ringrtc.Signaling.{
  VideoCodec, ConnectionParameters, IceCandidate, IceCandidateV3, SocketAddr, no_parameters,
  no_address, no_candidate, uint64_of_codec, codec_of_uint64, encode_video_codec,
  consume_video_codec, decode_video_codec, append_codecs, append_present, append_nonzero,
  encode_parameters, consume_parameters, decode_parameters, with_codec, consume_versioned,
  decode_versioned_parameters, encode_versioned, encode_offer, encode_answer, decode_offer,
  decode_answer, consume_socket_addr, decode_socket_addr, consume_candidate_v3, decode_candidate_v3,
  consume_candidate, decode_ice_candidate, encode_candidate_v3, encode_socket_addr, append_added,
  append_removed, encode_ice_candidate,
}

empty_of : (v : Bytes) → ltb 0 (length v) ≡ false → v ≡ []
empty_of [] h = refl
empty_of (b ∷ bs) h = absurd (ground arith)

zero_of : (v : ℕ) → not (v == 0) ≡ false → v ≡ 0
zero_of v h = ground arith

-- The lower half of the sign extension.
drop_sign :
    (t : ℕ) → t < 2 ^ 32 → (if ltb t (2 ^ 31) then t else t + (2 ^ 64 - 2 ^ 32)) % 2 ^ 32 ≡ t
drop_sign t h =
    if_cases (λ u. u % 2 ^ 32 ≡ t) (ltb t (2 ^ 31)) (λ q. omega arith) (λ q. omega arith)

codec_of-uint64_of :
    (c : VideoCodec) → c.codec_type < 2 ^ 32 → codec_of_uint64 (uint64_of_codec c) ≡ c
unfolding codec_of_uint64 uint64_of_codec
codec_of-uint64_of c h = ap (λ t. record { codec_type = t }) (drop_sign c.codec_type h)

uint64_of_codec_bound : (c : VideoCodec) → c.codec_type < 2 ^ 32 → uint64_of_codec c < 2 ^ 64
unfolding uint64_of_codec
uint64_of_codec_bound c h =
    if_cases (λ u. u < 2 ^ 64) (ltb c.codec_type (2 ^ 31)) (λ q. omega arith) (λ q. omega arith)

module _ (p : Protowire) {S : Type 0} (consume : FieldConsumer S) (s : S) where
  -- A byte field that is left out when it is empty.
  Reads-present :
      (out : Bytes) (number : ℕ) (v : Bytes) (f : Bytes → S)
      → Reads p consume out s (f [])
      → IsFieldNumber number
      → FitsSlice v
      → consume number bytes_type v 0 (f []) ≡ (f v, none)
      → Reads p consume (append_present p out number v) s (f v)
  Reads-present out number v f h hn hv e =
      if_cases (λ b. Reads p consume b s (f v)) (ltb 0 (length v))
        (λ _. Reads-append_bytes_field p consume out number v s (f []) (f v) h hn hv e)
        (λ q. subst (λ w. Reads p consume out s (f w)) (sym (empty_of v q)) h)

  Reads-nonzero :
      (out : Bytes) (number v : ℕ) (f : ℕ → S)
      → Reads p consume out s (f 0)
      → IsFieldNumber number
      → v < 2 ^ 64
      → consume number varint_type [] v (f 0) ≡ (f v, none)
      → Reads p consume (append_nonzero p out number v) s (f v)
  Reads-nonzero out number v f h hn hv e =
      if_cases (λ b. Reads p consume b s (f v)) (not (v == 0))
        (λ _. Reads-append_varint_field p consume out number v s (f 0) (f v) h hn hv e)
        (λ q. subst (λ w. Reads p consume out s (f w)) (sym (zero_of v q)) h)

module _ (p : Protowire) where
  abbrev pub IsCodec : VideoCodec → Type 0
  IsCodec c = c.codec_type < 2 ^ 32

  decode-encode_video_codec :
      (c : VideoCodec) → IsCodec c → decode_video_codec p (encode_video_codec p c) ≡ (c, none)
  unfolding decode_video_codec encode_video_codec consume_video_codec
  decode-encode_video_codec c h =
      Reads-all p (consume_video_codec p) (encode_video_codec p c) (record { codec_type = 0 }) c
        (Reads-append_varint_field p (consume_video_codec p) [] 1 (uint64_of_codec c)
          (record { codec_type = 0 }) (record { codec_type = 0 }) c (λ rest. refl)
          (omega arith, omega arith) (uint64_of_codec_bound c h)
          (ap (λ d. (d, none)) (codec_of-uint64_of c h)))

  encode_video_codec-FitsSlice : (c : VideoCodec) → IsCodec c → FitsSlice (encode_video_codec p c)
  unfolding encode_video_codec
  encode_video_codec-FitsSlice c h =
      let short =
        length-append_varint_field p 1 (uint64_of_codec c) (omega arith, omega arith)
          (uint64_of_codec_bound c h) in
      omega arith

  -- A loop over codecs, for a consumer that adds each codec at the end of a list.
  Reads-append_codecs :
      {S : Type 0} (consume : FieldConsumer S) (s : S) (out : Bytes) (number : ℕ)
      (codecs past : List VideoCodec) (f : List VideoCodec → S)
      → IsFieldNumber number
      → All IsCodec codecs
      → Reads p consume out s (f past)
      → ((before : List VideoCodec) (c : VideoCodec)
          → IsCodec c
          → consume number bytes_type (encode_video_codec p c) 0 (f before)
            ≡ (f (before ++ c ∷ []), none))
      → Reads p consume (append_codecs p out number codecs) s (f (past ++ codecs))
  unfolding append_codecs
  Reads-append_codecs consume s out number [] past f hn hc h e =
      subst (λ l. Reads p consume out s (f l)) (sym (append-nil past)) h
  Reads-append_codecs consume s out number (c ∷ cs) past f hn (hc, hcs) h e =
      subst
        (λ l.
          Reads p consume
            (append_codecs p (append_bytes_field p out number (encode_video_codec p c)) number cs) s
            (f l))
        (append_assoc past (c ∷ []) cs)
        (Reads-append_codecs consume s (append_bytes_field p out number (encode_video_codec p c))
          number cs (past ++ c ∷ []) f hn hcs
          (Reads-append_bytes_field p consume out number (encode_video_codec p c) s (f past)
            (f (past ++ c ∷ [])) h hn (encode_video_codec-FitsSlice c hc) (e past c hc))
          e)

  -- What a Go value of the type is, with an encoding that fits a slice.
  abbrev pub IsEncodable : ConnectionParameters → Type 0
  IsEncodable params =
      FitsSlice params.public_key
      × FitsSlice params.ice_ufrag
      × FitsSlice params.ice_pwd
      × All IsCodec params.receive_video_codecs
      × (params.max_bitrate_bps < 2 ^ 64)
      × All IsCodec params.encode_only_video_codecs
      × All IsCodec params.decode_only_video_codecs
      × FitsSlice (encode_parameters p params)

  consume_codec :
      (number : ℕ) (c : VideoCodec) (out : ConnectionParameters)
      → IsCodec c
      → with_codec p number (decode_video_codec p (encode_video_codec p c)) out
        ≡ with_codec p number (c, none) out
  consume_codec number c out h = ap (λ d. with_codec p number d out) (decode-encode_video_codec c h)

  abbrev pub IsEncodableVersion : Option ConnectionParameters → Type 0
  IsEncodableVersion none = Unit {0}
  IsEncodableVersion (some params) = IsEncodable params

  abbrev made :
      Bytes
      → Bytes
      → Bytes
      → List VideoCodec
      → ℕ
      → List VideoCodec
      → List VideoCodec
      → ConnectionParameters
  made key ufrag pwd receive bitrate encode_only decode_only = record {
    public_key = key;
    ice_ufrag = ufrag;
    ice_pwd = pwd;
    receive_video_codecs = receive;
    max_bitrate_bps = bitrate;
    encode_only_video_codecs = encode_only;
    decode_only_video_codecs = decode_only;
  }

  Reads-encode_parameters :
      (params : ConnectionParameters)
      → IsEncodable params
      → Reads p (consume_parameters p) (encode_parameters p params) no_parameters params
  unfolding encode_parameters consume_parameters
  Reads-encode_parameters params (hk, hu, hp, hr, hb, he, hd, fits) =
      let consume = consume_parameters p in
      let s = no_parameters in
      let k = params.public_key in
      let u = params.ice_ufrag in
      let w = params.ice_pwd in
      let r = params.receive_video_codecs in
      let b = params.max_bitrate_bps in
      let e = params.encode_only_video_codecs in
      let n1 : IsFieldNumber 1 = (omega arith, omega arith) in
      let n2 : IsFieldNumber 2 = (omega arith, omega arith) in
      let n3 : IsFieldNumber 3 = (omega arith, omega arith) in
      let n4 : IsFieldNumber 4 = (omega arith, omega arith) in
      let n5 : IsFieldNumber 5 = (omega arith, omega arith) in
      let n6 : IsFieldNumber 6 = (omega arith, omega arith) in
      let n7 : IsFieldNumber 7 = (omega arith, omega arith) in
      let key =
        Reads-present p consume s _ 1 k (λ v. made v [] [] [] 0 [] []) (λ rest. refl) n1 hk refl in
      let ufrag = Reads-present p consume s _ 2 u (λ v. made k v [] [] 0 [] []) key n2 hu refl in
      let pwd = Reads-present p consume s _ 3 w (λ v. made k u v [] 0 [] []) ufrag n3 hp refl in
      let receive =
        Reads-append_codecs consume s _ 4 r [] (λ l. made k u w l 0 [] []) n4 hr pwd
          (λ before c h. consume_codec 4 c (made k u w before 0 [] []) h) in
      let bitrate =
        Reads-nonzero p consume s _ 5 b (λ v. made k u w r v [] []) receive n5 hb refl in
      let encode_only =
        Reads-append_codecs consume s _ 6 e [] (λ l. made k u w r b l []) n6 he bitrate
          (λ before c h. consume_codec 6 c (made k u w r b before []) h) in
      Reads-append_codecs consume s _ 7 params.decode_only_video_codecs [] (λ l. made k u w r b e l)
        n7 hd encode_only (λ before c h. consume_codec 7 c (made k u w r b e before) h)

  pub Reads-encode_versioned :
      (v4 : Option ConnectionParameters)
      → IsEncodableVersion v4
      → Reads p (consume_versioned p) (encode_versioned p v4) none v4
  unfolding consume_versioned decode_parameters
  Reads-encode_versioned none h = λ rest. refl
  Reads-encode_versioned (some params) h =
      let (_, _, _, _, _, _, _, fits) = h in
      let inner =
        Reads-all p (consume_parameters p) (encode_parameters p params) no_parameters params
          (Reads-encode_parameters params h) in
      Reads-append_bytes_field p (consume_versioned p) [] 4 (encode_parameters p params) none none
        (some params) (λ rest. refl) (omega arith, omega arith) fits (rw inner refl)

  decode-encode_versioned :
      (v4 : Option ConnectionParameters)
      → IsEncodableVersion v4
      → decode_versioned_parameters p (encode_versioned p v4) ≡ (v4, none)
  unfolding decode_versioned_parameters
  decode-encode_versioned v4 h =
      Reads-all p (consume_versioned p) (encode_versioned p v4) none v4
        (Reads-encode_versioned v4 h)

  -- A decoder gives back the offer or answer that the encoder wrote, with or without parameters.
  pub decode-encode_offer_answer :
      (v4 : Option ConnectionParameters)
      → IsEncodableVersion v4
      → (decode_offer p (encode_offer p (some (record { v4 = v4 }))) ≡ (record { v4 = v4 }, none))
        × (decode_answer p (encode_answer p (some (record { v4 = v4 })))
            ≡ (record { v4 = v4 }, none))
  unfolding decode_offer encode_offer decode_answer encode_answer
  decode-encode_offer_answer v4 h = rw (decode-encode_versioned v4 h) (refl, refl)

  abbrev IsEncodableAddress : Option SocketAddr → Type 0
  IsEncodableAddress none = Unit {0}
  IsEncodableAddress (some a) =
      FitsSlice a.ip × (a.port < 2 ^ 32) × FitsSlice (encode_socket_addr p a)

  abbrev IsEncodableAdded : Option IceCandidateV3 → Type 0
  IsEncodableAdded none = Unit {0}
  IsEncodableAdded (some a) = FitsSlice a.sdp × FitsSlice (encode_candidate_v3 p a)

  decode-encode_candidate_v3 :
      (a : IceCandidateV3)
      → FitsSlice a.sdp
      → decode_candidate_v3 p (encode_candidate_v3 p a) ≡ (a, none)
  unfolding decode_candidate_v3 encode_candidate_v3 consume_candidate_v3
  decode-encode_candidate_v3 a h =
      Reads-all p (consume_candidate_v3 p) (encode_candidate_v3 p a) (record { sdp = [] }) a
        (Reads-append_bytes_field p (consume_candidate_v3 p) [] 1 a.sdp (record { sdp = [] })
          (record { sdp = [] }) a (λ rest. refl) (omega arith, omega arith) h refl)

  decode-encode_socket_addr :
      (a : SocketAddr)
      → FitsSlice a.ip
      → a.port < 2 ^ 32
      → decode_socket_addr p (encode_socket_addr p a) ≡ (a, none)
  unfolding decode_socket_addr encode_socket_addr consume_socket_addr
  decode-encode_socket_addr a hi hp =
      let consume = consume_socket_addr p in
      let ip =
        Reads-present p consume no_address [] 1 a.ip (λ v. record { ip = v; port = 0 })
          (λ rest. refl) (omega arith, omega arith) hi refl in
      Reads-all p consume (encode_socket_addr p a) no_address a (
        Reads-nonzero p consume no_address _ 2 a.port (λ v. record { ip = a.ip; port = v }) ip
          (omega arith, omega arith) (omega arith)
          (ap (λ v. (record { ip = a.ip; port = v }, none)) (omega arith)))

  Reads-append_added :
      (added : Option IceCandidateV3)
      → IsEncodableAdded added
      → Reads p
          (consume_candidate p)
          (append_added p [] added)
          no_candidate
          (record { added_v3 = added; removed = none })
  unfolding consume_candidate
  Reads-append_added none h = λ rest. refl
  Reads-append_added (some a) (h, fits) =
      Reads-append_bytes_field p (consume_candidate p) [] 2 (encode_candidate_v3 p a) no_candidate
        no_candidate (record { added_v3 = some a; removed = none }) (λ rest. refl)
        (omega arith, omega arith) fits (rw (decode-encode_candidate_v3 a h) refl)

  Reads-append_removed :
      (out : Bytes) (added : Option IceCandidateV3) (removed : Option SocketAddr)
      → IsEncodableAddress removed
      → Reads p (consume_candidate p) out no_candidate (record { added_v3 = added; removed = none })
      → Reads p
          (consume_candidate p)
          (append_removed p out removed)
          no_candidate
          (record { added_v3 = added; removed = removed })
  unfolding consume_candidate
  Reads-append_removed out added none h k = k
  Reads-append_removed out added (some a) (hi, hp, fits) k =
      Reads-append_bytes_field p (consume_candidate p) out 3 (encode_socket_addr p a) no_candidate
        (record { added_v3 = added; removed = none })
        (record { added_v3 = added; removed = some a }) k (omega arith, omega arith) fits
        (rw (decode-encode_socket_addr a hi hp) refl)

  abbrev pub IsEncodableCandidate : IceCandidate → Type 0
  IsEncodableCandidate c = IsEncodableAdded c.added_v3 × IsEncodableAddress c.removed

  -- DecodeIceCandidate gives back the candidate that EncodeIceCandidate wrote.
  pub decode-encode_ice_candidate :
      (c : IceCandidate)
      → IsEncodableCandidate c
      → decode_ice_candidate p (encode_ice_candidate p (some c)) ≡ (c, none)
  unfolding decode_ice_candidate encode_ice_candidate
  decode-encode_ice_candidate c (ha, hr) =
      Reads-all p (consume_candidate p) (encode_ice_candidate p (some c)) no_candidate c (
        Reads-append_removed (append_added p [] c.added_v3) c.added_v3 c.removed hr
          (Reads-append_added c.added_v3 ha))
