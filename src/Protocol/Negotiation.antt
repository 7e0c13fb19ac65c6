-- ===== src/Protocol/Negotiation.antt =====
-- src/connection/handler.rs and src/protocol/mod.rs: negotiation of the sub-protocol.
use turbocable_server.Prelude.{
  ◌≡◌, refl, ◌⊎◌, inl, Bool, true, false, ◌||◌, Option, none, some, List, [], ◌∷◌, ◌++◌, Text, ◌==◌,
  eq_iff, text_eq, text_beq, if◌then◌else◌, arith,
}
use turbocable_server.Text.{split, trim}
use turbocable_server.Protocol.{
  json_codec, msgpack_codec, Serde, sub_protocol_json, sub_protocol_msgpack, codec_for_protocol,
  choose_protocol, negotiate_protocol, protocol_for, is_binary_protocol,
}

abbrev pub is_supported : Text → Bool
is_supported p = (p == sub_protocol_msgpack) || (p == sub_protocol_json)

abbrev pub NoneSupported : List Text → Type 0
NoneSupported [] = Unit
NoneSupported (p ∷ ps) = (is_supported (trim p) ≡ false) × NoneSupported ps

choose_first :
    (before after : List Text) (p : Text)
    → NoneSupported before
    → is_supported (trim p) ≡ true
    → choose_protocol (before ++ p ∷ after) ≡ trim p
unfolding choose_protocol
choose_first [] after p n y =
    ground (arith, eq_iff (trim p) sub_protocol_msgpack, eq_iff (trim p) sub_protocol_json)
choose_first (q ∷ before) after p n y = ground (arith, choose_first before after p n.1 y)

choose_default : (ps : List Text) → NoneSupported ps → choose_protocol ps ≡ sub_protocol_json
unfolding choose_protocol
choose_default [] n = refl
choose_default (p ∷ ps) n = ground (arith, choose_default ps n.1)

-- The first supported protocol that the header offers is chosen, white space around it aside.
pub negotiate_protocol_first :
    (header : Text) (before after : List Text) (p : Text)
    → split b',' header ≡ before ++ p ∷ after
    → NoneSupported before
    → is_supported (trim p) ≡ true
    → negotiate_protocol header ≡ trim p
unfolding negotiate_protocol
negotiate_protocol_first header before after p e n y = rw e (choose_first before after p n y)

-- With no supported protocol on offer, JSON is chosen.
pub negotiate_protocol_default :
    (header : Text)
    → NoneSupported (split b',' header)
    → negotiate_protocol header ≡ sub_protocol_json
unfolding negotiate_protocol
negotiate_protocol_default header n = choose_default (split b',' header) n

choose_is_supported :
    (ps : List Text)
    → (choose_protocol ps ≡ sub_protocol_json) ⊎ (choose_protocol ps ≡ sub_protocol_msgpack)
unfolding choose_protocol
choose_is_supported [] = inl refl
choose_is_supported (p ∷ ps) = ground (arith, choose_is_supported ps)

protocol_for_is_supported :
    (header : Option Text)
    → (protocol_for header ≡ sub_protocol_json) ⊎ (protocol_for header ≡ sub_protocol_msgpack)
unfolding protocol_for
protocol_for_is_supported none = inl refl
protocol_for_is_supported (some header) = choose_is_supported (split b',' header)

msgpack-ne-json : (sub_protocol_msgpack == sub_protocol_json) ≡ false
unfolding text_beq
msgpack-ne-json = refl

-- Whatever the client sends as a header, the negotiated protocol has a codec, so that the
-- `expect` of the handler never panics; and it is the MessagePack codec exactly where frames go
-- out as binary messages.
pub codec_for_negotiated :
    (serde : Serde) (header : Option Text)
    → codec_for_protocol serde (protocol_for header)
      ≡ some (
          if is_binary_protocol (protocol_for header)
          then msgpack_codec serde
          else json_codec serde)
unfolding codec_for_protocol is_binary_protocol
codec_for_negotiated serde header = ground (
  arith,
  protocol_for_is_supported header,
  eq_iff (protocol_for header) sub_protocol_json,
  eq_iff (protocol_for header) sub_protocol_msgpack,
  eq_iff sub_protocol_msgpack sub_protocol_json,
  msgpack-ne-json,
)
