-- ===== src/Protocol.antt =====
-- src/protocol: the frames, the codecs and the choice of a codec. The text of a frame is `serde`'s,
-- and enters through the interface `Serde`.
pub mod Negotiation
use turbocable_server.Prelude.{
  ℕ, Bool, true, false, ◌||◌, Option, none, some, List, [], ◌∷◌, Text, Bytes, codes, contains, ◌==◌,
  text_eq, if◌then◌else◌,
}
use turbocable_server.Text.{split, trim}

pub data HelloTag : Type 0 where
  hello_tag : HelloTag

pub record HelloCommand : Type 0 where
  pub hello_type : HelloTag
  pub last_seq : Option ℕ
  pub capabilities : List Text

-- `capabilities.iter().any(|c| c == "replay_v1")`
unfoldable pub is_replay_capable : HelloCommand → Bool
is_replay_capable h = contains (codes "replay_v1") h.capabilities

pub data ClientCommand : Type 0 where
  subscribe unsubscribe : Text → ClientCommand
  message : Text → Text → ClientCommand

pub data ClientFrame : Type 0 where
  hello : HelloCommand → ClientFrame
  command : ClientCommand → ClientFrame

-- `Value` is `serde_json::Value`.
pub data ServerMessage (Value : Type 0) : Type 0 where
  welcome : ServerMessage Value
  ping : ℕ → ServerMessage Value
  confirm_subscription reject_subscription : Text → ServerMessage Value
  disconnect : Text → Option Bool → ServerMessage Value
  broadcast : Text → Value → Option Bool → Option ℕ → ServerMessage Value

-- The trait `Codec`; the text of an error is only logged.
pub record Codec (Value : Type 0) : Type 0 where
  pub decode : Bytes → Option ClientFrame
  pub encode : ServerMessage Value → Option Bytes

-- What the gateway calls of `serde_json` and `rmp_serde`.
pub record Serde : Type 1 where
  pub Value : Type 0
  pub null : Value
  -- `from_slice` of a client's frame, and `to_vec` and `to_vec_named` of a message.
  pub frame_from_json : Bytes → Option ClientFrame
  pub message_to_json : ServerMessage Value → Option Bytes
  pub frame_from_msgpack : Bytes → Option ClientFrame
  pub message_to_msgpack : ServerMessage Value → Option Bytes
  pub value_from_json : Bytes → Option Value
  pub value_from_msgpack : Bytes → Option Value
  -- `from_str(identifier)` and then `.get("stream")` as a string.
  pub stream_field : Text → Option Text

-- The two implementations of the trait.
abbrev pub json_codec : (serde : Serde) → Codec (Serde.Value serde)
json_codec serde = record { decode = serde.frame_from_json; encode = serde.message_to_json }

abbrev pub msgpack_codec : (serde : Serde) → Codec (Serde.Value serde)
msgpack_codec serde = record {
  decode = serde.frame_from_msgpack;
  encode = serde.message_to_msgpack;
}

abbrev pub sub_protocol_json : Text
sub_protocol_json = codes "actioncable-v1-json"

abbrev pub sub_protocol_msgpack : Text
sub_protocol_msgpack = codes "turbocable-v1-msgpack"

unfoldable pub codec_for_protocol : (serde : Serde) → Text → Option (Codec (Serde.Value serde))
codec_for_protocol serde protocol =
    if protocol == sub_protocol_json
    then some (json_codec serde)
    else if protocol == sub_protocol_msgpack
    then some (msgpack_codec serde)
    else none

-- The loop of `negotiate_protocol`, over the pieces of the header.
unfoldable pub choose_protocol : List Text → Text
choose_protocol [] = sub_protocol_json
choose_protocol (piece ∷ pieces) =
    let rest = choose_protocol pieces in
    if trim piece == sub_protocol_msgpack
    then sub_protocol_msgpack
    else if trim piece == sub_protocol_json
    then sub_protocol_json
    else rest

unfoldable pub negotiate_protocol : Text → Text
unfolding choose_protocol
negotiate_protocol header = choose_protocol (split b',' header)

-- `ws_upgrade`: with no header the protocol is JSON.
unfoldable pub protocol_for : Option Text → Text
unfolding negotiate_protocol
protocol_for none = sub_protocol_json
protocol_for (some header) = negotiate_protocol header

-- `handle_socket`: whether frames go out as binary messages.
unfoldable pub is_binary_protocol : Text → Bool
is_binary_protocol protocol = protocol == sub_protocol_msgpack
