-- ===== src/Tests/Fixtures.antt =====
-- Concrete values of the interfaces, and the data that the tests share.
use turbocable_server.Prelude.{
  ℕ, ◌+◌, true, Option, none, some, List, [], ◌∷◌, ◌++◌, Text, Bytes, codes, nat_beq, if◌then◌else◌,
}
use turbocable_server.Auth.{Jwt, claims}
use turbocable_server.Protocol.{
  Serde, Codec, ServerMessage, welcome, ping, confirm_subscription, reject_subscription, disconnect,
  broadcast, ClientFrame, hello, command, subscribe, unsubscribe, message, hello_tag,
}
use turbocable_server.Presence.{Services}
use turbocable_server.Outbound.{Sink, Message}

abbrev pub room : Text
room = codes "room"

-- A frame is a letter and the name it is about.
abbrev encode_plain : ServerMessage Bytes → Option Bytes
encode_plain welcome = some (b'W' ∷ [])
encode_plain (ping ts) = some (b'P' ∷ ts ∷ [])
encode_plain (confirm_subscription identifier) = some (b'C' ∷ identifier)
encode_plain (reject_subscription identifier) = some (b'R' ∷ identifier)
encode_plain (disconnect reason _) = some (b'D' ∷ reason)
encode_plain (broadcast name value _ _) = some (b'B' ∷ name ++ value)

abbrev greeting : ClientFrame
greeting =
    hello
      (record { hello_type = hello_tag; last_seq = some 7; capabilities = codes "replay_v1" ∷ [] })

abbrev decode_plain : Bytes → Option ClientFrame
decode_plain [] = none
decode_plain (letter ∷ identifier) =
    if nat_beq letter b'h'
    then some greeting
    else if nat_beq letter b's'
    then some (command (subscribe identifier))
    else if nat_beq letter b'u'
    then some (command (unsubscribe identifier))
    else if nat_beq letter b'm'
    then some (command (message identifier identifier))
    else none

abbrev pub plain_codec : Codec Bytes
plain_codec = record { decode = decode_plain; encode = encode_plain }

abbrev pub plain : Serde
plain = record {
  Value = Bytes;
  null = [];
  frame_from_json = decode_plain;
  message_to_json = encode_plain;
  frame_from_msgpack = decode_plain;
  message_to_msgpack = encode_plain;
  value_from_json = some;
  value_from_msgpack = some;
  stream_field = λ identifier. none;
}

abbrev key_of : Bytes → Option Bytes
key_of [] = none
key_of (b ∷ pem) = some (b ∷ pem)

abbrev pub trusting : Jwt
trusting = record {
  DecodingKey = Bytes;
  from_rsa_pem = key_of;
  decode = λ now token key.
      claims (record { sub = token; allowed_streams = room ∷ []; exp = 0; iat = 0 });
}

abbrev pub counting : Services
counting = record {
  State = ℕ;
  kv_put = λ key value n. n + 1;
  kv_delete = λ key n. n + 1;
  js_publish = λ subject payload n. n + 1;
}

abbrev pub printer : Sink
printer = record {
  Socket = List Message;
  send = λ msg log. (true, log ++ msg ∷ []);
  close = λ log. log;
}
