-- ===== src/System/Replays.antt =====
-- The node under any interleaving: the replays that its connections start.
use turbocable_server.Prelude.{ℕ, ◌≡◌, Option, List, ◌∷◌, ◌++◌, Bool, Text, KeyEq, nat_eq, text_eq}
use turbocable_server.Config.{Config}
use turbocable_server.Auth.{Jwt, JwtVerifier}
use turbocable_server.Channel.{Channels}
use turbocable_server.Protocol.{Serde}
use turbocable_server.Presence.{Services}
use turbocable_server.RateLimiter.{F64, StreamRateLimiter}
use turbocable_server.Handler.{AppState}
use turbocable_server.Socket.{Handles}
use turbocable_server.System.{Move, opens, System, run, initial}
use turbocable_server.System.Traced.{IsTraced}

module _ (serde : Serde) (f : F64) (ch : Channels) (services : Services) (app : AppState)
    (jwt : Jwt) (Ip : Type 0) ⦃e : KeyEq Ip⦄ where
  abbrev Node : Type 0
  Node = System serde f ch services app jwt Ip

  module _ (Asked : ℕ → Option (JwtVerifier jwt) → Option Text → Type 0) where
    abbrev Traced : Node → Type 0
    Traced s = IsTraced serde f ch services app jwt Ip Asked s

    -- What a step asks for.
    abbrev Heard : Move Ip → Node → Type 0
    Heard (opens now ip header token handles) s = Asked now s.node.verifier token
    Heard _ s = Unit

  module _ (cfg : Config) (verifier : Option (JwtVerifier jwt) × Bool)
      (rate_limiter : Option (StreamRateLimiter f)) (world : Channels.World ch)
      (state : Services.State services) where
    -- The node after some moves.
    abbrev pub after : List (Move Ip) → Node
    after moves =
        run serde f ch services app jwt Ip moves
          (initial serde f ch services app jwt Ip cfg verifier rate_limiter world state)

    -- Among the moves is a request for a connection, at that time and with that token, that met
    -- the node with that verifier.
    abbrev pub IsAsked : List (Move Ip) → ℕ → Option (JwtVerifier jwt) → Option Text → Type 0
    IsAsked moves now v token =
        (earlier : List (Move Ip)) × (later : List (Move Ip)) × (ip : Ip) × (header : Option Text)
        × (handles : Handles) × (earlier ++ opens now ip header token handles ∷ later ≡ moves)
        × ((after earlier).node.verifier ≡ v)
