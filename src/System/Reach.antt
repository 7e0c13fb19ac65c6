-- ===== src/System/Reach.antt =====
-- The node under any interleaving of its steps.
use turbocable_server.Prelude.{
  Bool, ℕ, ◌+◌, ◌<◌, ◌≡◌, refl, Option, List, [], ◌∷◌, contains, KeyEq, nat_eq, text_eq, arith,
  length,
}
use turbocable_server.Prelude.Dict.{get}
use turbocable_server.Config.{Config}
use turbocable_server.Registry as registry
use turbocable_server.Limiter as limiter
use turbocable_server.Auth.{Jwt, JwtVerifier}
use turbocable_server.Limiter.{ConnectionLimiter, try_acquire, release, count_for}
use turbocable_server.Channel.{Channels}
use turbocable_server.Protocol.{Serde}
use turbocable_server.Presence.{Services}
use turbocable_server.RateLimiter.{F64, StreamRateLimiter}
use turbocable_server.Registry.{Registry, u64_mod, allocate_id, register, deregister}
use turbocable_server.Registry.Invariant.{new-Inv}
use turbocable_server.Handler.{AppState}
use turbocable_server.System.{Move, System, step, run, initial}
use turbocable_server.System.Held.{held}
use turbocable_server.System.Steps as steps

module _ (serde : Serde) (f : F64) (ch : Channels) (services : Services) (app : AppState)
    (jwt : Jwt) (Ip : Type 0) ⦃e : KeyEq Ip⦄ where
  abbrev Node : Type 0
  Node = System serde f ch services app jwt Ip

  abbrev pub Sound : Node → Type 0
  Sound s = steps.Sound serde f ch services app jwt Ip s

  abbrev next_of : Node → ℕ
  next_of s = s.node.gateway.registry.next_id

  initial-Sound :
      (cfg : Config) (verifier : Option (JwtVerifier jwt) × Bool)
      (rate_limiter : Option (StreamRateLimiter f)) (world : Channels.World ch)
      (state : Services.State services)
      → Sound (initial serde f ch services app jwt Ip cfg verifier rate_limiter world state)
        × (next_of (initial serde f ch services app jwt Ip cfg verifier rate_limiter world state)
            ≡ 1)
  unfolding initial registry.new limiter.new count_for held get contains
  initial-Sound cfg verifier rate_limiter world state = (
    record {
      well_formed = new-Inv;
      keyed = λ c conn h. cc;
      issued = λ c h. cc;
      owned = λ c h. cc;
      authorized = λ c conn h. cc;
      unique = tt;
      counted = λ ip. refl;
      within = λ ip. omega arith;
    },
    refl,
  )

  run-Sound :
      (moves : List (Move Ip)) (s : Node)
      → Sound s
      → next_of s + length moves < u64_mod
      → Sound (run serde f ch services app jwt Ip moves s)
  unfolding run
  run-Sound [] s v room = v
  run-Sound (move ∷ moves) s v room =
      let (sound, bound) = steps.step-Steps serde f ch services app jwt Ip move s v (omega arith) in
      run-Sound moves (step serde f ch services app jwt Ip move s) sound (omega arith)

  -- Every state that the node can reach by so many steps is sound.
  pub run-initial-Sound :
      (cfg : Config) (verifier : Option (JwtVerifier jwt) × Bool)
      (rate_limiter : Option (StreamRateLimiter f)) (world : Channels.World ch)
      (state : Services.State services) (moves : List (Move Ip))
      → length moves + 1 < u64_mod
      → Sound (
          run serde f ch services app jwt Ip moves
            (initial serde f ch services app jwt Ip cfg verifier rate_limiter world state))
  run-initial-Sound cfg verifier rate_limiter world state moves room =
      let (sound, one) = initial-Sound cfg verifier rate_limiter world state in
      run-Sound moves _ sound (omega (arith, one))
