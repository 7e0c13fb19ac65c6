-- ===== src/System/Traced.antt =====
-- The node between two steps: the tokens that stand behind its connections and their replays.
use turbocable_server.Prelude.{
  ℕ, ◌≡◌, sym, subst, Bool, true, false, Option, some, List, Text, Bytes, KeyEq, nat_eq, text_eq,
  arith, inl, inr,
}
use turbocable_server.Prelude.Dict.{get, get-remove, get-insert_cases}
use turbocable_server.Auth.{Jwt, JwtVerifier, is_allowed}
use turbocable_server.Channel.{Channels}
use turbocable_server.Protocol.{Serde}
use turbocable_server.Presence.{Services}
use turbocable_server.RateLimiter.{F64}
use turbocable_server.Handler.{AppState, Gateway, ReplayTask}
use turbocable_server.Handler.Tasks.{AllTasks, handle_client_frame-AllTasks}
use turbocable_server.Socket.{granted, authorize, leave, send_ping}
use turbocable_server.Socket.Tasks.{send_ping-tasks, clean_up-tasks}
use turbocable_server.System.{Conn, System, with_gateway, run_frame, run_end, after_ping, run_ping}

module _ (serde : Serde) (f : F64) (ch : Channels) (services : Services) (app : AppState)
    (jwt : Jwt) (Ip : Type 0) ⦃e : KeyEq Ip⦄ where
  abbrev Node : Type 0
  Node = System serde f ch services app jwt Ip

  -- `Asked now verifier token`: a connection was asked for at that time with that token, when the
  -- node had that verifier.
  module _ (Asked : ℕ → Option (JwtVerifier jwt) → Option Text → Type 0) where
    -- A connection was asked for with a token that granted these streams.
    abbrev pub IsGranted : List Text → Type 0
    IsGranted streams =
        (now : ℕ) × (verifier : Option (JwtVerifier jwt)) × (token : Option Text) × (user : Option
          Text)
        × Asked now verifier token
        × (authorize jwt now verifier token ≡ granted streams user)

    -- A replay that such a token allows.
    abbrev pub IsPermitted : ReplayTask (Serde.Value serde) → Type 0
    IsPermitted task =
        (streams : List Text) × IsGranted streams × (is_allowed streams task.task_stream ≡ true)

    -- Each replay that was started is permitted, and each running connection has streams that its
    -- token granted.
    pub record IsTraced (s : Node) : Type 0 where
      pub permitted : AllTasks serde ch services IsPermitted s.node.gateway.tasks
      pub traced :
          (c : ℕ) (conn : Conn serde f ch services app jwt Ip)
          → get c s.running ≡ some conn
          → IsGranted conn.ctx.allowed_streams

    pub run_frame-IsTraced :
        (bytes : Bytes) (c : ℕ) (conn : Conn serde f ch services app jwt Ip) (s : Node)
        → IsTraced s
        → get c s.running ≡ some conn
        → IsTraced (run_frame serde f ch services app jwt Ip bytes c conn s)
    unfolding run_frame
    run_frame-IsTraced bytes c conn s v here = record {
      permitted =
          handle_client_frame-AllTasks serde ch services IsPermitted app conn.ctx
            (λ identifier seq allowed. (conn.ctx.allowed_streams, v.traced c conn here, allowed))
            bytes conn.session s.node.gateway v.permitted;
      traced = λ d other found. elim (get-insert_cases c d _ other s.running found) [
        | inl new ↦
            subst (λ (o : Conn serde f ch services app jwt Ip). IsGranted o.ctx.allowed_streams) new
              (v.traced c conn here)
        | inr old ↦ v.traced d other old
      ];
    }

    pub run_end-IsTraced :
        (c : ℕ) (conn : Conn serde f ch services app jwt Ip) (s : Node)
        → IsTraced s
        → IsTraced (run_end serde f ch services app jwt Ip c conn s)
    unfolding run_end leave
    run_end-IsTraced c conn s v = record {
      permitted =
          subst (AllTasks serde ch services IsPermitted)
            (sym (
              clean_up-tasks serde ch services app conn.ctx conn.session.heartbeats s.node.gateway))
            v.permitted;
      traced = λ d other found. v.traced d other (ground (arith, get-remove c d s.running));
    }

    pub run_ping-IsTraced :
        (ts c : ℕ) (conn : Conn serde f ch services app jwt Ip) (s : Node)
        → IsTraced s
        → IsTraced (run_ping serde f ch services app jwt Ip ts c conn s)
    unfolding run_ping
    run_ping-IsTraced ts c conn s v =
        pinged (send_ping serde ch services app conn.ctx ts s.node.gateway)
          (send_ping-tasks serde ch services app conn.ctx ts s.node.gateway)
      where
        kept :
            (g : Gateway serde ch services)
            → g.tasks ≡ s.node.gateway.tasks
            → IsTraced (with_gateway serde f ch services app jwt Ip g s)
        kept g same = record {
          permitted = subst (AllTasks serde ch services IsPermitted) (sym same) v.permitted;
          traced = v.traced;
        }

        pinged :
            (sent : Bool × Gateway serde ch services)
            → sent.1.tasks ≡ s.node.gateway.tasks
            → IsTraced (after_ping serde f ch services app jwt Ip c conn sent s)
        pinged (true, g) same = kept g same
        pinged (false, g) same = run_end-IsTraced c conn _ (kept g same)
