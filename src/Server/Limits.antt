-- ===== src/Server/Limits.antt =====
-- src/server.rs: leaving out a limiter that is disabled changes nothing for the messages.
use turbocable_server.Prelude.{
  ℕ, ◌≡◌, refl, ap, sym, ◌∙◌, Bool, true, false, Option, none, some, List, [], ◌∷◌, Text,
  if◌then◌else◌, text_eq, arith, Bool-cases, Option-cases, inl, inr, map,
}
use turbocable_server.Prelude.Dict.{Dict, get}
use turbocable_server.Config.{Config, parse_stream_rate_overrides}
use turbocable_server.Channel.{Channels}
use turbocable_server.Protocol.{Serde}
use turbocable_server.RateLimiter.{
  F64, StreamRateLimiter, is_disabled, any_positive, convert_override, limits_for, check,
}
use turbocable_server.RateLimiter as limits
use turbocable_server.Nats.{
  NatsMessage, Node, extract_stream_name, admit, fan_out, process_nats_message, process_all,
}
use turbocable_server.Server.{configured, build_rate_limiter}

module _ (f : F64) where
  open f use {F, of_u64, le, eq, i64_max, le_antisymm, of_u64_nonneg, i64_eq_max}

  -- No override of a list without a positive rate limits anything.
  get-any_positive :
      (stream : Text) (overrides : Dict Text (ℕ × ℕ)) (limits : F × F)
      → any_positive f (map (convert_override f) overrides) ≡ false
      → get stream (map (convert_override f) overrides) ≡ some limits
      → eq limits.0 (of_u64 0) ≡ true
  unfolding any_positive get
  get-any_positive stream [] limits h e = cc
  get-any_positive stream ((name, (n, b)) ∷ rest) limits h e = ground (
    arith,
    le_antisymm (of_u64 n) (of_u64 0),
    of_u64_nonneg n,
    get-any_positive stream rest limits,
  )

  disabled_limits :
      (cfg : Config) (stream : Text)
      → is_disabled f (configured f cfg) ≡ true
      → eq (limits_for f stream (configured f cfg)).0 (of_u64 0) ≡ true
  unfolding is_disabled limits.new
  disabled_limits cfg stream off = elim (Option-cases (get stream (configured f cfg).overrides)) [
    | inl e ↦ rw (e, limits_for) (ground arith)
    | inr (found, e) ↦
        rw (e, limits_for)
          (get-any_positive stream (parse_stream_rate_overrides cfg.stream_rate_overrides) found
            (ground arith) e)
  ]

  disabled_check :
      (cfg : Config) (now : ℕ) (stream : Text)
      → is_disabled f (configured f cfg) ≡ true
      → check f now stream (configured f cfg) ≡ ((true, i64_max), configured f cfg)
  unfolding check
  disabled_check cfg now stream off = rw (disabled_limits cfg stream off) refl

  module _ (serde : Serde) (ch : Channels) where
    abbrev pub limited_by : Option (StreamRateLimiter f) → Node serde f ch → Node serde f ch
    limited_by limiter n = record n { rate_limiter = limiter }

    -- Two nodes that differ at most in their limiter.
    abbrev pub Agree : Node serde f ch → Node serde f ch → Type 0
    Agree n m = limited_by none n ≡ limited_by none m

    module _ (rl : StreamRateLimiter f)
        (inert : (now : ℕ) (stream : Text) → check f now stream rl ≡ ((true, i64_max), rl)) where
      admit_inert :
          (now : ℕ) (stream : Text) (n : Node serde f ch)
          → admit serde f ch now stream (limited_by (some rl) n) ≡ (true, limited_by (some rl) n)
      unfolding admit
      admit_inert now stream n = rw (inert now stream, i64_eq_max) refl

      process_inert :
          (now : ℕ) (msg : NatsMessage) (n : Node serde f ch)
          → process_nats_message serde f ch now msg (limited_by (some rl) n)
            ≡ limited_by (some rl) (process_nats_message serde f ch now msg (limited_by none n))
      unfolding process_nats_message fan_out admit
      process_inert now msg n =
          ap
            (λ (admitted : Bool × Node serde f ch).
              if admitted.0 then fan_out serde f ch msg admitted.1 else admitted.1)
            (admit_inert now (extract_stream_name msg.subject) n)

      process_none :
          (now : ℕ) (msg : NatsMessage) (n : Node serde f ch)
          → limited_by none (process_nats_message serde f ch now msg (limited_by none n))
            ≡ process_nats_message serde f ch now msg (limited_by none n)
      unfolding process_nats_message fan_out admit
      process_none now msg n = refl

      process_all_inert :
          (arrivals : List (ℕ × NatsMessage)) (n : Node serde f ch)
          → process_all serde f ch arrivals (limited_by (some rl) n)
            ≡ limited_by (some rl) (process_all serde f ch arrivals (limited_by none n))
      unfolding process_all
      process_all_inert [] n = refl
      process_all_inert ((now, msg) ∷ rest) n = rw (process_inert now msg n) (
          process_all_inert rest (process_nats_message serde f ch now msg (limited_by none n))
          ∙ ap (λ m. limited_by (some rl) (process_all serde f ch rest m)) (process_none now msg n))

    -- Whatever the options say, the node of `build_rate_limiter`, which drops a limiter that is
    -- disabled, and a node that keeps the configured limiter treat any messages at any times alike:
    -- the same registry, channels, counters and gauges come out.
    pub build_rate_limiter_agrees :
        (cfg : Config) (arrivals : List (ℕ × NatsMessage)) (n : Node serde f ch)
        → Agree
            (process_all serde f ch arrivals (limited_by (build_rate_limiter f cfg) n))
            (process_all serde f ch arrivals (limited_by (some (configured f cfg)) n))
    unfolding build_rate_limiter
    build_rate_limiter_agrees cfg arrivals n =
        elim (Bool-cases (is_disabled f (configured f cfg))) [
          | inl off ↦ rw off (
              ap (limited_by none) (
                sym (
                  process_all_inert (configured f cfg)
                    (λ now stream. disabled_check cfg now stream off) arrivals n)))
          | inr on ↦ rw on refl
        ]
