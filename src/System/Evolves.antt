-- ===== src/System/Evolves.antt =====
-- src/connection/registry.rs under the steps of the node: what one step may do to the registry.
use turbocable_server.Prelude.{
  ℕ, ◌≡◌, inl, inr, refl, sym, subst, Bool, true, false, List, [], ◌∷◌, Text, Bytes, contains,
  contains-append, is_some, eq_iff, ◌==◌, nat_eq, text_eq, arith, Option-cases, Bool-cases,
}
use turbocable_server.Prelude.Dict.{get}
use turbocable_server.Channel.{Channels}
use turbocable_server.Protocol.{Serde}
use turbocable_server.Presence.{Services}
use turbocable_server.Registry.{
  Registry, subscribers, subscribe, unsubscribe, deregister, deregister_all, forget_stream,
  fanout_encoded,
}
use turbocable_server.Registry.Streams.{get-push_subscriber, connections-remove_subscriber}
use turbocable_server.Registry.Invariant.{Inv}
use turbocable_server.Registry.Departs.{deregister-Inv}
use turbocable_server.Registry.Deregister.{member-deregister, live-deregister, next_id-deregister}
use turbocable_server.Registry.Broadcast.{fanout_removes_evicted}
use turbocable_server.RateLimiter.{F64}
use turbocable_server.Nats.{NatsMessage, Node, extract_stream_name, admit, process_nats_message}
use turbocable_server.Nats.Fanout.{process_fans_out, process_limited}
use turbocable_server.Handler.{AppState, ConnContext, stream_key_from_identifier}
use turbocable_server.Handler.Access.{Changes, same, joins, leaves, Changes-Inv, member-unsubscribe}

-- The registry stays well formed, gives out no identifier and takes in no connection, and only
-- connections that act are added to streams.
pub record Evolves (acts : ℕ → Bool) (r r' : Registry) : Type 0 where
  pub well_formed : Inv r'
  pub next : r'.next_id ≡ r.next_id
  pub live : (c : ℕ) → is_some (get c r'.connections) ≡ true → is_some (get c r.connections) ≡ true
  pub others :
      (c : ℕ) (stream : Text)
      → acts c ≡ false
      → contains c (subscribers r' stream) ≡ true
      → contains c (subscribers r stream) ≡ true

abbrev pub nobody : ℕ → Bool
nobody c = false

pub Evolves-refl : (acts : ℕ → Bool) (r : Registry) → Inv r → Evolves acts r r
Evolves-refl acts r v = record {
  well_formed = v;
  next = refl;
  live = λ c h. h;
  others = λ c stream quiet h. h;
}

-- A subscription adds only the caller.
others-subscribe :
    (c d : ℕ) (s t : Text) (r : Registry)
    → (c == d) ≡ false
    → contains d (subscribers (subscribe c s r) t) ≡ true
    → contains d (subscribers r t) ≡ true
unfolding subscribe contains
others-subscribe c d s t r other h = elim (Option-cases (get c r.conn_streams)) [
  | inl e ↦ ground arith
  | inr (names, e) ↦ ground (
    arith,
    get-push_subscriber s t c r.streams,
    contains-append d (subscribers r t) (c ∷ []),
    eq_iff s t,
  )
]

tables-subscribe :
    (c : ℕ) (s : Text) (r : Registry)
    → ((subscribe c s r).connections ≡ r.connections) × ((subscribe c s r).next_id ≡ r.next_id)
unfolding subscribe
tables-subscribe c s r = ground arith

tables-unsubscribe :
    (c : ℕ) (s : Text) (r : Registry)
    → ((unsubscribe c s r).connections ≡ r.connections) × ((unsubscribe c s r).next_id ≡ r.next_id)
unfolding unsubscribe forget_stream
tables-unsubscribe c s r = ground (arith, connections-remove_subscriber s c r)

module _ (serde : Serde) (ch : Channels) (services : Services) (app : AppState)
    (ctx : ConnContext (Serde.Value serde)) where
  -- A frame acts for its own connection.
  pub Changes-Evolves :
      (r r' : Registry)
      → Changes serde ch services app ctx r r'
      → Inv r
      → Evolves (λ c. ctx.conn_id == c) r r'
  Changes-Evolves r r' change v = from change
    where
      kept : Inv r'
      kept = Changes-Inv serde ch services app ctx r r' change v

      from : Changes serde ch services app ctx r r' → Evolves (λ c. ctx.conn_id == c) r r'
      from (same _ _ e) = subst (Evolves (λ c. ctx.conn_id == c) r) (sym e) (Evolves-refl _ r v)
      from (joins identifier _ _ allowed e) = record {
        well_formed = kept;
        next = ground (
          arith,
          e,
          tables-subscribe ctx.conn_id (stream_key_from_identifier serde identifier) r,
        );
        live = λ c h. ground (
          arith,
          e,
          tables-subscribe ctx.conn_id (stream_key_from_identifier serde identifier) r,
        );
        others = λ c stream quiet h.
            others-subscribe ctx.conn_id c (stream_key_from_identifier serde identifier) stream r
              quiet (subst (λ q. contains c (subscribers q stream) ≡ true) e h);
      }
      from (leaves identifier _ _ e) = record {
        well_formed = kept;
        next = ground (
          arith,
          e,
          tables-unsubscribe ctx.conn_id (stream_key_from_identifier serde identifier) r,
        );
        live = λ c h. ground (
          arith,
          e,
          tables-unsubscribe ctx.conn_id (stream_key_from_identifier serde identifier) r,
        );
        others = λ c stream quiet h.
            member-unsubscribe ctx.conn_id c (stream_key_from_identifier serde identifier) stream r
              (subst (λ q. contains c (subscribers q stream) ≡ true) e h);
      }

pub deregister-Evolves : (c : ℕ) (r : Registry) → Inv r → Evolves nobody r (deregister c r)
unfolding contains
deregister-Evolves c r v = record {
  well_formed = deregister-Inv r v c;
  next = next_id-deregister r v c;
  live = λ d h. ground (arith, live-deregister r v c d);
  others = λ d stream quiet h. ground (arith, member-deregister r v c d stream);
}

next_id-deregister_all :
    (ids : List ℕ) (r : Registry) → Inv r → (deregister_all ids r).next_id ≡ r.next_id
unfolding deregister_all
next_id-deregister_all [] r v = refl
next_id-deregister_all (c ∷ ids) r v = ground (
  arith,
  next_id-deregister_all ids (deregister c r) (deregister-Inv r v c),
  next_id-deregister r v c,
)

-- A fan-out only takes connections out.
pub fanout-Evolves :
    (ch : Channels) (stream : Text) (json_payload binary_payload : Bytes) (r : Registry)
    (w : Channels.World ch)
    → Inv r
    → Evolves nobody r (fanout_encoded ch stream json_payload binary_payload (r, w)).1
unfolding fanout_encoded contains
fanout-Evolves ch stream json_payload binary_payload r w v =
    let (kept, gone) = fanout_removes_evicted ch r v w stream json_payload binary_payload in
    record {
      well_formed = kept;
      next = next_id-deregister_all _ r v;
      live = λ c h. ground (arith, (gone c).0);
      others = λ c t quiet h. ground (arith, (gone c).1 t);
    }

-- A message of JetStream only takes connections out.
pub process-Evolves :
    (serde : Serde) (f : F64) (ch : Channels) (now : ℕ) (msg : NatsMessage) (n : Node serde f ch)
    → Inv n.registry
    → Evolves nobody n.registry (process_nats_message serde f ch now msg n).registry
process-Evolves serde f ch now msg n v =
    let name = extract_stream_name msg.subject in
    elim (Bool-cases (admit serde f ch now name n).0) [
      | inl pass ↦
          subst (Evolves nobody n.registry)
            (sym (process_fans_out serde f ch now name msg n refl pass).0)
            (fanout-Evolves ch name _ _ n.registry n.world v)
      | inr limited ↦
          subst (Evolves nobody n.registry) (sym (process_limited serde f ch now msg n limited).0)
            (Evolves-refl nobody n.registry v)
    ]
