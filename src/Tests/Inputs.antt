-- ===== src/Tests/Inputs.antt =====
-- Tokens, keys, limits and the inputs that are parsed.
use turbocable_server.Prelude.{
  ℕ, ◌+◌, ◌*◌, ◌≡◌, ◌≤◌, ◌↔◌, refl, true, List, [], ◌∷◌, Text, codes, contains, text_eq, nat_eq,
  arith,
}
use turbocable_server.Prelude.Dict.{get}
use turbocable_server.Text.{trim, parse_u64}
use turbocable_server.Auth.{
  is_allowed, Entry, entry, watch_error, watch_loop, current_pem, JwtVerifier,
}
use turbocable_server.Auth.Streams.{AnyMatches, is_allowed_iff}
use turbocable_server.Auth.Rotation.{IsInStep, last_valid, watch_loop-last_valid}
use turbocable_server.Limiter as limiter
use turbocable_server.Limiter.Held.{
  opens, closes, Node, node_run, count, IsCounted, node_run-IsCounted,
}
use turbocable_server.Config.{parse_stream_rate_overrides}
use turbocable_server.Config.Overrides.{
  Item, render_item, render_items, IsWritten, set_all, parse-render_items,
}
use turbocable_server.RateLimiter.{BucketState, StreamRateLimiter, check}
use turbocable_server.RateLimiter.Exact.{exact, giga}
use turbocable_server.RateLimiter.Bounds.{IsSound, check-IsSound}
use turbocable_server.RateLimiter.Rate.{arrivals, arrivals_pay}
use turbocable_server.Tests.Fixtures.{room, trusting}

abbrev patterns : List Text
patterns = codes "lobby" ∷ codes "ro*" ∷ []

is_allowed_iff_example : (is_allowed patterns room ≡ true) ↔ AnyMatches patterns room
is_allowed_iff_example = is_allowed_iff patterns room

abbrev verifier : JwtVerifier trusting
verifier = record { key = b'k' ∷ []; pem = b'k' ∷ [] }

abbrev rotations : List Entry
rotations = entry (b'n' ∷ []) ∷ watch_error ∷ entry [] ∷ []

watch_loop-last_valid_example :
    IsInStep trusting (watch_loop trusting rotations verifier)
    × (current_pem trusting (watch_loop trusting rotations verifier)
        ≡ last_valid trusting (current_pem trusting verifier) rotations)
watch_loop-last_valid_example = watch_loop-last_valid trusting rotations verifier refl

abbrev nobody : Node ℕ
nobody = record { limiter = limiter.new 1; held = [] }

nobody-IsCounted : IsCounted nobody
unfolding limiter.new limiter.count_for count get
nobody-IsCounted = record { exact = λ ip. refl; within = λ ip. omega arith }

node_run-IsCounted_example : IsCounted (node_run nobody (opens 7 ∷ opens 7 ∷ closes 7 ∷ []))
node_run-IsCounted_example =
    node_run-IsCounted nobody (opens 7 ∷ opens 7 ∷ closes 7 ∷ []) nobody-IsCounted

abbrev item : Item
item = record { name = room; rps_str = codes "5"; burst_str = codes " 9"; rps = 5; burst = 9 }

item-IsWritten : IsWritten item
unfolding contains trim parse_u64
item-IsWritten = record {
  name_plain = refl;
  rps_plain = refl;
  one_entry = refl;
  rps_read = refl;
  burst_read = refl;
}

parse-render_items_example :
    parse_stream_rate_overrides (render_items (render_item item) []) ≡ set_all (item ∷ []) []
parse-render_items_example = parse-render_items item [] item-IsWritten tt

abbrev slow : StreamRateLimiter exact
slow = record { buckets = []; default_rps = giga; default_burst = 2 * giga; overrides = [] }

slow-IsSound : IsSound exact slow
unfolding get
slow-IsSound = record {
  buckets_bounded = λ s b h. ground (arith, h);
  rps_nonneg = λ s. refl;
  burst_nonneg = λ s. refl;
}

check-IsSound_example : IsSound exact (check exact 5 room slow).1
check-IsSound_example = check-IsSound exact 5 room slow slow-IsSound

abbrev full : BucketState exact
full = record { tokens = giga; last_refill = 0; rps = 2 * giga; burst = giga }

arrivals_pay_example :
    (arrivals (1 ∷ 1 ∷ []) full).0 * giga + (arrivals (1 ∷ 1 ∷ []) full).1.tokens + 0 * 2
    ≤ giga + (arrivals (1 ∷ 1 ∷ []) full).1.last_refill * 2
arrivals_pay_example =
    arrivals_pay (1 ∷ 1 ∷ []) 2 full (omega arith, (omega arith, tt)) (omega arith)
