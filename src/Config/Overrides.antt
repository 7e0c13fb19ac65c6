-- ===== src/Config/Overrides.antt =====
-- src/config.rs: what `parse_stream_rate_overrides` makes of a list of entries.
use turbocable_server.Prelude.{
  ℕ, ◌≡◌, refl, ◌∙◌, false, none, some, List, [], ◌∷◌, ◌++◌, Text, contains, nat_eq, text_eq, arith,
}
use turbocable_server.Prelude.Dict.{Dict, insert}
use turbocable_server.Text.{split, split_once, trim, parse_u64}
use turbocable_server.Text.Laws.{split_once-append, split_one, split-append}
use turbocable_server.Config.{parse_entry, collect_entries, parse_stream_rate_overrides}

-- An entry as it is written, with the limits that its numbers stand for.
pub record Item : Type 0 where
  pub name : Text
  pub rps_str : Text
  pub burst_str : Text
  pub rps : ℕ
  pub burst : ℕ

abbrev pub render_item : Item → Text
render_item i = i.name ++ b'=' ∷ (i.rps_str ++ b':' ∷ i.burst_str)

-- The separators stand where they separate, and the numbers read as 64-bit numbers.
pub record IsWritten (i : Item) : Type 0 where
  pub name_plain : contains b'=' i.name ≡ false
  pub rps_plain : contains b':' i.rps_str ≡ false
  pub one_entry : contains b';' (render_item i) ≡ false
  pub rps_read : parse_u64 (trim i.rps_str) ≡ some i.rps
  pub burst_read : parse_u64 (trim i.burst_str) ≡ some i.burst

-- A written entry is read back, its name trimmed.
parse_entry-render_item :
    (i : Item) → IsWritten i → parse_entry (render_item i) ≡ some (trim i.name, (i.rps, i.burst))
unfolding parse_entry
parse_entry-render_item i w = ground (
  arith,
  split_once-append b'=' i.name (i.rps_str ++ b':' ∷ i.burst_str),
  split_once-append b':' i.rps_str i.burst_str,
  w.rps_read,
  w.burst_read,
)

-- Entries, each behind a semicolon, after a first text.
abbrev pub render_items : Text → List Item → Text
render_items first [] = first
render_items first (i ∷ items) = first ++ b';' ∷ render_items (render_item i) items

abbrev pub AllWritten : List Item → Type 0
AllWritten [] = Unit
AllWritten (i ∷ items) = IsWritten i × AllWritten items

-- The meaning: each entry sets the limits of its name.
pub set_all : List Item → Dict Text (ℕ × ℕ) → Dict Text (ℕ × ℕ)
set_all [] m = m
set_all (i ∷ items) m = set_all items (insert (trim i.name) (i.rps, i.burst) m)

collect_items :
    (i : Item) (items : List Item) (m : Dict Text (ℕ × ℕ))
    → IsWritten i
    → AllWritten items
    → collect_entries (split b';' (render_items (render_item i) items)) m ≡ set_all (i ∷ items) m
unfolding collect_entries set_all
collect_items i [] m w ws =
    rw (split_one b';' (render_item i) w.one_entry) (ground (arith, parse_entry-render_item i w))
collect_items i (j ∷ items) m w ws =
    rw (split-append b';' (render_item i) (render_items (render_item j) items) w.one_entry) (
      ground (
        arith,
        parse_entry-render_item i w,
        collect_items j items (insert (trim i.name) (i.rps, i.burst) m) ws.0 ws.1,
      ))

-- The test for the empty option is a shortcut only: the entries say the same.
parse_eq_collect : (s : Text) → parse_stream_rate_overrides s ≡ collect_entries (split b';' s) []
unfolding parse_stream_rate_overrides collect_entries parse_entry split split_once
parse_eq_collect [] = refl
parse_eq_collect (c ∷ s) = refl

-- Written entries, joined by semicolons, are all read: each sets the limits of its trimmed name,
-- and of two entries with one name the later counts. An entry is written if its name holds no
-- `=`, its first number no `:`, and it no `;`, and both numbers, trimmed, read as 64-bit numbers.
pub parse-render_items :
    (i : Item) (items : List Item)
    → IsWritten i
    → AllWritten items
    → parse_stream_rate_overrides (render_items (render_item i) items) ≡ set_all (i ∷ items) []
parse-render_items i items w ws =
    parse_eq_collect (render_items (render_item i) items) ∙ collect_items i items [] w ws

-- A malformed entry in front of others is skipped.
pub parse_skips_malformed :
    (piece rest : Text)
    → contains b';' piece ≡ false
    → parse_entry piece ≡ none
    → parse_stream_rate_overrides (piece ++ b';' ∷ rest) ≡ parse_stream_rate_overrides rest
unfolding collect_entries
parse_skips_malformed piece rest one bad =
    rw
      (
        parse_eq_collect (piece ++ b';' ∷ rest),
        parse_eq_collect rest,
        split-append b';' piece rest one,
      )
      (ground (arith, bad))
