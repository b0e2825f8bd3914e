-- ===== src/Kv/Scan.antt =====
-- The reads of `KVStore` that list keys: `scan` and what is built on it.
use text.Mathlib.Text.{starts_with}
use hld_lld_interview_handbo.Prelude.{
  ℕ, ◌+◌, String, string_dec, Option, none, some, List, [], ◌∷◌, reverse, Bool, true, false,
  if◌then◌else◌, length, ite,
}
use hld_lld_interview_handbo.Prelude.Int.{ℤ, eqb_ℤ}
use hld_lld_interview_handbo.Dict.{Dict, string_key, put, remove}
use hld_lld_interview_handbo.Common.Sorting.{sort_items}
use hld_lld_interview_handbo.Kv.{KvStore, now, stack}
use hld_lld_interview_handbo.Kv.Models.{Value, int, str, Entry, unless_expired}
use hld_lld_interview_handbo.Kv.Transactions.{Transaction}
use hld_lld_interview_handbo.Kv.Durable.{snapshot_entries}

unfoldable pub with_prefix : String → Dict String Entry → Dict String Entry
with_prefix prefix [] = []
with_prefix prefix ((key, entry) ∷ rest) =
    let later = with_prefix prefix rest in
    if starts_with key prefix then (key, entry) ∷ later else later

-- One write of an open savepoint, over what is visible below it.
abbrev pub show_write : ℤ → String → String → Option Entry → Dict String Entry → Dict String Entry
show_write now prefix key entry visible =
    if starts_with key prefix
    then elim (unless_expired now entry) [ none ↦ remove visible key | some e ↦ put visible key e ]
    else visible

unfoldable pub show_writes :
    ℤ → String → Dict String (Option Entry) → Dict String Entry → Dict String Entry
show_writes now prefix [] visible = visible
show_writes now prefix ((key, entry) ∷ writes) visible =
    show_writes now prefix writes (show_write now prefix key entry visible)

-- The levels outermost first, so the innermost wins.
unfoldable pub show_levels : ℤ → String → List Transaction → Dict String Entry → Dict String Entry
show_levels now prefix [] visible = visible
show_levels now prefix (t ∷ levels) visible =
    show_levels now prefix levels (show_writes now prefix t.writes visible)

unfoldable pub item_values : Dict String Entry → List (String × Value)
item_values [] = []
item_values ((key, entry) ∷ rest) = (key, entry.value) ∷ item_values rest

unfoldable pub scan : ℕ → String → KvStore → List (String × Value)
scan session prefix s = item_values (
    sort_items (
      show_levels (now s) prefix (reverse (stack session s))
        (with_prefix prefix (snapshot_entries (now s) s.storage.entries))))

unfoldable pub value_eq : Value → Value → Bool
value_eq (int n) (int m) = eqb_ℤ n m
value_eq (str s) (str t) = ite (string_dec s t) true false
value_eq (int n) (str t) = false
value_eq (str s) (int m) = false

unfoldable pub count_held : Value → List (String × Value) → ℕ
count_held value [] = 0
count_held value ((key, held) ∷ rest) =
    let later = count_held value rest in if value_eq held value then 1 + later else later

unfoldable pub count : ℕ → Value → KvStore → ℕ
count session value s = count_held value (scan session "" s)

abbrev pub size : ℕ → KvStore → ℕ
size session s = length (scan session "" s)
