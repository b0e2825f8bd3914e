-- ===== src/Clocks/Vector.antt =====
-- `VectorClock` of code/hld/logical_clocks.py. The counters are sorted by their node and positive.
use Prim.Native.String.{compare as compare_texts}
use text.Mathlib.Text.{is_lt}
use hld_lld_interview_handbo.Prelude.{
  ℕ, zero, suc, ◌+◌, max, ltb, String, Option, none, some, List, [], ◌∷◌, ◌++◌, map, Bool, true,
  false, ◌||◌, if◌then◌else◌,
}
use hld_lld_interview_handbo.Prelude.Int.{ℤ, pos, negsuc}
use hld_lld_interview_handbo.Dict
use hld_lld_interview_handbo.Dict.{Dict, string_key, put, keys}
use hld_lld_interview_handbo.Common.Error.{Result, ok, err, validation}
use hld_lld_interview_handbo.Common.Text.{is_empty}

pub data Ordering : Type 0 where
  before after equal concurrent : Ordering

pub record VectorClock : Type 0 where
  pub counters : Dict String ℕ

abbrev pub empty_clock : VectorClock
empty_clock = record { counters = [] }

-- The checks of `of`, item by item.
unfoldable pub check_counters : Dict String ℤ → Result Unit
check_counters [] = ok tt
check_counters ((node, negsuc n) ∷ rest) = err validation
check_counters ((node, pos n) ∷ rest) =
    if is_empty node then err validation else check_counters rest

-- `sorted(...)` of the items: no node comes twice, so the node decides.
unfoldable pub insert_sorted : String → ℕ → Dict String ℕ → Dict String ℕ
insert_sorted node n [] = (node, n) ∷ []
insert_sorted node n ((other, m) ∷ rest) =
    let later = insert_sorted node n rest in
    if is_lt (compare_texts node other) then (node, n) ∷ (other, m) ∷ rest else (other, m) ∷ later

unfoldable pub sort_positive : Dict String ℤ → Dict String ℕ
sort_positive [] = []
sort_positive ((node, pos (suc n)) ∷ rest) = insert_sorted node (suc n) (sort_positive rest)
sort_positive ((node, pos zero) ∷ rest) = sort_positive rest
sort_positive ((node, negsuc n) ∷ rest) = sort_positive rest

unfoldable pub of : Dict String ℤ → Result VectorClock
of counters = elim (check_counters counters) [
  | err e ↦ err e
  | ok _ ↦ ok (record { counters = sort_positive counters })
]

abbrev pub or_zero : Option ℕ → ℕ
or_zero none = 0
or_zero (some n) = n

unfoldable pub get : String → VectorClock → ℕ
get node c = or_zero (Dict.get c.counters node)

abbrev pub counts : Dict String ℕ → Dict String ℤ
counts = map (λ e. (e.0, pos e.1))

unfoldable pub tick : String → VectorClock → Result VectorClock
unfolding get
tick node c = of (counts (put c.counters node (get node c + 1)))

unfoldable pub merge_counters : Dict String ℕ → Dict String ℕ → Dict String ℕ
merge_counters mine [] = mine
merge_counters mine ((node, count) ∷ theirs) =
    merge_counters (put mine node (max (or_zero (Dict.get mine node)) count)) theirs

unfoldable pub merge : VectorClock → VectorClock → Result VectorClock
merge c other = of (counts (merge_counters c.counters other.counters))

-- `any(mine.get(n, 0) < theirs.get(n, 0) for n in nodes)`
unfoldable pub any_less : List String → VectorClock → VectorClock → Bool
any_less [] mine theirs = false
any_less (n ∷ nodes) mine theirs = ltb (get n mine) (get n theirs) || any_less nodes mine theirs

abbrev pub nodes_of : VectorClock → VectorClock → List String
nodes_of mine theirs = keys mine.counters ++ keys theirs.counters

abbrev pub order : Bool → Bool → Ordering
order true true = concurrent
order true false = before
order false true = after
order false false = equal

unfoldable pub compare : VectorClock → VectorClock → Ordering
compare mine theirs =
    let nodes = nodes_of mine theirs in
    order (any_less nodes mine theirs) (any_less nodes theirs mine)

unfoldable pub happens_before : VectorClock → VectorClock → Bool
happens_before c other = elim (compare c other) [ before ↦ true | _ ↦ false ]

unfoldable pub is_concurrent : VectorClock → VectorClock → Bool
is_concurrent c other = elim (compare c other) [ concurrent ↦ true | _ ↦ false ]

unfoldable pub dominates : VectorClock → VectorClock → Bool
dominates c other = elim (compare c other) [ after ↦ true | equal ↦ true | _ ↦ false ]

abbrev pub as_dict : VectorClock → Dict String ℕ
as_dict c = c.counters

-- The functions of the module, which the methods of the same names answer.
abbrev pub earlier_than : VectorClock → VectorClock → Bool
earlier_than = happens_before

abbrev pub in_conflict : VectorClock → VectorClock → Bool
in_conflict = is_concurrent
