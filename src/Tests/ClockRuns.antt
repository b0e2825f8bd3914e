-- ===== src/Tests/ClockRuns.antt =====
-- Two nodes that write without knowing of one another.
use hld_lld_interview_handbo.Prelude.{
  ◌≤◌, ◌≡◌, ◌⊎◌, ◌↔◌, refl, String, string_dec, some, none, [], ◌∷◌, true,
}
use hld_lld_interview_handbo.Prelude.Int.{pos}
use hld_lld_interview_handbo.Dict
use hld_lld_interview_handbo.Common.Error.{ok, err, validation}
use hld_lld_interview_handbo.Common.Text.{is_empty}
use hld_lld_interview_handbo.Clocks.Vector
use hld_lld_interview_handbo.Clocks.Vector.{VectorClock, compare, dominates}
use hld_lld_interview_handbo.Clocks.Stores
use hld_lld_interview_handbo.Clocks.Stores.{Version, VersionedStore}
use hld_lld_interview_handbo.Clocks.Hybrid.{HybridTimestamp, HybridLogicalClock, update}
use hld_lld_interview_handbo.Clocks.Causality.{IsBefore, update-IsBefore, dominates-get}
use hld_lld_interview_handbo.Clocks.Siblings.{IsIn, IsCovered, put-kept}

abbrev left : VectorClock
left = record { counters = ("a", 2) ∷ ("b", 1) ∷ [] }

abbrev right : VectorClock
right = record { counters = ("a", 1) ∷ ("c", 1) ∷ [] }

dominates-get_example :
    (dominates left right ≡ true) ↔ ((n : String) → Vector.get n right ≤ Vector.get n left)
dominates-get_example = dominates-get left right

abbrev hybrid : HybridLogicalClock
hybrid = record {
  clock = record { now = pos 1000 };
  max_drift_ms = pos 250;
  last = record { physical_ms = pos 1100; logical = 3 };
}

abbrev message : HybridTimestamp
message = record { physical_ms = pos 1100; logical = 5 }

update-IsBefore_example :
    (update message hybrid ≡ (err validation, hybrid))
    ⊎ (((update message hybrid).0 ≡ ok (update message hybrid).1.last)
        × IsBefore hybrid.last (update message hybrid).1.last
        × IsBefore message (update message hybrid).1.last)
update-IsBefore_example = update-IsBefore message hybrid

abbrev from_right : Version
from_right = record { value = "red"; clock = right }

abbrev store : VersionedStore
store = record { versions = ("cart", from_right ∷ []) ∷ [] }

abbrev from_left : Version
from_left = record { value = "blue"; clock = record { counters = ("a", 3) ∷ ("b", 1) ∷ [] } }

returned : (Stores.put "cart" "blue" "a" (some left) store).0 ≡ ok from_left
unfolding Stores.put is_empty Vector.tick Vector.get Vector.of Vector.check_counters
    Vector.sort_positive Vector.insert_sorted Dict.get Dict.put string_dec
returned = refl

put-kept_example :
    (from_left.value ≡ "blue")
    × (Vector.tick "a" left ≡ ok from_left.clock)
    × (IsIn from_right (Stores.get "cart" (Stores.put "cart" "blue" "a" (some left) store).1) ↔ (
        (IsIn from_right (Stores.get "cart" store) × (¬ IsCovered from_right.clock from_left.clock))
        ⊎ (from_right ≡ from_left)))
put-kept_example = put-kept "cart" "blue" "a" (some left) store from_left from_right returned

abbrev blind : String → VersionedStore → VersionedStore
blind value s = (Stores.put "cart" value "a" none s).1

-- Two writes by one node, neither with a context: only the second is left.
overwritten :
    Stores.get "cart" (blind "blue" (blind "red" (record { versions = [] })))
    ≡ record { value = "blue"; clock = record { counters = ("a", 1) ∷ [] } } ∷ []
unfolding Stores.put is_empty Vector.tick Vector.get Vector.of Vector.check_counters
    Vector.sort_positive Vector.insert_sorted Dict.get Dict.put string_dec Stores.get Stores.kept
    dominates compare Vector.any_less
overwritten = refl
