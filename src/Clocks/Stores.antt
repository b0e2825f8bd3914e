-- ===== src/Clocks/Stores.antt =====
-- `VersionedStore` and `LastWriterWinsStore` of code/hld/logical_clocks.py.
use hld_lld_interview_handbo.Prelude.{
  ℕ, ◌+◌, String, Option, none, some, List, [], ◌∷◌, ◌++◌, Bool, true, false, ◌||◌, if◌then◌else◌,
}
use hld_lld_interview_handbo.Prelude.Int.{ℤ, leb_ℤ}
use hld_lld_interview_handbo.Dict
use hld_lld_interview_handbo.Dict.{Dict, string_key}
use hld_lld_interview_handbo.Common.Error.{Result, ok, err, validation, ◌>>=◌}
use hld_lld_interview_handbo.Common.Action.{Action}
use hld_lld_interview_handbo.Common.Text.{is_empty}
use hld_lld_interview_handbo.Clocks.Vector.{VectorClock, empty_clock, tick, merge, dominates}

pub record Version : Type 0 where
  pub value : String
  pub clock : VectorClock

pub record VersionedStore : Type 0 where
  pub versions : Dict String (List Version)

abbrev pub listed : Option (List Version) → List Version
listed none = []
listed (some versions) = versions

unfoldable pub get : String → VersionedStore → List Version
get key s = listed (Dict.get s.versions key)

-- The siblings that the new clock does not dominate.
unfoldable pub kept : VectorClock → List Version → List Version
kept clock [] = []
kept clock (v ∷ siblings) =
    let rest = kept clock siblings in if dominates clock v.clock then rest else v ∷ rest

abbrev pub context_or_empty : Option VectorClock → VectorClock
context_or_empty none = empty_clock
context_or_empty (some context) = context

abbrev pub store_version : String → VersionedStore → List Version → Version → VersionedStore
store_version key s siblings v = record { versions = Dict.put s.versions key (siblings ++ v ∷ []) }

unfoldable pub put : String → String → String → Option VectorClock → Action VersionedStore Version
put key value node context s =
    if is_empty key || is_empty node
    then (err validation, s)
    else elim (tick node (context_or_empty context)) [
      | err e ↦ (err e, s)
      | ok clock ↦
          let version : Version = record { value = value; clock = clock } in
          (ok version, store_version key s (kept clock (get key s)) version)
    ]

unfoldable pub merge_all : VectorClock → List Version → Result VectorClock
merge_all merged [] = ok merged
merge_all merged (v ∷ siblings) = merge merged v.clock >>= λ clock. merge_all clock siblings

unfoldable pub resolve : String → String → String → Action VersionedStore Version
resolve key value node s = elim (merge_all empty_clock (get key s) >>= tick node) [
  | err e ↦ (err e, s)
  | ok clock ↦
      let version : Version = record { value = value; clock = clock } in
      (ok version, store_version key s [] version)
]

pub record LastWriterWinsStore : Type 0 where
  pub values : Dict String (ℤ × String)
  pub discarded : ℕ

abbrev pub is_beaten : ℤ → Option (ℤ × String) → Bool
is_beaten timestamp_ms none = false
is_beaten timestamp_ms (some (seen, _)) = leb_ℤ timestamp_ms seen

unfoldable pub put_last : String → String → ℤ → Action LastWriterWinsStore Bool
put_last key value timestamp_ms s =
    if is_beaten timestamp_ms (Dict.get s.values key)
    then (ok false, record s { discarded = s.discarded + 1 })
    else (ok true, record s { values = Dict.put s.values key (timestamp_ms, value) })

unfoldable pub get_last : String → LastWriterWinsStore → Option String
get_last key s = elim (Dict.get s.values key) [ none ↦ none | some (_, value) ↦ some value ]
