-- ===== src/Kv/Durable.antt =====
-- `Storage` and the append-only logs of code/lld/kv_store_transactions/services.py.
use hld_lld_interview_handbo.Prelude.{
  ℕ, ◌+◌, String, Option, none, some, List, [], ◌∷◌, ◌++◌, length, if◌then◌else◌,
}
use hld_lld_interview_handbo.Prelude.Int.{ℤ}
use hld_lld_interview_handbo.Dict.{Dict, string_key, empty, get, contains, put, remove}
use hld_lld_interview_handbo.Kv.Models.{Entry, LogEntry, is_expired, unless_expired}

pub record Storage : Type 0 where
  pub entries : Dict String Entry
  pub versions : Dict String ℕ

abbrev pub new_storage : Storage
new_storage = record { entries = empty; versions = empty }

abbrev pub or_zero : Option ℕ → ℕ
or_zero none = 0
or_zero (some n) = n

unfoldable pub storage_get : Storage → String → ℤ → Option Entry
storage_get s key now = unless_expired now (get s.entries key)

unfoldable pub version : Storage → String → ℕ
version s key = or_zero (get s.versions key)

unfoldable pub storage_set : String → Entry → Storage → Storage
unfolding version
storage_set key entry s = record {
  entries = put s.entries key entry;
  versions = put s.versions key (version s key + 1);
}

-- The storage after `delete`.
unfoldable pub storage_delete : String → Storage → Storage
unfolding version
storage_delete key s =
    if contains s.entries key
    then record {
      entries = remove s.entries key;
      versions = put s.versions key (version s key + 1);
    }
    else s

-- The entries that `snapshot` keeps, and the keys that `purge_expired` finds dead.
unfoldable pub snapshot_entries : ℤ → Dict String Entry → Dict String Entry
snapshot_entries now [] = []
snapshot_entries now ((key, e) ∷ d) =
    let rest = snapshot_entries now d in if is_expired e now then rest else (key, e) ∷ rest

unfoldable pub dead_keys : ℤ → Dict String Entry → List String
dead_keys now [] = []
dead_keys now ((key, e) ∷ d) =
    let rest = dead_keys now d in if is_expired e now then key ∷ rest else rest

unfoldable pub delete_all : List String → Storage → Storage
unfolding storage_delete
delete_all [] s = s
delete_all (key ∷ dead) s = delete_all dead (storage_delete key s)

-- The storage after `Storage.purge_expired`, and the number of keys that it dropped.
unfoldable pub storage_purge : ℤ → Storage → ℕ × Storage
unfolding dead_keys delete_all
storage_purge now s = let dead = dead_keys now s.entries in (length dead, delete_all dead s)

pub data AppendOnlyLog : Type 0 where
  null_log : AppendOnlyLog
  in_memory : List LogEntry → ℕ → AppendOnlyLog

unfoldable pub append : List LogEntry → AppendOnlyLog → AppendOnlyLog
append records null_log = null_log
append [] (in_memory held batches) = in_memory held batches
append (r ∷ records) (in_memory held batches) = in_memory (held ++ r ∷ records) (batches + 1)

unfoldable pub replay : AppendOnlyLog → List LogEntry
replay null_log = []
replay (in_memory held batches) = held
