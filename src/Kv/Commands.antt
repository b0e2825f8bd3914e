-- ===== src/Kv/Commands.antt =====
-- Calls of the store as data: what one session asks for, and scripts of nested transactions.
use hld_lld_interview_handbo.Prelude.{ℕ, String, Option, List, [], ◌∷◌}
use hld_lld_interview_handbo.Prelude.Int.{ℤ}
use hld_lld_interview_handbo.Kv
use hld_lld_interview_handbo.Kv.{KvStore}
use hld_lld_interview_handbo.Kv.Models.{Value}

-- The data operations of a session.
pub data Command : Type 0 where
  get : String → Option Value → Command
  get_item exists delete : String → Command
  set : String → Value → Option ℤ → Command
  incr decr : String → ℤ → Command

-- The store after a command, whether it returns or raises.
unfoldable pub step : ℕ → Command → KvStore → KvStore
step session (get key default) s = (Kv.get session key default s).1
step session (get_item key) s = (Kv.get_item session key s).1
step session (exists key) s = (Kv.exists session key s).1
step session (delete key) s = (Kv.delete session key s).1
step session (set key v ttl) s = (Kv.set session key v ttl s).1
step session (incr key by) s = (Kv.incr session key by s).1
step session (decr key by) s = (Kv.decr session key by s).1

-- What one session does between a `begin` and its end: commands and inner transactions, each of
-- which is committed or rolled back.
pub data Script : Type 0 where
  finished : Script
  then_do : Command → Script → Script
  then_commit then_rollback : Script → Script → Script

unfoldable pub run : ℕ → Script → KvStore → KvStore
run session finished s = s
run session (then_do c rest) s = run session rest (step session c s)
run session (then_commit body rest) s =
    run session rest (Kv.commit session (run session body (Kv.begin session s).1)).1
run session (then_rollback body rest) s =
    run session rest (Kv.rollback session (run session body (Kv.begin session s).1)).1

-- Everything that can happen to a store, in any order of the sessions.
pub data Event : Type 0 where
  call : ℕ → Command → Event
  begin commit rollback : ℕ → Event
  set_clock : ℤ → Event

unfoldable pub happen : Event → KvStore → KvStore
happen (call session c) s = step session c s
happen (begin session) s = (Kv.begin session s).1
happen (commit session) s = (Kv.commit session s).1
happen (rollback session) s = (Kv.rollback session s).1
happen (set_clock t) s = record s { clock = record { now = t } }

unfoldable pub happen_all : List Event → KvStore → KvStore
happen_all [] s = s
happen_all (e ∷ events) s = happen_all events (happen e s)
