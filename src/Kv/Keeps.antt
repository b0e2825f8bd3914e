-- ===== src/Kv/Keeps.antt =====
-- What `read` and `write` keep, every data operation keeps, whether it returns or raises.
use hld_lld_interview_handbo.Prelude.{ℕ, String, ◌≡◌, Option, none, some, ◌⊎◌, inl, inr, arith, ap}
use hld_lld_interview_handbo.Prelude.Int.{ℤ, ◌+ℤ◌, neg}
use hld_lld_interview_handbo.Common.Error.{Result-cases, Error, err}
use hld_lld_interview_handbo.Kv
use hld_lld_interview_handbo.Kv.{KvStore, now, read, write, as_int, deadline, is_empty}
use hld_lld_interview_handbo.Kv.Visible.{peek}
use hld_lld_interview_handbo.Kv.Answers.{
  read_pair, read_for_incr-read, delete_lem, incr_lem, counted,
}
use hld_lld_interview_handbo.Kv.Commands.{
  Command, step, get, get_item, exists, delete, set, incr, decr,
}
use hld_lld_interview_handbo.Kv.Models.{Entry, Value}

module _ (session : ℕ) where
  get_item-state :
      (key : String) (s : KvStore) → (Kv.get_item session key s).1 ≡ (read session key s).1
  unfolding Kv.get_item
  get_item-state key s = rw (read_pair session key s, Kv.get_item) (ground arith)

  get-state :
      (key : String) (default : Option Value) (s : KvStore)
      → (Kv.get session key default s).1 ≡ (read session key s).1
  unfolding Kv.get
  get-state key default s = rw (read_pair session key s, Kv.get)

  exists-state : (key : String) (s : KvStore) → (Kv.exists session key s).1 ≡ (read session key s).1
  unfolding Kv.exists
  exists-state key s = rw (read_pair session key s, Kv.exists)

  delete-state :
      (key : String) (s : KvStore)
      → (Kv.delete session key s).1 ≡ (write session key none (read session key s).1).1
  delete-state key s = ap (λ r. r.1) (delete_lem session key s)

  abbrev cell : Value → Option ℤ → KvStore → Option Entry
  cell v ttl s = some (record { value = v; expires_at = deadline session ttl (now s) })

  set-state :
      (key : String) (v : Value) (ttl : Option ℤ) (s : KvStore)
      → ((Kv.set session key v ttl s).1 ≡ s)
        ⊎ ((Kv.set session key v ttl s).1 ≡ (write session key (cell v ttl s) s).1)
  unfolding Kv.set write
  set-state key v none s = ground arith
  set-state key v (some ttl) s = ground arith

  incr_fails :
      (key : String) (by : ℤ) (s : KvStore) (e : Error)
      → as_int (peek session s key) ≡ err e
      → Kv.incr session key by s ≡ (err e, (read session key s).1)
  unfolding Kv.incr
  incr_fails key by s e h =
      rw (read_for_incr-read session key s, read_pair session key s, h, Kv.incr)

  module _ (P : KvStore → Type 0)
      (read-Keeps : (key : String) (s : KvStore) → P s → P (read session key s).1)
      (write-Keeps : (key : String) (e : Option Entry) (s : KvStore)
        → P s
        → P (write session key e s).1) where
    incr-Keeps : (key : String) (by : ℤ) (s : KvStore) → P s → P (Kv.incr session key by s).1
    incr-Keeps key by s h = elim (Result-cases (as_int (peek session s key))) [
      | inl (n, e) ↦
          rw (incr_lem session key by s n e)
            (write-Keeps key (counted session (n +ℤ by) s key) _ (read-Keeps key s h))
      | inr (e, p) ↦ rw (incr_fails key by s e p) (read-Keeps key s h)
    ]

    pub step-Keeps : (c : Command) (s : KvStore) → P s → P (step session c s)
    unfolding step Kv.decr
    step-Keeps (get key default) s h = rw (get-state key default s) (read-Keeps key s h)
    step-Keeps (exists key) s h = rw (exists-state key s) (read-Keeps key s h)
    step-Keeps (get_item key) s h = rw (get_item-state key s) (read-Keeps key s h)
    step-Keeps (delete key) s h =
        rw (delete-state key s) (write-Keeps key none _ (read-Keeps key s h))
    step-Keeps (set key v ttl) s h = elim (set-state key v ttl s) [
      | inl e ↦ rw e h
      | inr e ↦ rw e (write-Keeps key (cell v ttl s) s h)
    ]
    step-Keeps (incr key by) s h = incr-Keeps key by s h
    step-Keeps (decr key by) s h = incr-Keeps key (neg by) s h
