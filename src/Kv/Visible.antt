-- ===== src/Kv/Visible.antt =====
-- What a session sees: the nearest staged write of a key, or the committed entry.
use hld_lld_interview_handbo.Prelude.{
  ℕ, String, ◌≡◌, refl, Option, none, some, List, [], ◌∷◌, ite, arith, string_dec,
}
use hld_lld_interview_handbo.Prelude.Int.{ℤ}
use hld_lld_interview_handbo.Dict.{string_key}
use hld_lld_interview_handbo.Dict.Laws.{get-put, get-remove}
use hld_lld_interview_handbo.Common.Error.{ok}
use hld_lld_interview_handbo.Kv.Models.{Entry, unless_expired}
use hld_lld_interview_handbo.Kv.Transactions.{Transaction, stack_lookup, stage, observe}
use hld_lld_interview_handbo.Kv.Durable.{Storage, storage_get, storage_set, storage_delete}
use hld_lld_interview_handbo.Kv.{
  KvStore, now, stack, make_durable, apply_writes, read, write, write_from,
}

-- The storage as a reader at one time finds it.
pub storage_get-set :
    (s : Storage) (k : String) (e : Entry) (j : String) (t : ℤ)
    → storage_get (storage_set k e s) j t
      ≡ ite (string_dec k j) (unless_expired t (some e)) (storage_get s j t)
unfolding storage_get storage_set
storage_get-set s k e j t = ground (arith, get-put s.entries k e j)

pub storage_get-delete :
    (s : Storage) (k j : String) (t : ℤ)
    → storage_get (storage_delete k s) j t ≡ ite (string_dec k j) none (storage_get s j t)
unfolding storage_get storage_delete
storage_get-delete s k j t = ground (arith, get-remove s.entries k j)

module _ (session : ℕ) where
  unfoldable pub peek : KvStore → String → Option Entry
  peek s key = elim (stack_lookup (stack session s) key) [
    | some staged ↦ unless_expired (now s) staged
    | none ↦ storage_get s.storage key (now s)
  ]

  pub read-eq-peek : (key : String) (s : KvStore) → (read session key s).0 ≡ ok (peek s key)
  unfolding read peek
  read-eq-peek key s = ground arith

  pub stack_lookup-observe :
      (key : String) (n : ℕ) (t : Transaction) (outer : List Transaction) (j : String)
      → stack_lookup (observe key n t ∷ outer) j ≡ stack_lookup (t ∷ outer) j
  unfolding stack_lookup observe
  stack_lookup-observe key n t outer j = refl

  pub peek-read :
      (key : String) (s : KvStore) (j : String) → peek (read session key s).1 j ≡ peek s j
  unfolding read peek stack_lookup observe
  peek-read key s j = ground arith

  -- `write_from` with the stack named, so that the cases of the stack are clauses.
  peek-write_from :
      (levels : List Transaction) (key : String) (e : Option Entry) (s : KvStore) (j : String)
      → stack session s ≡ levels
      → peek (write_from session levels key e s) j
        ≡ ite (string_dec key j) (unless_expired (now s) e) (peek s j)
  unfolding write peek make_durable apply_writes stack_lookup stage
  peek-write_from [] key none s j h = ground (arith, storage_get-delete s.storage key j (now s))
  peek-write_from [] key (some e) s j h = ground (arith, storage_get-set s.storage key e j (now s))
  peek-write_from (t ∷ outer) key e s j h = ground (arith, get-put t.writes key e j)

  pub peek-write :
      (key : String) (e : Option Entry) (s : KvStore) (j : String)
      → peek (write session key e s).1 j
        ≡ ite (string_dec key j) (unless_expired (now s) e) (peek s j)
  unfolding write
  peek-write key e s j = peek-write_from (stack session s) key e s j refl
