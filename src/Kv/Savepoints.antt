-- ===== src/Kv/Savepoints.antt =====
-- What an open savepoint of a session hides from every other session.
use hld_lld_interview_handbo.Prelude.{
  ℕ, String, ◌≡◌, ◌≢◌, ◌∙◌, refl, ap, Option, List, [], ◌∷◌, arith, Option-cases, inl, inr,
}
use mathlib.Core.Path.{subst}
use hld_lld_interview_handbo.Common.Ids.{Identifier}
use hld_lld_interview_handbo.Kv.{KvStore, stack, set_stack, observe_top, write_from, read, write}
use hld_lld_interview_handbo.Kv.Commits.{id-observe_all}
use hld_lld_interview_handbo.Kv.Commands.{Command, step}
use hld_lld_interview_handbo.Kv.Keeps.{step-Keeps}
use hld_lld_interview_handbo.Kv.Models.{Entry}
use hld_lld_interview_handbo.Kv.Transactions.{Transaction, stack_lookup, observe, stage, merge_into}

-- `s` agrees with `base` on all that other sessions and the disk can show.
pub record SameElsewhere (session : ℕ) (base s : KvStore) : Type 0 where
  pub storage : s.storage ≡ base.storage
  pub log : s.log ≡ base.log
  pub clock : s.clock ≡ base.clock
  pub isolation : s.isolation ≡ base.isolation
  pub others : (other : ℕ) → session ≢ other → s.sessions other ≡ base.sessions other

-- Since `base` the session has opened one savepoint above `outer`, the transaction `id`.
pub record IsOpen (session : ℕ) (base : KvStore) (outer : List Transaction) (id : Identifier)
    (s : KvStore) : Type 0 where
  pub elsewhere : SameElsewhere session base s
  pub top : Transaction
  pub name : top.id ≡ id
  pub levels : s.sessions session ≡ top ∷ outer

pub SameElsewhere-trans :
    {session : ℕ} {a b c : KvStore}
    → SameElsewhere session a b
    → SameElsewhere session b c
    → SameElsewhere session a c
SameElsewhere-trans h k = record {
  storage = k.storage ∙ h.storage;
  log = k.log ∙ h.log;
  clock = k.clock ∙ h.clock;
  isolation = k.isolation ∙ h.isolation;
  others = λ other ne. k.others other ne ∙ h.others other ne;
}

module _ (session : ℕ) where
  pub set_stack-SameElsewhere :
      (base : KvStore) (levels : List Transaction) (s : KvStore)
      → SameElsewhere session base s
      → SameElsewhere session base (set_stack session levels s)
  unfolding set_stack
  set_stack-SameElsewhere base levels s h = record {
    storage = h.storage;
    log = h.log;
    clock = h.clock;
    isolation = h.isolation;
    others = λ other ne. ground (arith, h.others other ne);
  }

  pub sessions-set_stack :
      (levels : List Transaction) (s : KvStore)
      → stack session (set_stack session levels s) ≡ levels
  unfolding set_stack
  sessions-set_stack levels s = ground arith

  pub set_top-IsOpen :
      (base : KvStore) (outer : List Transaction) (t : Transaction) (s : KvStore)
      → SameElsewhere session base s
      → IsOpen session base outer t.id (set_stack session (t ∷ outer) s)
  set_top-IsOpen base outer t s h = record {
    elsewhere = set_stack-SameElsewhere base (t ∷ outer) s h;
    top = t;
    name = refl;
    levels = sessions-set_stack (t ∷ outer) s;
  }

pub id-merge_into : (t parent : Transaction) → (merge_into t parent).id ≡ parent.id
unfolding merge_into
id-merge_into t parent = id-observe_all t.reads _

-- The same savepoint with another transaction of that name on it.
pub renamed :
    (session : ℕ) (base : KvStore) (outer : List Transaction) (t : Transaction) (id : Identifier)
    (s : KvStore)
    → t.id ≡ id
    → SameElsewhere session base s
    → IsOpen session base outer id (set_stack session (t ∷ outer) s)
renamed session base outer t id s e h =
    subst (λ i. IsOpen session base outer i (set_stack session (t ∷ outer) s)) e
      (set_top-IsOpen session base outer t s h)

module _ (session : ℕ) (base : KvStore) (outer : List Transaction) (id : Identifier) where
  named :
      (t : Transaction) (o : List Transaction) {s : KvStore} (h : IsOpen session base outer id s)
      → t ∷ o ≡ h.top ∷ outer
      → t.id ≡ id
  named t o h same = let e : t ≡ h.top = cc same in ap (λ (u : Transaction). u.id) e ∙ h.name

  observe_top-IsOpen :
      (key : String) (n : ℕ) (levels : List Transaction) (s : KvStore)
      → stack session s ≡ levels
      → IsOpen session base outer id s
      → IsOpen session base outer id (observe_top session key n levels s)
  unfolding observe_top observe
  observe_top-IsOpen key n [] s e h = h
  observe_top-IsOpen key n (t ∷ o) s e h =
      let same : t ∷ o ≡ h.top ∷ outer = cc (e, h.levels) in
      let o_same : o ≡ outer = cc same in
      rw o_same (renamed session base outer (observe key n t) id s (named t o h same) h.elsewhere)

  read-IsOpen :
      (key : String) (s : KvStore)
      → IsOpen session base outer id s
      → IsOpen session base outer id (read session key s).1
  unfolding read
  read-IsOpen key s h = elim (Option-cases (stack_lookup (stack session s) key)) [
    | inl e ↦ rw (e, read) (observe_top-IsOpen key _ (stack session s) s refl h)
    | inr (x, e) ↦ rw (e, read) h
  ]

  write_from-IsOpen :
      (key : String) (e : Option Entry) (levels : List Transaction) (s : KvStore)
      → stack session s ≡ levels
      → IsOpen session base outer id s
      → IsOpen session base outer id (write_from session levels key e s)
  unfolding write_from stage
  write_from-IsOpen key x [] s e h = absurd (cc (e, h.levels))
  write_from-IsOpen key x (t ∷ o) s e h =
      let same : t ∷ o ≡ h.top ∷ outer = cc (e, h.levels) in
      let o_same : o ≡ outer = cc same in
      rw o_same (renamed session base outer (stage key x t) id s (named t o h same) h.elsewhere)

  write-IsOpen :
      (key : String) (e : Option Entry) (s : KvStore)
      → IsOpen session base outer id s
      → IsOpen session base outer id (write session key e s).1
  unfolding write
  write-IsOpen key e s h = write_from-IsOpen key e (stack session s) s refl h

  pub step-IsOpen :
      (c : Command) (s : KvStore)
      → IsOpen session base outer id s
      → IsOpen session base outer id (step session c s)
  step-IsOpen = step-Keeps session (IsOpen session base outer id) read-IsOpen write-IsOpen
