-- ===== src/Kv/Outcomes.antt =====
-- What a commit does, by the savepoints that are open: the outermost one stores and logs its
-- write-set unless the policy refuses it.
use hld_lld_interview_handbo.Prelude.{
  ℕ, String, ◌+◌, ◌≡◌, ◌≢◌, ◌⊎◌, ◌↔◌, ◌∙◌, ap, sym, refl, Option, List, [], ◌∷◌, ◌++◌, map, arith,
  true, Bool-cases, inl, inr, All,
}
use mathlib.Core.Path.{subst}
use hld_lld_interview_handbo.Prelude.Int.{ℤ}
use hld_lld_interview_handbo.Dict.{Dict, string_key}
use hld_lld_interview_handbo.Dict as D
use hld_lld_interview_handbo.Dict.Laws.{IsDict, get-update, or_else}
use hld_lld_interview_handbo.Common.Error.{Result, ok, err, no_transaction, transaction_conflict}
use hld_lld_interview_handbo.Common.Ids.{Identifier}
use hld_lld_interview_handbo.Kv.{
  commit_from, KvStore, stack, set_stack, commit, commit_outermost, make_durable,
}
use hld_lld_interview_handbo.Kv.Durable.{
  Storage, AppendOnlyLog, null_log, in_memory, append, storage_get, version,
}
use hld_lld_interview_handbo.Kv.Models.{Entry, log_entry}
use hld_lld_interview_handbo.Kv.Transactions.{
  Transaction, merge_into, lookup, unchanged, validate, IsolationPolicy, last_write_wins,
  optimistic,
}
use hld_lld_interview_handbo.Kv.Commits.{
  writes-observe_all, id-observe_all, staged_or, storage_get-apply_writes,
}

-- Every version that a transaction observed is still the committed one.
abbrev pub IsCurrent : Storage → Transaction → Type 0
IsCurrent s t = All (λ r. version s r.0 ≡ r.1) t.reads

unchanged_iff :
    (f : String → ℕ) (reads : Dict String ℕ)
    → (unchanged f reads ≡ true) ↔ All (λ r. f r.0 ≡ r.1) reads
unfolding unchanged
unchanged_iff f [] = (λ h. tt, λ h. refl)
unchanged_iff f ((k, n) ∷ reads) = ground (arith, unchanged_iff f reads)

-- The policy lets the transaction through.
abbrev pub IsAccepted : KvStore → Transaction → Type 0
IsAccepted s t = (s.isolation ≡ last_write_wins) ⊎ IsCurrent s.storage t

-- Where the log keeps records at all, the write-set is at its end, as one batch.
abbrev pub IsLogged : Dict String (Option Entry) → AppendOnlyLog → AppendOnlyLog → Type 0
IsLogged writes null_log log = log ≡ null_log
IsLogged [] (in_memory held batches) log = log ≡ in_memory held batches
IsLogged (w ∷ writes) (in_memory held batches) log =
    log ≡ in_memory (held ++ map (λ x. log_entry x.0 x.1) (w ∷ writes)) (batches + 1)

append-IsLogged :
    (writes : Dict String (Option Entry)) (log : AppendOnlyLog)
    → IsLogged writes log (append (map (λ x. log_entry x.0 x.1) writes) log)
unfolding append
append-IsLogged writes null_log = refl
append-IsLogged [] (in_memory held batches) = refl
append-IsLogged (w ∷ writes) (in_memory held batches) = refl

module _ (session : ℕ) where
  -- The write-set of `t` is what the storage answers with, at any time, and in the log.
  pub record IsApplied (t : Transaction) (s s' : KvStore) : Type 0 where
    pub stored :
        (key : String) (at : ℤ)
        → storage_get s'.storage key at
          ≡ staged_or at (D.get t.writes key) (storage_get s.storage key at)
    pub logged : IsLogged t.writes s.log s'.log
    pub closed : stack session s' ≡ []
    pub others : (other : ℕ) → session ≢ other → s'.sessions other ≡ s.sessions other

  -- The writes of `t` are staged on its parent and nothing is stored.
  pub record IsMerged (t parent : Transaction) (outer : List Transaction) (s s' : KvStore)
      : Type 0 where
    pub storage : s'.storage ≡ s.storage
    pub log : s'.log ≡ s.log
    pub merged : Transaction
    pub levels : stack session s' ≡ merged ∷ outer
    pub name : merged.id ≡ parent.id
    pub staged : (key : String) → lookup merged key ≡ or_else (lookup t key) (lookup parent key)
    pub others : (other : ℕ) → session ≢ other → s'.sessions other ≡ s.sessions other

  -- What a commit in the store `s` with these savepoints open does.
  abbrev pub IsCommitted : List Transaction → KvStore → Result Identifier × KvStore → Type 0
  IsCommitted [] s r = r ≡ (err no_transaction, s)
  IsCommitted (t ∷ []) s r =
      (IsAccepted s t × (r.0 ≡ ok t.id) × IsApplied t s r.1)
      ⊎ ((¬ IsAccepted s t) × (r ≡ (err transaction_conflict, set_stack session [] s)))
  IsCommitted (t ∷ parent ∷ outer) s r = (r.0 ≡ ok t.id) × IsMerged t parent outer s r.1

  stack-set_stack :
      (levels : List Transaction) (s : KvStore)
      → stack session (set_stack session levels s) ≡ levels
  unfolding set_stack
  stack-set_stack levels s = ground arith

  others-set_stack :
      (levels : List Transaction) (s : KvStore) (other : ℕ)
      → session ≢ other
      → (set_stack session levels s).sessions other ≡ s.sessions other
  unfolding set_stack
  others-set_stack levels s other ne = ground arith

  make_durable-IsApplied :
      (t : Transaction) (s : KvStore)
      → IsDict t.writes
      → IsApplied t s (make_durable t.writes (set_stack session [] s))
  unfolding make_durable set_stack
  make_durable-IsApplied t s h = record {
    stored = λ key at. storage_get-apply_writes t.writes s.storage key at h;
    logged = append-IsLogged t.writes s.log;
    closed = stack-set_stack [] s;
    others = others-set_stack [] s;
  }

  merge_into-IsMerged :
      (t parent : Transaction) (outer : List Transaction) (s : KvStore)
      → IsDict t.writes
      → IsMerged t parent outer s (set_stack session (merge_into t parent ∷ outer) s)
  unfolding set_stack merge_into lookup
  merge_into-IsMerged t parent outer s h =
      let base : Transaction = record parent { writes = D.update parent.writes t.writes } in
      record {
        storage = refl;
        log = refl;
        merged = merge_into t parent;
        levels = stack-set_stack (merge_into t parent ∷ outer) s;
        name = id-observe_all t.reads base;
        staged = λ key.
            ap (λ (d : Dict String (Option Entry)). D.get d key) (writes-observe_all t.reads base)
            ∙ get-update parent.writes t.writes key h;
        others = others-set_stack (merge_into t parent ∷ outer) s;
      }

  validated :
      (policy : IsolationPolicy) (s : KvStore) (t : Transaction)
      → s.isolation ≡ policy
      → (IsAccepted s t × (validate policy (version s.storage) t ≡ ok tt))
        ⊎ ((¬ IsAccepted s t) × (validate policy (version s.storage) t ≡ err transaction_conflict))
  unfolding validate
  validated last_write_wins s t e = inl (inl e, refl)
  validated optimistic s t e = elim (Bool-cases (unchanged (version s.storage) t.reads)) [
    | inl u ↦ inl (inr ((unchanged_iff (version s.storage) t.reads).0 u), rw u refl)
    | inr u ↦ inr (
      λ accepted. elim accepted [
        | inl policy ↦ absurd (cc (policy, e))
        | inr current ↦ absurd (cc ((unchanged_iff (version s.storage) t.reads).1 current, u))
      ],
      rw u refl,
    )
  ]

  commit_from-IsCommitted :
      (levels : List Transaction) (s : KvStore)
      → All (λ t. IsDict t.writes) levels
      → IsCommitted levels s (commit_from session levels s)
  unfolding commit_from commit_outermost set_stack
  commit_from-IsCommitted [] s h = refl
  commit_from-IsCommitted (t ∷ []) s h = elim (validated s.isolation s t refl) [
    | inl (accepted, e) ↦
        let goes : commit_from session (t ∷ []) s
            ≡ (ok t.id, make_durable t.writes (set_stack session [] s)) =
          rw (e, commit_from) refl in
        inl (
          accepted,
          ap (λ (r : Result Identifier × KvStore). r.0) goes,
          subst (λ (r : Result Identifier × KvStore). IsApplied t s r.1) (sym goes)
              (make_durable-IsApplied t s h.0),
        )
    | inr (refused, e) ↦ inr (refused, rw (e, commit_from) refl)
  ]
  commit_from-IsCommitted (t ∷ parent ∷ outer) s h =
      (refl, merge_into-IsMerged t parent outer s h.0)

  -- In a store whose write-sets list no key twice, a commit does the following. Without a
  -- transaction it raises and changes nothing. The outermost one succeeds exactly where the policy
  -- is last-write-wins or every version that the transaction observed is still current: then every
  -- key is stored as the write-set says, the log has the write-set at its end as one batch, and the
  -- transaction is closed. Where it is refused it raises a conflict and only closes the transaction.
  -- An inner one stores and logs nothing and leaves the writes of both on the parent, its own first.
  -- Other sessions keep their savepoints.
  pub commit-IsCommitted :
      (s : KvStore)
      → All (λ t. IsDict t.writes) (stack session s)
      → IsCommitted (stack session s) s (commit session s)
  unfolding commit
  commit-IsCommitted s h = commit_from-IsCommitted (stack session s) s h
