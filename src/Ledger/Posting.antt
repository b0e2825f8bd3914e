-- ===== src/Ledger/Posting.antt =====
-- What `post` does: an error or a replay changes nothing, a new transaction moves exactly its
-- entries.
use hld_lld_interview_handbo.Prelude.{
  ℕ, ◌+◌, String, ◌≡◌, ◌∙◌, ap, Option, none, some, List, [], ◌∷◌, ite, arith, string_dec,
  Option-cases, Bool-cases, inl, inr, true, false, is_some, Bool, if◌then◌else◌,
}
use hld_lld_interview_handbo.Prelude.Int.{pos, ◌+ℤ◌, sum_ℤ, eqb_ℤ, eqb_ℤ_iff}
use hld_lld_interview_handbo.Dict.{Dict, string_key, get, put, contains, empty}
use hld_lld_interview_handbo.Dict.Laws.{IsDict, get-put, put-IsDict}
use hld_lld_interview_handbo.Common.Error.{Result-cases, Error, Result, ok, err}
use hld_lld_interview_handbo.Ledger.{
  Ledger, Account, Entry, LedgerTransaction, resolve, check_accounts, check_entries, check_versions,
  check_funds, post, post_locked, write_transaction, add_cents, bump, amounts, apply_entries,
}
use hld_lld_interview_handbo.Ledger.Changes.{
  changed, gain, get-apply_entries, get-bump_all, AllKnown,
}

-- Some entry is on the account.
abbrev pub mentions : String → List Entry → Bool
mentions j [] = false
mentions j (e ∷ entries) = ite (string_dec e.account_id j) true (mentions j entries)

pub resolve_lem :
    (accounts : Dict String Account) (currency : String) (entries : List Entry)
    (touched t : Dict String Account)
    → resolve accounts currency entries touched ≡ ok t
    → AllKnown accounts entries
      × ((j : String) → get t j ≡ (if mentions j entries then get accounts j else get touched j))
      × (IsDict touched → IsDict t)
unfolding resolve
resolve_lem accounts currency [] touched t h = (tt, λ j. ground arith, λ d. ground arith)
resolve_lem accounts currency (e ∷ entries) touched t h =
    elim (Option-cases (get accounts e.account_id)) [
      | inl missing ↦ absurd (ground arith)
      | inr (a, found) ↦
          let rest : resolve accounts currency entries (put touched e.account_id a) ≡ ok t =
            ground arith in
          let (known, gets, dicts) =
            resolve_lem accounts currency entries (put touched e.account_id a) t rest in
          (
            (ground arith, known),
            λ j. ground (arith, gets j, get-put touched e.account_id a j),
            λ d. dicts (put-IsDict touched e.account_id a d),
          )
    ]

-- A new transaction: the entries balance, the key is new, and the accounts pass the checks.
pub record IsNew (l : Ledger) (key : String) (entries : List Entry)
    (expected : Option (Dict String ℕ)) (touched : Dict String Account) : Type 0 where
  pub balanced : sum_ℤ (amounts entries) ≡ pos 0
  pub first_use : get l.by_key key ≡ none
  pub unchanged_versions : check_versions touched expected ≡ ok tt
  pub funded : check_funds touched entries ≡ ok tt
  pub resolved : (currency : String) × (resolve l.accounts currency entries empty ≡ ok touched)

check_accounts-eq-ok :
    (l : Ledger) (entries : List Entry) (currency : String) (expected : Option (Dict String ℕ))
    (touched : Dict String Account)
    → check_accounts l entries currency expected ≡ ok touched
    → (resolve l.accounts currency entries empty ≡ ok touched)
      × (check_versions touched expected ≡ ok tt)
      × (check_funds touched entries ≡ ok tt)
unfolding check_accounts
check_accounts-eq-ok l entries currency expected touched h =
    elim (Result-cases (resolve l.accounts currency entries empty)) [
      | inr (e, failed) ↦ absurd (ground arith)
      | inl (t, found) ↦ ground arith
    ]

check_entries-eq-ok :
    (entries : List Entry) (currency : String)
    → check_entries entries ≡ ok currency
    → sum_ℤ (amounts entries) ≡ pos 0
unfolding check_entries
check_entries-eq-ok entries currency h =
    elim (Bool-cases (eqb_ℤ (sum_ℤ (amounts entries)) (pos 0))) [
      | inl e ↦ (eqb_ℤ_iff _ _).0 e
      | inr e ↦ absurd (ground arith)
    ]

-- How a call of `post` ends.
pub data Outcome (l : Ledger) (key : String) (entries : List Entry) (memo : String)
    (expected : Option (Dict String ℕ)) (r : Result LedgerTransaction × Ledger) : Type 0 where
  failed : (e : Error) → r ≡ (err e, l) → Outcome l key entries memo expected r
  replayed :
      (txn : LedgerTransaction)
      → get l.by_key key ≡ some txn
      → r ≡ (ok txn, l)
      → Outcome l key entries memo expected r
  written :
      (touched : Dict String Account)
      → IsNew l key entries expected touched
      → r ≡ write_transaction key entries memo touched l
      → Outcome l key entries memo expected r

pub post-Outcome :
    (key : String) (entries : List Entry) (memo : String) (expected : Option (Dict String ℕ))
    (l : Ledger)
    → Outcome l key entries memo expected (post key entries memo expected l)
unfolding post post_locked
post-Outcome key entries memo expected l = elim (Result-cases (check_entries entries)) [
  | inr (e, bad) ↦ failed e (rw (bad, post))
  | inl (currency, good) ↦ elim (Option-cases (get l.by_key key)) [
    | inr (txn, seen) ↦ replayed txn seen (rw (good, post, seen, post_locked))
    | inl first ↦ elim (Result-cases (check_accounts l entries currency expected)) [
      | inr (e, bad) ↦ failed e (rw (good, post, first, bad, post_locked))
      | inl (touched, fine) ↦
          let (resolved, versions, funded) =
            check_accounts-eq-ok l entries currency expected touched fine in
          written touched
            (record {
              balanced = check_entries-eq-ok entries currency good;
              first_use = first;
              unchanged_versions = versions;
              funded = funded;
              resolved = (currency, resolved);
            })
            (rw (good, post, first, fine, post_locked))
    ]
  ]
]

-- An error leaves the ledger exactly as it was.
pub post_atomic :
    (key : String) (entries : List Entry) (memo : String) (expected : Option (Dict String ℕ))
    (l : Ledger) (e : Error)
    → (post key entries memo expected l).0 ≡ err e
    → (post key entries memo expected l).1 ≡ l
post_atomic key entries memo expected l e h = elim (post-Outcome key entries memo expected l) [
  | failed _ p ↦ ap (λ r. r.1) p
  | replayed txn _ p ↦ ap (λ r. r.1) p
  | written touched new p ↦ absurd (unfold write_transaction in cc (ap (λ r. r.0) p, h))
]

-- What a transaction does to one account that it finds.
abbrev pub posted : String → List Entry → Account → Account
posted j entries a = record a {
  signed_cents = a.signed_cents +ℤ gain j entries;
  version = if mentions j entries then a.version + 1 else a.version;
}

posted-changed :
    (j : String) (entries : List Entry) (o : Option Account)
    → (mentions j entries ≡ true → is_some o ≡ true)
    → (if is_some (if mentions j entries then o else none)
        then changed bump (changed (add_cents (gain j entries)) o)
        else changed (add_cents (gain j entries)) o)
      ≡ changed (posted j entries) o
posted-changed j entries none h = ground arith
posted-changed j entries (some a) h = ground arith

pub mentions-known :
    (accounts : Dict String Account) (entries : List Entry) (j : String)
    → AllKnown accounts entries
    → mentions j entries ≡ true
    → contains accounts j ≡ true
mentions-known accounts [] j h m = cc
mentions-known accounts (e ∷ entries) j h m = ground (arith, mentions-known accounts entries j h.1)

pub write_transaction-accounts :
    (l : Ledger) (key : String) (entries : List Entry) (memo : String)
    (expected : Option (Dict String ℕ)) (touched : Dict String Account)
    → IsNew l key entries expected touched
    → (j : String)
    → get (write_transaction key entries memo touched l).1.accounts j
      ≡ changed (posted j entries) (get l.accounts j)
unfolding write_transaction get
write_transaction-accounts l key entries memo expected touched new j =
    let (known, gets, dicts) =
      resolve_lem l.accounts new.resolved.0 entries empty touched new.resolved.1 in
    get-bump_all touched (apply_entries entries l.accounts) j (dicts tt)
    ∙ rw (get-apply_entries entries l.accounts j, gets j)
        (posted-changed j entries (get l.accounts j) (mentions-known l.accounts entries j known))

-- A call that returns under a key that was not used before adds to each account's balance what
-- the entries on it sum to, bumps the versions of the accounts that the entries name by one, and
-- leaves every other account as it was.
pub post_effect :
    (key : String) (entries : List Entry) (memo : String) (expected : Option (Dict String ℕ))
    (l : Ledger) (txn : LedgerTransaction)
    → (post key entries memo expected l).0 ≡ ok txn
    → get l.by_key key ≡ none
    → (j : String)
    → get (post key entries memo expected l).1.accounts j
      ≡ changed (posted j entries) (get l.accounts j)
post_effect key entries memo expected l txn h first j =
    elim (post-Outcome key entries memo expected l) [
      | failed e p ↦ absurd (cc (ap (λ r. r.0) p, h))
      | replayed t seen p ↦ absurd (cc (seen, first))
      | written touched new p ↦
          rw p (write_transaction-accounts l key entries memo expected touched new j)
    ]
