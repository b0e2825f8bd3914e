-- ===== src/Ledger/Calls.antt =====
-- Sequences of calls: the trial balance, and the replay of a retried key.
use hld_lld_interview_handbo.Prelude.{
  ℕ, String, ◌≡◌, ◌∙◌, refl, ap, Option, none, some, List, [], ◌∷◌, arith, Bool, inl, inr,
  string_dec, Option-cases, if_neg, ◌⊎◌, sym,
}
use hld_lld_interview_handbo.Prelude.Int.{ℤ, pos, +ℤ-zero}
use hld_lld_interview_handbo.Dict.{Dict, string_key, get, put, keys, empty}
use hld_lld_interview_handbo.Dict.Laws.{get-put, get-put_self}
use hld_lld_interview_handbo.Common.Clock.{FakeClock}
use hld_lld_interview_handbo.Common.Error.{ok}
use hld_lld_interview_handbo.Common.Ids.{SequentialIdGenerator}
use hld_lld_interview_handbo.Ledger
use hld_lld_interview_handbo.Ledger.{
  Ledger, new_ledger, Account, AccountType, Entry, LedgerTransaction, check_entries, trial_balance,
  bump_all, apply_entries, write_transaction, amounts,
}
use hld_lld_interview_handbo.Ledger.Changes.{
  total, total-put_new, total-bump_all, total-apply_entries,
}
use hld_lld_interview_handbo.Ledger.Posting.{
  IsNew, failed, replayed, written, post-Outcome, resolve_lem,
}

pub data Call : Type 0 where
  open_account : String → AccountType → String → Bool → Call
  post : String → List Entry → String → Option (Dict String ℕ) → Call
  set_clock : ℤ → Call

-- The ledger after a call, whether it returns or raises.
unfoldable pub apply : Call → Ledger → Ledger
apply (open_account id type currency allow_negative) l =
    (Ledger.open_account id type currency allow_negative l).1
apply (post key entries memo expected) l = (Ledger.post key entries memo expected l).1
apply (set_clock t) l = record l { clock = record { now = t } }

unfoldable pub run : List Call → Ledger → Ledger
run [] l = l
run (c ∷ calls) l = run calls (apply c l)

-- Induction over the calls: a failed call and a replay change nothing, so only a new account, a
-- new transaction and a new time are left.
pub record IsStable (P : Ledger → Type 0) : Type 0 where
  pub new_account :
      (id : String) (a : Account) (l : Ledger)
      → get l.accounts id ≡ none
      → a.signed_cents ≡ pos 0
      → P l
      → P (record l { accounts = put l.accounts id a })
  pub new_transaction :
      (key : String) (entries : List Entry) (memo : String) (expected : Option (Dict String ℕ))
      (touched : Dict String Account) (l : Ledger)
      → IsNew l key entries expected touched
      → P l
      → P (write_transaction key entries memo touched l).1
  pub new_time : (t : ℤ) (l : Ledger) → P l → P (record l { clock = record { now = t } })

abbrev opened : AccountType → String → Bool → Account
opened type currency allow_negative = record {
  type = type;
  currency = currency;
  allow_negative = allow_negative;
  version = 0;
  signed_cents = pos 0;
}

open_account-state :
    (id : String) (type : AccountType) (currency : String) (allow_negative : Bool) (l : Ledger)
    → ((Ledger.open_account id type currency allow_negative l).1 ≡ l)
      ⊎ ((get l.accounts id ≡ none)
          × ((Ledger.open_account id type currency allow_negative l).1
              ≡ record l { accounts = put l.accounts id (opened type currency allow_negative) }))
unfolding Ledger.open_account
open_account-state id type currency allow_negative l = elim (Option-cases (get l.accounts id)) [
  | inr (a, e) ↦ inl (rw (e, Ledger.open_account))
  | inl e ↦ inr (e, rw (e, Ledger.open_account))
]

module _ (P : Ledger → Type 0) (stable : IsStable P) where
  apply-keeps : (c : Call) (l : Ledger) → P l → P (apply c l)
  unfolding apply
  apply-keeps (open_account id type currency allow_negative) l h =
      elim (open_account-state id type currency allow_negative l) [
        | inl same ↦ rw same h
        | inr (new, e) ↦
            rw e (stable.new_account id (opened type currency allow_negative) l new refl h)
      ]
  apply-keeps (post key entries memo expected) l h =
      elim (post-Outcome key entries memo expected l) [
        | failed e p ↦ rw (ap (λ r. r.1) p) h
        | replayed txn seen p ↦ rw (ap (λ r. r.1) p) h
        | written touched new p ↦
            rw (ap (λ r. r.1) p) (stable.new_transaction key entries memo expected touched l new h)
      ]
  apply-keeps (set_clock t) l h = stable.new_time t l h

  pub run-keeps : (calls : List Call) (l : Ledger) → P l → P (run calls l)
  unfolding run
  run-keeps [] l h = h
  run-keeps (c ∷ calls) l h = run-keeps calls (apply c l) (apply-keeps c l h)

trial_balance-eq-total : (l : Ledger) → trial_balance l ≡ total l.accounts
unfolding trial_balance total
trial_balance-eq-total l = refl

abbrev IsBalanced : Ledger → Type 0
IsBalanced l = total l.accounts ≡ pos 0

written-IsBalanced :
    (key : String) (entries : List Entry) (memo : String) (expected : Option (Dict String ℕ))
    (touched : Dict String Account) (l : Ledger)
    → IsNew l key entries expected touched
    → IsBalanced l
    → IsBalanced (write_transaction key entries memo touched l).1
unfolding write_transaction
written-IsBalanced key entries memo expected touched l new h =
    let (known, _, _) =
      resolve_lem l.accounts new.resolved.0 entries empty touched new.resolved.1 in
    total-bump_all (keys touched) (apply_entries entries l.accounts)
    ∙ total-apply_entries entries l.accounts known
    ∙ rw (h, new.balanced) (+ℤ-zero (pos 0))

IsBalanced-IsStable : IsStable IsBalanced
IsBalanced-IsStable = record {
  new_account =
      λ id a l new zero h. total-put_new l.accounts id a new ∙ rw (h, zero) (+ℤ-zero (pos 0));
  new_transaction = written-IsBalanced;
  new_time = λ t l h. h;
}

-- After any calls on a new ledger, failed ones included, debits equal credits: the trial balance
-- is zero.
pub trial_balance_zero :
    (calls : List Call) (clock : FakeClock) (ids : SequentialIdGenerator)
    → trial_balance (run calls (new_ledger clock ids)) ≡ pos 0
trial_balance_zero calls clock ids =
    trial_balance-eq-total (run calls (new_ledger clock ids))
    ∙ run-keeps IsBalanced IsBalanced-IsStable calls (new_ledger clock ids) (unfold total in refl)

abbrev Remembers : String → LedgerTransaction → Ledger → Type 0
Remembers key txn l = get l.by_key key ≡ some txn

written-Remembers :
    (k : String) (txn : LedgerTransaction) (key : String) (entries : List Entry) (memo : String)
    (expected : Option (Dict String ℕ)) (touched : Dict String Account) (l : Ledger)
    → IsNew l key entries expected touched
    → Remembers k txn l
    → Remembers k txn (write_transaction key entries memo touched l).1
unfolding write_transaction
written-Remembers k txn key entries memo expected touched l new h =
    get-put l.by_key key _ k ∙ elim (string_dec key k) [
      | yes same ↦ absurd (cc (new.first_use, h, ap (get l.by_key) same))
      | no other ↦ rw (if_neg _ other) h
    ]

Remembers-IsStable : (k : String) (txn : LedgerTransaction) → IsStable (Remembers k txn)
Remembers-IsStable k txn = record {
  new_account = λ id a l new zero h. h;
  new_transaction = written-Remembers k txn;
  new_time = λ t l h. h;
}

written-kept :
    (key : String) (entries : List Entry) (memo : String) (touched : Dict String Account)
    (l : Ledger) (txn : LedgerTransaction)
    → (write_transaction key entries memo touched l).0 ≡ ok txn
    → Remembers key txn (write_transaction key entries memo touched l).1
unfolding write_transaction
written-kept key entries memo touched l txn h = ground (arith, get-put_self l.by_key key txn)

post-Remembers :
    (key : String) (entries : List Entry) (memo : String) (expected : Option (Dict String ℕ))
    (l : Ledger) (txn : LedgerTransaction)
    → (Ledger.post key entries memo expected l).0 ≡ ok txn
    → Remembers key txn (Ledger.post key entries memo expected l).1
post-Remembers key entries memo expected l txn h = elim (post-Outcome key entries memo expected l) [
  | failed e p ↦ absurd (cc (ap (λ r. r.0) p, h))
  | replayed t seen p ↦ rw (ap (λ r. r.1) p) (cc (seen, ap (λ r. r.0) p, h))
  | written touched new p ↦
      rw (ap (λ r. r.1) p) (written-kept key entries memo touched l txn (ap (λ r. r.0) (sym p) ∙ h))
]

-- Once a key has returned a transaction, a retry with any entries that pass the first checks returns
-- the same transaction and changes nothing, whatever calls came in between.
pub retry_replays :
    (key : String) (entries : List Entry) (memo : String) (expected : Option (Dict String ℕ))
    (l : Ledger) (txn : LedgerTransaction) (calls : List Call) (again : List Entry) (memo' : String)
    (expected' : Option (Dict String ℕ)) (currency : String)
    → (Ledger.post key entries memo expected l).0 ≡ ok txn
    → check_entries again ≡ ok currency
    → let l' = run calls (Ledger.post key entries memo expected l).1 in
      Ledger.post key again memo' expected' l' ≡ (ok txn, l')
unfolding Ledger.post Ledger.post_locked
retry_replays key entries memo expected l txn calls again memo' expected' currency h fine =
    let seen =
      run-keeps (Remembers key txn) (Remembers-IsStable key txn) calls
        (Ledger.post key entries memo expected l).1
        (post-Remembers key entries memo expected l txn h) in
    rw (fine, Ledger.post, seen, Ledger.post_locked)
