-- ===== src/Ledger.antt =====
-- `Ledger` of code/hld/ledger.py. An account is stored under its `account_id`, which the record
-- does not repeat. The lock is not modelled: each method is one step.
pub mod Changes
pub mod Posting
pub mod Calls
pub mod Funds
pub mod Statements
use hld_lld_interview_handbo.Prelude.{
  ℕ, ◌+◌, String, Option, none, some, List, [], ◌∷◌, ◌++◌, Bool, true, false, not, ◌&&◌, ite, ltb,
  ◌==◌, if◌then◌else◌, length, map, string_dec,
}
use hld_lld_interview_handbo.Prelude.Int.{ℤ, pos, ◌+ℤ◌, neg, leb_ℤ, ltb_ℤ, eqb_ℤ, sum_ℤ}
use hld_lld_interview_handbo.Dict.{Dict, string_key, empty, get, contains, put, keys, values}
use hld_lld_interview_handbo.Common.Error.{Result, ok, err, validation, not_found, conflict, ◌>>=◌}
use hld_lld_interview_handbo.Common.Action.{Action}
use hld_lld_interview_handbo.Common.Clock.{FakeClock}
use hld_lld_interview_handbo.Common.Ids.{Identifier, SequentialIdGenerator, next_id}
use hld_lld_interview_handbo.Common.Money.{Money, negate}

pub data AccountType : Type 0 where
  asset liability revenue expense : AccountType

unfoldable pub normal_is_debit : AccountType → Bool
normal_is_debit asset = true
normal_is_debit expense = true
normal_is_debit _ = false

pub record Account : Type 0 where
  pub type : AccountType
  pub currency : String
  pub allow_negative : Bool
  pub version : ℕ
  pub signed_cents : ℤ

-- The balance in its natural sign, in cents.
abbrev pub natural : Account → ℤ → ℤ
natural a signed = if normal_is_debit a.type then signed else neg signed

unfoldable pub account_balance : Account → Money
account_balance a = record { cents = natural a a.signed_cents; currency = a.currency }

pub record Entry : Type 0 where
  pub account_id : String
  pub amount : Money

unfoldable pub debit : String → Money → Result Entry
debit account_id amount =
    if leb_ℤ amount.cents (pos 0)
    then err validation
    else ok (record { account_id = account_id; amount = amount })

unfoldable pub credit : String → Money → Result Entry
unfolding negate
credit account_id amount =
    if leb_ℤ amount.cents (pos 0)
    then err validation
    else ok (record { account_id = account_id; amount = negate amount })

pub record LedgerTransaction : Type 0 where
  pub txn_id : Identifier
  pub idempotency_key : String
  pub entries : List Entry
  pub memo : String
  pub posted_at : ℤ

pub record Ledger : Type 0 where
  pub clock : FakeClock
  pub ids : SequentialIdGenerator
  pub accounts : Dict String Account
  pub txns : List LedgerTransaction
  pub by_key : Dict String LedgerTransaction

abbrev pub new_ledger : FakeClock → SequentialIdGenerator → Ledger
new_ledger clock ids = record {
  clock = clock;
  ids = ids;
  accounts = empty;
  txns = [];
  by_key = empty;
}

unfoldable pub open_account : String → AccountType → String → Bool → Action Ledger Account
open_account account_id type currency allow_negative l =
    let account : Account = record {
      type = type;
      currency = currency;
      allow_negative = allow_negative;
      version = 0;
      signed_cents = pos 0;
    } in
    if contains l.accounts account_id
    then (err conflict, l)
    else (ok account, record l { accounts = put l.accounts account_id account })

-- The set of the currencies of the entries.
unfoldable pub currencies : List Entry → Dict String Unit
currencies [] = empty
currencies (e ∷ entries) = put (currencies entries) e.amount.currency tt

abbrev pub amounts : List Entry → List ℤ
amounts = map (λ e. e.amount.cents)

-- `_resolve`: the accounts that the entries touch, each once.
unfoldable pub resolve :
    Dict String Account → String → List Entry → Dict String Account → Result (Dict String Account)
resolve accounts currency [] touched = ok touched
resolve accounts currency (e ∷ entries) touched = elim (get accounts e.account_id) [
  | none ↦ err not_found
  | some account ↦
      ite (string_dec account.currency currency)
        (resolve accounts currency entries (put touched e.account_id account)) (err validation)
]

-- `_check_versions`: the list `stale` is empty.
unfoldable pub fresh : Dict String Account → Dict String ℕ → Bool
fresh touched [] = true
fresh touched ((account_id, version) ∷ expected) = elim (get touched account_id) [
  | none ↦ fresh touched expected
  | some account ↦ account.version == version && fresh touched expected
]

unfoldable pub check_versions : Dict String Account → Option (Dict String ℕ) → Result Unit
check_versions touched none = ok tt
check_versions touched (some expected) = if fresh touched expected then ok tt else err conflict

abbrev pub or_zero : Option ℤ → ℤ
or_zero none = pos 0
or_zero (some n) = n

-- The dict `after` of `_check_funds`: what each account gains.
unfoldable pub gains : List Entry → Dict String ℤ → Dict String ℤ
gains [] after = after
gains (e ∷ entries) after =
    gains entries (put after e.account_id (or_zero (get after e.account_id) +ℤ e.amount.cents))

abbrev pub covers : Option Account → ℤ → Bool
covers none delta = true
covers (some a) delta =
    if a.allow_negative then true else not (ltb_ℤ (natural a (a.signed_cents +ℤ delta)) (pos 0))

unfoldable pub covered : Dict String Account → Dict String ℤ → Bool
covered touched [] = true
covered touched ((account_id, delta) ∷ after) =
    covers (get touched account_id) delta && covered touched after

unfoldable pub check_funds : Dict String Account → List Entry → Result Unit
check_funds touched entries = if covered touched (gains entries empty) then ok tt else err conflict

-- A change of the account object that is stored under an identifier.
unfoldable pub change : String → (Account → Account) → Dict String Account → Dict String Account
change account_id f accounts = elim (get accounts account_id) [
  | none ↦ accounts
  | some a ↦ put accounts account_id (f a)
]

abbrev pub add_cents : ℤ → Account → Account
add_cents n a = record a { signed_cents = a.signed_cents +ℤ n }

abbrev pub bump : Account → Account
bump a = record a { version = a.version + 1 }

unfoldable pub apply_entries : List Entry → Dict String Account → Dict String Account
apply_entries [] accounts = accounts
apply_entries (e ∷ entries) accounts =
    apply_entries entries (change e.account_id (add_cents e.amount.cents) accounts)

unfoldable pub bump_all : List String → Dict String Account → Dict String Account
bump_all [] accounts = accounts
bump_all (account_id ∷ rest) accounts = bump_all rest (change account_id bump accounts)

-- The last part of `post`: the checks have passed.
unfoldable pub write_transaction :
    String → List Entry → String → Dict String Account → Action Ledger LedgerTransaction
unfolding next_id
write_transaction key entries memo touched l =
    let (id, ids) = next_id l.ids in
    let txn : LedgerTransaction = record {
      txn_id = id;
      idempotency_key = key;
      entries = entries;
      memo = memo;
      posted_at = l.clock.now;
    } in
    (
      ok txn,
      record l {
        ids = ids;
        accounts = bump_all (keys touched) (apply_entries entries l.accounts);
        txns = l.txns ++ txn ∷ [];
        by_key = put l.by_key key txn;
      },
    )

-- The checks that read the accounts: the touched accounts, or the error.
unfoldable pub check_accounts :
    Ledger → List Entry → String → Option (Dict String ℕ) → Result (Dict String Account)
check_accounts l entries currency expected = do
  touched ← resolve l.accounts currency entries empty
  check_versions touched expected >>= λ _. check_funds touched entries >>= λ _. ok touched

-- Under the lock: a replay, or the accounts are checked and written.
unfoldable pub post_locked :
    String → List Entry → String → Option (Dict String ℕ) → String → Action Ledger LedgerTransaction
post_locked key entries memo expected currency l = elim (get l.by_key key) [
  | some txn ↦ (ok txn, l)
  | none ↦ elim (check_accounts l entries currency expected) [
    | err e ↦ (err e, l)
    | ok touched ↦ write_transaction key entries memo touched l
  ]
]

-- The currency, if the entries are two or more, in one currency, and balance.
unfoldable pub check_entries : List Entry → Result String
check_entries entries =
    if ltb (length entries) 2 then err validation else elim (keys (currencies entries)) [
      | currency ∷ [] ↦
          if eqb_ℤ (sum_ℤ (amounts entries)) (pos 0) then ok currency else err validation
      | _ ↦ err validation
    ]

unfoldable pub post :
    String → List Entry → String → Option (Dict String ℕ) → Action Ledger LedgerTransaction
post key entries memo expected l = elim (check_entries entries) [
  | err e ↦ (err e, l)
  | ok currency ↦ post_locked key entries memo expected currency l
]

unfoldable pub balance : String → Ledger → Result Money
balance account_id l = elim (get l.accounts account_id) [
  | none ↦ err not_found
  | some a ↦ ok (account_balance a)
]

unfoldable pub version : String → Ledger → Result ℕ
version account_id l = elim (get l.accounts account_id) [
  | none ↦ err not_found
  | some a ↦ ok a.version
]

unfoldable pub trial_balance : Ledger → ℤ
trial_balance l = sum_ℤ (map (λ a. a.signed_cents) (values l.accounts))

-- The lines of one transaction that touch an account.
unfoldable pub lines : String → Identifier → List Entry → List (Identifier × Money)
lines account_id txn_id [] = []
lines account_id txn_id (e ∷ entries) =
    let rest = lines account_id txn_id entries in
    ite (string_dec e.account_id account_id) ((txn_id, e.amount) ∷ rest) rest

unfoldable pub statement_of : String → List LedgerTransaction → List (Identifier × Money)
unfolding lines
statement_of account_id [] = []
statement_of account_id (t ∷ txns) =
    lines account_id t.txn_id t.entries ++ statement_of account_id txns

abbrev pub statement : String → Ledger → List (Identifier × Money)
statement account_id l = statement_of account_id l.txns
