-- ===== src/Tests/LedgerRuns.antt =====
-- A ledger on which a customer pays a merchant.
use hld_lld_interview_handbo.Prelude.{
  ◌≡◌, refl, String, none, some, List, [], ◌∷◌, true, false, string_dec,
}
use hld_lld_interview_handbo.Prelude.Int.{ℤ, pos, negsuc, ◌≤ℤ◌, ◌+ℤ◌, neg}
use hld_lld_interview_handbo.Dict.{get, put, string_key}
use hld_lld_interview_handbo.Common.Error.{ok, err, not_found}
use hld_lld_interview_handbo.Common.Clock.{FakeClock}
use hld_lld_interview_handbo.Common.Ids.{SequentialIdGenerator, next_id}
use hld_lld_interview_handbo.Ledger
use hld_lld_interview_handbo.Ledger.{
  asset, liability, Account, Entry, LedgerTransaction, account_balance, new_ledger, trial_balance,
  statement, check_entries,
}
use hld_lld_interview_handbo.Ledger.Calls
use hld_lld_interview_handbo.Ledger.Calls.{
  Call, open_account, post, run, trial_balance_zero, retry_replays,
}
use hld_lld_interview_handbo.Ledger.Changes.{changed}
use hld_lld_interview_handbo.Ledger.Posting.{posted, post_effect, post_atomic}
use hld_lld_interview_handbo.Ledger.Funds.{no_overdraft}
use hld_lld_interview_handbo.Ledger.Statements.{cents_of, balance-statement}

abbrev clock : FakeClock
clock = record { now = pos 100 }

abbrev ids : SequentialIdGenerator
ids = record { prefix = "txn"; counter = 1 }

abbrev leg : String → ℤ → Entry
leg id cents = record { account_id = id; amount = record { cents = cents; currency = "USD" } }

-- Cash comes in against what is owed to the merchant.
abbrev payment : List Entry
payment = leg "cash" (pos 500) ∷ leg "merchant" (negsuc 499) ∷ []

abbrev opening : List Call
opening = open_account "cash" asset "USD" false ∷ open_account "merchant" liability "USD" true ∷ []

abbrev calls : List Call
calls =
    open_account "cash" asset "USD" false
    ∷ open_account "merchant" liability "USD" true
    ∷ post "order-1" payment "first" none
    ∷ post "order-1" payment "retry" none
    ∷ post "order-2" (leg "cash" (negsuc 799) ∷ leg "merchant" (pos 800) ∷ []) "too much" none
    ∷ []

abbrev cash : Account
cash = record {
  type = asset;
  currency = "USD";
  allow_negative = false;
  version = 1;
  signed_cents = pos 500;
}

trial_balance_zero_example : trial_balance (run calls (new_ledger clock ids)) ≡ pos 0
trial_balance_zero_example = trial_balance_zero calls clock ids

cash_found : get (run calls (new_ledger clock ids)).accounts "cash" ≡ some cash
unfolding run get Calls.apply Ledger.post check_entries Ledger.currencies put string_dec ◌+ℤ◌
    Ledger.post_locked Ledger.open_account Ledger.check_accounts Ledger.resolve
    Ledger.check_versions Ledger.check_funds Ledger.covered Ledger.gains Ledger.normal_is_debit
    next_id Ledger.apply_entries Ledger.bump_all Ledger.change Ledger.fresh Ledger.write_transaction
    neg
cash_found = refl

no_overdraft_example : pos 0 ≤ℤ (account_balance cash).cents
no_overdraft_example = no_overdraft calls clock ids "cash" cash cash_found refl

balance-statement_example :
    cash.signed_cents ≡ cents_of (statement "cash" (run calls (new_ledger clock ids)))
balance-statement_example = balance-statement calls clock ids "cash" cash cash_found

abbrev opened : Ledger.Ledger
opened = run opening (new_ledger clock ids)

abbrev first : LedgerTransaction
first = record {
  txn_id = record { prefix = "txn"; number = 1 };
  idempotency_key = "order-1";
  entries = payment;
  memo = "first";
  posted_at = pos 100;
}

posted_first : (Ledger.post "order-1" payment "first" none opened).0 ≡ ok first
unfolding run get Calls.apply Ledger.post check_entries Ledger.currencies put string_dec ◌+ℤ◌
    Ledger.post_locked Ledger.open_account Ledger.check_accounts Ledger.resolve
    Ledger.check_versions Ledger.check_funds Ledger.covered Ledger.gains Ledger.normal_is_debit
    next_id Ledger.apply_entries Ledger.bump_all Ledger.change Ledger.fresh Ledger.write_transaction
    neg
posted_first = refl

not_posted : get opened.by_key "order-1" ≡ none
unfolding run get Calls.apply Ledger.post check_entries Ledger.currencies put string_dec ◌+ℤ◌
    Ledger.post_locked Ledger.open_account Ledger.check_accounts Ledger.resolve
    Ledger.check_versions Ledger.check_funds Ledger.covered Ledger.gains Ledger.normal_is_debit
    next_id Ledger.apply_entries Ledger.bump_all Ledger.change Ledger.fresh Ledger.write_transaction
    neg
not_posted = refl

post_effect_example :
    get (Ledger.post "order-1" payment "first" none opened).1.accounts "merchant"
    ≡ changed (posted "merchant" payment) (get opened.accounts "merchant")
post_effect_example =
    post_effect "order-1" payment "first" none opened first posted_first not_posted "merchant"

no_accounts : (Ledger.post "order-1" payment "first" none (new_ledger clock ids)).0 ≡ err not_found
unfolding run get Calls.apply Ledger.post check_entries Ledger.currencies put string_dec ◌+ℤ◌
    Ledger.post_locked Ledger.open_account Ledger.check_accounts Ledger.resolve
    Ledger.check_versions Ledger.check_funds Ledger.covered Ledger.gains Ledger.normal_is_debit
    next_id Ledger.apply_entries Ledger.bump_all Ledger.change Ledger.fresh Ledger.write_transaction
    neg
no_accounts = refl

post_atomic_example :
    (Ledger.post "order-1" payment "first" none (new_ledger clock ids)).1 ≡ new_ledger clock ids
post_atomic_example =
    post_atomic "order-1" payment "first" none (new_ledger clock ids) not_found no_accounts

payment_fine : check_entries payment ≡ ok "USD"
unfolding run get Calls.apply Ledger.post check_entries Ledger.currencies put string_dec ◌+ℤ◌
    Ledger.post_locked Ledger.open_account Ledger.check_accounts Ledger.resolve
    Ledger.check_versions Ledger.check_funds Ledger.covered Ledger.gains Ledger.normal_is_debit
    next_id Ledger.apply_entries Ledger.bump_all Ledger.change Ledger.fresh Ledger.write_transaction
    neg
payment_fine = refl

retry_replays_example :
    let l' = run calls (Ledger.post "order-1" payment "first" none opened).1 in
    Ledger.post "order-1" payment "again" none l' ≡ (ok first, l')
retry_replays_example =
    retry_replays "order-1" payment "first" none opened first calls payment "again" none "USD"
      posted_first payment_fine
