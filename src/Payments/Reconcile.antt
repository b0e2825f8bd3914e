-- ===== src/Payments/Reconcile.antt =====
-- The settlement reconciliation of code/hld/ledger.py.
use hld_lld_interview_handbo.Prelude.{
  String, string_dec, none, some, List, [], ◌∷◌, Bool, true, false, ◌&&◌, if◌then◌else◌, ite,
}
use hld_lld_interview_handbo.Prelude.Int.{eqb_ℤ}
use hld_lld_interview_handbo.Dict.{Dict, string_key, get, put, contains}
use hld_lld_interview_handbo.Common.Money.{Money}
use hld_lld_interview_handbo.Common.Sorting.{sort_items}

pub record SettlementRow : Type 0 where
  pub payment_id : String
  pub amount : Money

pub record ReconciliationReport : Type 0 where
  pub matched : List String
  pub missing_in_ledger : List String
  pub missing_at_provider : List String
  pub amount_mismatch : List (String × (Money × Money))

abbrev pub is_nil {ℓ} : {A : Type ℓ} → List A → Bool
is_nil [] = true
is_nil (x ∷ xs) = false

abbrev pub is_clean : ReconciliationReport → Bool
is_clean r =
    is_nil r.missing_in_ledger && (is_nil r.missing_at_provider && is_nil r.amount_mismatch)

-- `{row.payment_id: row.amount for row in theirs}`: the last row of an identifier wins.
unfoldable pub amounts_by_id : Dict String Money → List SettlementRow → Dict String Money
amounts_by_id amounts [] = amounts
amounts_by_id amounts (row ∷ rows) = amounts_by_id (put amounts row.payment_id row.amount) rows

abbrev pub same_money : Money → Money → Bool
same_money a b = eqb_ℤ a.cents b.cents && ite (string_dec a.currency b.currency) true false

-- The loop over our payments, for the two lists that it fills.
unfoldable pub matches : Dict String Money → Dict String Money → List String
matches theirs [] = []
matches theirs ((payment_id, amount) ∷ ours) =
    let rest = matches theirs ours in
    elim (get theirs payment_id) [
      | none ↦ rest
      | some other ↦ if same_money other amount then payment_id ∷ rest else rest
    ]

unfoldable pub mismatches : Dict String Money → Dict String Money → List (String × (Money × Money))
mismatches theirs [] = []
mismatches theirs ((payment_id, amount) ∷ ours) =
    let rest = mismatches theirs ours in
    elim (get theirs payment_id) [
      | none ↦ rest
      | some other ↦ if same_money other amount then rest else (payment_id, (amount, other)) ∷ rest
    ]

-- `sorted(set(xs) - set(ys))`, of the sorted items of `xs`.
unfoldable pub only_in : Dict String Money → Dict String Money → List String
only_in [] ys = []
only_in ((payment_id, amount) ∷ xs) ys =
    let rest = only_in xs ys in if contains ys payment_id then rest else payment_id ∷ rest

unfoldable pub reconcile : Dict String Money → List SettlementRow → ReconciliationReport
reconcile ours rows =
    let theirs = amounts_by_id [] rows in
    record {
      matched = matches theirs (sort_items ours);
      missing_in_ledger = only_in (sort_items theirs) ours;
      missing_at_provider = only_in (sort_items ours) theirs;
      amount_mismatch = mismatches theirs (sort_items ours);
    }
