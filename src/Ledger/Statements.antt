-- ===== src/Ledger/Statements.antt =====
-- A balance is what the statement of the account sums to.
use hld_lld_interview_handbo.Prelude.{
  ℕ, String, ◌≡◌, ◌∙◌, refl, sym, ap, Option, none, some, List, [], ◌∷◌, ◌++◌, arith, false,
  Bool-cases, inl, inr, Option-cases, map, append-nil,
}
use hld_lld_interview_handbo.Prelude.Int.{ℤ, pos, ◌+ℤ◌, +ℤ-zero, +ℤ_assoc, zero-+ℤ, sum_ℤ}
use hld_lld_interview_handbo.Dict.{Dict, string_key, get, empty}
use hld_lld_interview_handbo.Dict.Laws.{get-put}
use hld_lld_interview_handbo.Common.Clock.{FakeClock}
use hld_lld_interview_handbo.Common.Ids.{Identifier, SequentialIdGenerator}
use hld_lld_interview_handbo.Common.Money.{Money}
use hld_lld_interview_handbo.Ledger.{
  Ledger, new_ledger, Account, Entry, LedgerTransaction, lines, statement_of, statement,
  write_transaction,
}
use hld_lld_interview_handbo.Ledger.Calls.{Call, run, IsStable, run-keeps}
use hld_lld_interview_handbo.Ledger.Changes.{changed, gain, AllKnown}
use hld_lld_interview_handbo.Ledger.Posting.{
  IsNew, mentions, mentions-known, posted, resolve_lem, write_transaction-accounts,
}

abbrev pub cents_of : List (Identifier × Money) → ℤ
cents_of l = sum_ℤ (map (λ p. p.1.cents) l)

cents_of-append :
    (xs ys : List (Identifier × Money)) → cents_of (xs ++ ys) ≡ cents_of xs +ℤ cents_of ys
cents_of-append [] ys = sym (zero-+ℤ (cents_of ys))
cents_of-append (x ∷ xs) ys =
    rw (cents_of-append xs ys) (sym (+ℤ_assoc x.1.cents (cents_of xs) (cents_of ys)))

cents_of-lines :
    (j : String) (id : Identifier) (entries : List Entry)
    → cents_of (lines j id entries) ≡ gain j entries
unfolding lines gain
cents_of-lines j id [] = refl
cents_of-lines j id (e ∷ entries) = ground (arith, cents_of-lines j id entries)

statement_of-append :
    (j : String) (txns : List LedgerTransaction) (t : LedgerTransaction)
    → cents_of (statement_of j (txns ++ t ∷ []))
      ≡ cents_of (statement_of j txns) +ℤ gain j t.entries
unfolding statement_of
statement_of-append j [] t =
    rw (append-nil, cents_of-lines j t.txn_id t.entries) (sym (zero-+ℤ (gain j t.entries)))
statement_of-append j (u ∷ txns) t =
    rw
      (
        cents_of-append (lines j u.txn_id u.entries) (statement_of j (txns ++ t ∷ [])),
        cents_of-append (lines j u.txn_id u.entries) (statement_of j txns),
        statement_of-append j txns t,
      )
      (sym (+ℤ_assoc _ _ _))

abbrev signed_of : Option Account → ℤ
signed_of none = pos 0
signed_of (some a) = a.signed_cents

abbrev IsStated : Ledger → Type 0
IsStated l = (j : String) → signed_of (get l.accounts j) ≡ cents_of (statement j l)

pub gain_unmentioned :
    (j : String) (entries : List Entry) → mentions j entries ≡ false → gain j entries ≡ pos 0
unfolding gain
gain_unmentioned j [] h = refl
gain_unmentioned j (e ∷ entries) h = ground (arith, gain_unmentioned j entries)

signed_of-posted :
    (accounts : Dict String Account) (entries : List Entry) (j : String)
    → AllKnown accounts entries
    → signed_of (changed (posted j entries) (get accounts j))
      ≡ signed_of (get accounts j) +ℤ gain j entries
signed_of-posted accounts entries j known = elim (Option-cases (get accounts j)) [
  | inr (a, e) ↦ rw e
  | inl e ↦ elim (Bool-cases (mentions j entries)) [
    | inl m ↦ absurd (cc (mentions-known accounts entries j known m, e))
    | inr m ↦ rw (e, gain_unmentioned j entries m) (sym (+ℤ-zero (pos 0)))
  ]
]

written-IsStated :
    (key : String) (entries : List Entry) (memo : String) (expected : Option (Dict String ℕ))
    (touched : Dict String Account) (l : Ledger)
    → IsNew l key entries expected touched
    → IsStated l
    → IsStated (write_transaction key entries memo touched l).1
written-IsStated key entries memo expected touched l new h j =
    let (known, _, _) =
      resolve_lem l.accounts new.resolved.0 entries empty touched new.resolved.1 in
    ap signed_of (write_transaction-accounts l key entries memo expected touched new j)
    ∙ signed_of-posted l.accounts entries j known
    ∙ rw (h j) (unfold write_transaction in sym (statement_of-append j l.txns _))

IsStated-IsStable : IsStable IsStated
IsStated-IsStable = record {
  new_account = λ id a l new zero h j. ground (arith, get-put l.accounts id a j, h j, h id);
  new_transaction = written-IsStated;
  new_time = λ t l h. h;
}

-- After any calls on a new ledger the signed balance of every account is the sum of the amounts on
-- its statement.
pub balance-statement :
    (calls : List Call) (clock : FakeClock) (ids : SequentialIdGenerator) (id : String)
    (a : Account)
    → get (run calls (new_ledger clock ids)).accounts id ≡ some a
    → a.signed_cents ≡ cents_of (statement id (run calls (new_ledger clock ids)))
balance-statement calls clock ids id a h =
    ap signed_of (sym h)
    ∙ run-keeps IsStated IsStated-IsStable calls (new_ledger clock ids)
        (λ j. unfold get statement_of in refl) id
