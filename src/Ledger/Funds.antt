-- ===== src/Ledger/Funds.antt =====
-- No account that may not go negative ever does.
use hld_lld_interview_handbo.Prelude.{
  ℕ, String, ◌≡◌, ◌∙◌, refl, ap, Option, none, some, List, [], ◌∷◌, arith, true, false, Bool-cases,
  inl, inr, string_dec, Option-cases, if◌then◌else◌,
}
use mathlib.Core.Path.{subst}
use hld_lld_interview_handbo.Prelude.Int.{ℤ, pos, neg, ◌+ℤ◌, ◌≤ℤ◌, +ℤ-zero, +ℤ_assoc, zero-+ℤ}
use hld_lld_interview_handbo.Dict.{Dict, string_key, get, put, empty}
use hld_lld_interview_handbo.Dict.Laws.{get-put}
use hld_lld_interview_handbo.Common.Clock.{FakeClock}
use hld_lld_interview_handbo.Common.Error.{ok}
use hld_lld_interview_handbo.Common.Ids.{SequentialIdGenerator}
use hld_lld_interview_handbo.Ledger.{
  Ledger, new_ledger, Account, Entry, natural, or_zero, gains, covers, covered, check_funds,
  write_transaction, account_balance,
}
use hld_lld_interview_handbo.Ledger.Calls.{Call, run, IsStable, run-keeps}
use hld_lld_interview_handbo.Ledger.Changes.{changed, gain}
use hld_lld_interview_handbo.Ledger.Posting.{
  IsNew, mentions, posted, resolve_lem, write_transaction-accounts,
}
use hld_lld_interview_handbo.Ledger.Statements.{gain_unmentioned}

get-gains :
    (entries : List Entry) (after : Dict String ℤ) (j : String)
    → get (gains entries after) j
      ≡ (if mentions j entries then some (or_zero (get after j) +ℤ gain j entries) else get after j)
unfolding gains gain
get-gains [] after j = refl
get-gains (e ∷ entries) after j =
    let n = or_zero (get after e.account_id) +ℤ e.amount.cents in
    get-gains entries (put after e.account_id n) j
    ∙ ground (
      arith,
      get-put after e.account_id n j,
      +ℤ_assoc (or_zero (get after e.account_id)) e.amount.cents (gain j entries),
      gain_unmentioned j entries,
      +ℤ-zero e.amount.cents,
    )

covered_lem :
    (touched : Dict String Account) (after : Dict String ℤ) (j : String) (delta : ℤ)
    → covered touched after ≡ true
    → get after j ≡ some delta
    → covers (get touched j) delta ≡ true
unfolding covered get
covered_lem touched [] j delta c h = absurd (cc h)
covered_lem touched ((k, d) ∷ after) j delta c h = ground (arith, covered_lem touched after j delta)

-- In its natural sign the balance is not negative, unless the account may go negative.
abbrev pub IsCovered : Account → Type 0
IsCovered a = a.allow_negative ≡ false → pos 0 ≤ℤ natural a a.signed_cents

covers-IsCovered :
    (a : Account) (j : String) (entries : List Entry)
    → covers (some a) (gain j entries) ≡ true
    → IsCovered (posted j entries a)
covers-IsCovered a j entries c n = ground arith

abbrev AllCovered : Ledger → Type 0
AllCovered l = (j : String) (a : Account) → get l.accounts j ≡ some a → IsCovered a

posted-IsCovered :
    (touched accounts : Dict String Account) (entries : List Entry) (j : String) (a : Account)
    → check_funds touched entries ≡ ok tt
    → get touched j ≡ (if mentions j entries then get accounts j else none)
    → get accounts j ≡ some a
    → IsCovered a
    → IsCovered (posted j entries a)
unfolding check_funds get
posted-IsCovered touched accounts entries j a funded gets found h =
    elim (Bool-cases (mentions j entries)) [
      | inl m ↦
          let here : get touched j ≡ some a = ground arith in
          let total : get (gains entries empty) j ≡ some (gain j entries) =
            ground (arith, get-gains entries [] j, zero-+ℤ (gain j entries)) in
          covers-IsCovered a j entries (
            subst (λ o. covers o (gain j entries) ≡ true) here
              (covered_lem touched (gains entries empty) j (gain j entries) (ground arith) total))
      | inr m ↦ ground (arith, gain_unmentioned j entries m, +ℤ-zero a.signed_cents)
    ]

written-AllCovered :
    (key : String) (entries : List Entry) (memo : String) (expected : Option (Dict String ℕ))
    (touched : Dict String Account) (l : Ledger)
    → IsNew l key entries expected touched
    → AllCovered l
    → AllCovered (write_transaction key entries memo touched l).1
written-AllCovered key entries memo expected touched l new h j b found =
    let (_, gets, _) = resolve_lem l.accounts new.resolved.0 entries empty touched new.resolved.1 in
    let now = write_transaction-accounts l key entries memo expected touched new j in
    elim (Option-cases (get l.accounts j)) [
      | inl missing ↦ absurd (cc (now, found, ap (changed (posted j entries)) missing))
      | inr (a, old) ↦
          let same : posted j entries a ≡ b =
            cc (now, found, ap (changed (posted j entries)) old) in
          subst IsCovered same (
            posted-IsCovered touched l.accounts entries j a new.funded (unfold get in gets j) old
              (h j a old))
    ]

fresh-IsCovered : (a : Account) → a.signed_cents ≡ pos 0 → IsCovered a
unfolding neg
fresh-IsCovered a zero n = rw zero (ground arith)

opened-AllCovered :
    (id : String) (a : Account) (l : Ledger)
    → get l.accounts id ≡ none
    → a.signed_cents ≡ pos 0
    → AllCovered l
    → AllCovered (record l { accounts = put l.accounts id a })
opened-AllCovered id a l new zero h j b found = elim (string_dec id j) [
  | yes p ↦
      let same : a ≡ b = ground (arith, get-put l.accounts id a j) in
      subst IsCovered same (fresh-IsCovered a zero)
  | no n ↦ h j b (ground (arith, get-put l.accounts id a j))
]

AllCovered-IsStable : IsStable AllCovered
AllCovered-IsStable = record {
  new_account = opened-AllCovered;
  new_transaction = written-AllCovered;
  new_time = λ t l h. h;
}

-- After any calls on a new ledger, an account that may not go negative has a balance of zero or
-- more in its natural sign.
pub no_overdraft :
    (calls : List Call) (clock : FakeClock) (ids : SequentialIdGenerator) (id : String)
    (a : Account)
    → get (run calls (new_ledger clock ids)).accounts id ≡ some a
    → a.allow_negative ≡ false
    → pos 0 ≤ℤ (account_balance a).cents
unfolding account_balance
no_overdraft calls clock ids id a =
    run-keeps AllCovered AllCovered-IsStable calls (new_ledger clock ids)
      (λ j b found. absurd (unfold get in cc found)) id a
