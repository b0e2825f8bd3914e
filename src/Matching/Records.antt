-- ===== src/Matching/Records.antt =====
-- Releasing the makers that are filled leaves the records of orders alone.
use hld_lld_interview_handbo.Prelude.{
  All, ◌⊎◌, ◌≡◌, inl, inr, refl, sym, ◌∙◌, arith, String, none, some, List, [], ◌∷◌, true, false,
  Bool-cases, Option-cases,
}
use mathlib.Core.Path.{subst}
use hld_lld_interview_handbo.Dict.{string_key, nat_key, get}
use hld_lld_interview_handbo.Common.Error.{Result, ok, err, key_error}
use hld_lld_interview_handbo.Common.Action.{Action, continue, ◌>>◌}
use hld_lld_interview_handbo.Matching.{Order, Trade}
use hld_lld_interview_handbo.Matching.Engine.{
  MatchingEngine, close_one, object_of, maker_id, is_filled, release_filled_makers,
}

-- The records of orders are as before.
abbrev pub SameRecords : MatchingEngine → MatchingEngine → Type 0
SameRecords e e' = (e'.orders ≡ e.orders) × (e'.book.objects ≡ e.book.objects)

close_one-SameRecords :
    (account : String) (e : MatchingEngine) → SameRecords e (close_one account e).1
unfolding close_one
close_one-SameRecords account e = ground arith

release-missing :
    (t : Trade) (trades : List Trade) (e : MatchingEngine)
    → object_of (maker_id t) e ≡ none
    → release_filled_makers (t ∷ trades) e ≡ (err key_error, e)
unfolding release_filled_makers
release-missing t trades e h = rw (h, release_filled_makers) refl

release-open :
    (t : Trade) (trades : List Trade) (e : MatchingEngine) (maker : Order)
    → object_of (maker_id t) e ≡ some maker
    → is_filled maker.status ≡ false
    → release_filled_makers (t ∷ trades) e ≡ release_filled_makers trades e
unfolding release_filled_makers
release-open t trades e maker h k = rw (h, release_filled_makers) (rw k refl)

release-filled :
    (t : Trade) (trades : List Trade) (e : MatchingEngine) (maker : Order)
    → object_of (maker_id t) e ≡ some maker
    → is_filled maker.status ≡ true
    → release_filled_makers (t ∷ trades) e
      ≡ (close_one maker.account_id >> release_filled_makers trades) e
unfolding release_filled_makers
release-filled t trades e maker h k = rw (h, release_filled_makers) (rw k refl)

then-SameRecords :
    (k : Action MatchingEngine Unit) (e : MatchingEngine) (r : Result Unit × MatchingEngine)
    → SameRecords e r.1
    → SameRecords r.1 (k r.1).1
    → SameRecords e (continue r.0 (λ _. k) r.1).1
then-SameRecords k e (ok _, e') h l = (l.0 ∙ h.0, l.1 ∙ h.1)
then-SameRecords k e (err _, e') h l = h

pub release-SameRecords :
    (trades : List Trade) (e : MatchingEngine) → SameRecords e (release_filled_makers trades e).1
unfolding release_filled_makers
release-SameRecords [] e = (refl, refl)
release-SameRecords (t ∷ trades) e = elim (Option-cases (object_of (maker_id t) e)) [
  | inl e' ↦
      subst (λ (r : Result Unit × MatchingEngine). SameRecords e r.1)
        (sym (release-missing t trades e e')) (refl, refl)
  | inr (maker, e') ↦ elim (Bool-cases (is_filled maker.status)) [
    | inr open_still ↦
        subst (λ (r : Result Unit × MatchingEngine). SameRecords e r.1)
          (sym (release-open t trades e maker e' open_still)) (release-SameRecords trades e)
    | inl full ↦
        let r : Result Unit × MatchingEngine = close_one maker.account_id e in
        subst (λ (r : Result Unit × MatchingEngine). SameRecords e r.1)
          (sym (release-filled t trades e maker e' full))
          (then-SameRecords (release_filled_makers trades) e r
            (close_one-SameRecords maker.account_id e) (release-SameRecords trades r.1))
  ]
]

-- The maker of a trade is not on record, or its account has no count of open orders.
abbrev pub IsUncounted : Trade → MatchingEngine → Type 0
IsUncounted t e =
    (object_of (maker_id t) e ≡ none)
    ⊎ ((maker : Order) × (object_of (maker_id t) e ≡ some maker)
        × (get e.open_per_account maker.account_id ≡ none))

-- The only reason for which a release raises, for trades that all have the property `P`.
abbrev pub IsBlamed : (Trade → Type 0) → Result Unit × MatchingEngine → Type 0
IsBlamed P (ok _, e) = Unit
IsBlamed P (err x, e) = (x ≡ key_error) × ((t : Trade) × P t × IsUncounted t e)

counted-IsBlamed :
    (P : Trade → Type 0) (t : Trade) (maker : Order) (e : MatchingEngine)
    (k : Action MatchingEngine Unit)
    → P t
    → object_of (maker_id t) e ≡ some maker
    → ((e' : MatchingEngine) → IsBlamed P (k e'))
    → IsBlamed P ((close_one maker.account_id >> k) e)
unfolding close_one
counted-IsBlamed P t maker e k h found later =
    elim (Option-cases (get e.open_per_account maker.account_id)) [
      | inl missing ↦ rw (missing, close_one) (refl, (t, h, inr (maker, found, missing)))
      | inr (count, there) ↦ rw (there, close_one) (later _)
    ]

pub release-IsBlamed :
    (P : Trade → Type 0) (trades : List Trade) (e : MatchingEngine)
    → All P trades
    → IsBlamed P (release_filled_makers trades e)
unfolding release_filled_makers
release-IsBlamed P [] e h = tt
release-IsBlamed P (t ∷ trades) e h = elim (Option-cases (object_of (maker_id t) e)) [
  | inl missing ↦
      subst (IsBlamed P) (sym (release-missing t trades e missing)) (refl, (t, h.0, inl missing))
  | inr (maker, found) ↦ elim (Bool-cases (is_filled maker.status)) [
    | inr open_still ↦
        subst (IsBlamed P) (sym (release-open t trades e maker found open_still))
          (release-IsBlamed P trades e h.1)
    | inl full ↦ subst (IsBlamed P) (sym (release-filled t trades e maker found full)) (
        counted-IsBlamed P t maker e (release_filled_makers trades) h.0 found
          λ e'. release-IsBlamed P trades e' h.1)
  ]
]
