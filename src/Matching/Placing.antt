-- ===== src/Matching/Placing.antt =====
-- What becomes of the rest of an order that was matched.
use hld_lld_interview_handbo.Prelude.{
  ℕ, ◌≡◌, inl, inr, refl, sym, ap, ◌∙◌, arith, ◌==◌, String, some, List, true, false, Bool-cases,
}
use mathlib.Core.Path.{subst}
use hld_lld_interview_handbo.Dict.{Dict, string_key, nat_key, get}
use hld_lld_interview_handbo.Dict.Laws.{get-put_self}
use hld_lld_interview_handbo.Common.Error.{Result, ok, err}
use hld_lld_interview_handbo.Matching.{Order, Trade, OrderBook, rest, filled, cancelled}
use hld_lld_interview_handbo.Matching.Engine.{
  MatchingEngine, set_object, place_rest, rest_object, resting_status, open_one, never_rests,
}
use hld_lld_interview_handbo.Matching.Records.{SameRecords}

-- The object with number `n` has the quantity left that `o` has.
abbrev pub HasLeft : ℕ → Order → MatchingEngine → Type 0
HasLeft n o e = (o' : Order) × (get e.book.objects n ≡ some o') × (o'.remaining ≡ o.remaining)

set_object-HasLeft :
    (n : ℕ) (o o' : Order) (e : MatchingEngine)
    → o'.remaining ≡ o.remaining
    → HasLeft n o (set_object n o' e)
set_object-HasLeft n o o' e h = (o', get-put_self e.book.objects n o', h)

rest-objects : (n : ℕ) (o : Order) (b : OrderBook) → (rest n o b).1.objects ≡ b.objects
unfolding rest
rest-objects n o b = ground arith

place_rest-filled :
    (n : ℕ) (o : Order) (trades : List Trade) (e : MatchingEngine)
    → (o.remaining == 0) ≡ true
    → place_rest n o trades e ≡ (ok tt, set_object n (record o { status = filled }) e)
unfolding place_rest
place_rest-filled n o trades e h = ground arith

place_rest-gone :
    (n : ℕ) (o : Order) (trades : List Trade) (e : MatchingEngine)
    → (o.remaining == 0) ≡ false
    → never_rests o ≡ true
    → place_rest n o trades e ≡ (ok tt, set_object n (record o { status = cancelled }) e)
unfolding place_rest
place_rest-gone n o trades e h k = ground arith

abbrev waiting : Order → List Trade → Order
waiting o trades = record o { status = resting_status trades }

abbrev opened : String → Result Unit × MatchingEngine → Result Unit × MatchingEngine
opened account r = (r.0, elim r.0 [ ok _ ↦ open_one account r.1 | err _ ↦ r.1 ])

place_rest-stays :
    (n : ℕ) (o : Order) (trades : List Trade) (e : MatchingEngine)
    → (o.remaining == 0) ≡ false
    → never_rests o ≡ false
    → place_rest n o trades e
      ≡ opened o.account_id (rest_object n (waiting o trades) (set_object n (waiting o trades) e))
unfolding place_rest
place_rest-stays n o trades e h k = ground arith

opened-SameRecords :
    (account : String) (e : MatchingEngine) (r : Result Unit × MatchingEngine)
    → SameRecords e r.1
    → SameRecords e (opened account r).1
opened-SameRecords account e (ok _, e') h = h
opened-SameRecords account e (err _, e') h = h

pub place_rest-HasLeft :
    (n : ℕ) (o : Order) (trades : List Trade) (e : MatchingEngine)
    → HasLeft n o (place_rest n o trades e).1 × ((place_rest n o trades e).1.orders ≡ e.orders)
place_rest-HasLeft n o trades e =
    let Goal : Result Unit × MatchingEngine → Type 0 =
      λ r. HasLeft n o r.1 × (r.1.orders ≡ e.orders) in
    elim (Bool-cases (o.remaining == 0)) [
      | inl done ↦
          subst Goal (sym (place_rest-filled n o trades e done))
            (set_object-HasLeft n o (record o { status = filled }) e refl, refl)
      | inr left ↦ elim (Bool-cases (never_rests o)) [
        | inl gone ↦
            subst Goal (sym (place_rest-gone n o trades e left gone))
              (set_object-HasLeft n o (record o { status = cancelled }) e refl, refl)
        | inr stays ↦
            let e1 : MatchingEngine = set_object n (waiting o trades) e in
            let r : Result Unit × MatchingEngine = rest_object n (waiting o trades) e1 in
            let same =
              opened-SameRecords o.account_id e1 r
                (refl, rest-objects n (waiting o trades) e1.book) in
            subst Goal (sym (place_rest-stays n o trades e left stays)) (
              (
                waiting o trades,
                ap (λ (m : Dict ℕ Order). get m n) same.1
                    ∙ get-put_self e.book.objects n (waiting o trades),
                refl,
              ),
              same.0,
            )
      ]
    ]

rest_object-ok :
    (n : ℕ) (o : Order) (trades : List Trade) (e : MatchingEngine)
    → never_rests o ≡ false
    → (rest_object n (waiting o trades) e).0 ≡ ok tt
unfolding rest
rest_object-ok n o trades e h = ground arith

-- What becomes of the rest of an order never raises.
pub place_rest-ok :
    (n : ℕ) (o : Order) (trades : List Trade) (e : MatchingEngine)
    → (place_rest n o trades e).0 ≡ ok tt
place_rest-ok n o trades e =
    let answer = λ (r : Result Unit × MatchingEngine). r.0 in
    elim (Bool-cases (o.remaining == 0)) [
      | inl done ↦ ap answer (place_rest-filled n o trades e done)
      | inr left ↦ elim (Bool-cases (never_rests o)) [
        | inl gone ↦ ap answer (place_rest-gone n o trades e left gone)
        | inr stays ↦
            ap answer (place_rest-stays n o trades e left stays)
            ∙ rest_object-ok n o trades (set_object n (waiting o trades) e) stays
      ]
    ]
