-- ===== src/Matching/Match/Cases.antt =====
-- The branches of the two loops of `match`.
use hld_lld_interview_handbo.Prelude.{
  ℕ, suc, ◌≡◌, inl, inr, arith, ◌==◌, String, none, some, List, ◌∷◌, true, false, Bool-cases,
  Option-cases,
}
use hld_lld_interview_handbo.Dict.{nat_key, string_key, get}
use hld_lld_interview_handbo.Matching.{opposite, Order, is_live, best, crosses}
use hld_lld_interview_handbo.Matching.Match.{Progress, hit, execute, fill_queue, sweep, match_from}

-- What the inner loop does at the head of its queue.
pub data IsFill (symbol : String) (price n : ℕ) (queue : List ℕ) (f : Progress)
    : List ℕ × Progress → Type 0 where
  stops :
      {r : List ℕ × Progress}
      → (f.taker.remaining == 0) ≡ true
      → r ≡ (n ∷ queue, f)
      → IsFill symbol price n queue f r
  skips :
      {r : List ℕ × Progress}
      → r ≡ fill_queue symbol price queue f
      → IsFill symbol price n queue f r
  ends :
      {r : List ℕ × Progress} (maker : Order)
      → get f.book.objects n ≡ some maker
      → (f.taker.remaining == 0) ≡ false
      → is_live maker ≡ true
      → ((hit f.taker maker).remaining == 0) ≡ false
      → r ≡ (n ∷ queue, execute symbol price n maker f)
      → IsFill symbol price n queue f r
  goes_on :
      {r : List ℕ × Progress} (maker : Order)
      → get f.book.objects n ≡ some maker
      → (f.taker.remaining == 0) ≡ false
      → is_live maker ≡ true
      → r ≡ fill_queue symbol price queue (execute symbol price n maker f)
      → IsFill symbol price n queue f r

pub IsFill-cases :
    (symbol : String) (price n : ℕ) (queue : List ℕ) (f : Progress)
    → IsFill symbol price n queue f (fill_queue symbol price (n ∷ queue) f)
unfolding fill_queue
IsFill-cases symbol price n queue f = elim (Bool-cases (f.taker.remaining == 0)) [
  | inl done ↦ stops done (ground arith)
  | inr some_left ↦ elim (Option-cases (get f.book.objects n)) [
    | inl e ↦ skips (ground arith)
    | inr (maker, e) ↦ elim (Bool-cases (is_live maker)) [
      | inr dead ↦ skips (ground arith)
      | inl live ↦ elim (Bool-cases ((hit f.taker maker).remaining == 0)) [
        | inl full ↦ goes_on maker e some_left live (ground arith)
        | inr part ↦ ends maker e some_left live part (ground arith)
      ]
    ]
  ]
]

abbrev pub looked_up : Progress → Progress
looked_up f = record f { book = (best (opposite f.taker.side) f.book).1 }

-- What the outer loop does.
pub data IsRound (rounds : ℕ) (symbol : String) (f : Progress) : Progress → Type 0 where
  full : {r : Progress} → (f.taker.remaining == 0) ≡ true → r ≡ f → IsRound rounds symbol f r
  exhausted :
      {r : Progress}
      → (best (opposite f.taker.side) f.book).0 ≡ none
      → r ≡ looked_up f
      → IsRound rounds symbol f r
  declined :
      {r : Progress} (price : ℕ)
      → (best (opposite f.taker.side) f.book).0 ≡ some price
      → crosses f.taker price ≡ false
      → r ≡ looked_up f
      → IsRound rounds symbol f r
  swept :
      {r : Progress} (price : ℕ)
      → (f.taker.remaining == 0) ≡ false
      → (best (opposite f.taker.side) f.book).0 ≡ some price
      → crosses f.taker price ≡ true
      → r ≡ match_from rounds symbol (sweep symbol price (looked_up f))
      → IsRound rounds symbol f r

pub match-cases :
    (rounds : ℕ) (symbol : String) (f : Progress)
    → IsRound rounds symbol f (match_from (suc rounds) symbol f)
unfolding match_from
match-cases rounds symbol f = elim (Bool-cases (f.taker.remaining == 0)) [
  | inl done ↦ full done (ground arith)
  | inr some_left ↦ elim (Option-cases (best (opposite f.taker.side) f.book).0) [
    | inl none_found ↦ exhausted none_found (ground arith)
    | inr (price, found) ↦ elim (Bool-cases (crosses f.taker price)) [
      | inl crossed ↦ swept price some_left found crossed (ground arith)
      | inr apart ↦ declined price found apart (ground arith)
    ]
  ]
]
