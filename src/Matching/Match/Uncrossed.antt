-- ===== src/Matching/Match/Uncrossed.antt =====
-- When matching ends the incoming order is filled, or the other side has nothing at a price that it
-- accepts; the rounds of the loop are enough.
use hld_lld_interview_handbo.Prelude.{
  ℕ, zero, suc, ◌+◌, ◌≤◌, ◌<◌, ◌≡◌, ◌≢◌, ◌⊎◌, inl, inr, refl, sym, ap, ◌∙◌, arith, ◌==◌, String,
  some, List, [], ◌∷◌, true, false, length,
}
use mathlib.Core.Path.{subst}
use hld_lld_interview_handbo.Dict.{nat_key, string_key, get}
use hld_lld_interview_handbo.Matching.{
  Side, buy, sell, Levels, opposite, Order, OrderBook, levels_of, best, crosses, queue_or_empty,
}
use hld_lld_interview_handbo.Matching.Match.{
  Progress, execute, fill_queue, set_queue, sweep, match_from, match_order, start,
}
use hld_lld_interview_handbo.Matching.Match.Cases.{
  stops, skips, ends, goes_on, IsFill-cases, looked_up, full, exhausted, declined, swept,
  match-cases,
}
use hld_lld_interview_handbo.Prelude.Int.{ℤ}
use hld_lld_interview_handbo.Matching.Match.Best.{
  best_from-length, best_from-found, levels-set, found_in, prices_left, best-again,
  set_queue-shrinks,
}

fill_queue-ends :
    (symbol : String) (price : ℕ) (queue : List ℕ) (f : Progress)
    → let r = fill_queue symbol price queue f in (r.0 ≡ []) ⊎ ((r.1.taker.remaining == 0) ≡ true)
unfolding fill_queue
fill_queue-ends symbol price [] f = inl refl
fill_queue-ends symbol price (n ∷ queue) f =
    let Goal : List ℕ × Progress → Type 0 = λ r. (r.0 ≡ []) ⊎ ((r.1.taker.remaining == 0) ≡ true) in
    elim (IsFill-cases symbol price n queue f) [
      | stops done e ↦ subst Goal (sym e) (inr done)
      | skips e ↦ subst Goal (sym e) (fill_queue-ends symbol price queue f)
      | ends maker _ some_left live part e ↦ subst Goal (sym e) (inr (ground arith))
      | goes_on maker _ some_left live e ↦
          subst Goal (sym e) (fill_queue-ends symbol price queue (execute symbol price n maker f))
    ]

-- Filling a queue leaves the tables of both sides alone, and the side of the order.
abbrev IsAside : Progress → Progress → Type 0
IsAside f g =
    (g.book.bids ≡ f.book.bids) × (g.book.asks ≡ f.book.asks) × (g.taker.side ≡ f.taker.side)

fill_queue-IsAside :
    (symbol : String) (price : ℕ) (queue : List ℕ) (f : Progress)
    → IsAside f (fill_queue symbol price queue f).1
unfolding fill_queue
fill_queue-IsAside symbol price [] f = (refl, refl, refl)
fill_queue-IsAside symbol price (n ∷ queue) f =
    let Goal : List ℕ × Progress → Type 0 = λ r. IsAside f r.1 in
    elim (IsFill-cases symbol price n queue f) [
      | stops done e ↦ subst Goal (sym e) (refl, refl, refl)
      | skips e ↦ subst Goal (sym e) (fill_queue-IsAside symbol price queue f)
      | ends maker _ some_left live part e ↦ subst Goal (sym e) (refl, refl, refl)
      | goes_on maker _ some_left live e ↦
          subst Goal (sym e)
            (fill_queue-IsAside symbol price queue (execute symbol price n maker f))
    ]

levels-aside :
    (side : Side) (f g : Progress) → IsAside f g → levels_of side g.book ≡ levels_of side f.book
levels-aside buy f g h = h.0
levels-aside sell f g h = h.1

sweep-shrinks :
    (symbol : String) (price : ℕ) (f : Progress)
    → let side = opposite f.taker.side in
      let g = sweep symbol price (looked_up f) in
      (best side f.book).0 ≡ some price
      → (g.taker.side ≡ f.taker.side)
        × (((g.taker.remaining == 0) ≡ true) ⊎ (prices_left side g.book < prices_left side f.book))
unfolding sweep best
sweep-shrinks symbol price f found =
    let side : Side = opposite f.taker.side in
    let l0 : Levels = (found_in side f.book).1 in
    let f' : Progress = looked_up f in
    let queue : List ℕ = queue_or_empty (get (levels_of side f'.book).queues price) in
    let r : List ℕ × Progress = fill_queue symbol price queue f' in
    let l : Levels = levels_of side r.1.book in
    let aside = fill_queue-IsAside symbol price queue f' in
    let same : l ≡ l0 = levels-aside side f' r.1 aside ∙ levels-set side l0 f.book in
    let (key, tail, heap, priced) =
      best_from-found side f.book.objects (levels_of side f.book).heap
        (levels_of side f.book).queues price found in
    (
      aside.2,
      elim (fill_queue-ends symbol price queue f') [
        | inr done ↦ inl done
        | inl emptied ↦
            let heaps : l.heap ≡ l0.heap = ap (λ (l : Levels). l.heap) same in
            let fewer : prices_left side (set_queue side price [] r.1.book) < length l0.heap =
              subst (λ (h : List ℤ). prices_left side (set_queue side price [] r.1.book) < length h)
                heaps (set_queue-shrinks side price r.1.book key tail (heaps ∙ heap) priced) in
            inr (
              subst
                (λ (q : List ℕ).
                  prices_left side (set_queue side price q r.1.book) < length l0.heap)
                (sym emptied) fewer)
      ],
    )

-- The incoming order is filled, or accepts no price of the other side.
abbrev pub IsSettled : Progress → Type 0
IsSettled f =
    ((f.taker.remaining == 0) ≡ true)
    ⊎ ((price : ℕ)
        → (best (opposite f.taker.side) f.book).0 ≡ some price
        → crosses f.taker price ≡ false)

no_prices :
    (side : Side) (b : OrderBook) (price : ℕ)
    → prices_left side b ≤ 0
    → (best side b).0 ≢ some price
unfolding best
no_prices side b price few found =
    let (key, tail, heap, _) =
      best_from-found side b.objects (levels_of side b).heap (levels_of side b).queues price
        found in
    absurd (ground (arith, ap length heap, few))

looked_up-IsSettled :
    (f : Progress)
    → ((price : ℕ)
        → (best (opposite f.taker.side) f.book).0 ≡ some price
        → crosses f.taker price ≡ false)
    → IsSettled (looked_up f)
looked_up-IsSettled f h =
    inr (λ price found. h price (sym (best-again (opposite f.taker.side) f.book) ∙ found))

full-IsSettled :
    (rounds : ℕ) (symbol : String) (f : Progress)
    → (f.taker.remaining == 0) ≡ true
    → IsSettled (match_from rounds symbol f)
unfolding match_from
full-IsSettled zero symbol f done = inl done
full-IsSettled (suc rounds) symbol f done = elim (match-cases rounds symbol f) [
  | full done' e ↦ subst IsSettled (sym e) (inl done)
  | exhausted _ e ↦ subst IsSettled (sym e) (inl done)
  | declined _ _ _ e ↦ subst IsSettled (sym e) (inl done)
  | swept _ some_left _ _ _ ↦ absurd (cc (done, some_left))
]

match_from-IsSettled :
    (rounds : ℕ) (symbol : String) (f : Progress)
    → prices_left (opposite f.taker.side) f.book ≤ rounds
    → IsSettled (match_from rounds symbol f)
unfolding match_from
match_from-IsSettled zero symbol f few =
    inr (λ price found. absurd (no_prices (opposite f.taker.side) f.book price few found))
match_from-IsSettled (suc rounds) symbol f few = elim (match-cases rounds symbol f) [
  | full done e ↦ subst IsSettled (sym e) (inl done)
  | exhausted none_found e ↦
      subst IsSettled (sym e) (looked_up-IsSettled f (λ p found. absurd (cc (none_found, found))))
  | declined price found apart e ↦
      subst IsSettled (sym e)
        (looked_up-IsSettled f (λ p found'. ground (arith, found, found', apart)))
  | swept price some_left found crossed e ↦
      let g : Progress = sweep symbol price (looked_up f) in
      let shrunk = sweep-shrinks symbol price f found in
      subst IsSettled (sym e) (elim shrunk.1 [
        | inl done ↦ full-IsSettled rounds symbol g done
        | inr fewer ↦ match_from-IsSettled rounds symbol g (
            subst (λ (side : Side). prices_left (opposite side) g.book ≤ rounds) (sym shrunk.0)
              (omega (arith, fewer, few)))
      ])
]

-- When matching ends, within the rounds that the heap's length allows, the incoming order is filled
-- or the best price of the other side, if there is one, is one that it does not accept.
pub match_order-IsSettled :
    (symbol : String) (taker : Order) (b : OrderBook) → IsSettled (match_order symbol taker b)
unfolding match_order
match_order-IsSettled symbol taker b =
    let side : Side = opposite taker.side in
    match_from-IsSettled (length (levels_of side b).heap + 1) symbol (start taker b) (
      omega
        (arith, best_from-length side b.objects (levels_of side b).heap (levels_of side b).queues))
