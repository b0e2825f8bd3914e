-- ===== src/Matching/Match/Best.antt =====
-- The best price of one side: looking it up drops the levels that hold nothing to execute.
use hld_lld_interview_handbo.Prelude.{
  ℕ, ◌≤◌, ◌<◌, ◌≡◌, inl, inr, refl, sym, ap, ◌∙◌, arith, Option, some, List, [], ◌∷◌, Bool-cases,
  length,
}
use hld_lld_interview_handbo.Dict.{Dict, remove, nat_key, string_key, get, put}
use hld_lld_interview_handbo.Matching.{
  Side, buy, sell, best_from, key_price, any_live, Levels, set_levels, Order, OrderBook, levels_of,
  best, queue_or_empty,
}
use hld_lld_interview_handbo.Matching.Match.{set_queue}
use hld_lld_interview_handbo.Prelude.Int.{ℤ}
use hld_lld_interview_handbo.Dict.Laws.{get-put_self}

-- A level with nothing to execute is dropped for good.
best_from-again :
    (side : Side) (objects : Dict ℕ Order) (heap : List ℤ) (queues : Dict ℕ (List ℕ))
    → let found = best_from side objects heap queues in
      best_from side objects found.1.heap found.1.queues ≡ found
unfolding best_from
best_from-again side objects [] queues = refl
best_from-again side objects (key ∷ heap) queues =
    let price : ℕ = key_price side key in
    elim (Bool-cases (any_live objects (queue_or_empty (get queues price)))) [
      | inl live ↦ rw live (rw live refl)
      | inr dead ↦ rw dead (best_from-again side objects heap (remove queues price))
    ]

pub best_from-length :
    (side : Side) (objects : Dict ℕ Order) (heap : List ℤ) (queues : Dict ℕ (List ℕ))
    → length (best_from side objects heap queues).1.heap ≤ length heap
unfolding best_from
best_from-length side objects [] queues = omega arith
best_from-length side objects (key ∷ heap) queues =
    ground (arith, best_from-length side objects heap (remove queues (key_price side key)))

pub best_from-found :
    (side : Side) (objects : Dict ℕ Order) (heap : List ℤ) (queues : Dict ℕ (List ℕ)) (price : ℕ)
    → let found = best_from side objects heap queues in
      found.0 ≡ some price
      → (key : ℤ) × (rest : List ℤ) × (found.1.heap ≡ key ∷ rest) × (key_price side key ≡ price)
unfolding best_from
best_from-found side objects [] queues price = λ h. absurd (ground (arith, h))
best_from-found side objects (key ∷ heap) queues price =
    let here : ℕ = key_price side key in
    elim (Bool-cases (any_live objects (queue_or_empty (get queues here)))) [
      | inl live ↦ rw live (λ h. (key, heap, refl, ground (arith, h)))
      | inr dead ↦ rw dead (best_from-found side objects heap (remove queues here) price)
    ]

pub levels-set :
    (side : Side) (l : Levels) (b : OrderBook) → levels_of side (set_levels side l b) ≡ l
levels-set buy l b = refl
levels-set sell l b = refl

objects-set : (side : Side) (l : Levels) (b : OrderBook) → (set_levels side l b).objects ≡ b.objects
objects-set buy l b = refl
objects-set sell l b = refl

abbrev pub found_in : Side → OrderBook → Option ℕ × Levels
found_in side b = best_from side b.objects (levels_of side b).heap (levels_of side b).queues

found_in-set :
    (side : Side) (l : Levels) (b : OrderBook)
    → found_in side (set_levels side l b) ≡ best_from side b.objects l.heap l.queues
found_in-set buy l b = refl
found_in-set sell l b = refl

-- How many prices the heap holds when its best has been looked up.
abbrev pub prices_left : Side → OrderBook → ℕ
prices_left side b = length (found_in side b).1.heap

pub best-again : (side : Side) (b : OrderBook) → (best side (best side b).1).0 ≡ (best side b).0
unfolding best
best-again side b =
    ap (λ (r : Option ℕ × Levels). r.0)
      (found_in-set side (found_in side b).1 b
        ∙ best_from-again side b.objects (levels_of side b).heap (levels_of side b).queues)

-- A level that was emptied is dropped at the next look.
emptied-shrinks :
    (side : Side) (objects : Dict ℕ Order) (key : ℤ) (rest heap : List ℤ) (queues : Dict ℕ (List ℕ))
    (price : ℕ)
    → heap ≡ key ∷ rest
    → key_price side key ≡ price
    → length (best_from side objects heap (put queues price [])).1.heap < length heap
unfolding best_from any_live
emptied-shrinks side objects key rest heap queues price e k =
    let gone = get-put_self queues (key_price side key) [] in
    rw (e, sym k)
      (rw (gone, best_from)
        (omega (
          arith,
          best_from-length side objects rest
              (remove (put queues (key_price side key) []) (key_price side key)),
        )))

pub set_queue-shrinks :
    (side : Side) (price : ℕ) (b : OrderBook) (key : ℤ) (rest : List ℤ)
    → (levels_of side b).heap ≡ key ∷ rest
    → key_price side key ≡ price
    → prices_left side (set_queue side price [] b) < length (levels_of side b).heap
set_queue-shrinks buy price b key rest h k =
    emptied-shrinks buy b.objects key rest b.bids.heap b.bids.queues price h k
set_queue-shrinks sell price b key rest h k =
    emptied-shrinks sell b.objects key rest b.asks.heap b.asks.queues price h k
