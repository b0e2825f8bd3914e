-- ===== src/Matching/Match/Names.antt =====
-- The orders that a trade names, and those that a book knows by name.
use hld_lld_interview_handbo.Prelude.{ℕ_discrete, some, ℕ, ◌≡◌, arith, String}
use mathlib.Core.Path.{subst}
use hld_lld_interview_handbo.Dict.{Dict, nat_key, string_key, get, put}
use hld_lld_interview_handbo.Dict.Laws.{get-put}
use hld_lld_interview_handbo.Matching.{
  Side, buy, sell, Levels, set_levels, opposite, Order, Trade, OrderBook,
}
use hld_lld_interview_handbo.Matching.Match.{buyer_id}

-- The order of a trade on one side, and the one on the other.
abbrev pub own_id : Side → Trade → String
own_id buy t = t.buy_order_id
own_id sell t = t.sell_order_id

abbrev pub other_id : Side → Trade → String
other_id buy t = t.sell_order_id
other_id sell t = t.buy_order_id

-- The book holds an order of this name.
abbrev pub IsKnown : OrderBook → String → Type 0
IsKnown b id = (n : ℕ) × (o : Order) × (get b.objects n ≡ some o) × (o.order_id ≡ id)

pub traded_names :
    (side : Side) (taker maker : Order) (t : Trade)
    → t.buy_order_id ≡ buyer_id side taker maker
    → t.sell_order_id ≡ buyer_id (opposite side) taker maker
    → (own_id side t ≡ taker.order_id) × (other_id side t ≡ maker.order_id)
unfolding opposite
traded_names buy taker maker t h k = (h, k)
traded_names sell taker maker t h k = (k, h)

-- Every object has the name of an order of the book `b`.
abbrev pub AllKnown : OrderBook → Dict ℕ Order → Type 0
AllKnown b objects = (k : ℕ) (o : Order) → get objects k ≡ some o → IsKnown b o.order_id

pub put-AllKnown :
    (b : OrderBook) (objects : Dict ℕ Order) (n : ℕ) (o' : Order)
    → IsKnown b o'.order_id
    → AllKnown b objects
    → AllKnown b (put objects n o')
put-AllKnown b objects n o' known h k o e = elim (ℕ_discrete n k) [
  | yes p ↦
      let same : o' ≡ o = ground (arith, get-put objects n o' k) in
      subst (λ (x : Order). IsKnown b x.order_id) same known
  | no p ↦ h k o (ground (arith, get-put objects n o' k))
]

pub known_set :
    (b : OrderBook) (side : Side) (l : Levels) (b' : OrderBook)
    → AllKnown b b'.objects
    → AllKnown b (set_levels side l b').objects
known_set b buy l b' h = h
known_set b sell l b' h = h
