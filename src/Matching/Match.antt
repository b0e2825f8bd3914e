-- ===== src/Matching/Match.antt =====
-- `OrderBook.match` of code/hld/matching_engine.py. The incoming order is in no table yet, so it is
-- carried along as a value.
pub mod Cases
pub mod Best
pub mod Names
pub mod Fills
pub mod Uncrossed
use hld_lld_interview_handbo.Prelude.{
  ℕ, zero, suc, ◌+◌, ◌-◌, ◌==◌, min, String, Option, none, some, List, [], ◌∷◌, ◌++◌, if◌then◌else◌,
  length,
}
use hld_lld_interview_handbo.Prelude.Int.{ℤ}
use hld_lld_interview_handbo.Dict.{Dict, string_key, nat_key, get, put, remove}
use hld_lld_interview_handbo.Matching.{
  Side, buy, sell, opposite, partially_filled, filled, Order, Trade, OrderBook, Levels, levels_of,
  set_levels, is_live, best, crosses, queue_or_empty,
}

-- The incoming order, the book and the trades so far.
pub record Progress : Type 0 where
  pub taker : Order
  pub book : OrderBook
  pub trades : List Trade

abbrev pub buyer_id : Side → Order → Order → String
buyer_id buy taker maker = taker.order_id
buyer_id sell taker maker = maker.order_id

abbrev pub traded : String → ℕ → Order → Progress → Trade
traded symbol price maker f = record {
  number = length f.trades + 1;
  symbol = symbol;
  price = price;
  quantity = min f.taker.remaining maker.remaining;
  buy_order_id = buyer_id f.taker.side f.taker maker;
  sell_order_id = buyer_id (opposite f.taker.side) f.taker maker;
  aggressor = f.taker.side;
  sequence = f.taker.sequence;
}

-- The maker after the trade.
abbrev pub hit : Order → Order → Order
hit taker maker =
    let left = maker.remaining - min taker.remaining maker.remaining in
    record maker { remaining = left; status = if left == 0 then filled else partially_filled }

-- A maker that is filled rests no longer.
abbrev pub unrest : Order → Dict String ℕ → Dict String ℕ
unrest maker resting = if maker.remaining == 0 then remove resting maker.order_id else resting

abbrev pub execute : String → ℕ → ℕ → Order → Progress → Progress
execute symbol price n maker f = record {
  taker = record f.taker { remaining = f.taker.remaining - min f.taker.remaining maker.remaining };
  book = record f.book {
    objects = put f.book.objects n (hit f.taker maker);
    resting = unrest (hit f.taker maker) f.book.resting;
  };
  trades = f.trades ++ traded symbol price maker f ∷ [];
}

-- The inner loop over a queue, which is returned as it is left. After a maker that is not filled
-- the incoming order is, so that the loop ends there.
unfoldable pub fill_queue : String → ℕ → List ℕ → Progress → List ℕ × Progress
fill_queue symbol price [] f = ([], f)
fill_queue symbol price (n ∷ queue) f =
    let skipped = fill_queue symbol price queue f in
    if f.taker.remaining == 0 then (n ∷ queue, f) else elim (get f.book.objects n) [
      | none ↦ skipped
      | some maker ↦
          let f' = execute symbol price n maker f in
          let onward = fill_queue symbol price queue f' in
          if is_live maker
          then (if (hit f.taker maker).remaining == 0 then onward else (n ∷ queue, f'))
          else skipped
    ]

abbrev pub set_queue : Side → ℕ → List ℕ → OrderBook → OrderBook
set_queue side price queue b =
    let l = levels_of side b in set_levels side (record l { queues = put l.queues price queue }) b

unfoldable pub sweep : String → ℕ → Progress → Progress
sweep symbol price f =
    let side = opposite f.taker.side in
    let swept =
      fill_queue symbol price (queue_or_empty (get (levels_of side f.book).queues price)) f in
    record swept.1 { book = set_queue side price swept.0 swept.1.book }

-- The outer loop, which never takes more rounds than there are prices on the other side, and one.
unfoldable pub match_from : ℕ → String → Progress → Progress
match_from zero symbol f = f
match_from (suc rounds) symbol f =
    let found = best (opposite f.taker.side) f.book in
    let f' = record f { book = found.1 } in
    elim found.0 [
      | none ↦ if f.taker.remaining == 0 then f else f'
      | some price ↦
          let more = match_from rounds symbol (sweep symbol price f') in
          if f.taker.remaining == 0 then f else if crosses f.taker price then more else f'
    ]

abbrev pub start : Order → OrderBook → Progress
start taker b = record { taker = taker; book = b; trades = [] }

-- `match`, with the incoming order as it is left.
unfoldable pub match_order : String → Order → OrderBook → Progress
match_order symbol taker b =
    match_from (length (levels_of (opposite taker.side) b).heap + 1) symbol (start taker b)
