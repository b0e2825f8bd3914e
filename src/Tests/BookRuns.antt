-- ===== src/Tests/BookRuns.antt =====
-- An order that sweeps two prices of the book.
use hld_lld_interview_handbo.Prelude.{ℕ, String, some, [], ◌∷◌}
use hld_lld_interview_handbo.Prelude.Int.{pos}
use hld_lld_interview_handbo.Matching.{Side, buy, sell, gtc, NewOrder, Order, OrderBook}
use hld_lld_interview_handbo.Matching.Match.{match_order}
use hld_lld_interview_handbo.Matching.Match.Fills.{IsPart, match_order-IsPart}
use hld_lld_interview_handbo.Matching.Match.Uncrossed.{IsSettled, match_order-IsSettled}
use hld_lld_interview_handbo.Matching.Engine.{MatchingEngine, new_engine, default_limits, order_of}

abbrev request : String → Side → ℕ → ℕ → NewOrder
request id side quantity price = record {
  order_id = id;
  account_id = "fund";
  side = side;
  quantity = quantity;
  price = some price;
  tif = gtc;
}

-- Two sell orders, the second at a worse price.
abbrev two_asks : OrderBook
two_asks = record {
  objects =
      (0, order_of 1 (request "s1" sell 50 1005))
      ∷ (1, order_of 2 (request "s2" sell 100 1010))
      ∷ [];
  bids = record { heap = []; queues = [] };
  asks = record { heap = pos 1005 ∷ pos 1010 ∷ []; queues = (1005, 0 ∷ []) ∷ (1010, 1 ∷ []) ∷ [] };
  resting = ("s1", 0) ∷ ("s2", 1) ∷ [];
}

abbrev aggressive : Order
aggressive = order_of 3 (request "b1" buy 120 1010)

match_order-IsPart_example : IsPart two_asks aggressive 120 (match_order "ACME" aggressive two_asks)
match_order-IsPart_example = match_order-IsPart "ACME" aggressive two_asks

match_order-IsSettled_example : IsSettled (match_order "ACME" aggressive two_asks)
match_order-IsSettled_example = match_order-IsSettled "ACME" aggressive two_asks

abbrev engine : MatchingEngine
engine = record (new_engine "ACME" default_limits) {
  book = two_asks;
  orders = ("s1", 0) ∷ ("s2", 1) ∷ [];
  open_per_account = ("fund", pos 2) ∷ [];
}
