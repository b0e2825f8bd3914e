-- ===== src/Matching/Accounts.antt =====
-- What the engine answers for an order, and what it records of it (`apply` of a `PlaceOrder` in
-- code/hld/matching_engine.py).
use hld_lld_interview_handbo.Prelude.{ℕ, ◌+◌, ◌⊎◌, ◌≡◌, some, List, [], All, length}
use hld_lld_interview_handbo.Dict.{Dict, string_key, nat_key}
use hld_lld_interview_handbo.Common.Error.{Result, ok, err, key_error}
use hld_lld_interview_handbo.Matching.{NewOrder, Order, Trade, RejectReason, OrderBook, rejected}
use hld_lld_interview_handbo.Matching.Match.Fills.{volume, IsFair}
use hld_lld_interview_handbo.Matching.Engine.{MatchingEngine, recorded, order_of, order}
use hld_lld_interview_handbo.Matching.Risk.{IsReason}
use hld_lld_interview_handbo.Matching.Records.{IsUncounted}

-- What a call that answered `trades` left of the order that asked for `c`, matched with the book
-- `b`. It raises only where it traded with an order that the engine has lost track of.
abbrev pub IsAccounted : ℕ → NewOrder → OrderBook → Result (List Trade) × MatchingEngine → Type 0
IsAccounted sequence c b (err x, e) =
    (x ≡ key_error) × ((t : Trade) × IsFair b (order_of sequence c) t × IsUncounted t e)
IsAccounted sequence c b (ok trades, e) =
    (o : Order) × (order c.order_id e ≡ ok o)
    × (volume trades + o.remaining ≡ c.quantity)
    × All (IsFair b (order_of sequence c)) trades

-- The order is on record as rejected, and what is traded and rests is as before.
pub record IsRejected (sequence : ℕ) (c : NewOrder) (reason : RejectReason) (e : MatchingEngine)
    (r : Result (List Trade) × MatchingEngine) : Type 0 where
  pub answer : r.0 ≡ ok []
  pub on_record :
      order c.order_id r.1
      ≡ ok (record (order_of sequence c) { status = rejected; reject_reason = some reason })
  pub trades : r.1.trades ≡ e.trades
  pub bids : r.1.book.bids ≡ e.book.bids
  pub asks : r.1.book.asks ≡ e.book.asks
  pub resting : r.1.book.resting ≡ e.book.resting
  pub last_price : r.1.last_price ≡ e.last_price
  pub open_per_account : r.1.open_per_account ≡ e.open_per_account

-- What the engine does with a request: it refuses it for the first reason there is, or matches it.
abbrev pub IsAnswered :
    ℕ → NewOrder → MatchingEngine → Result (List Trade) × MatchingEngine → Type 0
IsAnswered sequence c e r =
    ((reason : RejectReason) × IsReason reason c e × IsRejected sequence c reason e r)
    ⊎ ((¬ ((reason : RejectReason) × IsReason reason c e))
        × IsAccounted sequence c (recorded (length e.book.objects) (order_of sequence c) e).book r)
