-- ===== src/Matching/Engine.antt =====
-- `Sequencer` and `MatchingEngine` of code/hld/matching_engine.py. The reason for a rejection is its
-- class, without the message; the lock of the sequencer is left out.
use hld_lld_interview_handbo.Prelude.{
  ℕ, ◌+◌, ◌*◌, ◌/◌, ◌==◌, ltb, leb, String, Option, none, some, List, [], ◌∷◌, ◌++◌, Bool, true,
  false, ◌&&◌, if◌then◌else◌, length,
}
use hld_lld_interview_handbo.Prelude.Int.{ℤ, pos, ◌+ℤ◌, ◌-ℤ◌, leb_ℤ}
use hld_lld_interview_handbo.Dict.{Dict, string_key, nat_key, empty, get, put}
use hld_lld_interview_handbo.Common.Error.{Result, ok, err, not_found, key_error}
use hld_lld_interview_handbo.Common.Action.{Action, ◌>>◌, pure}
use hld_lld_interview_handbo.Matching.{
  buy, sell, gtc, ioc, OrderStatus, new, partially_filled, filled, cancelled, rejected, NewOrder,
  Command, place, cancel_order, RejectReason, above_cap, too_many_open, outside_collar, Order,
  Trade, OrderBook, new_book, rest, cancel,
}
use hld_lld_interview_handbo.Matching.Match.{Progress, match_order}

pub record RiskLimits : Type 0 where
  pub max_order_quantity : ℕ
  pub price_band_bps : ℕ
  pub max_open_orders_per_account : ℕ

abbrev pub default_limits : RiskLimits
default_limits = record {
  max_order_quantity = 10000;
  price_band_bps = 1000;
  max_open_orders_per_account = 100;
}

abbrev pub Journal : Type 0
Journal = List (ℕ × Command)

-- `Sequencer.submit`
abbrev pub submit : Command → Journal → ℕ × Journal
submit command journal = (length journal + 1, journal ++ (length journal + 1, command) ∷ [])

pub record MatchingEngine : Type 0 where
  pub symbol : String
  pub limits : RiskLimits
  pub book : OrderBook
  pub trades : List Trade
  pub last_price : Option ℕ
  pub orders : Dict String ℕ
  pub open_per_account : Dict String ℤ

abbrev pub new_engine : String → RiskLimits → MatchingEngine
new_engine symbol limits = record {
  symbol = symbol;
  limits = limits;
  book = new_book;
  trades = [];
  last_price = none;
  orders = empty;
  open_per_account = empty;
}

abbrev pub set_object : ℕ → Order → MatchingEngine → MatchingEngine
set_object n o e = record e { book = record e.book { objects = put e.book.objects n o } }

-- `self._open_per_account[account_id] -= 1`
unfoldable pub close_one : String → Action MatchingEngine Unit
close_one account_id e = elim (get e.open_per_account account_id) [
  | none ↦ (err key_error, e)
  | some count ↦
      (ok tt, record e { open_per_account = put e.open_per_account account_id (count -ℤ pos 1) })
]

abbrev pub or_none_open : Option ℤ → ℤ
or_none_open none = pos 0
or_none_open (some count) = count

abbrev pub open_orders : String → MatchingEngine → ℤ
open_orders account_id e = or_none_open (get e.open_per_account account_id)

abbrev pub open_one : String → MatchingEngine → MatchingEngine
open_one account_id e = record e {
  open_per_account = put e.open_per_account account_id (open_orders account_id e +ℤ pos 1);
}

abbrev pub in_collar : ℕ → ℕ → ℕ → Bool
in_collar band last price = leb_ℤ (pos last -ℤ pos band) (pos price) && leb price (last + band)

abbrev pub collar_reason : RiskLimits → Option ℕ → Option ℕ → Option RejectReason
collar_reason limits (some price) (some last) =
    if in_collar (last * limits.price_band_bps / 10000) last price
    then none
    else some outside_collar
collar_reason limits _ _ = none

unfoldable pub risk_reason : Order → MatchingEngine → Option RejectReason
risk_reason o e =
    if ltb e.limits.max_order_quantity o.quantity
    then some above_cap
    else if leb_ℤ (pos e.limits.max_open_orders_per_account) (open_orders o.account_id e)
    then some too_many_open
    else collar_reason e.limits o.price e.last_price

abbrev pub maker_id : Trade → String
maker_id t = elim t.aggressor [ buy ↦ t.sell_order_id | sell ↦ t.buy_order_id ]

abbrev pub object_of : String → MatchingEngine → Option Order
object_of order_id e = elim (get e.orders order_id) [ none ↦ none | some n ↦ get e.book.objects n ]

abbrev pub is_filled : OrderStatus → Bool
is_filled filled = true
is_filled _ = false

-- `_release_filled_makers`
unfoldable pub release_filled_makers : List Trade → Action MatchingEngine Unit
release_filled_makers [] e = (ok tt, e)
release_filled_makers (t ∷ trades) e =
    let onward = release_filled_makers trades e in
    elim (object_of (maker_id t) e) [
      | none ↦ (err key_error, e)
      | some maker ↦
          let released = (close_one maker.account_id >> release_filled_makers trades) e in
          if is_filled maker.status then released else onward
    ]

-- The order object that a request becomes.
abbrev pub order_of : ℕ → NewOrder → Order
order_of sequence c = record {
  order_id = c.order_id;
  account_id = c.account_id;
  side = c.side;
  quantity = c.quantity;
  price = c.price;
  tif = c.tif;
  sequence = sequence;
  remaining = c.quantity;
  status = new;
  reject_reason = none;
}

abbrev pub last_of : Option ℕ → List Trade → Option ℕ
last_of price [] = price
last_of price (t ∷ trades) = last_of (some t.price) trades

abbrev pub never_rests : Order → Bool
never_rests o = elim o.price [ none ↦ true | some _ ↦ elim o.tif [ gtc ↦ false | ioc ↦ true ] ]

abbrev pub resting_status : List Trade → OrderStatus
resting_status [] = new
resting_status (_ ∷ _) = partially_filled

abbrev pub rest_object : ℕ → Order → Action MatchingEngine Unit
rest_object n o e = let rested = rest n o e.book in (rested.0, record e { book = rested.1 })

-- What becomes of the rest of an order that was matched.
unfoldable pub place_rest : ℕ → Order → List Trade → Action MatchingEngine Unit
place_rest n o trades e =
    let waiting = record o { status = resting_status trades } in
    let rested = rest_object n waiting (set_object n waiting e) in
    if o.remaining == 0
    then (ok tt, set_object n (record o { status = filled }) e)
    else if never_rests o
    then (ok tt, set_object n (record o { status = cancelled }) e)
    else (rested.0, elim rested.0 [ ok _ ↦ open_one o.account_id rested.1 | err _ ↦ rested.1 ])

-- The engine after the order with number `n` was matched.
abbrev pub after_match : ℕ → Progress → MatchingEngine → MatchingEngine
after_match n done e =
    set_object n done.taker (record e { book = done.book; trades = e.trades ++ done.trades })

abbrev pub with_last : List Trade → MatchingEngine → MatchingEngine
with_last trades e = record e { last_price = last_of e.last_price trades }

-- `apply` of an order that passed the checks.
unfoldable pub execute_order : ℕ → Order → Action MatchingEngine (List Trade)
execute_order n o e =
    let done = match_order e.symbol o e.book in
    (release_filled_makers done.trades
        >> (λ e. place_rest n done.taker done.trades (with_last done.trades e))
        >> pure done.trades)
      (after_match n done e)

-- `apply` of an order that did not; the order is recorded and never raised.
abbrev pub reject_order : ℕ → Order → RejectReason → MatchingEngine → MatchingEngine
reject_order n o reason e =
    set_object n (record o { status = rejected; reject_reason = some reason }) e

-- The engine with the order object in it.
abbrev pub recorded : ℕ → Order → MatchingEngine → MatchingEngine
recorded n o e = set_object n o (record e { orders = put e.orders o.order_id n })

unfoldable pub apply_order : ℕ → Order → Action MatchingEngine (List Trade)
apply_order n o e =
    let e' = recorded n o e in
    let executed = execute_order n o e' in
    elim (risk_reason o e') [ some reason ↦ (ok [], reject_order n o reason e') | none ↦ executed ]

-- The account of an order that was cancelled has one open order less.
abbrev pub closed : Result ℕ → Action MatchingEngine (List Trade)
closed (err x) e = (err x, e)
closed (ok n) e = elim (get e.book.objects n) [
  | none ↦ (err key_error, e)
  | some o ↦ (close_one o.account_id >> pure []) e
]

-- A new order is the next object.
unfoldable pub apply : ℕ → Command → Action MatchingEngine (List Trade)
apply sequence (cancel_order order_id) e =
    let called = cancel order_id e.book in closed called.0 (record e { book = called.1 })
apply sequence (place c) e = apply_order (length e.book.objects) (order_of sequence c) e

unfoldable pub order : String → MatchingEngine → Result Order
order order_id e = elim (object_of order_id e) [ none ↦ err not_found | some o ↦ ok o ]

unfoldable pub apply_all : Journal → Action MatchingEngine Unit
apply_all [] e = (ok tt, e)
apply_all ((sequence, command) ∷ journal) e = (apply sequence command >> apply_all journal) e

unfoldable pub replay : String → Journal → RiskLimits → Result MatchingEngine
replay symbol journal limits =
    let run = apply_all journal (new_engine symbol limits) in
    elim run.0 [ ok _ ↦ ok run.1 | err x ↦ err x ]
