-- ===== src/Matching.antt =====
-- The orders and the book of code/hld/matching_engine.py; the engine is in `Matching/Engine`. Orders
-- are objects that several tables share, so the book keeps them by number and the tables hold the
-- numbers. A trade's identifier keeps its number apart; its other parts are fields of the trade.
pub mod Match
pub mod Engine
pub mod Risk
pub mod Records
pub mod Placing
pub mod Accounts
use hld_lld_interview_handbo.Prelude.{
  ℕ, zero, suc, ◌+◌, ◌-◌, ◌==◌, ltb, leb, min, String, string_dec, ℕ_discrete, Option, none, some,
  List, [], ◌∷◌, ◌++◌, Bool, true, false, not, ◌&&◌, ite, if◌then◌else◌, map, length, take,
}
use hld_lld_interview_handbo.Prelude.Int.{ℤ, pos, negsuc, neg, pos_part, leb_ℤ}
use hld_lld_interview_handbo.Dict.{Dict, string_key, nat_key, empty, get, put, remove}
use hld_lld_interview_handbo.Common.Error.{Result, ok, err, validation, not_found, invalid_state}
use hld_lld_interview_handbo.Common.Action.{Action}

pub data Side : Type 0 where
  buy sell : Side

unfoldable pub opposite : Side → Side
opposite buy = sell
opposite sell = buy

pub data TimeInForce : Type 0 where
  gtc ioc : TimeInForce

pub data OrderStatus : Type 0 where
  new partially_filled filled cancelled rejected : OrderStatus

pub record NewOrder : Type 0 where
  pub order_id : String
  pub account_id : String
  pub side : Side
  pub quantity : ℕ
  pub price : Option ℕ
  pub tif : TimeInForce

-- `__post_init__`
abbrev pub limit_price : Option ℤ → Result (Option ℕ)
limit_price none = ok none
limit_price (some (pos (suc p))) = ok (some (suc p))
limit_price (some _) = err validation

abbrev pub with_price : (ℕ → Option ℕ → NewOrder) → ℕ → Result (Option ℕ) → Result NewOrder
with_price make quantity (ok price) = ok (make quantity price)
with_price make quantity (err e) = err e

unfoldable pub new_order : (ℕ → Option ℕ → NewOrder) → ℤ → Option ℤ → Result NewOrder
new_order make (pos (suc q)) price = with_price make (suc q) (limit_price price)
new_order make _ price = err validation

pub data Command : Type 0 where
  place : NewOrder → Command
  cancel_order : String → Command

pub data RejectReason : Type 0 where
  above_cap too_many_open outside_collar : RejectReason

pub record Order : Type 0 where
  pub order_id : String
  pub account_id : String
  pub side : Side
  pub quantity : ℕ
  pub price : Option ℕ
  pub tif : TimeInForce
  pub sequence : ℕ
  pub remaining : ℕ
  pub status : OrderStatus
  pub reject_reason : Option RejectReason

abbrev pub filled_quantity : Order → ℕ
filled_quantity o = o.quantity - o.remaining

pub record Trade : Type 0 where
  pub number : ℕ
  pub symbol : String
  pub price : ℕ
  pub quantity : ℕ
  pub buy_order_id : String
  pub sell_order_id : String
  pub aggressor : Side
  pub sequence : ℕ

abbrev pub is_cancelled : OrderStatus → Bool
is_cancelled cancelled = true
is_cancelled _ = false

unfoldable pub is_live : Order → Bool
is_live o = ltb 0 o.remaining && not (is_cancelled o.status)

-- One side: the heap of its prices, its least number first, and the queue of each price.
pub record Levels : Type 0 where
  pub heap : List ℤ
  pub queues : Dict ℕ (List ℕ)

pub record OrderBook : Type 0 where
  pub objects : Dict ℕ Order
  pub bids : Levels
  pub asks : Levels
  pub resting : Dict String ℕ

abbrev pub no_levels : Levels
no_levels = record { heap = []; queues = empty }

abbrev pub new_book : OrderBook
new_book = record { objects = empty; bids = no_levels; asks = no_levels; resting = empty }

abbrev pub levels_of : Side → OrderBook → Levels
levels_of buy b = b.bids
levels_of sell b = b.asks

abbrev pub set_levels : Side → Levels → OrderBook → OrderBook
set_levels buy l b = record b { bids = l }
set_levels sell l b = record b { asks = l }

-- Bid prices are negated in their heap.
abbrev pub heap_key : Side → ℕ → ℤ
heap_key buy price = neg (pos price)
heap_key sell price = pos price

abbrev pub key_price : Side → ℤ → ℕ
key_price buy key = pos_part (neg key)
key_price sell key = pos_part key

abbrev pub is_live_object : Option Order → Bool
is_live_object none = false
is_live_object (some o) = is_live o

unfoldable pub any_live : Dict ℕ Order → List ℕ → Bool
any_live objects [] = false
any_live objects (n ∷ queue) =
    let rest = any_live objects queue in if is_live_object (get objects n) then true else rest

abbrev pub queue_or_empty : Option (List ℕ) → List ℕ
queue_or_empty none = []
queue_or_empty (some queue) = queue

-- The loop of `best`, which drops the levels that hold nothing to execute.
unfoldable pub best_from : Side → Dict ℕ Order → List ℤ → Dict ℕ (List ℕ) → Option ℕ × Levels
best_from side objects [] queues = (none, record { heap = []; queues = queues })
best_from side objects (key ∷ heap) queues =
    let price = key_price side key in
    let later = best_from side objects heap (remove queues price) in
    if any_live objects (queue_or_empty (get queues price))
    then (some price, record { heap = key ∷ heap; queues = queues })
    else later

unfoldable pub best : Side → OrderBook → Option ℕ × OrderBook
best side b =
    let found = best_from side b.objects (levels_of side b).heap (levels_of side b).queues in
    (found.0, set_levels side found.1 b)

abbrev pub live_remaining : Option Order → ℕ
live_remaining none = 0
live_remaining (some o) = if is_live o then o.remaining else 0

unfoldable pub total_remaining : Dict ℕ Order → List ℕ → ℕ
total_remaining objects [] = 0
total_remaining objects (n ∷ queue) = live_remaining (get objects n) + total_remaining objects queue

-- Rows sorted by price, from the best of the side.
abbrev pub comes_first : Side → ℕ → ℕ → Bool
comes_first buy p q = leb q p
comes_first sell p q = leb p q

unfoldable pub insert_row : Side → ℕ → ℕ → List (ℕ × ℕ) → List (ℕ × ℕ)
insert_row side p q [] = (p, q) ∷ []
insert_row side p q ((p', q') ∷ rows) =
    let later = insert_row side p q rows in
    if comes_first side p p' then (p, q) ∷ (p', q') ∷ rows else (p', q') ∷ later

unfoldable pub rows_of : Side → Dict ℕ Order → Dict ℕ (List ℕ) → List (ℕ × ℕ)
rows_of side objects [] = []
rows_of side objects ((price, queue) ∷ queues) =
    let rows = rows_of side objects queues in
    if any_live objects queue
    then insert_row side price (total_remaining objects queue) rows
    else rows

unfoldable pub depth : Side → ℕ → OrderBook → List (ℕ × ℕ)
depth side levels b = take levels (rows_of side b.objects (levels_of side b).queues)

-- `heapq.heappush`, as far as the least entry is concerned.
unfoldable pub push_key : ℤ → List ℤ → List ℤ
push_key key [] = key ∷ []
push_key key (other ∷ heap) =
    let later = push_key key heap in if leb_ℤ key other then key ∷ other ∷ heap else other ∷ later

unfoldable pub rest_at : Side → ℕ → ℕ → Levels → Levels
rest_at side price n l = elim (get l.queues price) [
  | none ↦ record {
    heap = push_key (heap_key side price) l.heap;
    queues = put l.queues price (n ∷ []);
  }
  | some queue ↦ record l { queues = put l.queues price (queue ++ n ∷ []) }
]

-- `rest`, of the object with number `n`.
unfoldable pub rest : ℕ → Order → Action OrderBook Unit
rest n o b = elim o.price [
  | none ↦ (err invalid_state, b)
  | some price ↦ (
    ok tt,
    record (set_levels o.side (rest_at o.side price n (levels_of o.side b)) b) {
      resting = put b.resting o.order_id n;
    },
  )
]

abbrev pub change_object : ℕ → (Order → Order) → Dict ℕ Order → Dict ℕ Order
change_object n f objects = elim (get objects n) [ none ↦ objects | some o ↦ put objects n (f o) ]

-- `cancel`, which returns the number of the order.
unfoldable pub cancel : String → Action OrderBook ℕ
cancel order_id b = elim (get b.resting order_id) [
  | none ↦ (err not_found, b)
  | some n ↦ (
    ok n,
    record b {
      resting = remove b.resting order_id;
      objects = change_object n (λ o. record o { status = cancelled }) b.objects;
    },
  )
]

abbrev pub accepts : Side → Option ℕ → ℕ → Bool
accepts side none best_price = true
accepts buy (some price) best_price = leb best_price price
accepts sell (some price) best_price = leb price best_price

unfoldable pub crosses : Order → ℕ → Bool
crosses taker best_price = accepts taker.side taker.price best_price
