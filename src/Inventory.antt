-- ===== src/Inventory.antt =====
-- `InventoryService` of code/hld/inventory_reservation.py: stock, reservations with a time to live,
-- and the order that a reservation belongs to. The lock is not modelled: each method is one step.
pub mod Reserve
pub mod FlashSale
pub mod Places
pub mod Units
pub mod Settled
pub mod Coverage
pub mod Settling
pub mod Oversell
use mathlib.Core.Path.{ap}
use hld_lld_interview_handbo.Prelude.{
  ℕ, ◌+◌, ◌==◌, ◌≡◌, String, string_dec, ℕ_discrete, Option, none, some, List, [], ◌∷◌, Bool, true,
  false, not, ◌&&◌, ◌||◌, if◌then◌else◌, length,
}
use hld_lld_interview_handbo.Prelude.Int.{ℤ, pos, ◌+ℤ◌, ◌-ℤ◌, leb_ℤ, ltb_ℤ}
use hld_lld_interview_handbo.Dict.{Dict, Key, string_key, empty, get, put, contains}
use hld_lld_interview_handbo.Common.Error.{
  Error, Result, ok, err, validation, not_found, conflict, invalid_state, key_error,
}
use hld_lld_interview_handbo.Common.Action.{Action}
use hld_lld_interview_handbo.Common.Clock.{FakeClock}
use hld_lld_interview_handbo.Common.Ids.{Identifier, SequentialIdGenerator, next_id}

pub data ReservationState : Type 0 where
  held committed released expired : ReservationState

pub record StockItem : Type 0 where
  pub on_hand : ℤ
  pub reserved : ℤ
  pub version : ℕ

abbrev pub available_units : StockItem → ℤ
available_units item = item.on_hand -ℤ item.reserved

pub record Reservation : Type 0 where
  pub order_id : String
  pub lines : Dict String ℤ
  pub expires_at : ℤ
  pub versions : Dict String ℕ
  pub state : ReservationState

abbrev pub is_held : Reservation → Bool
is_held r = elim r.state [ held ↦ true | _ ↦ false ]

abbrev pub is_live : Reservation → Bool
is_live r = elim r.state [ held ↦ true | committed ↦ true | _ ↦ false ]

-- Identifiers are equal when their parts are.
pub both_parts : (a b : Identifier) → a.prefix ≡ b.prefix → a.number ≡ b.number → a ≡ b
both_parts a b p q = λ i. record { prefix = p i; number = q i }

instance abbrev pub identifier_key : Key Identifier
identifier_key = record {
  dec = λ a b. elim (string_dec a.prefix b.prefix) [
    | no n ↦ no (λ e. n (ap (λ x. x.prefix) e))
    | yes p ↦ elim (ℕ_discrete a.number b.number) [
      | no n ↦ no (λ e. n (ap (λ x. x.number) e))
      | yes q ↦ yes (both_parts a b p q)
    ]
  ];
}

pub record InventoryService : Type 0 where
  pub clock : FakeClock
  pub ids : SequentialIdGenerator
  pub ttl : ℤ
  pub stock : Dict String StockItem
  pub reservations : Dict Identifier Reservation
  pub by_order : Dict String Identifier

unfoldable pub new_service : FakeClock → SequentialIdGenerator → ℤ → Result InventoryService
new_service clock ids hold_ttl =
    if leb_ℤ hold_ttl (pos 0)
    then err validation
    else ok (record {
      clock = clock;
      ids = ids;
      ttl = hold_ttl;
      stock = empty;
      reservations = empty;
      by_order = empty;
    })

abbrev pub item_or_new : Option StockItem → StockItem
item_or_new none = record { on_hand = pos 0; reserved = pos 0; version = 0 }
item_or_new (some item) = item

abbrev pub stocked : ℤ → StockItem → StockItem
stocked quantity item = record item {
  on_hand = item.on_hand +ℤ quantity;
  version = item.version + 1;
}

unfoldable pub stock_in : String → ℤ → Action InventoryService StockItem
stock_in sku quantity s =
    if leb_ℤ quantity (pos 0)
    then (err validation, s)
    else let item = stocked quantity (item_or_new (get s.stock sku)) in
      (ok item, record s { stock = put s.stock sku item })

-- The loop over the lines of a reservation; `stock[sku]` raises for a missing item.
unfoldable pub change_items :
    (ℤ → StockItem → StockItem) → Dict String ℤ → Action (Dict String StockItem) Unit
change_items f [] stock = (ok tt, stock)
change_items f ((sku, qty) ∷ lines) stock = elim (get stock sku) [
  | none ↦ (err key_error, stock)
  | some item ↦ change_items f lines (put stock sku (f qty item))
]

abbrev pub returned : ℤ → StockItem → StockItem
returned qty item = record item { reserved = item.reserved -ℤ qty; version = item.version + 1 }

abbrev pub sold : ℤ → StockItem → StockItem
sold qty item = record item {
  on_hand = item.on_hand -ℤ qty;
  reserved = item.reserved -ℤ qty;
  version = item.version + 1;
}

abbrev pub taken : ℤ → StockItem → StockItem
taken qty item = record item { reserved = item.reserved +ℤ qty; version = item.version + 1 }

-- A change of every item of a reservation, and then of its state.
unfoldable pub settle :
    (ℤ → StockItem → StockItem)
    → Identifier
    → Reservation
    → ReservationState
    → Action InventoryService Reservation
settle f id r state s =
    let (c, stock) = change_items f r.lines s.stock in
    let r' : Reservation = record r { state = state } in
    elim c [
      | err e ↦ (err e, record s { stock = stock })
      | ok _ ↦ (ok r', record s { stock = stock; reservations = put s.reservations id r' })
    ]

-- `_give_back`
abbrev pub give_back :
    Identifier → Reservation → ReservationState → Action InventoryService Reservation
give_back = settle returned

-- The reservations that `_reclaim` lists, and its loop over them.
unfoldable pub lapsed : ℤ → Dict Identifier Reservation → List (Identifier × Reservation)
lapsed now [] = []
lapsed now ((id, r) ∷ rest) =
    let later = lapsed now rest in
    if is_held r && leb_ℤ r.expires_at now then (id, r) ∷ later else later

unfoldable pub expire_all : List (Identifier × Reservation) → Action InventoryService Unit
expire_all [] s = (ok tt, s)
expire_all ((id, r) ∷ rest) s =
    let (c, s') = give_back id r expired s in
    elim c [ err e ↦ (err e, s') | ok _ ↦ expire_all rest s' ]

unfoldable pub reclaim : Action InventoryService ℕ
reclaim s =
    let stale = lapsed s.clock.now s.reservations in
    let (c, s') = expire_all stale s in
    elim c [ err e ↦ (err e, s') | ok _ ↦ (ok (length stale), s') ]

abbrev pub expire : Action InventoryService ℕ
expire = reclaim

-- `commit`, once the reservation has been found.
unfoldable pub commit_found : Identifier → Reservation → Action InventoryService Reservation
commit_found id r s = elim r.state [
  | committed ↦ (ok r, s)
  | held ↦ settle sold id r committed s
  | released ↦ (err invalid_state, s)
  | expired ↦ (err invalid_state, s)
]

unfoldable pub commit : Identifier → Action InventoryService Reservation
commit id s = elim (get s.reservations id) [
  | none ↦ (err not_found, s)
  | some r ↦ commit_found id r s
]

unfoldable pub release_found : Identifier → Reservation → Action InventoryService Unit
release_found id r s = elim r.state [
  | committed ↦ (err invalid_state, s)
  | held ↦
      let (c, s') = give_back id r released s in elim c [ err e ↦ (err e, s') | ok _ ↦ (ok tt, s') ]
  | released ↦ (ok tt, s)
  | expired ↦ (ok tt, s)
]

unfoldable pub release : Identifier → Action InventoryService Unit
release id s = elim (get s.reservations id) [
  | none ↦ (err not_found, s)
  | some r ↦ release_found id r s
]

unfoldable pub available : String → InventoryService → Result ℤ
available sku s = elim (get s.stock sku) [
  | none ↦ err not_found
  | some item ↦ ok (available_units item)
]

unfoldable pub versions : List String → InventoryService → Dict String ℕ
versions [] s = empty
versions (sku ∷ skus) s = elim (get s.stock sku) [
  | none ↦ versions skus s
  | some item ↦ (sku, item.version) ∷ versions skus s
]

unfoldable pub snapshot : Dict String StockItem → Dict String (ℤ × ℤ)
snapshot [] = []
snapshot ((sku, item) ∷ rest) = (sku, (available_units item, item.reserved)) ∷ snapshot rest
