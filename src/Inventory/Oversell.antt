-- ===== src/Inventory/Oversell.antt =====
-- No call of the inventory promises more units than there are on hand.
use hld_lld_interview_handbo.Prelude.{
  ℕ, ◌≡◌, inl, inr, refl, arith, String, Option, none, some, List, [], ◌∷◌, true, false, All,
  Bool-cases, Option-cases,
}
use hld_lld_interview_handbo.Prelude.Int.{ℤ, pos, ◌-ℤ◌, ◌≤ℤ◌, leb_ℤ}
use hld_lld_interview_handbo.Dict.{Dict, string_key, get}
use hld_lld_interview_handbo.Dict.Laws.{IsDict}
use hld_lld_interview_handbo.Common.Error.{ok, Result-cases}
use hld_lld_interview_handbo.Common.Ids.{Identifier}
use hld_lld_interview_handbo.Inventory.{
  is_live, StockItem, InventoryService, identifier_key, available_units, item_or_new, stocked,
  stock_in, change_items, taken, reclaim, commit, release,
}
use hld_lld_interview_handbo.Inventory.Reserve.{
  all_positive, any_short, take_lines, reserve_new, reserve_swept, is_valid, reserve, check_lines,
}
use hld_lld_interview_handbo.Inventory.Coverage.{put-IsCovered, stocked-covered, change_items-taken}
use hld_lld_interview_handbo.Inventory.Settling.{
  IsSound, put-ArePositive, reclaim-IsSound, commit-IsSound, release-IsSound,
}
use hld_lld_interview_handbo.Common.Clock.{FakeClock}
use hld_lld_interview_handbo.Common.Ids.{SequentialIdGenerator}
use hld_lld_interview_handbo.Inventory.{new_service, expire}

item_or_new-covered :
    (o : Option StockItem)
    → ((item : StockItem) → o ≡ some item → pos 0 ≤ℤ available_units item)
    → pos 0 ≤ℤ available_units (item_or_new o)
unfolding ◌-ℤ◌
item_or_new-covered none h = omega arith
item_or_new-covered (some item) h = h item refl

stock_in-IsSound :
    (sku : String) (quantity : ℤ) (s : InventoryService)
    → IsSound s
    → IsSound (stock_in sku quantity s).1
unfolding stock_in
stock_in-IsSound sku quantity s h = elim (Bool-cases (leb_ℤ quantity (pos 0))) [
  | inl e ↦ rw (e, stock_in) h
  | inr e ↦
      let item : StockItem = item_or_new (get s.stock sku) in
      rw (e, stock_in)
        (
          put-IsCovered s.stock sku (stocked quantity item) h.0 (
              stocked-covered quantity item
                (item_or_new-covered (get s.stock sku) (λ i found. h.0 sku i found)) e),
          h.1,
        )
]

take_lines-IsSound :
    (order_id : String) (lines : Dict String ℤ) (s : InventoryService)
    → IsSound s
    → IsDict lines
    → any_short lines s.stock ≡ false
    → all_positive lines ≡ true
    → IsSound (take_lines order_id lines s).1
unfolding take_lines
take_lines-IsSound order_id lines s h d short k =
    let covered = change_items-taken lines s.stock d short h.0 in
    elim (Result-cases (change_items taken lines s.stock).0) [
      | inr (x, e) ↦ rw (e, take_lines) (covered, h.1)
      | inl (u, e) ↦ rw (e, take_lines) (covered, put-ArePositive s.reservations _ _ h.1 k)
    ]

-- The checks pass only when no line is short.
check_lines-short :
    (lines : Dict String ℤ) (expected : Option (Dict String ℕ)) (stock : Dict String StockItem)
    (u : Unit {0})
    → check_lines lines expected stock ≡ ok u
    → any_short lines stock ≡ false
unfolding check_lines
check_lines-short lines expected stock u h = ground (arith, h)

reserve_new-IsSound :
    (order_id : String) (lines : Dict String ℤ) (expected : Option (Dict String ℕ))
    (s : InventoryService)
    → IsSound s
    → IsDict lines
    → all_positive lines ≡ true
    → IsSound (reserve_new order_id lines expected s).1
unfolding reserve_new
reserve_new-IsSound order_id lines expected s h d k =
    elim (Result-cases (check_lines lines expected s.stock)) [
      | inr (x, e) ↦ rw (e, reserve_new) h
      | inl (u, e) ↦
          rw (e, reserve_new)
            (take_lines-IsSound order_id lines s h d (check_lines-short lines expected s.stock u e)
              k)
    ]

reserve_swept-IsSound :
    (order_id : String) (lines : Dict String ℤ) (expected : Option (Dict String ℕ))
    (s : InventoryService)
    → IsSound s
    → IsDict lines
    → all_positive lines ≡ true
    → IsSound (reserve_swept order_id lines expected s).1
unfolding reserve_swept
reserve_swept-IsSound order_id lines expected s h d k =
    let fresh = reserve_new-IsSound order_id lines expected s h d k in
    elim (Option-cases (get s.by_order order_id)) [
      | inl e ↦ rw (e, reserve_swept) fresh
      | inr (id, e) ↦ elim (Option-cases (get s.reservations id)) [
        | inl e' ↦ rw (e, reserve_swept) (rw e' h)
        | inr (r, e') ↦ elim (Bool-cases (is_live r)) [
          | inl live ↦ rw (e, reserve_swept) (rw e' (rw live h))
          | inr dead ↦ rw (e, reserve_swept) (rw e' (rw dead fresh))
        ]
      ]
    ]

is_valid-positive : (lines : Dict String ℤ) → is_valid lines ≡ true → all_positive lines ≡ true
is_valid-positive [] h = absurd (ground (arith, h))
is_valid-positive (l ∷ lines) h = h

reserve-IsSound :
    (order_id : String) (lines : Dict String ℤ) (expected : Option (Dict String ℕ))
    (s : InventoryService)
    → IsSound s
    → IsDict lines
    → IsSound (reserve order_id lines expected s).1
unfolding reserve
reserve-IsSound order_id lines expected s h d = elim (Bool-cases (is_valid lines)) [
  | inr bad ↦ rw (bad, reserve) h
  | inl good ↦
      let swept = reclaim-IsSound s h in
      elim (Result-cases (reclaim s).0) [
        | inr (x, e) ↦ rw (good, reserve) (rw e swept)
        | inl (u, e) ↦
            rw (good, reserve)
              (rw e (
                reserve_swept-IsSound order_id lines expected (reclaim s).1 swept d
                  (is_valid-positive lines good)))
      ]
]

pub data Event : Type 0 where
  stocks_in : String → ℤ → Event
  reserves : String → Dict String ℤ → Option (Dict String ℕ) → Event
  commits : Identifier → Event
  releases : Identifier → Event
  expires : Event
  -- The clock of the service reads another time.
  reads : ℤ → Event

unfoldable pub happen : Event → InventoryService → InventoryService
happen (stocks_in sku quantity) s = (stock_in sku quantity s).1
happen (reserves order_id lines expected) s = (reserve order_id lines expected s).1
happen (commits id) s = (commit id s).1
happen (releases id) s = (release id s).1
happen expires s = (expire s).1
happen (reads now) s = record s { clock = record { now = now } }

unfoldable pub happen_all : List Event → InventoryService → InventoryService
happen_all [] s = s
happen_all (e ∷ events) s = happen_all events (happen e s)

-- The lines of a request are a dict.
abbrev pub IsRequest : Event → Type 0
IsRequest (reserves order_id lines expected) = IsDict lines
IsRequest _ = Unit

happen-IsSound : (e : Event) (s : InventoryService) → IsRequest e → IsSound s → IsSound (happen e s)
unfolding happen
happen-IsSound (stocks_in sku quantity) s d h = stock_in-IsSound sku quantity s h
happen-IsSound (reserves order_id lines expected) s d h =
    reserve-IsSound order_id lines expected s h d
happen-IsSound (commits id) s d h = commit-IsSound id s h
happen-IsSound (releases id) s d h = release-IsSound id s h
happen-IsSound expires s d h = reclaim-IsSound s h
happen-IsSound (reads now) s d h = h

happen_all-IsSound :
    (events : List Event) (s : InventoryService)
    → All IsRequest events
    → IsSound s
    → IsSound (happen_all events s)
unfolding happen_all
happen_all-IsSound [] s d h = h
happen_all-IsSound (e ∷ events) s d h =
    happen_all-IsSound events (happen e s) d.1 (happen-IsSound e s d.0 h)

new_service-IsSound :
    (clock : FakeClock) (ids : SequentialIdGenerator) (hold_ttl : ℤ) (s : InventoryService)
    → new_service clock ids hold_ttl ≡ ok s
    → IsSound s
unfolding new_service get
new_service-IsSound clock ids hold_ttl s h = elim (Bool-cases (leb_ℤ hold_ttl (pos 0))) [
  | inl e ↦ absurd (ground (arith, rw e at h))
  | inr e ↦ (λ sku item found. ground (arith, h, e, found), ground (arith, h, e))
]

-- No overselling: whatever is stocked, reserved, committed, released and expired, in any order and
-- at any times, refused calls included, no item of a new service ever has more units reserved than
-- on hand, where the lines of each request are a dict.
pub never_oversold :
    (clock : FakeClock) (ids : SequentialIdGenerator) (hold_ttl : ℤ) (s : InventoryService)
    (events : List Event) (sku : String) (item : StockItem)
    → new_service clock ids hold_ttl ≡ ok s
    → All IsRequest events
    → get (happen_all events s).stock sku ≡ some item
    → pos 0 ≤ℤ available_units item
never_oversold clock ids hold_ttl s events sku item h d found =
    (happen_all-IsSound events s d (new_service-IsSound clock ids hold_ttl s h)).0 sku item found
