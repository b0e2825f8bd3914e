-- ===== src/Inventory/Reserve.antt =====
-- `reserve` of code/hld/inventory_reservation.py.
use hld_lld_interview_handbo.Prelude.{
  ℕ, ◌==◌, String, Option, none, some, List, [], ◌∷◌, Bool, true, false, not, ◌&&◌, ◌||◌,
  if◌then◌else◌,
}
use hld_lld_interview_handbo.Prelude.Int.{ℤ, pos, ◌+ℤ◌, leb_ℤ, ltb_ℤ}
use hld_lld_interview_handbo.Dict.{Dict, string_key, empty, get, put, contains, keys}
use hld_lld_interview_handbo.Common.Error.{
  Result, ok, err, validation, not_found, conflict, key_error,
}
use hld_lld_interview_handbo.Common.Action.{Action}
use hld_lld_interview_handbo.Common.Ids.{next_id}
use hld_lld_interview_handbo.Inventory.{
  StockItem, Reservation, held, InventoryService, identifier_key, available_units, is_live, taken,
  change_items, versions, reclaim,
}

-- The three checks of `reserve`: an unknown item, a version that has moved on (`stock[s]` raises for
-- a missing item), and too few units.
unfoldable pub all_known : Dict String ℤ → Dict String StockItem → Bool
all_known [] stock = true
all_known ((sku, qty) ∷ lines) stock = contains stock sku && all_known lines stock

unfoldable pub any_stale : Dict String ℕ → Dict String StockItem → Result Bool
any_stale [] stock = ok false
any_stale ((sku, version) ∷ rest) stock = elim (get stock sku) [
  | none ↦ err key_error
  | some item ↦ elim (any_stale rest stock) [
    | err e ↦ err e
    | ok later ↦ ok (not (item.version == version) || later)
  ]
]

abbrev pub is_short : ℤ → Option StockItem → Bool
is_short qty none = false
is_short qty (some item) = ltb_ℤ (available_units item) qty

unfoldable pub any_short : Dict String ℤ → Dict String StockItem → Bool
any_short [] stock = false
any_short ((sku, qty) ∷ lines) stock = is_short qty (get stock sku) || any_short lines stock

unfoldable pub all_positive : Dict String ℤ → Bool
all_positive [] = true
all_positive ((sku, qty) ∷ lines) = not (leb_ℤ qty (pos 0)) && all_positive lines

abbrev pub expected_or_empty : Option (Dict String ℕ) → Dict String ℕ
expected_or_empty none = empty
expected_or_empty (some expected) = expected

unfoldable pub check_lines :
    Dict String ℤ → Option (Dict String ℕ) → Dict String StockItem → Result Unit
check_lines lines expected stock =
    if not (all_known lines stock)
    then err not_found
    else elim (any_stale (expected_or_empty expected) stock) [
      | err e ↦ err e
      | ok stale ↦
          if stale then err conflict else if any_short lines stock then err conflict else ok tt
    ]

abbrev pub skus_of : Dict String ℤ → List String
skus_of = keys

-- The end of `reserve`: take the units, and record the reservation with the new versions.
unfoldable pub take_lines : String → Dict String ℤ → Action InventoryService Reservation
take_lines order_id lines s =
    let (id, ids) = next_id s.ids in
    let (c, stock) = change_items taken lines s.stock in
    let s' : InventoryService = record s { ids = ids; stock = stock } in
    let r : Reservation = record {
      order_id = order_id;
      lines = lines;
      expires_at = s.clock.now +ℤ s.ttl;
      versions = versions (skus_of lines) s';
      state = held;
    } in
    elim c [
      | err e ↦ (err e, s')
      | ok _ ↦ (
        ok r,
        record s' { reservations = put s.reservations id r; by_order = put s.by_order order_id id },
      )
    ]

unfoldable pub reserve_new :
    String → Dict String ℤ → Option (Dict String ℕ) → Action InventoryService Reservation
reserve_new order_id lines expected s = elim (check_lines lines expected s.stock) [
  | err e ↦ (err e, s)
  | ok _ ↦ take_lines order_id lines s
]

-- After the sweep: a live reservation of the order is returned, any other is replaced.
unfoldable pub reserve_swept :
    String → Dict String ℤ → Option (Dict String ℕ) → Action InventoryService Reservation
reserve_swept order_id lines expected s = elim (get s.by_order order_id) [
  | none ↦ reserve_new order_id lines expected s
  | some id ↦ elim (get s.reservations id) [
    | none ↦ (err key_error, s)
    | some r ↦ if is_live r then (ok r, s) else reserve_new order_id lines expected s
  ]
]

abbrev pub is_valid : Dict String ℤ → Bool
is_valid [] = false
is_valid (l ∷ lines) = all_positive (l ∷ lines)

unfoldable pub reserve :
    String → Dict String ℤ → Option (Dict String ℕ) → Action InventoryService Reservation
reserve order_id lines expected s =
    if not (is_valid lines)
    then (err validation, s)
    else let (c, s') = reclaim s in
      elim c [ err e ↦ (err e, s') | ok _ ↦ reserve_swept order_id lines expected s' ]
