-- ===== src/Inventory/Coverage.antt =====
-- What each change of the items of a reservation does to the units that are on hand and free.
use hld_lld_interview_handbo.Prelude.{
  ◌≡◌, inl, inr, refl, ◌∙◌, arith, String, none, some, [], ◌∷◌, true, false, not, Option-cases,
}
use hld_lld_interview_handbo.Prelude.Int.{
  ℤ, pos, ◌+ℤ◌, ◌-ℤ◌, ◌≤ℤ◌, leb_ℤ, ltb_ℤ, +ℤ_parts, -ℤ_parts,
}
use hld_lld_interview_handbo.Dict.{Dict, string_key, get, put}
use hld_lld_interview_handbo.Dict.Laws.{get-put, IsDict}
use hld_lld_interview_handbo.Inventory.{
  StockItem, identifier_key, available_units, stocked, change_items, returned, sold, taken,
}
use hld_lld_interview_handbo.Inventory.Reserve.{all_positive, any_short}

-- Every item has at least as many units on hand as are reserved.
abbrev pub IsCovered : Dict String StockItem → Type 0
IsCovered stock =
    (sku : String) (item : StockItem) → get stock sku ≡ some item → pos 0 ≤ℤ available_units item

pub put-IsCovered :
    (stock : Dict String StockItem) (sku : String) (item : StockItem)
    → IsCovered stock
    → pos 0 ≤ℤ available_units item
    → IsCovered (put stock sku item)
put-IsCovered stock sku item h k other i e = ground (arith, get-put stock sku item other, h other i)

returned-covered :
    (qty : ℤ) (item : StockItem)
    → pos 0 ≤ℤ available_units item
    → not (leb_ℤ qty (pos 0)) ≡ true
    → pos 0 ≤ℤ available_units (returned qty item)
returned-covered qty item h k = ground (
  arith,
  -ℤ_parts item.on_hand item.reserved,
  -ℤ_parts item.reserved qty,
  -ℤ_parts item.on_hand (item.reserved -ℤ qty),
)

sold-covered :
    (qty : ℤ) (item : StockItem)
    → pos 0 ≤ℤ available_units item
    → pos 0 ≤ℤ available_units (sold qty item)
sold-covered qty item h = omega (
  arith,
  h,
  -ℤ_parts item.on_hand item.reserved,
  -ℤ_parts item.reserved qty,
  -ℤ_parts item.on_hand qty,
  -ℤ_parts (item.on_hand -ℤ qty) (item.reserved -ℤ qty),
)

taken-covered :
    (qty : ℤ) (item : StockItem)
    → ltb_ℤ (available_units item) qty ≡ false
    → pos 0 ≤ℤ available_units (taken qty item)
taken-covered qty item k = ground (
  arith,
  -ℤ_parts item.on_hand item.reserved,
  +ℤ_parts item.reserved qty,
  -ℤ_parts item.on_hand (item.reserved +ℤ qty),
)

pub stocked-covered :
    (qty : ℤ) (item : StockItem)
    → pos 0 ≤ℤ available_units item
    → leb_ℤ qty (pos 0) ≡ false
    → pos 0 ≤ℤ available_units (stocked qty item)
stocked-covered qty item h k = ground (
  arith,
  -ℤ_parts item.on_hand item.reserved,
  +ℤ_parts item.on_hand qty,
  -ℤ_parts (item.on_hand +ℤ qty) item.reserved,
)

pub change_items-returned :
    (lines : Dict String ℤ) (stock : Dict String StockItem)
    → IsCovered stock
    → all_positive lines ≡ true
    → IsCovered (change_items returned lines stock).1
unfolding change_items all_positive
change_items-returned [] stock h k = h
change_items-returned ((sku, qty) ∷ lines) stock h k = elim (Option-cases (get stock sku)) [
  | inl e ↦ rw (e, change_items) h
  | inr (item, e) ↦
      rw (e, change_items)
        (change_items-returned lines (put stock sku (returned qty item))
          (put-IsCovered stock sku (returned qty item) h
            (returned-covered qty item (h sku item e) (ground arith)))
          (ground arith))
]

pub change_items-sold :
    (lines : Dict String ℤ) (stock : Dict String StockItem)
    → IsCovered stock
    → IsCovered (change_items sold lines stock).1
unfolding change_items
change_items-sold [] stock h = h
change_items-sold ((sku, qty) ∷ lines) stock h = elim (Option-cases (get stock sku)) [
  | inl e ↦ rw (e, change_items) h
  | inr (item, e) ↦
      rw (e, change_items)
        (change_items-sold lines (put stock sku (sold qty item))
          (put-IsCovered stock sku (sold qty item) h (sold-covered qty item (h sku item e))))
]

-- What is done to an item that no line names does not matter for the lines.
any_short-put :
    (lines : Dict String ℤ) (stock : Dict String StockItem) (sku : String) (item : StockItem)
    → get lines sku ≡ none
    → any_short lines (put stock sku item) ≡ any_short lines stock
unfolding any_short get
any_short-put [] stock sku item h = refl
any_short-put ((other, qty) ∷ lines) stock sku item h =
    ground (arith, get-put stock sku item other, any_short-put lines stock sku item)

pub change_items-taken :
    (lines : Dict String ℤ) (stock : Dict String StockItem)
    → IsDict lines
    → any_short lines stock ≡ false
    → IsCovered stock
    → IsCovered (change_items taken lines stock).1
unfolding change_items any_short
change_items-taken [] stock d k h = h
change_items-taken ((sku, qty) ∷ lines) stock d k h = elim (Option-cases (get stock sku)) [
  | inl e ↦ rw (e, change_items) h
  | inr (item, e) ↦
      let enough : ltb_ℤ (available_units item) qty ≡ false = ground (arith, k, e) in
      let later : any_short lines stock ≡ false = ground (arith, k) in
      rw (e, change_items)
        (change_items-taken lines (put stock sku (taken qty item)) d.1
          (any_short-put lines stock sku (taken qty item) d.0 ∙ later)
          (put-IsCovered stock sku (taken qty item) h (taken-covered qty item enough)))
]
