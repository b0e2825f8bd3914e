-- ===== src/Inventory/FlashSale.antt =====
-- `Outbox` and `FlashSaleCounter` of code/hld/inventory_reservation.py. The payload of an event is a
-- parameter.
use hld_lld_interview_handbo.Prelude.{
  ℕ, zero, suc, ◌+◌, ◌-◌, ◌/◌, ◌%◌, ltb, String, Option, none, some, List, [], ◌∷◌, ◌++◌,
  if◌then◌else◌, length, get_elem?,
}
use hld_lld_interview_handbo.Prelude.Int.{ℤ, pos, negsuc, ◌+ℤ◌, ◌-ℤ◌, leb_ℤ, sum_ℤ}
use hld_lld_interview_handbo.Common.Error.{Result, ok, err, validation, index_error}
use hld_lld_interview_handbo.Common.Action.{Action}

pub record OutboxEvent (P : Type 0) : Type 0 where
  pub topic : String
  pub payload : P

abbrev pub Outbox : Type 0 → Type 0
Outbox P = List (OutboxEvent P)

abbrev pub append : {P : Type 0} → String → P → Outbox P → Outbox P
append topic payload pending = pending ++ record { topic = topic; payload = payload } ∷ []

abbrev pub relay : {P : Type 0} → Outbox P → List (OutboxEvent P) × Outbox P
relay pending = (pending, [])

pub record FlashSaleCounter : Type 0 where
  pub sku : String
  pub shards : List ℤ
  pub cursor : ℕ

-- The units of the last `n` of `count` shards.
unfoldable pub split_units : ℕ → ℕ → ℕ → ℕ → List ℤ
split_units total count i zero = []
split_units total count i (suc n) =
    pos (total / count + (if ltb i (total % count) then 1 else 0))
    ∷ split_units total count (i + 1) n

unfoldable pub new_counter : String → ℤ → ℤ → Result FlashSaleCounter
new_counter sku (negsuc t) shards = err validation
new_counter sku (pos t) (negsuc n) = err validation
new_counter sku (pos zero) (pos n) = err validation
new_counter sku (pos (suc t)) (pos zero) = err validation
new_counter sku (pos (suc t)) (pos (suc n)) =
    ok (record { sku = sku; shards = split_units (suc t) (suc n) 0 (suc n); cursor = 0 })

unfoldable pub set_shard : ℕ → ℤ → List ℤ → List ℤ
set_shard i units [] = []
set_shard zero units (x ∷ xs) = units ∷ xs
set_shard (suc i) units (x ∷ xs) = x ∷ set_shard i units xs

-- The loop of `take` from `offset`, with `n` shards left to try.
unfoldable pub take_from : ℕ → ℕ → ℤ → FlashSaleCounter → Option ℕ × FlashSaleCounter
take_from zero offset quantity c = (none, c)
take_from (suc n) offset quantity c =
    let rest = take_from n (offset + 1) quantity c in
    let count = length c.shards in
    let index = (c.cursor + offset) % count in
    elim (get_elem? c.shards index) [
      | none ↦ rest
      | some units ↦
          if leb_ℤ quantity units
          then (
            some index,
            record c {
              shards = set_shard index (units -ℤ quantity) c.shards;
              cursor = (index + 1) % count;
            },
          )
          else rest
    ]

unfoldable pub take : ℤ → Action FlashSaleCounter (Option ℕ)
take quantity c =
    if leb_ℤ quantity (pos 0)
    then (err validation, c)
    else let (index, c') = take_from (length c.shards) 0 quantity c in (ok index, c')

-- The place of a Python index in a list of this length: a negative one counts from the end.
abbrev pub place_of : ℤ → ℕ → Option ℕ
place_of (pos i) count = if ltb i count then some i else none
place_of (negsuc i) count = if ltb i count then some (count - suc i) else none

abbrev pub shard_at : List ℤ → Option ℕ → Option (ℕ × ℤ)
shard_at shards none = none
shard_at shards (some i) = elim (get_elem? shards i) [ none ↦ none | some units ↦ some (i, units) ]

unfoldable pub give_back : ℤ → ℤ → Action FlashSaleCounter Unit
give_back index quantity c = elim (shard_at c.shards (place_of index (length c.shards))) [
  | none ↦ (err index_error, c)
  | some (i, units) ↦ (ok tt, record c { shards = set_shard i (units +ℤ quantity) c.shards })
]

abbrev pub remaining : FlashSaleCounter → ℤ
remaining c = sum_ℤ c.shards
