-- ===== src/Inventory/Units.antt =====
-- The sharded counter neither loses units nor sells one twice.
use hld_lld_interview_handbo.Prelude.{
  All, ◌<◌, ℕ, ◌+◌, ◌%◌, ◌≡◌, Option, none, some, length, get_elem?,
}
use hld_lld_interview_handbo.Prelude.Int.{ℤ, ◌+ℤ◌, ◌-ℤ◌, ◌≤ℤ◌}
use hld_lld_interview_handbo.Inventory.FlashSale.{FlashSaleCounter, set_shard, remaining}

-- What a sale has done: a shard that held the units asked for has that many fewer; or no shard held
-- them, and nothing has changed.
abbrev pub IsTaken : ℤ → FlashSaleCounter → Option ℕ × FlashSaleCounter → Type 0
IsTaken quantity c (none, c') = All (λ units. ¬ (quantity ≤ℤ units)) c.shards × (c' ≡ c)
IsTaken quantity c (some i, c') =
    ((units : ℤ) × (get_elem? c.shards i ≡ some units)
      × (quantity ≤ℤ units)
      × (c'.shards ≡ set_shard i (units -ℤ quantity) c.shards))
    × (remaining c' +ℤ quantity ≡ remaining c)

abbrev shard_of : ℕ → FlashSaleCounter → Option ℤ
shard_of offset c = get_elem? c.shards ((c.cursor + offset) % length c.shards)

-- No shard at the `n` offsets from `offset` on holds so many units.
abbrev IsShort : ℕ → ℕ → ℤ → FlashSaleCounter → Type 0
IsShort n offset quantity c =
    (k : ℕ) (units : ℤ) → k < n → shard_of (offset + k) c ≡ some units → ¬ (quantity ≤ℤ units)

-- What the loop has done from `offset` on.
abbrev IsTried : ℕ → ℕ → ℤ → FlashSaleCounter → Option ℕ × FlashSaleCounter → Type 0
IsTried n offset quantity c (none, c') = IsShort n offset quantity c × (c' ≡ c)
IsTried n offset quantity c (some i, c') = IsTaken quantity c (some i, c')
