-- ===== src/Matching/Risk.antt =====
-- The checks before a match (`_risk_check` of code/hld/matching_engine.py), described by what they
-- refuse.
use hld_lld_interview_handbo.Prelude.{
  ℕ, ◌+◌, ◌*◌, ◌/◌, ◌<◌, ◌≤◌, ◌⊎◌, ◌≡◌, inl, inr, refl, arith, Option, none, some, true, false,
  Bool-cases, ltb,
}
use hld_lld_interview_handbo.Prelude.Int.{pos, ◌≤ℤ◌, ◌-ℤ◌, leb_ℤ}
use hld_lld_interview_handbo.Dict.{string_key}
use hld_lld_interview_handbo.Matching.{
  NewOrder, RejectReason, above_cap, too_many_open, outside_collar,
}
use hld_lld_interview_handbo.Matching.Engine.{
  MatchingEngine, RiskLimits, open_orders, collar_reason, in_collar, order_of, risk_reason,
  recorded,
}

-- A limit price more than the band away from the last price.
abbrev pub IsOutside : RiskLimits → Option ℕ → Option ℕ → Type 0
IsOutside limits none last = ⊥
IsOutside limits (some price) none = ⊥
IsOutside limits (some price) (some last) =
    (price + last * limits.price_band_bps / 10000 < last)
    ⊎ (last + last * limits.price_band_bps / 10000 < price)

-- Why the engine refuses a request, in the order in which it looks.
abbrev pub IsReason : RejectReason → NewOrder → MatchingEngine → Type 0
IsReason above_cap c e = e.limits.max_order_quantity < c.quantity
IsReason too_many_open c e =
    (c.quantity ≤ e.limits.max_order_quantity)
    × (pos e.limits.max_open_orders_per_account ≤ℤ open_orders c.account_id e)
IsReason outside_collar c e =
    (c.quantity ≤ e.limits.max_order_quantity)
    × (¬ (pos e.limits.max_open_orders_per_account ≤ℤ open_orders c.account_id e))
    × IsOutside e.limits c.price e.last_price

in_collar_cases :
    (band last price : ℕ)
    → (((price + band < last) ⊎ (last + band < price)) × (in_collar band last price ≡ false))
      ⊎ ((¬ ((price + band < last) ⊎ (last + band < price))) × (in_collar band last price ≡ true))
unfolding ◌-ℤ◌
in_collar_cases band last price = ground arith

collar_cases :
    (limits : RiskLimits) (price last : Option ℕ)
    → (IsOutside limits price last × (collar_reason limits price last ≡ some outside_collar))
      ⊎ ((¬ IsOutside limits price last) × (collar_reason limits price last ≡ none))
collar_cases limits none last = inr (λ h. h, refl)
collar_cases limits (some price) none = inr (λ h. h, refl)
collar_cases limits (some price) (some last) =
    elim (in_collar_cases (last * limits.price_band_bps / 10000) last price) [
      | inl (far, e) ↦ inl (far, rw e refl)
      | inr (near, e) ↦ inr (near, rw e refl)
    ]

no-IsReason :
    (c : NewOrder) (e : MatchingEngine)
    → ¬ IsReason above_cap c e
    → ¬ (pos e.limits.max_open_orders_per_account ≤ℤ open_orders c.account_id e)
    → ¬ IsOutside e.limits c.price e.last_price
    → (reason : RejectReason) → ¬ IsReason reason c e
no-IsReason c e h k l above_cap r = h r
no-IsReason c e h k l too_many_open r = k r.1
no-IsReason c e h k l outside_collar r = l r.2

-- The checks see the engine with the order already in its tables, which changes nothing they read.
pub risk_cases :
    (sequence n : ℕ) (c : NewOrder) (e : MatchingEngine)
    → ((reason : RejectReason) × IsReason reason c e
        × (risk_reason (order_of sequence c) (recorded n (order_of sequence c) e) ≡ some reason))
      ⊎ ((¬ ((reason : RejectReason) × IsReason reason c e))
          × (risk_reason (order_of sequence c) (recorded n (order_of sequence c) e) ≡ none))
unfolding risk_reason
risk_cases sequence n c e = elim (Bool-cases (ltb e.limits.max_order_quantity c.quantity)) [
  | inl large ↦ inl (above_cap, ground arith, rw large refl)
  | inr fits ↦
      let busy = leb_ℤ (pos e.limits.max_open_orders_per_account) (open_orders c.account_id e) in
      elim (Bool-cases busy) [
        | inl many ↦ inl (too_many_open, (ground arith, ground arith), rw fits (rw many refl))
        | inr few ↦ elim (collar_cases e.limits c.price e.last_price) [
          | inl (far, found) ↦
              inl (outside_collar, (ground arith, ground arith, far), rw fits (rw few found))
          | inr (near, found) ↦ inr (
            λ (reason, r). no-IsReason c e (ground arith) (ground arith) near reason r,
            rw fits (rw few found),
          )
        ]
      ]
]
