-- ===== src/Inventory/Places.antt =====
-- The places of a list of shards, and the offsets and indices that lead to them.
use hld_lld_interview_handbo.Prelude.{
  leb, ◌/◌, ◌*◌, All, ◌<◌, ◌↔◌, ◌-◌, ltb, ℕ, zero, suc, ◌+◌, ◌%◌, ◌≡◌, ◌⊎◌, inl, inr, refl, ap, ◌∙◌,
  arith, none, some, List, [], ◌∷◌, Bool-cases, length, get_elem?,
}
use native.Mathlib.Nat.{mod-lt, mod-eq_of_lt, div-add-mod', mul-add-mod_self_right}
use hld_lld_interview_handbo.Prelude.Int.{ℤ, pos, ◌+ℤ◌, ◌≤ℤ◌, neg, negsuc}
use hld_lld_interview_handbo.Inventory.FlashSale.{place_of}

-- Some offset leads from the cursor to each place.
pub offset_to :
    (cursor count i : ℕ)
    → i < count
    → (offset : ℕ) × (offset < count) × ((cursor + offset) % count ≡ i)
offset_to cursor count i h =
    let r : ℕ = cursor % count in
    let whole : cursor / count * count + r ≡ cursor = div-add-mod' cursor count in
    let bound : r < count = mod-lt cursor (omega (arith, h)) in
    let small : i % count ≡ i = mod-eq_of_lt h in
    let turn = mul-add-mod_self_right (cursor / count) count in
    elim (Bool-cases (leb r i)) [
      | inl above ↦
          let at : cursor + (i - r) ≡ cursor / count * count + i = ground (arith, whole, above) in
          (i - r, ground (arith, h), ap (λ m. m % count) at ∙ turn i ∙ small)
      | inr below ↦
          let at : cursor + (i + count - r) ≡ cursor / count * count + (1 * count + i) =
            ground (arith, whole, bound) in
          (
            i + count - r,
            ground (arith, h, bound, below),
            ap (λ m. m % count) at
                ∙ turn (1 * count + i)
                ∙ mul-add-mod_self_right 1 count i
                ∙ small,
          )
    ]

pub get_elem?-All :
    (P : ℤ → Type 0) (xs : List ℤ)
    → ((i : ℕ) (x : ℤ) → i < length xs → get_elem? xs i ≡ some x → P x)
    → All P xs
get_elem?-All P [] h = tt
get_elem?-All P (x ∷ xs) h =
    (h 0 x (omega arith) refl, get_elem?-All P xs λ i y b e. h (suc i) y (omega (arith, b)) e)

pub get_elem?-inside : (xs : List ℤ) (i : ℕ) → i < length xs → (x : ℤ) × (get_elem? xs i ≡ some x)
get_elem?-inside [] i h = absurd (omega (arith, h))
get_elem?-inside (x ∷ xs) zero h = (x, refl)
get_elem?-inside (x ∷ xs) (suc i) h = get_elem?-inside xs i (omega (arith, h))

-- The list has a place for the index, counted from the end where it is negative.
abbrev pub IsInside : ℤ → ℕ → Type 0
IsInside index count = (neg (pos count) ≤ℤ index) × (index +ℤ pos 1 ≤ℤ pos count)

IsInside-pos : (i count : ℕ) → IsInside (pos i) count ↔ (i < count)
unfolding neg ◌+ℤ◌
IsInside-pos i count = (λ h. ground (arith, h.1), λ h. (ground arith, ground arith))

IsInside-negsuc : (i count : ℕ) → IsInside (negsuc i) count ↔ (i < count)
unfolding neg ◌+ℤ◌
IsInside-negsuc i count = (λ h. ground (arith, h.0), λ h. (ground arith, ground arith))

-- The place of an index that has one is inside the list.
pub place_cases :
    (index : ℤ) (count : ℕ)
    → (IsInside index count × ((i : ℕ) × (i < count) × (place_of index count ≡ some i)))
      ⊎ ((¬ IsInside index count) × (place_of index count ≡ none))
place_cases (pos i) count = elim (Bool-cases (ltb i count)) [
  | inl inside ↦ inl ((IsInside-pos i count).1 (ground arith), (i, ground arith, rw inside refl))
  | inr outside ↦ inr (λ h. absurd (ground (arith, (IsInside-pos i count).0 h)), rw outside refl)
]
place_cases (negsuc i) count = elim (Bool-cases (ltb i count)) [
  | inl inside ↦
      inl
        ((IsInside-negsuc i count).1 (ground arith), (count - suc i, ground arith, rw inside refl))
  | inr outside ↦ inr (λ h. absurd (ground (arith, (IsInside-negsuc i count).0 h)), rw outside refl)
]
