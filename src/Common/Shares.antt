-- ===== src/Common/Shares.antt =====
-- `allocate` of code/common/money.py loses no cents.
use hld_lld_interview_handbo.Prelude.{
  ℕ, zero, suc, ◌+◌, ◌%◌, ◌<◌, ◌==◌, ◌≡◌, inl, inr, refl, sym, ap, ◌∙◌, arith, false, List, [], ◌∷◌,
  map, length, Bool-cases,
}
use mathlib.Core.Path.{subst}
use hld_lld_interview_handbo.Prelude.Int.{ℤ, pos, negsuc, ◌+ℤ◌, ◌-ℤ◌, sum_ℤ, int_laws}
use hld_lld_interview_handbo.Common.Error.{Result, ok, Result-cases}
use hld_lld_interview_handbo.Common.Money.{Money}
use hld_lld_interview_handbo.Common.Allocate.{
  naturals, sum_of, share, add_at, spread, spread_all, allocate,
}

sum_ℤ-add_at :
    (i : ℕ) (step : ℤ) (shares : List ℤ)
    → i < length shares
    → sum_ℤ (add_at i step shares) ≡ sum_ℤ shares +ℤ step
unfolding add_at
sum_ℤ-add_at i step [] h = absurd (omega arith)
sum_ℤ-add_at zero step (x ∷ xs) h = omega int_laws
sum_ℤ-add_at (suc i) step (x ∷ xs) h =
    let rest = sum_ℤ-add_at i step xs (omega arith) in rw rest (omega int_laws)

length-add_at : (i : ℕ) (step : ℤ) (shares : List ℤ) → length (add_at i step shares) ≡ length shares
unfolding add_at
length-add_at i step [] = refl
length-add_at zero step (x ∷ xs) = refl
length-add_at (suc i) step (x ∷ xs) = ap suc (length-add_at i step xs)

-- `n` steps.
abbrev steps : ℕ → ℤ → ℤ
steps zero step = pos 0
steps (suc n) step = step +ℤ steps n step

sum_ℤ-spread :
    (n i : ℕ) (step : ℤ) (shares : List ℤ)
    → 0 < length shares
    → sum_ℤ (spread n i step shares) ≡ sum_ℤ shares +ℤ steps n step
unfolding spread
sum_ℤ-spread zero i step shares h = omega int_laws
sum_ℤ-spread (suc n) i step shares h =
    let next : List ℤ = add_at (i % length shares) step shares in
    let here = sum_ℤ-add_at (i % length shares) step shares (omega (arith, h)) in
    let rest =
      sum_ℤ-spread n (i + 1) step next
        (omega (arith, h, length-add_at (i % length shares) step shares)) in
    rest ∙ rw here (omega int_laws)

steps-up : (n : ℕ) → steps n (pos 1) ≡ pos n
steps-up zero = refl
steps-up (suc n) = rw (steps-up n) (omega int_laws)

steps-down : (n : ℕ) → steps (suc n) (negsuc 0) ≡ negsuc n
steps-down zero = omega int_laws
steps-down (suc n) = rw (steps-down n) (omega int_laws)

sum_ℤ-spread_all :
    (remainder : ℤ) (shares : List ℤ)
    → 0 < length shares
    → sum_ℤ (spread_all remainder shares) ≡ sum_ℤ shares +ℤ remainder
sum_ℤ-spread_all (pos n) shares h = sum_ℤ-spread n 0 (pos 1) shares h ∙ rw (steps-up n) refl
sum_ℤ-spread_all (negsuc n) shares h =
    let one_more : n + 1 ≡ suc n = omega arith in
    sum_ℤ-spread (n + 1) 0 (negsuc 0) shares h
    ∙ ap (λ k. sum_ℤ shares +ℤ k) (ap (λ (m : ℕ). steps m (negsuc 0)) one_more ∙ steps-down n)

length-spread :
    (n i : ℕ) (step : ℤ) (shares : List ℤ) → length (spread n i step shares) ≡ length shares
unfolding spread
length-spread zero i step shares = refl
length-spread (suc n) i step shares =
    length-spread n (i + 1) step (add_at (i % length shares) step shares)
    ∙ length-add_at (i % length shares) step shares

length-spread_all :
    (remainder : ℤ) (shares : List ℤ) → length (spread_all remainder shares) ≡ length shares
length-spread_all (pos n) shares = length-spread n 0 (pos 1) shares
length-spread_all (negsuc n) shares = length-spread (n + 1) 0 (negsuc 0) shares

length-map : {A B : Type 0} (f : A → B) (xs : List A) → length (map f xs) ≡ length xs
length-map f [] = refl
length-map f (x ∷ xs) = ap suc (length-map f xs)

length-naturals :
    (ratios : List ℤ) (rs : List ℕ) → naturals ratios ≡ ok rs → length rs ≡ length ratios
unfolding naturals
length-naturals [] rs h = ground (arith, h)
length-naturals (negsuc n ∷ ratios) rs h = absurd (ground (arith, h))
length-naturals (pos n ∷ ratios) rs h = elim (Result-cases (naturals ratios)) [
  | inr (x, e) ↦ absurd (ground (arith, h, e))
  | inl (rest, e) ↦ ground (arith, h, e, length-naturals ratios rest e)
]

some_ratio : (rs : List ℕ) → (sum_of rs == 0) ≡ false → 0 < length rs
some_ratio [] h = ground (arith, h)
some_ratio (r ∷ rs) h = omega arith

cents_of-shares :
    (m : Money) (xs : List ℤ)
    → map (λ (m : Money). m.cents) (map (λ s. record m { cents = s }) xs) ≡ xs
cents_of-shares m [] = refl
cents_of-shares m (x ∷ xs) = ap (◌∷◌ x) (cents_of-shares m xs)

put_back : (a b : ℤ) → a +ℤ (b -ℤ a) ≡ b
put_back a b = omega int_laws

ok_eq : (a b : List Money) → Result.ok a ≡ ok b → a ≡ b
ok_eq a b e = ground (arith, e)

-- Money that is allocated comes out as one share for each ratio, and the cents of the shares are
-- together the cents there were.
pub allocate-sum_ℤ :
    (ratios : List ℤ) (m : Money) (shares : List Money)
    → allocate ratios m ≡ ok shares
    → (length shares ≡ length ratios) × (sum_ℤ (map (λ s. s.cents) shares) ≡ m.cents)
unfolding allocate
allocate-sum_ℤ ratios m shares h = elim (Result-cases (naturals ratios)) [
  | inr (x, e) ↦ absurd (ground (arith, rw (e, allocate) at h))
  | inl (rs, e) ↦ elim (Bool-cases (sum_of rs == 0)) [
    | inl zero_sum ↦ absurd (ground (arith, rw zero_sum at (rw (e, allocate) at h)))
    | inr some_sum ↦
        let parts : List ℤ = map (share m.cents (sum_of rs)) rs in
        let all : List ℤ = spread_all (m.cents -ℤ sum_ℤ parts) parts in
        let mine : List Money = map (λ (c : ℤ). record m { cents = c }) all in
        let run : allocate ratios m ≡ ok mine = rw (e, allocate) (rw some_sum refl) in
        let same : mine ≡ shares = ok_eq mine shares (sym run ∙ h) in
        let counted : length parts ≡ length rs = length-map (share m.cents (sum_of rs)) rs in
        let some_part : 0 < length parts = omega (arith, counted, some_ratio rs some_sum) in
        subst
          (λ (ms : List Money).
            (length ms ≡ length ratios) × (sum_ℤ (map (λ s. s.cents) ms) ≡ m.cents))
          same
          (
            length-map (λ (c : ℤ). record m { cents = c }) all
                ∙ length-spread_all (m.cents -ℤ sum_ℤ parts) parts
                ∙ counted
                ∙ length-naturals ratios rs e,
            ap sum_ℤ (cents_of-shares m all)
                ∙ sum_ℤ-spread_all (m.cents -ℤ sum_ℤ parts) parts some_part
                ∙ put_back (sum_ℤ parts) m.cents,
          )
  ]
]
