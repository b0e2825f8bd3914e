-- ===== src/Prelude/Bits.antt =====
-- Shifts and the native operations on binary digits, as arithmetic at every width.
use Prim.Native.Nat.{
  ℕ, zero, suc, ◌+◌, ◌-◌, ◌*◌, ◌/◌, ◌%◌, ◌^◌, ◌≤◌, ◌<◌, min, max, bit_and, bit_or, bit_xor, digits,
  differ, bit_and-bitwise, bit_or-bitwise, bit_xor-bitwise,
}
use mathlib.Core.Path.{◌≡◌, refl, ap}
use native.Mathlib.Nat.{pow-suc, one-le-pow, div-div-eq-div-mul, mod_def, le_refl}
use native.Mathlib.Omega.{arith}

infixl 60 ◌<<◌ ◌>>>◌
abbrev pub ◌<<◌ : ℕ → ℕ → ℕ
x << k = x * 2 ^ k

abbrev pub ◌>>>◌ : ℕ → ℕ → ℕ
x >>> k = x / 2 ^ k

-- `(1 << k) - 1`
abbrev pub ones : ℕ → ℕ
ones k = 2 ^ k - 1

module _ (z : ℕ → ℕ) (f : ℕ → ℕ → ℕ) where
  -- Digits to go beyond those of the first number change nothing.
  digits-enough : (a b n m : ℕ) → a ≤ n → a ≤ m → digits z f n a b ≡ digits z f m a b
  digits-enough zero b zero zero p q = refl
  digits-enough zero b zero (suc m) p q = refl
  digits-enough zero b (suc n) zero p q = refl
  digits-enough zero b (suc n) (suc m) p q = refl
  digits-enough (suc a) b zero m p q = absurd (omega arith)
  digits-enough (suc a) b (suc n) zero p q = absurd (omega arith)
  digits-enough (suc a) b (suc n) (suc m) p q =
      rw (digits-enough (suc a / 2) (b / 2) n m (omega arith) (omega arith))

  first_digit :
      (a b : ℕ)
      → digits z f (suc a) (suc a) b
        ≡ digits z f (suc a / 2) (suc a / 2) (b / 2) * 2 + f (suc a % 2) (b % 2)
  first_digit a b =
      omega (arith, digits-enough (suc a / 2) (b / 2) a (suc a / 2) (omega arith) (le_refl _))

or-halves : (a b : ℕ) → bit_or a b ≡ bit_or (a / 2) (b / 2) * 2 + max (a % 2) (b % 2)
or-halves zero b = simp bit_or-bitwise (omega arith)
or-halves (suc a) b = simp bit_or-bitwise (first_digit (λ b. b) max a b)

and-halves : (a b : ℕ) → bit_and a b ≡ bit_and (a / 2) (b / 2) * 2 + min (a % 2) (b % 2)
and-halves zero b = simp bit_and-bitwise (omega arith)
and-halves (suc a) b = simp bit_and-bitwise (first_digit (λ b. zero) min a b)

zero-xor : (b : ℕ) → bit_xor 0 b ≡ b
zero-xor b = simp bit_xor-bitwise refl

differ-zero : (d : ℕ) → differ 0 d ≡ d
differ-zero d = refl

xor-halves : (a b : ℕ) → bit_xor a b ≡ bit_xor (a / 2) (b / 2) * 2 + differ (a % 2) (b % 2)
xor-halves zero b = simp bit_xor-bitwise (omega arith)
xor-halves (suc a) b = simp bit_xor-bitwise (first_digit (λ b. b) differ a b)

or-zero_below : (n a : ℕ) → a ≤ n → bit_or a 0 ≡ a
or-zero_below n zero h = refl
or-zero_below zero (suc a) h = absurd (omega arith)
or-zero_below (suc n) (suc a) h =
    omega (arith, or-halves (suc a) 0, or-zero_below n (suc a / 2) (omega arith))

and-zero_below : (n a : ℕ) → a ≤ n → bit_and a 0 ≡ 0
and-zero_below n zero h = refl
and-zero_below zero (suc a) h = absurd (omega arith)
and-zero_below (suc n) (suc a) h =
    omega (arith, and-halves (suc a) 0, and-zero_below n (suc a / 2) (omega arith))

shift-suc : (q k : ℕ) → q << suc k ≡ 2 * (q << k)
shift-suc q k = omega (arith, ap (λ (t : ℕ). q * t) (pow-suc 2 k))

-- A shifted number and one that fits the freed digits share no digit.
pub or-shifted : (k q r : ℕ) → r < 2 ^ k → bit_or (q << k) r ≡ (q << k) + r
or-shifted zero q r fits = ground (arith, or-zero_below q q)
or-shifted (suc k) q r fits = ground (
  arith,
  or-halves (q << suc k) r,
  shift-suc q k,
  pow-suc 2 k,
  or-shifted k q (r / 2) (omega (arith, pow-suc 2 k)),
)

mod-double : (a m : ℕ) → 1 ≤ m → a % (2 * m) ≡ a / 2 % m * 2 + a % 2
mod-double a m h = grind (arith, div-div-eq-div-mul a 2 m, mod_def a (2 * m), mod_def (a / 2) m)

-- A mask of ones is a remainder.
pub and-ones : (k a : ℕ) → bit_and a (ones k) ≡ a % 2 ^ k
and-ones zero a = ground (arith, and-zero_below a a)
and-ones (suc k) a =
    let m : ℕ = 2 ^ k in
    let two : 2 ^ suc k ≡ 2 * m = omega (arith, pow-suc 2 k) in
    let some_digit : 1 ≤ m = one-le-pow k 2 (omega arith) in
    let half : ones (suc k) / 2 ≡ m - 1 = omega (arith, two, some_digit) in
    let odd : ones (suc k) % 2 ≡ 1 = omega (arith, two, some_digit) in
    let low : a % (2 * m) ≡ a / 2 % m * 2 + a % 2 = mod-double a m some_digit in
    rw two (
      rw low (
        omega (
          arith,
          and-halves a (2 * m - 1),
          rw two at half,
          rw two at odd,
          ap (bit_and (a / 2)) (rw two at half),
          and-ones k (a / 2),
        )))

xor_digit : (x y : ℕ) → x < 2 → y < 2 → (differ x y < 2) × (differ (differ x y) y ≡ x)
xor_digit zero zero h k = (omega arith, refl)
xor_digit zero (suc zero) h k = (omega arith, refl)
xor_digit zero (suc (suc y)) h k = absurd (omega arith)
xor_digit (suc zero) zero h k = (omega arith, refl)
xor_digit (suc zero) (suc zero) h k = (omega arith, refl)
xor_digit (suc zero) (suc (suc y)) h k = absurd (omega arith)
xor_digit (suc (suc x)) y h k = absurd (omega arith)

xor-cancel_step :
    (a b : ℕ) → bit_xor (bit_xor (a / 2) (b / 2)) (b / 2) ≡ a / 2 → bit_xor (bit_xor a b) b ≡ a
xor-cancel_step a b h =
    let digit = xor_digit (a % 2) (b % 2) (omega arith) (omega arith) in
    let half : bit_xor a b / 2 ≡ bit_xor (a / 2) (b / 2) = omega (arith, xor-halves a b, digit.0) in
    let low : bit_xor a b % 2 ≡ differ (a % 2) (b % 2) = omega (arith, xor-halves a b, digit.0) in
    omega (
      arith,
      xor-halves (bit_xor a b) b,
      ap (λ (t : ℕ). bit_xor t (b / 2)) half,
      ap (λ (t : ℕ). differ t (b % 2)) low,
      h,
      digit.1,
    )

xor-cancel_below : (n a b : ℕ) → a + b ≤ n → bit_xor (bit_xor a b) b ≡ a
xor-cancel_below zero zero zero h = refl
xor-cancel_below zero zero (suc b) h = absurd (omega arith)
xor-cancel_below zero (suc a) b h = absurd (omega arith)
xor-cancel_below (suc n) zero zero h = refl
xor-cancel_below (suc n) zero (suc b) h =
    xor-cancel_step zero (suc b) (xor-cancel_below n zero (suc b / 2) (omega arith))
xor-cancel_below (suc n) (suc a) b h =
    xor-cancel_step (suc a) b (xor-cancel_below n (suc a / 2) (b / 2) (omega arith))

-- An exclusive or is undone by doing it again.
pub xor-cancel : (a b : ℕ) → bit_xor (bit_xor a b) b ≡ a
xor-cancel a b = xor-cancel_below (a + b) a b (omega arith)

pub xor-bound : (k a b : ℕ) → a < 2 ^ k → b < 2 ^ k → bit_xor a b < 2 ^ k
xor-bound zero zero zero h k = omega arith
xor-bound zero zero (suc b) h k = absurd (omega arith)
xor-bound zero (suc a) b h k = absurd (omega arith)
xor-bound (suc k) a b h h' = ground (
  arith,
  xor-halves a b,
  pow-suc 2 k,
  xor-bound k (a / 2) (b / 2) (omega (arith, pow-suc 2 k)) (omega (arith, pow-suc 2 k)),
  xor_digit (a % 2) (b % 2),
)

suc_sum : (a b : ℕ) → suc a + b ≡ suc (a + b)
suc_sum a b = omega arith

pub pow_sum : (a b : ℕ) → 2 ^ (a + b) ≡ 2 ^ a * 2 ^ b
pow_sum zero b = ground arith
pow_sum (suc a) b = grind (arith, pow_sum a b, pow-suc 2 a, pow-suc 2 (a + b), suc_sum a b)
