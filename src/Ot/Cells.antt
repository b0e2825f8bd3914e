-- ===== src/Ot/Cells.antt =====
-- A text after an operation, cell by cell, and texts that agree in every cell.
use hld_lld_interview_handbo.Prelude.{
  ℕ, zero, suc, ◌+◌, ◌-◌, ◌≤◌, ◌≡◌, refl, none, List, [], ◌∷◌, ◌++◌, arith, ltb, if◌then◌else◌,
  length, get_elem?, take, drop, length-append, length-take, length-drop,
}
use hld_lld_interview_handbo.Ot.{Text, splice_in, splice_out}

module _ {A : Type 0} where
  pub ext : (xs ys : List A) → ((i : ℕ) → get_elem? xs i ≡ get_elem? ys i) → xs ≡ ys
  ext [] [] h = refl
  ext [] (y ∷ ys) h = absurd (cc (h 0))
  ext (x ∷ xs) [] h = absurd (cc (h 0))
  ext (x ∷ xs) (y ∷ ys) h =
      let head : x ≡ y = cc (h 0) in let tail : xs ≡ ys = ext xs ys (λ i. h (suc i)) in cc

  get_elem?-append :
      (xs ys : List A) (i : ℕ)
      → get_elem? (xs ++ ys) i
        ≡ (if ltb i (length xs) then get_elem? xs i else get_elem? ys (i - length xs))
  get_elem?-append [] ys i = ground arith
  get_elem?-append (x ∷ xs) ys zero = ground arith
  get_elem?-append (x ∷ xs) ys (suc i) = ground (arith, get_elem?-append xs ys i)

  get_elem?-take :
      (n : ℕ) (xs : List A) (i : ℕ)
      → get_elem? (take n xs) i ≡ (if ltb i n then get_elem? xs i else none)
  get_elem?-take zero xs i = ground arith
  get_elem?-take (suc n) [] i = ground arith
  get_elem?-take (suc n) (x ∷ xs) zero = ground arith
  get_elem?-take (suc n) (x ∷ xs) (suc i) = ground (arith, get_elem?-take n xs i)

  get_elem?-drop : (n : ℕ) (xs : List A) (i : ℕ) → get_elem? (drop n xs) i ≡ get_elem? xs (n + i)
  get_elem?-drop zero xs i = ground arith
  get_elem?-drop (suc n) [] i = refl
  get_elem?-drop (suc n) (x ∷ xs) i = ground (arith, get_elem?-drop n xs i)

module _ (p : ℕ) (s d : Text) (fits : p ≤ length d) where
  pub length-splice_in : length (splice_in p s d) ≡ length d + length s
  unfolding splice_in
  length-splice_in = omega (
    arith,
    length-append (take p d) (s ++ drop p d),
    length-append s (drop p d),
    length-take p d,
    length-drop p d,
  )

  pub cell-splice_in :
      (i : ℕ)
      → get_elem? (splice_in p s d) i ≡ (
          if ltb i p
          then get_elem? d i
          else if ltb i (p + length s)
          then get_elem? s (i - p)
          else get_elem? d (i - length s))
  unfolding splice_in
  cell-splice_in i = ground (
    arith,
    get_elem?-append (take p d) (s ++ drop p d) i,
    get_elem?-append s (drop p d) (i - p),
    get_elem?-take p d i,
    get_elem?-drop p d (i - p - length s),
    length-take p d,
  )

module _ (p n : ℕ) (d : Text) (fits : p + n ≤ length d) where
  pub length-splice_out : length (splice_out p n d) ≡ length d - n
  unfolding splice_out
  length-splice_out =
      omega
        (arith, length-append (take p d) (drop (p + n) d), length-take p d, length-drop (p + n) d)

  pub cell-splice_out :
      (i : ℕ)
      → get_elem? (splice_out p n d) i ≡ (if ltb i p then get_elem? d i else get_elem? d (i + n))
  unfolding splice_out
  cell-splice_out i = ground (
    arith,
    get_elem?-append (take p d) (drop (p + n) d) i,
    get_elem?-take p d i,
    get_elem?-drop (p + n) d (i - p),
    length-take p d,
  )
