-- ===== src/Ot/Commute.antt =====
-- Two splices in either order, one lemma for each way that their ranges can lie.
use hld_lld_interview_handbo.Prelude.{
  ℕ, ◌+◌, ◌-◌, ◌≤◌, ◌<◌, ◌≡◌, ◌∙◌, sym, get_elem?, ltb, if◌then◌else◌, arith, length, min, max,
}
use hld_lld_interview_handbo.Ot.Cells.{
  ext, length-splice_in, cell-splice_in, length-splice_out, cell-splice_out,
}
use hld_lld_interview_handbo.Ot.{Text, splice_in, splice_out}

module _ (d : Text) where
  -- The cells of two inserted texts, the earlier position first, in one form.
  module _ (p q : ℕ) (s t : Text) (h : p ≤ q) (k : q ≤ length d) (i : ℕ) where
    inner_first : get_elem? (splice_in (q + length s) t (splice_in p s d)) i ≡ (
        if ltb i p
        then get_elem? d i
        else if ltb i (p + length s)
        then get_elem? s (i - p)
        else if ltb i (q + length s)
        then get_elem? d (i - length s)
        else if ltb i (q + length s + length t)
        then get_elem? t (i - (q + length s))
        else get_elem? d (i - length t - length s))
    inner_first = ground (
      arith,
      cell-splice_in (q + length s) t (splice_in p s d)
          (omega (arith, length-splice_in p s d (omega arith))) i,
      cell-splice_in p s d (omega arith) i,
      cell-splice_in p s d (omega arith) (i - length t),
    )

    outer_first : get_elem? (splice_in p s (splice_in q t d)) i ≡ (
        if ltb i p
        then get_elem? d i
        else if ltb i (p + length s)
        then get_elem? s (i - p)
        else if ltb i (q + length s)
        then get_elem? d (i - length s)
        else if ltb i (q + length s + length t)
        then get_elem? t (i - (q + length s))
        else get_elem? d (i - length t - length s))
    outer_first = ground (
      arith,
      cell-splice_in p s (splice_in q t d) (omega (arith, length-splice_in q t d k)) i,
      cell-splice_in q t d k i,
      cell-splice_in q t d k (i - length s),
    )

  pub in-in :
      (p q : ℕ) (s t : Text)
      → p ≤ q
      → q ≤ length d
      → splice_in (q + length s) t (splice_in p s d) ≡ splice_in p s (splice_in q t d)
  in-in p q s t h k = ext _ _ (λ i. inner_first p q s t h k i ∙ sym (outer_first p q s t h k i))

  pub in-out_before :
      (p q n : ℕ) (s : Text)
      → p ≤ q
      → q + n ≤ length d
      → splice_out (q + length s) n (splice_in p s d) ≡ splice_in p s (splice_out q n d)
  in-out_before p q n s h k = ext _ _ (λ i. ground (
    arith,
    cell-splice_out (q + length s) n (splice_in p s d)
        (omega (arith, length-splice_in p s d (omega arith))) i,
    cell-splice_in p s d (omega arith) i,
    cell-splice_in p s d (omega arith) (i + n),
    cell-splice_in p s (splice_out q n d) (omega (arith, length-splice_out q n d k)) i,
    cell-splice_out q n d k i,
    cell-splice_out q n d k (i - length s),
  ))

  pub in-out_after :
      (p q n : ℕ) (s : Text)
      → q + n ≤ p
      → p ≤ length d
      → splice_out q n (splice_in p s d) ≡ splice_in (p - n) s (splice_out q n d)
  in-out_after p q n s h k = ext _ _ (λ i. ground (
    arith,
    cell-splice_out q n (splice_in p s d) (omega (arith, length-splice_in p s d k)) i,
    cell-splice_in p s d k i,
    cell-splice_in p s d k (i + n),
    cell-splice_in (p - n) s (splice_out q n d)
        (omega (arith, length-splice_out q n d (omega arith))) i,
    cell-splice_out q n d (omega arith) i,
    cell-splice_out q n d (omega arith) (i - length s),
  ))

  pub in-out_inside :
      (p q n : ℕ) (s : Text)
      → q < p
      → p < q + n
      → q + n ≤ length d
      → splice_out q (n + length s) (splice_in p s d) ≡ splice_out q n d
  in-out_inside p q n s h k fits = ext _ _ (λ i. ground (
    arith,
    cell-splice_out q (n + length s) (splice_in p s d)
        (omega (arith, length-splice_in p s d (omega arith))) i,
    cell-splice_in p s d (omega arith) i,
    cell-splice_in p s d (omega arith) (i + (n + length s)),
    cell-splice_out q n d fits i,
  ))

  pub out-out_before :
      (p n q m : ℕ)
      → p + n ≤ q
      → q + m ≤ length d
      → splice_out (q - n) m (splice_out p n d) ≡ splice_out p n (splice_out q m d)
  out-out_before p n q m h k = ext _ _ (λ i. ground (
    arith,
    cell-splice_out (q - n) m (splice_out p n d)
        (omega (arith, length-splice_out p n d (omega arith))) i,
    cell-splice_out p n d (omega arith) i,
    cell-splice_out p n d (omega arith) (i + m),
    cell-splice_out p n (splice_out q m d) (omega (arith, length-splice_out q m d k)) i,
    cell-splice_out q m d k i,
    cell-splice_out q m d k (i + n),
  ))

  -- Overlapping ranges: what is left of each, taken out after the other.
  pub out-out_overlap :
      (p n q m o : ℕ)
      → q < p + n
      → p < q + m
      → p + n ≤ length d
      → q + m ≤ length d
      → o ≡ min (p + n) (q + m) - max p q
      → splice_out (min p q) (m - o) (splice_out p n d)
        ≡ splice_out (min p q) (n - o) (splice_out q m d)
  out-out_overlap p n q m o h k fp fq e = ext _ _ (λ i. ground (
    arith,
    cell-splice_out (min p q) (m - o) (splice_out p n d) (omega (arith, length-splice_out p n d fp))
        i,
    cell-splice_out p n d fp i,
    cell-splice_out p n d fp (i + (m - o)),
    cell-splice_out (min p q) (n - o) (splice_out q m d) (omega (arith, length-splice_out q m d fq))
        i,
    cell-splice_out q m d fq i,
    cell-splice_out q m d fq (i + (n - o)),
  ))
