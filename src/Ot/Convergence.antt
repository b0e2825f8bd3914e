-- ===== src/Ot/Convergence.antt =====
-- The convergence property of `transform`, named TP1 in the source.
use hld_lld_interview_handbo.Prelude.{
  ℕ, ◌+◌, ◌-◌, ◌≤◌, ◌<◌, ◌≡◌, ◌∙◌, sym, refl, ap, Option, none, some, Bool, true, false, arith,
  length, min, max, take-append-drop,
}
use native.Mathlib.Nat.{add-zero}
use hld_lld_interview_handbo.Common.Error.{ok, ◌>>=◌}
use hld_lld_interview_handbo.Ot.{
  Text, Op, insert, delete, splice_in, splice_out, apply_op, apply_opt, transform,
}
use hld_lld_interview_handbo.Ot.Cells.{length-splice_in, length-splice_out}
use hld_lld_interview_handbo.Ot.Commute.{
  in-in, in-out_before, in-out_after, in-out_inside, out-out_before, out-out_overlap,
}

-- The operation's range lies in the text, and the operation does something.
abbrev pub Fits : Text → Op → Type 0
Fits d (insert p s) = (p ≤ length d) × (0 < length s)
Fits d (delete p n) = (p + n ≤ length d) × (0 < n)

abbrev pub FitsOpt : Text → Option Op → Type 0
FitsOpt d none = Unit
FitsOpt d (some op) = Fits d op

-- The text after an operation that fits.
abbrev pub patch : Text → Op → Text
patch d (insert p s) = splice_in p s d
patch d (delete p n) = splice_out p n d

abbrev pub patch_opt : Text → Option Op → Text
patch_opt d none = d
patch_opt d (some op) = patch d op

pub apply_op-eq-patch : (d : Text) (op : Op) → Fits d op → apply_op d op ≡ ok (patch d op)
unfolding apply_op
apply_op-eq-patch d (insert p s) h = ground arith
apply_op-eq-patch d (delete p n) h = ground arith

pub apply_opt-eq-patch :
    (d : Text) (o : Option Op) → FitsOpt d o → apply_opt d o ≡ ok (patch_opt d o)
apply_opt-eq-patch d none h = refl
apply_opt-eq-patch d (some op) h = apply_op-eq-patch d op h

-- A transformed operation fits the text that has the other one applied.
pub transform-Fits :
    (d : Text) (op against : Op) (op_first : Bool)
    → Fits d op
    → Fits d against
    → FitsOpt (patch d against) (transform op against op_first)
unfolding transform
transform-Fits d (insert p s) (insert q t) f h k = ground (arith, length-splice_in q t d k.0)
transform-Fits d (insert p s) (delete q n) f h k = ground (arith, length-splice_out q n d k.0)
transform-Fits d (delete p n) (insert q t) f h k = ground (arith, length-splice_in q t d k.0)
transform-Fits d (delete p n) (delete q m) f h k = ground (arith, length-splice_out q m d k.0)

min_comm : (p q : ℕ) → min p q ≡ min q p
min_comm p q = omega arith

overlap_comm : (p n q m : ℕ) → min (q + m) (p + n) - max q p ≡ min (p + n) (q + m) - max p q
overlap_comm p n q m = omega arith

splice_out-zero : (p : ℕ) (d : Text) → splice_out p 0 d ≡ d
unfolding splice_out
splice_out-zero p d = rw add-zero (take-append-drop p d)

pub patch-transform :
    (d : Text) (a b : Op)
    → Fits d a
    → Fits d b
    → patch_opt (patch d a) (transform b a false) ≡ patch_opt (patch d b) (transform a b true)
unfolding transform
patch-transform d (insert p s) (insert q t) h k = ground (arith, in-in d p q s t, in-in d q p t s)
patch-transform d (insert p s) (delete q n) h k =
    ground (arith, in-out_before d p q n s, in-out_after d p q n s, in-out_inside d p q n s)
patch-transform d (delete q n) (insert p s) h k =
    ground (arith, in-out_before d p q n s, in-out_after d p q n s, in-out_inside d p q n s)
patch-transform d (delete p n) (delete q m) h k =
    rw (overlap_comm p n q m, min_comm q p)
      (ground (
        arith,
        out-out_before d p n q m,
        out-out_before d q m p n,
        out-out_overlap d p n q m (min (p + n) (q + m) - max p q),
        splice_out-zero (min p q) (splice_out p n d),
        splice_out-zero (min p q) (splice_out q m d),
      ))

-- TP1: two operations that fit one text can be applied in either order, the second one transformed
-- against the first, with the tie-break at exactly one of the two calls. No step raises, and both
-- orders end with the same text.
pub convergence :
    (d : Text) (a b : Op)
    → Fits d a
    → Fits d b
    → (end : Text) × ((apply_op d a >>= λ d'. apply_opt d' (transform b a false)) ≡ ok end)
      × ((apply_op d b >>= λ d'. apply_opt d' (transform a b true)) ≡ ok end)
convergence d a b h k = (
  patch_opt (patch d a) (transform b a false),
  rw (apply_op-eq-patch d a h) (apply_opt-eq-patch _ _ (transform-Fits d b a false k h)),
  rw (apply_op-eq-patch d b k) (
      apply_opt-eq-patch _ _ (transform-Fits d a b true h k)
      ∙ ap ok (sym (patch-transform d a b h k))),
)
