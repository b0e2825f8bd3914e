-- ===== src/Clocks/Siblings.antt =====
-- The concurrent versions that `VersionedStore` keeps, and the last writer that wins.
use hld_lld_interview_handbo.Prelude.{
  ◌↔◌, ◌≤◌, false, ◌≡◌, ◌⊎◌, inl, inr, sym, String, Option, List, [], ◌∷◌, ◌++◌, arith, Bool-cases,
}
use mathlib.Core.Path.{subst}
use hld_lld_interview_handbo.Dict.{string_key}
use hld_lld_interview_handbo.Dict.Laws.{get-put}
use hld_lld_interview_handbo.Common.Error.{ok}
use hld_lld_interview_handbo.Clocks.Vector.{VectorClock, dominates, tick}
use hld_lld_interview_handbo.Clocks.Vector
use hld_lld_interview_handbo.Clocks.Causality.{dominates-get}
use hld_lld_interview_handbo.Clocks.Stores.{
  Version, VersionedStore, get, put, kept, context_or_empty,
}

abbrev pub IsIn : Version → List Version → Type 0
IsIn x [] = ⊥
IsIn x (y ∷ ys) = (x ≡ y) ⊎ IsIn x ys

IsIn-snoc : (u v : Version) (xs : List Version) → IsIn u (xs ++ v ∷ []) ↔ (IsIn u xs ⊎ (u ≡ v))
IsIn-snoc u v [] = (
  λ h. elim h [ inl e ↦ inr e | inr none_there ↦ absurd none_there ],
  λ h. elim h [ inl none_there ↦ absurd none_there | inr e ↦ inl e ],
)
IsIn-snoc u v (x ∷ xs) = (
  λ h. elim h [
    | inl e ↦ inl (inl e)
    | inr later ↦ elim ((IsIn-snoc u v xs).0 later) [ inl k ↦ inl (inr k) | inr e ↦ inr e ]
  ],
  λ h. elim h [
    | inl here ↦ elim here [ inl e ↦ inl e | inr k ↦ inr ((IsIn-snoc u v xs).1 (inl k)) ]
    | inr e ↦ inr ((IsIn-snoc u v xs).1 (inr e))
  ],
)

kept-IsIn :
    (clock : VectorClock) (u : Version) (siblings : List Version)
    → IsIn u (kept clock siblings) ↔ (IsIn u siblings × (dominates clock u.clock ≡ false))
unfolding kept
kept-IsIn clock u [] = (λ h. absurd h, λ h. h.0)
kept-IsIn clock u (v ∷ siblings) = elim (Bool-cases (dominates clock v.clock)) [
  | inl d ↦
      rw (d, kept)
        (
          λ h. let (k, e) = (kept-IsIn clock u siblings).0 h in (inr k, e),
          λ (h, e). elim h [
            | inl same ↦ absurd (cc (same, e, d))
            | inr k ↦ (kept-IsIn clock u siblings).1 (k, e)
          ],
        )
  | inr d ↦
      rw (d, kept)
        (
          λ h. elim h [
            | inl same ↦ (inl same, cc (same, d))
            | inr k ↦ let (old, e) = (kept-IsIn clock u siblings).0 k in (inr old, e)
          ],
          λ (h, e). elim h [
            | inl same ↦ inl same
            | inr k ↦ inr ((kept-IsIn clock u siblings).1 (k, e))
          ],
        )
]

-- The list of siblings that a write leaves.
abbrev pub written : String → Option VectorClock → Version → VersionedStore → List Version
written key context v s = kept v.clock (get key s) ++ v ∷ []

put-written :
    (key value node : String) (context : Option VectorClock) (s : VersionedStore) (v : Version)
    → (put key value node context s).0 ≡ ok v
    → get key (put key value node context s).1 ≡ written key context v s
unfolding put get
put-written key value node context s v h =
    ground (arith, get-put s.versions key (written key context v s) key)

-- No node's count is greater in `clock` than in `seen`.
abbrev pub IsCovered : VectorClock → VectorClock → Type 0
IsCovered clock seen = (n : String) → Vector.get n clock ≤ Vector.get n seen

uncovered_iff :
    (clock seen : VectorClock) → (dominates seen clock ≡ false) ↔ (¬ IsCovered clock seen)
uncovered_iff clock seen = (
  λ h covered. cc ((dominates-get seen clock).1 covered, h),
  λ h. elim (Bool-cases (dominates seen clock)) [
    | inl d ↦ absurd (h ((dominates-get seen clock).0 d))
    | inr d ↦ d
  ],
)

put-version :
    (key value node : String) (context : Option VectorClock) (s : VersionedStore) (v : Version)
    → (put key value node context s).0 ≡ ok v
    → (v.value ≡ value) × (tick node (context_or_empty context) ≡ ok v.clock)
unfolding put
put-version key value node context s v h = ground arith

-- A write that returns stores the value with the clock of its context, ticked for the node. A version
-- is among the siblings afterwards exactly where it is the written one, or was among them before and
-- counts more than the new clock for some node. So a sibling with a clock equal to the new one goes,
-- also where the context had not seen it.
pub put-kept :
    (key value node : String) (context : Option VectorClock) (s : VersionedStore) (v u : Version)
    → (put key value node context s).0 ≡ ok v
    → (v.value ≡ value)
      × (tick node (context_or_empty context) ≡ ok v.clock)
      × (IsIn u (get key (put key value node context s).1)
          ↔ ((IsIn u (get key s) × (¬ IsCovered u.clock v.clock)) ⊎ (u ≡ v)))
put-kept key value node context s v u h =
    let (same, ticked) = put-version key value node context s v h in
    let last = IsIn-snoc u v (kept v.clock (get key s)) in
    let old = kept-IsIn v.clock u (get key s) in
    let uncovered = uncovered_iff u.clock v.clock in
    (
      same,
      ticked,
      subst
          (λ (after : List Version).
            IsIn u after ↔ ((IsIn u (get key s) × (¬ IsCovered u.clock v.clock)) ⊎ (u ≡ v)))
          (sym (put-written key value node context s v h))
          (
            λ k. elim (last.0 k) [
              | inl stays ↦ let (before, d) = old.0 stays in inl (before, uncovered.0 d)
              | inr e ↦ inr e
            ],
            λ k. elim k [
              | inl (before, d) ↦ last.1 (inl (old.1 (before, uncovered.1 d)))
              | inr e ↦ last.1 (inr e)
            ],
          ),
    )
