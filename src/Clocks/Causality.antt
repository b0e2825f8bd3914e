-- ===== src/Clocks/Causality.antt =====
-- What the stamps of the clocks promise.
use hld_lld_interview_handbo.Prelude.{
  ℕ, ◌≤◌, ◌<◌, ◌≡◌, ◌⊎◌, ◌↔◌, inl, inr, refl, ap, String, some, List, [], ◌∷◌, ◌++◌, true, false,
  ◌||◌, arith, Option-cases,
}
use hld_lld_interview_handbo.Prelude.Int.{ltb_ℤ, eq_of_parts}
use hld_lld_interview_handbo.Common.Error.{ok, err, validation}
use hld_lld_interview_handbo.Clocks.Vector.{
  VectorClock, Ordering, before, after, equal, concurrent, any_less, nodes_of, compare, get,
  dominates,
}
use hld_lld_interview_handbo.Dict
use hld_lld_interview_handbo.Dict.{Dict, string_key, keys}
use hld_lld_interview_handbo.Clocks.Hybrid.{HybridTimestamp, HybridLogicalClock, now, update}

-- The lexicographic order of hybrid stamps.
abbrev pub IsBefore : HybridTimestamp → HybridTimestamp → Type 0
IsBefore a b =
    (ltb_ℤ a.physical_ms b.physical_ms ≡ true)
    ⊎ ((a.physical_ms ≡ b.physical_ms) × (a.logical < b.logical))

-- The stamp of a local event comes after the last stamp and is stored.
pub now-IsBefore :
    (c : HybridLogicalClock) → ((now c).0 ≡ ok (now c).1.last) × IsBefore c.last (now c).1.last
unfolding now
now-IsBefore c = ground arith

-- A receipt either raises and changes nothing, or its stamp comes after the last stamp and after the
-- stamp of the message.
pub update-IsBefore :
    (remote : HybridTimestamp) (c : HybridLogicalClock)
    → (update remote c ≡ (err validation, c))
      ⊎ (((update remote c).0 ≡ ok (update remote c).1.last)
          × IsBefore c.last (update remote c).1.last
          × IsBefore remote (update remote c).1.last)
unfolding update
update-IsBefore remote c = ground (
  arith,
  eq_of_parts c.last.physical_ms remote.physical_ms,
  eq_of_parts remote.physical_ms c.clock.now,
  eq_of_parts c.last.physical_ms c.clock.now,
)

any_less-append :
    (xs ys : List String) (a b : VectorClock)
    → any_less (xs ++ ys) a b ≡ (any_less xs a b || any_less ys a b)
unfolding any_less
any_less-append [] ys a b = refl
any_less-append (x ∷ xs) ys a b = ground (arith, any_less-append xs ys a b)

-- The order seen from the other side.
abbrev pub reverse_order : Ordering → Ordering
reverse_order before = after
reverse_order after = before
reverse_order equal = equal
reverse_order concurrent = concurrent

-- Comparing two vector clocks the other way round gives the reversed answer.
pub compare-reverse_order : (a b : VectorClock) → compare b a ≡ reverse_order (compare a b)
unfolding compare
compare-reverse_order a b = ground (
  arith,
  any_less-append (keys a.counters) (keys b.counters) a b,
  any_less-append (keys a.counters) (keys b.counters) b a,
  any_less-append (keys b.counters) (keys a.counters) a b,
  any_less-append (keys b.counters) (keys a.counters) b a,
)

any_less-listed :
    (d : Dict String ℕ) (a b : VectorClock) (n : String) (m : ℕ)
    → Dict.get d n ≡ some m
    → any_less (keys d) a b ≡ false
    → get n b ≤ get n a
unfolding any_less Dict.get
any_less-listed [] a b n m found h = absurd (cc found)
any_less-listed ((k, v) ∷ d) a b n m found h =
    ground (arith, any_less-listed d a b n m, ap (λ x. get x a), ap (λ x. get x b))

any_less-bounded :
    (nodes : List String) (a b : VectorClock)
    → ((n : String) → get n b ≤ get n a)
    → any_less nodes a b ≡ false
unfolding any_less
any_less-bounded [] a b h = refl
any_less-bounded (x ∷ nodes) a b h = ground (arith, h x, any_less-bounded nodes a b h)

bounded : (a b : VectorClock) (n : String) → any_less (nodes_of a b) a b ≡ false → get n b ≤ get n a
unfolding get
bounded a b n h = elim (Option-cases (Dict.get b.counters n)) [
  | inl missing ↦ ground (arith, missing)
  | inr (m, found) ↦
      any_less-listed b.counters a b n m found
        (ground (arith, any_less-append (keys a.counters) (keys b.counters) a b))
]

dominates_unless_less :
    (a b : VectorClock) → (dominates a b ≡ true) ↔ (any_less (nodes_of a b) a b ≡ false)
unfolding dominates compare
dominates_unless_less a b = ground arith

-- A vector clock dominates another one exactly when it has seen at least as much of every node.
pub dominates-get :
    (a b : VectorClock) → (dominates a b ≡ true) ↔ ((n : String) → get n b ≤ get n a)
dominates-get a b = (
  λ h n. bounded a b n ((dominates_unless_less a b).0 h),
  λ h. (dominates_unless_less a b).1 (any_less-bounded (nodes_of a b) a b h),
)
