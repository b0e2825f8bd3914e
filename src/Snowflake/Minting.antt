-- ===== src/Snowflake/Minting.antt =====
-- Runs of a generator over any readings of its clock.
use hld_lld_interview_handbo.Prelude.{
  ℕ, ◌+◌, ◌^◌, ◌≤◌, ◌<◌, ◌≡◌, ◌≢◌, ◌⊎◌, inl, inr, refl, sym, ap, arith, List, [], ◌∷◌, All,
}
use mathlib.Core.Path.{subst}
use hld_lld_interview_handbo.Prelude.Int.{ℤ, pos, negsuc}
use hld_lld_interview_handbo.Common.Error.{Result-cases, Result, ok, err}
use hld_lld_interview_handbo.Common.Clock.{FakeClock}
use hld_lld_interview_handbo.Snowflake.{
  Layout, SnowflakeGenerator, SnowflakeParts, new_generator, Tick, wall_ms, advance, ticked,
  mint_at, next_id, compose, decompose, max_sequence, lifetime_ms,
}
use hld_lld_interview_handbo.Snowflake.Layouts.{
  IsInRange, decompose-compose, compose-order, compose-bound,
}

abbrev pub collect : Result ℕ → List ℕ → List ℕ
collect (err e) ids = ids
collect (ok id) ids = id ∷ ids

abbrev pub read : ℤ → SnowflakeGenerator → SnowflakeGenerator
read t g = record g { clock = record { now = t } }

-- The identifiers that a generator mints when its clock reads `times` at the calls; a refused call
-- mints none.
unfoldable pub mint_all : List ℤ → SnowflakeGenerator → List ℕ
mint_all [] g = []
mint_all (t ∷ times) g =
    let called = next_id (read t g) in collect called.0 (mint_all times called.1)

abbrev pub IsSound : SnowflakeGenerator → Type 0
IsSound g = IsInRange g.layout g.machine_id g.sequence

-- The timestamp and the sequence move forward from the last ones.
abbrev IsLater : ℤ → ℕ → Tick → Type 0
IsLater (negsuc n) s t = Unit
IsLater (pos last) s t = (last < t.last) ⊎ ((last ≡ t.last) × (s < t.next))

record IsTick (g : SnowflakeGenerator) (wall : ℕ) (last : ℤ) (t : Tick) : Type 0 where
  later : IsLater last g.sequence t
  fits : t.next ≤ max_sequence g.layout
  drift : t.last ≤ wall + g.max_drift_ms

advance-IsTick :
    (g : SnowflakeGenerator) (wall : ℕ) (last : ℤ) (t : Tick)
    → advance g wall last ≡ ok t
    → IsTick g wall last t
unfolding advance
advance-IsTick g wall (negsuc n) t h = record {
  later = tt;
  fits = ground arith;
  drift = ground arith;
}
advance-IsTick g wall (pos last) t h = record {
  later = ground arith;
  fits = ground arith;
  drift = ground arith;
}

-- A call is refused and changes nothing, or it takes a tick.
data IsCall (g : SnowflakeGenerator) : Result ℕ × SnowflakeGenerator → Type 0 where
  refused : {r : Result ℕ × SnowflakeGenerator} (e : _) → r ≡ (err e, g) → IsCall g r
  minted :
      {r : Result ℕ × SnowflakeGenerator} (wall : ℕ) (t : Tick)
      → wall_ms g ≡ ok wall
      → IsTick g wall g.last_ms t
      → r ≡ (ok (compose g.layout t.last g.machine_id t.next), ticked g t)
      → IsCall g r

next_id-IsCall : (g : SnowflakeGenerator) → IsCall g (next_id g)
unfolding next_id mint_at
next_id-IsCall g = elim (Result-cases (wall_ms g)) [
  | inr (e, h) ↦ refused e (rw (h, next_id))
  | inl (wall, h) ↦ elim (Result-cases (advance g wall g.last_ms)) [
    | inr (e, k) ↦ refused e (rw (h, next_id) (rw (k, mint_at)))
    | inl (t, k) ↦
        minted wall t h (advance-IsTick g wall g.last_ms t k) (rw (h, next_id) (rw (k, mint_at)))
  ]
]

-- Strictly ascending from `floor` on.
abbrev pub IsAscending : ℕ → List ℕ → Type 0
IsAscending floor [] = Unit
IsAscending floor (id ∷ ids) = (floor ≤ id) × IsAscending (id + 1) ids

IsAscending-lower :
    (floor higher : ℕ) (ids : List ℕ)
    → floor ≤ higher
    → IsAscending higher ids
    → IsAscending floor ids
IsAscending-lower floor higher [] h k = tt
IsAscending-lower floor higher (id ∷ ids) h k = (omega (arith, k.0), k.1)

-- Every identifier from here on is above the one that the generator's fields make.
abbrev floor_of : Layout → ℕ → ℕ → ℤ → ℕ
floor_of l m s (negsuc n) = 0
floor_of l m s (pos last) = compose l last m s + 1

abbrev own_floor : SnowflakeGenerator → ℤ → ℕ
own_floor g = floor_of g.layout g.machine_id g.sequence

tick-floor :
    (g : SnowflakeGenerator) (wall : ℕ) (last : ℤ) (t : Tick)
    → IsSound g
    → IsTick g wall last t
    → own_floor g last ≤ compose g.layout t.last g.machine_id t.next
tick-floor g wall (negsuc n) t h k = omega arith
tick-floor g wall (pos last) t h k = omega (
  arith,
  compose-order g.layout last t.last g.machine_id g.sequence t.next h k.later
      (record { machine = h.machine; sequence = k.fits }),
)

IsAscending-from :
    (times : List ℤ) (g : SnowflakeGenerator)
    → IsSound g
    → IsAscending (own_floor g g.last_ms) (mint_all times g)
unfolding mint_all
IsAscending-from [] g h = tt
IsAscending-from (now ∷ times) g h =
    let Goal : Result ℕ × SnowflakeGenerator → Type 0 =
      λ c. IsAscending (own_floor g g.last_ms) (collect c.0 (mint_all times c.1)) in
    elim (next_id-IsCall (read now g)) [
      | refused e p ↦ subst Goal (sym p) (IsAscending-from times (read now g) h)
      | minted wall t p k q ↦ subst Goal (sym q) (
        tick-floor (read now g) wall g.last_ms t h k,
        IsAscending-from times (ticked (read now g) t)
            (record { machine = h.machine; sequence = k.fits }),
      )
    ]

new_generator-IsSound :
    (machine_id epoch_ms max_drift_ms : ℤ) (clock : FakeClock) (l : Layout) (g : SnowflakeGenerator)
    → new_generator machine_id clock l epoch_ms max_drift_ms ≡ ok g
    → IsSound g × (g.layout ≡ l) × (g.last_ms ≡ negsuc 0) × (pos g.machine_id ≡ machine_id)
unfolding new_generator
new_generator-IsSound (pos m) epoch_ms (pos drift) clock l g h = ground arith
new_generator-IsSound (pos m) epoch_ms (negsuc d) clock l g h = cc h
new_generator-IsSound (negsuc m) epoch_ms drift clock l g h = cc h

-- The identifiers that a new generator mints are strictly ascending, whatever its clock reads at the
-- calls, steps backwards included.
pub mint_all-IsAscending :
    (machine_id epoch_ms max_drift_ms : ℤ) (clock : FakeClock) (l : Layout) (g : SnowflakeGenerator)
    (times : List ℤ)
    → new_generator machine_id clock l epoch_ms max_drift_ms ≡ ok g
    → IsAscending 0 (mint_all times g)
mint_all-IsAscending machine_id epoch_ms max_drift_ms clock l g times h =
    let (sound, _, _, _) = new_generator-IsSound machine_id epoch_ms max_drift_ms clock l g h in
    IsAscending-lower 0 (own_floor g g.last_ms) (mint_all times g) (omega arith)
      (IsAscending-from times g sound)

-- The machine that an identifier names.
abbrev pub NamesMachine : Layout → ℕ → ℕ → Type 0
NamesMachine l machine_id id =
    (parts : SnowflakeParts) × (decompose l (pos id) (pos 0) ≡ ok parts)
    × (parts.machine_id ≡ machine_id)

mint_all-NamesMachine :
    (times : List ℤ) (g : SnowflakeGenerator)
    → IsSound g
    → All (NamesMachine g.layout g.machine_id) (mint_all times g)
unfolding mint_all
mint_all-NamesMachine [] g h = tt
mint_all-NamesMachine (now ∷ times) g h =
    let Goal : Result ℕ × SnowflakeGenerator → Type 0 =
      λ c. All (NamesMachine g.layout g.machine_id) (collect c.0 (mint_all times c.1)) in
    elim (next_id-IsCall (read now g)) [
      | refused e p ↦ subst Goal (sym p) (mint_all-NamesMachine times (read now g) h)
      | minted wall t p k q ↦
          let fields : IsInRange g.layout g.machine_id t.next = record {
            machine = h.machine;
            sequence = k.fits;
          } in
          subst Goal (sym q) (
            (_, decompose-compose g.layout t.last g.machine_id t.next (pos 0) fields, refl),
            mint_all-NamesMachine times (ticked (read now g) t) fields,
          )
    ]

abbrev pub IsIn : ℕ → List ℕ → Type 0
IsIn x [] = ⊥
IsIn x (y ∷ ys) = (x ≡ y) ⊎ IsIn x ys

All-IsIn : (P : ℕ → Type 0) (x : ℕ) (ys : List ℕ) → All P ys → IsIn x ys → P x
All-IsIn P x [] h k = elim k [ ]
All-IsIn P x (y ∷ ys) h (inl e) = subst P (sym e) h.0
All-IsIn P x (y ∷ ys) h (inr k) = All-IsIn P x ys h.1 k

-- Two new generators of one layout with different machine numbers never mint the same identifier,
-- whatever their clocks read.
pub machines_disjoint :
    (m n epoch_ms other_epoch_ms drift other_drift : ℤ) (clock other_clock : FakeClock) (l : Layout)
    (g other : SnowflakeGenerator) (times other_times : List ℤ) (id : ℕ)
    → m ≢ n
    → new_generator m clock l epoch_ms drift ≡ ok g
    → new_generator n other_clock l other_epoch_ms other_drift ≡ ok other
    → IsIn id (mint_all times g)
    → ¬ IsIn id (mint_all other_times other)
machines_disjoint m n e e' d d' c c' l g other times times' id ne h k here there =
    let (sound, layout, _, own) = new_generator-IsSound m e d c l g h in
    let (sound', layout', _, own') = new_generator-IsSound n e' d' c' l other k in
    let (parts, p, q) =
      All-IsIn (NamesMachine g.layout g.machine_id) id (mint_all times g)
        (mint_all-NamesMachine times g sound) here in
    let (parts', p', q') =
      All-IsIn (NamesMachine other.layout other.machine_id) id (mint_all times' other)
        (mint_all-NamesMachine times' other sound') there in
    ne (cc (p, p', q, q', own, own', layout, layout'))

-- While the wall clock is further from the end of the layout's lifetime than the tolerated drift, an
-- identifier fits the bits of the layout.
pub next_id-bound :
    (g : SnowflakeGenerator) (wall id : ℕ)
    → IsSound g
    → wall_ms g ≡ ok wall
    → wall + g.max_drift_ms < lifetime_ms g.layout
    → (next_id g).0 ≡ ok id
    → id < 2 ^ (g.layout.timestamp_bits + g.layout.machine_bits + g.layout.sequence_bits)
next_id-bound g wall id h now early e = elim (next_id-IsCall g) [
  | refused x p ↦ absurd (cc (ap (λ r. r.0) p, e))
  | minted w t p k q ↦
      let same : compose g.layout t.last g.machine_id t.next ≡ id = cc (ap (λ r. r.0) q, e) in
      let wall_same : w ≡ wall = cc (p, now) in
      subst
        (λ x. x < 2 ^ (g.layout.timestamp_bits + g.layout.machine_bits + g.layout.sequence_bits))
        same
        (compose-bound g.layout t.last g.machine_id t.next
          (record { machine = h.machine; sequence = k.fits })
          (omega (arith, k.drift, early, wall_same)))
]
