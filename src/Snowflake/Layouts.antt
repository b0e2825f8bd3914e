-- ===== src/Snowflake/Layouts.antt =====
-- The fields of an identifier as arithmetic: they can be read back, and they order and separate the
-- identifiers.
use Prim.Native.Nat.{bit_and, bit_or}
use native.Mathlib.Nat.{one-le-pow, div-div-eq-div-mul}
use hld_lld_interview_handbo.Prelude.{
  ℕ, ◌+◌, ◌*◌, ◌/◌, ◌%◌, ◌^◌, ◌≤◌, ◌<◌, ◌≡◌, ◌⊎◌, inl, inr, sym, ap, ◌∙◌, arith,
}
use hld_lld_interview_handbo.Prelude.Bits.{◌<<◌, ◌>>>◌, or-shifted, and-ones, pow_sum}
use hld_lld_interview_handbo.Prelude.Int.{ℤ, pos, ◌+ℤ◌}
use hld_lld_interview_handbo.Common.Error.{ok}
use hld_lld_interview_handbo.Snowflake.{
  Layout, max_machine_id, max_sequence, lifetime_ms, timestamp_shift, compose, decompose,
}

-- The machine and the sequence fit their fields.
pub record IsInRange (l : Layout) (m s : ℕ) : Type 0 where
  pub machine : m ≤ max_machine_id l
  pub sequence : s ≤ max_sequence l

-- The fields as a mixed-radix number, with the radices opened.
abbrev fields : ℕ → ℕ → ℕ → ℕ → ℕ → ℕ
fields M S t m s = (t * M + m) * S + s

quotient : (q r d : ℕ) → r < d → ((q * d + r) / d ≡ q) × ((q * d + r) % d ≡ r)
quotient q r d h = (grind arith, grind arith)

fields-order :
    (M S t u m s r : ℕ)
    → m < M
    → s < S
    → (t < u) ⊎ ((t ≡ u) × (s < r))
    → fields M S t m s < fields M S u m r
fields-order M S t u m s r hm hs (inl h) =
    let above : t * M + m + 1 ≤ u * M + m = grind arith in
    let scaled : (t * M + m + 1) * S ≤ (u * M + m) * S = grind (arith, above) in
    grind (arith, scaled)
fields-order M S t u m s r hm hs (inr (e, h)) = rw e (omega arith)

fields-bound : (L M S t m s : ℕ) → t < L → m < M → s < S → fields M S t m s < L * M * S
fields-bound L M S t m s ht hm hs =
    let above : t * M + m + 1 ≤ L * M = grind arith in
    let scaled : (t * M + m + 1) * S ≤ L * M * S = grind (arith, above) in grind (arith, scaled)

machine-bound : (l : Layout) (m s : ℕ) → IsInRange l m s → m < 2 ^ l.machine_bits
machine-bound l m s h = omega (arith, h.machine, one-le-pow l.machine_bits 2 (omega arith))

sequence-bound : (l : Layout) (m s : ℕ) → IsInRange l m s → s < 2 ^ l.sequence_bits
sequence-bound l m s h = omega (arith, h.sequence, one-le-pow l.sequence_bits 2 (omega arith))

compose-fields :
    (l : Layout) (t m s : ℕ)
    → IsInRange l m s
    → compose l t m s ≡ fields (2 ^ l.machine_bits) (2 ^ l.sequence_bits) t m s
unfolding compose
compose-fields l t m s h =
    let M : ℕ = 2 ^ l.machine_bits in
    let S : ℕ = 2 ^ l.sequence_bits in
    let machine : m < M = machine-bound l m s h in
    let sequence : s < S = sequence-bound l m s h in
    let radix : 2 ^ timestamp_shift l ≡ S * M = pow_sum l.sequence_bits l.machine_bits in
    let upper : bit_or (t << timestamp_shift l) (m << l.sequence_bits)
        ≡ (t * M + m) << l.sequence_bits =
      or-shifted (timestamp_shift l) t (m << l.sequence_bits) (rw radix (grind (arith, machine)))
      ∙ rw radix (grind arith) in
    ap (λ (u : ℕ). bit_or u s) upper ∙ or-shifted l.sequence_bits (t * M + m) s sequence

-- Composing and then decomposing gives the fields back, the epoch added to the timestamp.
pub decompose-compose :
    (l : Layout) (t m s : ℕ) (epoch_ms : ℤ)
    → IsInRange l m s
    → decompose l (pos (compose l t m s)) epoch_ms
      ≡ ok (record { timestamp_ms = pos t +ℤ epoch_ms; machine_id = m; sequence = s })
unfolding decompose
decompose-compose l t m s epoch_ms h =
    let M : ℕ = 2 ^ l.machine_bits in
    let S : ℕ = 2 ^ l.sequence_bits in
    let whole : compose l t m s ≡ fields M S t m s = compose-fields l t m s h in
    let low : ((t * M + m) * S + s) / S ≡ t * M + m =
      (quotient (t * M + m) s S (sequence-bound l m s h)).0 in
    let rest = quotient t m M (machine-bound l m s h) in
    let time : compose l t m s >>> timestamp_shift l ≡ t =
      rw (whole, pow_sum l.sequence_bits l.machine_bits)
        (sym (div-div-eq-div-mul (fields M S t m s) S M) ∙ ap (λ (x : ℕ). x / M) low ∙ rest.0) in
    let machine : bit_and (compose l t m s >>> l.sequence_bits) (max_machine_id l) ≡ m =
      and-ones l.machine_bits (compose l t m s >>> l.sequence_bits)
      ∙ ap (λ (x : ℕ). x / S % M) whole
      ∙ ap (λ (x : ℕ). x % M) low
      ∙ rest.1 in
    let sequence : bit_and (compose l t m s) (max_sequence l) ≡ s =
      and-ones l.sequence_bits (compose l t m s)
      ∙ ap (λ (x : ℕ). x % S) whole
      ∙ (quotient (t * M + m) s S (sequence-bound l m s h)).1 in
    λ i. ok (record {
      timestamp_ms = pos (time i) +ℤ epoch_ms;
      machine_id = machine i;
      sequence = sequence i;
    })

-- The timestamp comes first: identifiers of one machine are ordered by timestamp and sequence.
pub compose-order :
    (l : Layout) (t u m s r : ℕ)
    → IsInRange l m s
    → (t < u) ⊎ ((t ≡ u) × (s < r))
    → IsInRange l m r
    → compose l t m s < compose l u m r
compose-order l t u m s r h before k =
    rw (compose-fields l t m s h, compose-fields l u m r k)
      (fields-order (2 ^ l.machine_bits) (2 ^ l.sequence_bits) t u m s r (machine-bound l m s h)
        (sequence-bound l m s h) before)

-- A timestamp within the lifetime of the layout gives an identifier of 63 bits.
pub compose-bound :
    (l : Layout) (t m s : ℕ)
    → IsInRange l m s
    → t < lifetime_ms l
    → compose l t m s < 2 ^ (l.timestamp_bits + l.machine_bits + l.sequence_bits)
compose-bound l t m s h k =
    rw
      (
        compose-fields l t m s h,
        pow_sum (l.timestamp_bits + l.machine_bits) l.sequence_bits,
        pow_sum l.timestamp_bits l.machine_bits,
      )
      (fields-bound (lifetime_ms l) (2 ^ l.machine_bits) (2 ^ l.sequence_bits) t m s k
        (machine-bound l m s h) (sequence-bound l m s h))
