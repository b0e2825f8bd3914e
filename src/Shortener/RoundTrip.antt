-- ===== src/Shortener/RoundTrip.antt =====
-- Codes can be read back, and a width that is large enough is the length of the code.
use Prim.Native.Char.{Char}
use native.Mathlib.Nat.{pow-suc}
use hld_lld_interview_handbo.Prelude.{
  ℕ, zero, suc, ◌+◌, ◌-◌, inl, inr, ◌*◌, ◌/◌, ◌%◌, ◌^◌, ◌≤◌, ◌<◌, ◌≡◌, refl, sym, ap, ◌∙◌, arith,
  max, String, Option, none, some, Bool, true, ◌&&◌, ◌==◌, ==_iff, Bool-cases, ℕ_discrete,
}
use hld_lld_interview_handbo.Prelude.Int.{pos}
use hld_lld_interview_handbo.Common.Error.{ok}
use hld_lld_interview_handbo.Shortener.Codec.{
  alphabet, base, zero_digit, char_at, index_in, spell, text_length, pad, encode_natural, encode,
  decode_from, decode,
}

-- The index of the digit, or a number that is none.
abbrev index_or_base : Option ℕ → ℕ
index_or_base none = base
index_or_base (some i) = i

all_digits : ℕ → Bool
all_digits zero = true
all_digits (suc n) = index_or_base (index_in alphabet (char_at alphabet n)) == n && all_digits n

digits_checked : all_digits base ≡ true
unfolding all_digits index_in char_at
digits_checked = refl

some_index : (o : Option ℕ) (d : ℕ) → d < base → index_or_base o ≡ d → o ≡ some d
some_index none d h e = absurd (omega (arith, e))
some_index (some i) d h e = ap some e

all_digits-index :
    (n d : ℕ)
    → n ≤ base
    → all_digits n ≡ true
    → d < n
    → index_in alphabet (char_at alphabet d) ≡ some d
unfolding all_digits
all_digits-index zero d small h lt = absurd (omega arith)
all_digits-index (suc n) d small h lt = elim (ℕ_discrete d n) [
  | yes e ↦
      rw e (some_index (index_in alphabet (char_at alphabet n)) n (omega arith) (ground arith))
  | no ne ↦ all_digits-index n d (omega arith) (ground arith) (omega (arith, ne))
]

index-char_at : (d : ℕ) → d < base → index_in alphabet (char_at alphabet d) ≡ some d
index-char_at d h = all_digits-index base d (omega arith) digits_checked h

decode_from-digit :
    (c : Char) (d n : ℕ) (text : String)
    → index_in alphabet c ≡ some d
    → decode_from n (String.◌∷◌ c text) ≡ decode_from (n * base + d) text
unfolding decode_from
decode_from-digit c d n text h = rw (h, decode_from) refl

-- Reading on from `number / base` over the digit gives `number`.
decode_from-spell :
    (rounds number : ℕ) (digits : String)
    → number ≤ rounds
    → decode_from 0 (spell rounds number digits) ≡ decode_from number digits
unfolding spell
decode_from-spell zero number digits h =
    let none_left : number ≡ 0 = omega arith in rw none_left refl
decode_from-spell (suc rounds) number digits h = elim (Bool-cases (number == 0)) [
  | inl e ↦ rw e (ap (λ (n : ℕ). decode_from n digits) (sym ((==_iff number 0).0 e)))
  | inr e ↦
      let rest : number / base * base + number % base ≡ number = omega arith in
      rw e (
        decode_from-spell rounds (number / base)
          (String.◌∷◌ (char_at alphabet (number % base)) digits) (ground arith)
        ∙ decode_from-digit (char_at alphabet (number % base)) (number % base) (number / base)
            digits (index-char_at (number % base) (omega arith))
        ∙ ap (λ (n : ℕ). decode_from n digits) rest)
]

index-zero_digit : index_in alphabet zero_digit ≡ some 0
unfolding index_in
index-zero_digit = refl

decode_from-pad : (n : ℕ) (text : String) → decode_from 0 (pad n text) ≡ decode_from 0 text
unfolding pad
decode_from-pad zero text = refl
decode_from-pad (suc n) text =
    decode_from-digit zero_digit 0 0 (pad n text) index-zero_digit ∙ decode_from-pad n text

decode-from : (text : String) → 0 < text_length text → decode text ≡ decode_from 0 text
unfolding decode
decode-from String.[] h = absurd (omega arith)
decode-from (String.◌∷◌ c text) h = refl

text_length-pad : (n : ℕ) (text : String) → text_length (pad n text) ≡ n + text_length text
unfolding pad
text_length-pad zero text = omega arith
text_length-pad (suc n) text = omega (arith, text_length-pad n text)

-- What `encode` writes, `decode` reads back, padding included; neither raises.
pub decode-encode :
    (number width : ℕ)
    → (text : String) × (encode (pos number) width ≡ ok text) × (decode text ≡ ok number)
unfolding encode
decode-encode number width =
    let digits : String = spell number number String.[] in
    let text : String = encode_natural number width in
    (
      text,
      refl,
      decode-from text (omega (arith, text_length-pad (max width 1 - text_length digits) digits))
          ∙ decode_from-pad (max width 1 - text_length digits) digits
          ∙ decode_from-spell number number String.[] (omega arith)
          ∙ unfold decode_from in refl,
    )

spell-length :
    (rounds number width : ℕ) (digits : String)
    → number < base ^ width
    → text_length (spell rounds number digits) ≤ width + text_length digits
unfolding spell
spell-length zero number width digits h = omega arith
spell-length (suc rounds) number zero digits h = ground arith
spell-length (suc rounds) number (suc width) digits h = ground (
  arith,
  pow-suc base width,
  spell-length rounds (number / base) width (String.◌∷◌ (char_at alphabet (number % base)) digits)
      (omega (arith, pow-suc base width)),
)

-- A number that fits the width has a code of exactly that length.
pub length-encode :
    (number width : ℕ)
    → 0 < width
    → number < base ^ width
    → (text : String) × (encode (pos number) width ≡ ok text) × (text_length text ≡ width)
unfolding encode
length-encode number width some_width h =
    let digits : String = spell number number String.[] in
    (
      encode_natural number width,
      refl,
      omega (
        arith,
        text_length-pad (max width 1 - text_length digits) digits,
        spell-length number number width String.[] h,
      ),
    )
