-- ===== src/Shortener/Codec.antt =====
-- The codec of code/hld/base62.py.
use Prim.Native.Char.{Char, code}
use hld_lld_interview_handbo.Prelude.{
  ℕ, zero, suc, ◌+◌, ◌-◌, ◌*◌, ◌/◌, ◌%◌, ◌^◌, max, ◌==◌, String, Option, none, some, if◌then◌else◌,
}
use hld_lld_interview_handbo.Prelude.Int.{ℤ, pos, negsuc}
use hld_lld_interview_handbo.Common.Error.{Result, ok, err, validation}

abbrev pub alphabet : String
alphabet = "0123456789ABCDEFGHIJKLMNOPQRSTUVWXYZabcdefghijklmnopqrstuvwxyz"

abbrev pub base : ℕ
base = 62

-- `CODE_LENGTH`
abbrev pub code_length : ℕ
code_length = 7

abbrev pub zero_digit : Char
zero_digit = "0"

-- `ALPHABET[i]`; an index beyond the alphabet does not occur.
unfoldable pub char_at : String → ℕ → Char
char_at String.[] i = zero_digit
char_at (String.◌∷◌ c text) zero = c
char_at (String.◌∷◌ c text) (suc i) = char_at text i

abbrev pub next_index : Option ℕ → Option ℕ
next_index none = none
next_index (some i) = some (i + 1)

-- `_INDEX.get(char)`
unfoldable pub index_in : String → Char → Option ℕ
index_in String.[] c = none
index_in (String.◌∷◌ d text) c =
    let later = next_index (index_in text c) in if code d == code c then some 0 else later

-- The loop of `encode`, each digit before the earlier ones; `number` rounds are enough.
unfoldable pub spell : ℕ → ℕ → String → String
spell zero number digits = digits
spell (suc rounds) number digits =
    let more =
      spell rounds (number / base) (String.◌∷◌ (char_at alphabet (number % base)) digits) in
    if number == 0 then digits else more

abbrev pub text_length : String → ℕ
text_length String.[] = 0
text_length (String.◌∷◌ c text) = suc (text_length text)

unfoldable pub pad : ℕ → String → String
pad zero text = text
pad (suc n) text = String.◌∷◌ zero_digit (pad n text)

-- `text.rjust(width, ALPHABET[0])`
abbrev pub rjust : ℕ → String → String
rjust width text = pad (width - text_length text) text

abbrev pub encode_natural : ℕ → ℕ → String
encode_natural number width = rjust (max width 1) (spell number number String.[])

unfoldable pub encode : ℤ → ℕ → Result String
encode (negsuc n) width = err validation
encode (pos number) width = ok (encode_natural number width)

-- The loop of `decode`.
unfoldable pub decode_from : ℕ → String → Result ℕ
decode_from number String.[] = ok number
decode_from number (String.◌∷◌ c text) = elim (index_in alphabet c) [
  | none ↦ err validation
  | some digit ↦ decode_from (number * base + digit) text
]

unfoldable pub decode : String → Result ℕ
decode String.[] = err validation
decode (String.◌∷◌ c text) = decode_from 0 (String.◌∷◌ c text)

unfoldable pub code_space : ℤ → Result ℕ
code_space (pos (suc n)) = ok (base ^ suc n)
code_space _ = err validation
