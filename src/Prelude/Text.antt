-- ===== src/Prelude/Text.antt =====
-- Equality of texts as a decision.
use Prim.Native.String.{String}
use mathlib.Core.Path.{◌≡◌, refl}
use mathlib.Core.Logic.{◌↔◌}
use mathlib.Core.Bool.{Bool, true, false, false≢true}
use text.Mathlib.Text.{◌==◌}
use text.Mathlib.TextEquality.{eq_iff}

abbrev decide_iff {ℓ} : {A : Type ℓ} (b : Bool) → (b ≡ true) ↔ A → Dec A
decide_iff true e = yes (e.0 refl)
decide_iff false e = no (λ a. false≢true (e.1 a))

unfoldable pub string_dec : Discrete String
string_dec s t = decide_iff (s == t) (eq_iff s t)
