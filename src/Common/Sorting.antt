-- ===== src/Common/Sorting.antt =====
-- Python's `sorted` on items with distinct texts as keys: the key decides.
use Prim.Native.String.{compare}
use text.Mathlib.Text.{is_lt}
use hld_lld_interview_handbo.Prelude.{String, [], ◌∷◌, if◌then◌else◌}
use hld_lld_interview_handbo.Dict.{Dict}

unfoldable pub insert_item : {V : Type 0} → String → V → Dict String V → Dict String V
insert_item key v [] = (key, v) ∷ []
insert_item key v ((other, w) ∷ rest) =
    let later = insert_item key v rest in
    if is_lt (compare key other) then (key, v) ∷ (other, w) ∷ rest else (other, w) ∷ later

unfoldable pub sort_items : {V : Type 0} → Dict String V → Dict String V
sort_items [] = []
sort_items ((key, v) ∷ rest) = insert_item key v (sort_items rest)
