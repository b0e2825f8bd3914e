-- ===== src/Common/Text.antt =====
-- `not text`, the test of an empty text that the methods' guards share.
use hld_lld_interview_handbo.Prelude.{String, Bool}

unfoldable pub is_empty : String → Bool
is_empty text = elim text [ String.[] ↦ Bool.true | String.◌∷◌ _ _ ↦ Bool.false ]
