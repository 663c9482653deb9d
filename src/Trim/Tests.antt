-- ===== src/Trim/Tests.antt =====
-- Trimming a text with spaces at both ends.
use rimstone.Base.{◌≡◌, refl, [], ◌∷◌}
use rimstone.Trim.{trim, trim_ptr, lead, back, trim-trim_ptr}
use rimstone.Message.Fields.{is_space}

trim_test : trim (32 ∷ 97 ∷ 32 ∷ 98 ∷ 9 ∷ []) ≡ (97 ∷ 32 ∷ 98 ∷ [], 3)
unfolding trim lead back is_space
trim_test = refl

trim-trim_ptr_example : trim (32 ∷ 97 ∷ 32 ∷ 98 ∷ 9 ∷ []) ≡ trim_ptr (32 ∷ 97 ∷ 32 ∷ 98 ∷ 9 ∷ [])
trim-trim_ptr_example = trim-trim_ptr (32 ∷ 97 ∷ 32 ∷ 98 ∷ 9 ∷ [])
