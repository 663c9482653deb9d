-- ===== src/Tree/Key.antt =====
-- The order that rim_tree_compare gives to the keys of a tree, as what the tree's code relies on.
use rimstone.Base.{◌≡◌, refl}

-- The sign of the comparison's result.
pub data Sign : Type 0 where
  minus same plus : Sign

pub record KeyOrder {ℓ} (K : Type ℓ) : Type ℓ where
  pub compare : K → K → Sign
  pub compare_refl : (a : K) → compare a a ≡ same
  pub eq_of_compare : (a b : K) → compare a b ≡ same → a ≡ b
  pub plus_of_minus : (a b : K) → compare a b ≡ minus → compare b a ≡ plus
  pub minus_of_plus : (a b : K) → compare a b ≡ plus → compare b a ≡ minus
  pub minus_trans : (a b c : K) → compare a b ≡ minus → compare b c ≡ minus → compare a c ≡ minus

abbrev pub Below {ℓ} : {K : Type ℓ} ⦃order : KeyOrder K⦄ → K → K → Type 0
Below ⦃order⦄ a b = order.compare a b ≡ minus

-- To split on a comparison and keep the equation.
pub data Compared (s : Sign) : Type 0 where
  is_minus : s ≡ minus → Compared s
  is_same : s ≡ same → Compared s
  is_plus : s ≡ plus → Compared s

pub compared : (s : Sign) → Compared s
compared minus = is_minus refl
compared same = is_same refl
compared plus = is_plus refl
