-- ===== src/Tree/Ends.antt =====
-- The least and the greatest entry, and the check of the balance that the source has for its tests.
use mathlib.Core.List.{head?}
use rimstone.Base.{
  ℕ, suc, ◌≤◌, false, List, [], ◌∷◌, ◌++◌, Option, none, some, ◌≡◌, refl, ◌∙◌, length, arith, ◌==◌,
  if◌then◌else◌,
}
use rimstone.Tree.Api.{IsRoot, IsValid}
use rimstone.Tree.Balance.{height-IsAvl, IsAvl, IsLoose, IsAvl-IsLoose}
use rimstone.Tree.Contents.{to_list}
use rimstone.Tree.Key.{KeyOrder}
use rimstone.Tree.Operations.{Tree, conclude, least, greatest, tree_bal, min_f, max_f}
use rimstone.Tree.{Node, null, vacant, node, Cursor, okay, err_exist, is_null}

-- The last element of a list.
abbrev pub last? {ℓ} : {A : Type ℓ} → List A → Option A
last? [] = none
last? (x ∷ []) = some x
last? (x ∷ (y ∷ ys)) = last? (y ∷ ys)

module _ {ℓ} {A : Type ℓ} where
  head_front :
      (xs : List A) (y : A) (ys zs : List A)
      → head? ((xs ++ (y ∷ ys)) ++ zs) ≡ head? (xs ++ (y ∷ ys))
  head_front [] y ys zs = refl
  head_front (x ∷ xs) y ys zs = refl

  last-append : (xs : List A) (y : A) (ys : List A) → last? (xs ++ (y ∷ ys)) ≡ last? (y ∷ ys)
  last-append [] y ys = refl
  last-append (x ∷ []) y ys = refl
  last-append (x ∷ (z ∷ xs)) y ys = last-append (z ∷ xs) y ys

  last_back :
      (x : A) (xs : List A) (y : A) (ys : List A)
      → last? (x ∷ (xs ++ (y ∷ ys))) ≡ last? (xs ++ (y ∷ ys))
  last_back x [] y ys = refl
  last_back x (z ∷ xs) y ys = refl

-- There is an entry if and only if the number is positive.
abbrev Counts {ℓ} : {A : Type ℓ} → ℕ → Option A → Type 0
Counts n none = n ≡ 0
Counts n (some e) = 1 ≤ n

positive : (n : ℕ) → 1 ≤ n → (n == 0) ≡ false
positive n p = ground arith

module _ {ℓ} {K V : Type ℓ} where
  least-head : (t : Node K V) → IsLoose t → head? (to_list t) ≡ least t
  unfolding least is_null
  least-head null a = refl
  least-head vacant a = refl
  least-head (node h k v null g) a = refl
  least-head (node h k v vacant g) a = absurd a.1
  least-head (node h k v (node hl kl vl ll lg) g) (near, al, ag) =
      head_front (to_list ll) (kl, vl) (to_list lg) ((k, v) ∷ to_list g)
      ∙ least-head (node hl kl vl ll lg) (IsAvl-IsLoose (node hl kl vl ll lg) al)

  greatest-last : (t : Node K V) → IsLoose t → last? (to_list t) ≡ greatest t
  unfolding greatest is_null
  greatest-last null a = refl
  greatest-last vacant a = refl
  greatest-last (node h k v l null) a = last-append (to_list l) (k, v) []
  greatest-last (node h k v l vacant) a = absurd a.2
  greatest-last (node h k v l (node hg kg vg gl gg)) (near, al, ag) =
      last-append (to_list l) (k, v) (to_list (node hg kg vg gl gg))
      ∙ last_back (k, v) (to_list gl) (kg, vg) (to_list gg)
      ∙ greatest-last (node hg kg vg gl gg) (IsAvl-IsLoose (node hg kg vg gl gg) ag)

  tree_bal-IsAvl : (t : Node K V) → IsAvl t → tree_bal t ≡ 0
  unfolding tree_bal
  tree_bal-IsAvl null a = refl
  tree_bal-IsAvl vacant a = refl
  tree_bal-IsAvl (node h k v l g) (e, near, a, b) =
      rw (height-IsAvl l a, height-IsAvl g b, tree_bal-IsAvl l a, tree_bal-IsAvl g b) (ground arith)

  module _ ⦃order : KeyOrder K⦄ where
    root-least : (t : Node K V) → IsRoot t → head? (to_list t) ≡ least t
    root-least null a = absurd a
    root-least vacant a = unfold least in refl
    root-least (node h k v l g) a = least-head (node h k v l g) a

    root-greatest : (t : Node K V) → IsRoot t → last? (to_list t) ≡ greatest t
    root-greatest null a = absurd a
    root-greatest vacant a = unfold greatest in refl
    root-greatest (node h k v l g) a = greatest-last (node h k v l g) a

    Counts-head : (xs : List (K × V)) → Counts (length xs) (head? xs)
    Counts-head [] = refl
    Counts-head (x ∷ xs) = omega arith

    Counts-last : (xs : List (K × V)) → Counts (length xs) (last? xs)
    Counts-last [] = refl
    Counts-last (x ∷ []) = omega arith
    Counts-last (x ∷ (y ∷ ys)) = more (last? (y ∷ ys)) (Counts-last (y ∷ ys))
      where
        more : (o : Option (K × V)) → Counts (suc (length ys)) o → Counts (suc (suc (length ys))) o
        more none e = absurd (omega arith)
        more (some z) p = omega arith

    conclude_count :
        (c : Cursor K V) (n : ℕ) (o : Option (K × V))
        → Counts n o
        → (if n == 0
            then record c { status = err_exist }
            else record c { status = okay; current = o })
          ≡ conclude c o
    unfolding conclude
    conclude_count c n none e = rw e
    conclude_count c n (some e) p = rw (positive n p)

    -- The least entry of a valid tree is the first of its list, and the greatest the last; an empty
    -- tree has neither.
    pub ends_f :
        (c : Cursor K V) (t : Tree K V)
        → IsValid t
        → (min_f c t ≡ conclude c (head? (to_list t.root)))
          × (max_f c t ≡ conclude c (last? (to_list t.root)))
    unfolding min_f max_f
    ends_f c t valid = (
      rw (← root-least t.root valid.balanced, valid.counted)
          (conclude_count c _ _ (Counts-head (to_list t.root))),
      rw (← root-greatest t.root valid.balanced, valid.counted)
          (conclude_count c _ _ (Counts-last (to_list t.root))),
    )

    -- In a valid tree no node is out of balance by the source's own check.
    pub tree_bal-IsValid : (t : Tree K V) → IsValid t → tree_bal t.root ≡ 0
    tree_bal-IsValid t valid = root t.root valid.balanced
      where
        root : (r : Node K V) → IsRoot r → tree_bal r ≡ 0
        root null a = absurd a
        root vacant a = unfold tree_bal in refl
        root (node h k v l g) (near, a, b) =
            unfold tree_bal in
            rw (height-IsAvl l a, height-IsAvl g b, tree_bal-IsAvl l a, tree_bal-IsAvl g b)
              (ground arith)
