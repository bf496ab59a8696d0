-- ===== src/Tree/Children.antt =====
-- The array of children of a node of src/tree.c: its null pointers stand at the end.
use netemul.Base.{
  ℕ, zero, suc, ◌<◌, ◌≤◌, ◌≡◌, refl, Bool, true, false, Option, none, some, List, [], ◌∷◌, ◌++◌,
  arith, length, ap,
}
use netemul.Node.{Ptr}
use netemul.Tree.{nulls, first_null, set_child, count_children}

-- So many children are set, and then none.
abbrev pub packed : ℕ → List (Option Ptr) → Bool
packed zero [] = true
packed (suc n) [] = false
packed zero (none ∷ xs) = packed zero xs
packed zero (some p ∷ xs) = false
packed (suc n) (none ∷ xs) = false
packed (suc n) (some p ∷ xs) = packed n xs

-- The children that are set
abbrev pub present : List (Option Ptr) → List Ptr
present [] = []
present (none ∷ xs) = present xs
present (some p ∷ xs) = p ∷ present xs

pub nulls-packed : (n : ℕ) → packed 0 (nulls n) ≡ true
nulls-packed zero = refl
nulls-packed (suc n) = nulls-packed n

pub length-nulls : (n : ℕ) → length (nulls n) ≡ n
length-nulls zero = refl
length-nulls (suc n) = ap suc (length-nulls n)

pub first_null-packed :
    (n : ℕ) (xs : List (Option Ptr)) → packed n xs ≡ true → n < length xs → first_null xs ≡ some n
unfolding first_null
first_null-packed n [] h lt = absurd (omega (arith, lt))
first_null-packed zero (none ∷ xs) h lt = refl
first_null-packed zero (some p ∷ xs) h lt = absurd (ground (arith, h))
first_null-packed (suc n) (none ∷ xs) h lt = absurd (ground (arith, h))
first_null-packed (suc n) (some p ∷ xs) h lt =
    rw (first_null-packed n xs h (omega (arith, lt))) refl

pub first_null-full :
    (n : ℕ) (xs : List (Option Ptr)) → packed n xs ≡ true → length xs ≤ n → first_null xs ≡ none
unfolding first_null
first_null-full n [] h le = refl
first_null-full zero (x ∷ xs) h le = absurd (omega (arith, le))
first_null-full (suc n) (none ∷ xs) h le = absurd (ground (arith, h))
first_null-full (suc n) (some p ∷ xs) h le = rw (first_null-full n xs h (omega (arith, le))) refl

module _ (p : Ptr) where
  pub set_child-packed :
      (n : ℕ) (xs : List (Option Ptr))
      → packed n xs ≡ true
      → n < length xs
      → packed (suc n) (set_child n p xs) ≡ true
  unfolding set_child
  set_child-packed n [] h lt = absurd (omega (arith, lt))
  set_child-packed zero (none ∷ xs) h lt = h
  set_child-packed zero (some q ∷ xs) h lt = absurd (ground (arith, h))
  set_child-packed (suc n) (none ∷ xs) h lt = absurd (ground (arith, h))
  set_child-packed (suc n) (some q ∷ xs) h lt = set_child-packed n xs h (omega (arith, lt))

  none_present : (xs : List (Option Ptr)) → packed 0 xs ≡ true → present xs ≡ []
  none_present [] h = refl
  none_present (none ∷ xs) h = none_present xs h
  none_present (some q ∷ xs) h = absurd (ground (arith, h))

  pub present-set_child :
      (n : ℕ) (xs : List (Option Ptr))
      → packed n xs ≡ true
      → n < length xs
      → present (set_child n p xs) ≡ present xs ++ p ∷ []
  unfolding set_child
  present-set_child n [] h lt = absurd (omega (arith, lt))
  present-set_child zero (none ∷ xs) h lt = rw (none_present xs h) refl
  present-set_child zero (some q ∷ xs) h lt = absurd (ground (arith, h))
  present-set_child (suc n) (none ∷ xs) h lt = absurd (ground (arith, h))
  present-set_child (suc n) (some q ∷ xs) h lt =
      ap (λ ys. q ∷ ys) (present-set_child n xs h (omega (arith, lt)))

  pub length-set_child : (n : ℕ) (xs : List (Option Ptr)) → length (set_child n p xs) ≡ length xs
  unfolding set_child
  length-set_child n [] = refl
  length-set_child zero (x ∷ xs) = refl
  length-set_child (suc n) (x ∷ xs) = ap suc (length-set_child n xs)

pub length-present : (n : ℕ) (xs : List (Option Ptr)) → packed n xs ≡ true → length (present xs) ≡ n
length-present zero [] h = refl
length-present (suc n) [] h = absurd (ground (arith, h))
length-present zero (none ∷ xs) h = length-present zero xs h
length-present zero (some p ∷ xs) h = absurd (ground (arith, h))
length-present (suc n) (none ∷ xs) h = absurd (ground (arith, h))
length-present (suc n) (some p ∷ xs) h = ap suc (length-present n xs h)

-- `tree_get_children_cnt` counts what is set.
pub count_children-present : (xs : List (Option Ptr)) → count_children xs ≡ length (present xs)
unfolding count_children
count_children-present [] = refl
count_children-present (none ∷ xs) = count_children-present xs
count_children-present (some p ∷ xs) = ap suc (count_children-present xs)
