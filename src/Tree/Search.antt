-- ===== src/Tree/Search.antt =====
-- `tree_search` of src/tree.c.
use netemul.Base.{
  ℕ, zero, suc, ◌+◌, ◌≤◌, ◌≡◌, ◌≢◌, refl, Bool, true, false, Option, none, some, List, [], ◌∷◌,
  arith, has, sym, ap, ◌∙◌, ◌⊎◌, subst, ◌==◌, Bool-cases, inl, inr,
}
use netemul.Node.{Ptr}
use netemul.Tree.{TreeNode, Forest, Result, returned, tree_search, search_at, search_children}
use netemul.Tree.Children.{present}
use netemul.Tree.Shape.{IsForest, kids_of, parent_of}

abbrev self_of : Option TreeNode → Option Ptr
self_of none = none
self_of (some t) = some t.self

-- The nodes below a node, itself among them.
pub data Below (f : Forest) : Ptr → Ptr → Type 0 where
  itself : {p : Ptr} → Below f p p
  deeper : {p q r : Ptr} → has q (kids_of (f.node p)) ≡ true → Below f q r → Below f p r

pub split-Below :
    {f : Forest} {p r : Ptr}
    → Below f p r
    → (p ≡ r) ⊎ ((q : Ptr) × (has q (kids_of (f.node p)) ≡ true) × Below f q r)
split-Below itself = inl refl
split-Below (deeper {q = q} h b) = inr (q, h, b)

-- A search of some nodes finds one of them with the data, or none of them has it.
abbrev pub Hit : Forest → Ptr → (Ptr → Type 0) → Option Ptr → Type 0
Hit f self nodes none = (p : Ptr) → nodes p → self_of (f.node p) ≢ some self
Hit f self nodes (some p) = nodes p × (self_of (f.node p) ≡ some self)

-- A search returns, and changes nothing.
abbrev pub Searched : Forest → Ptr → (Ptr → Type 0) → Result (Option Ptr) → Type 0
Searched f self nodes r = (found : Option Ptr) × (r ≡ returned found f) × Hit f self nodes found

-- The nodes below one of these
abbrev pub BelowSome : Forest → List Ptr → Ptr → Type 0
BelowSome f qs r = (q : Ptr) × (has q qs ≡ true) × Below f q r

abbrev pub exists : Option TreeNode → Bool
exists none = false
exists (some t) = true

pub known_parent : (o : Option TreeNode) (p : Ptr) → parent_of o ≡ some p → exists o ≡ true
known_parent none p h = ground (arith, h)
known_parent (some t) p h = refl

module _ (f : Forest) (forest : IsForest f) (self : Ptr) where
  -- The first of some nodes, and then the others
  join :
      (q : Ptr) (qs : List Ptr)
      → Hit f self (Below f q) none
      → (o : Option Ptr) → Hit f self (BelowSome f qs) o
      → Hit f self (BelowSome f (q ∷ qs)) o
  join q qs first none rest = λ r (p, h, b). elim (Bool-cases (p == q)) [
    | inl y ↦ first r (subst (λ k. Below f k r) (ground (arith, y)) b)
    | inr n ↦ rest r (p, ground (arith, n, h), b)
  ]
  join q qs first (some r) ((p, h, b), eq) = ((p, ground (arith, h), b), eq)

  search_children-Searched :
      (search : Option Ptr → Forest → Result (Option Ptr))
      → search none f ≡ returned none f
      → (xs : List (Option Ptr))
      → ((q : Ptr) → has q (present xs) ≡ true → Searched f self (Below f q) (search (some q) f))
      → Searched f self (BelowSome f (present xs)) (search_children search xs f)
  unfolding search_children
  search_children-Searched search null [] each =
      (none, refl, λ r (q, h, b). absurd (ground (arith, h)))
  search_children-Searched search null (none ∷ xs) each =
      rw (null, search_children) (search_children-Searched search null xs each)
  search_children-Searched search null (some q ∷ xs) each =
      go (search_children-Searched search null xs λ r h. each r (ground (arith, h)))
        (each q (ground arith))
    where
      go :
          Searched f self (BelowSome f (present xs)) (search_children search xs f)
          → Searched f self (Below f q) (search (some q) f)
          → Searched f self (BelowSome f (q ∷ present xs)) (search_children search (some q ∷ xs) f)
      go (found, same, hit) (none, eq, miss) =
          rw (eq, search_children) (found, same, join q (present xs) miss found hit)
      go rest (some r, eq, (b, hit)) =
          rw (eq, search_children) (some r, refl, ((q, ground arith, b), hit))

  -- A node whose data is another, and then its children
  descend :
      (p : Ptr) (t : TreeNode)
      → f.node p ≡ some t
      → t.self ≢ self
      → (o : Option Ptr) → Hit f self (BelowSome f (present t.children)) o
      → Hit f self (Below f p) o
  descend p t at other none rest = λ r b. elim (split-Below b) [
    | inl here ↦ λ q. other (ground (arith, at, here, q))
    | inr (k, h, d) ↦ rest r (k, ap (λ n. has k (kids_of n)) (sym at) ∙ h, d)
  ]
  descend p t at other (some r) ((k, h, d), hit) =
      (deeper (ap (λ n. has k (kids_of n)) at ∙ h) d, hit)

  search_none : (fuel : ℕ) → tree_search fuel none self f ≡ returned none f
  unfolding tree_search
  search_none zero = refl
  search_none (suc fuel) = refl

  search_at-Searched :
      (search : Option Ptr → Forest → Result (Option Ptr))
      → search none f ≡ returned none f
      → (p : Ptr) (o : Option TreeNode) → f.node p ≡ o
      → exists o ≡ true
      → ((q : Ptr) → has q (kids_of o) ≡ true → Searched f self (Below f q) (search (some q) f))
      → Searched f self (Below f p) (search_at search p self o f)
  unfolding search_at
  search_at-Searched search null p none at there each = absurd (ground (arith, there))
  search_at-Searched search null p (some t) at there each = elim (Bool-cases (t.self == self)) [
    | inl y ↦
        rw y (some p, refl, (itself, ap self_of at ∙ ap (λ (s : Ptr). some s) (ground (arith, y))))
    | inr n ↦
        let (found, same, hit) = search_children-Searched search null t.children each in
        rw n (found, same, descend p t at (λ q. ground (arith, n, q)) found hit)
  ]

  search-Searched :
      (fuel p : ℕ)
      → f.next ≤ p + fuel
      → exists (f.node p) ≡ true
      → Searched f self (Below f p) (tree_search fuel (some p) self f)
  unfolding tree_search
  search-Searched zero p enough there =
      absurd (ground (arith, forest.fresh p (omega (arith, enough)), there))
  search-Searched (suc fuel) p enough there =
      let ih = search-Searched fuel in
      search_at-Searched (λ x. tree_search fuel x self) (search_none fuel) p (f.node p) refl there
        λ q h.
          ih q (omega (arith, enough, forest.younger p q h))
            (known_parent (f.node q) p (forest.belongs p q h))

  -- A search from a node of a forest returns, with as much fuel as there are addresses in use, and
  -- changes nothing: it finds a node below, or that one, with the data that is sought, or none of
  -- them has it.
  pub tree_search-Searched :
      (p : Ptr)
      → exists (f.node p) ≡ true
      → Searched f self (Below f p) (tree_search f.next (some p) self f)
  tree_search-Searched p there = search-Searched f.next p (omega arith) there
