-- ===== src/Tree/Free.antt =====
-- `tree_destroy` of src/tree.c.
use netemul.Base.{
  ℕ, zero, suc, ◌+◌, ◌≤◌, ◌≡◌, refl, true, Option, none, some, List, [], ◌∷◌, arith, has, sym, ap,
  ◌∙◌, ◌⊎◌, subst, ◌==◌, Bool-cases, inl, inr,
}
use netemul.Node.{Ptr}
use netemul.Tree.{
  TreeNode, Forest, Result, returned, after, free_node, destroy_children, destroy_tree,
  tree_destroy,
}
use netemul.Tree.Children.{present}
use netemul.Tree.Shape.{IsForest, kids_of, distinct}
use netemul.Tree.Grow.{node_at}
use netemul.Tree.Search.{exists, known_parent, Below, itself, deeper, split-Below, BelowSome}

-- The way up from a node to one above it
data Above (f : Forest) (q : Ptr) : Ptr → Type 0 where
  here : Above f q q
  higher : {s r : Ptr} → Above f q s → has r (kids_of (f.node s)) ≡ true → Above f q r

lengthen :
    {f : Forest} {p q r : Ptr} → has q (kids_of (f.node p)) ≡ true → Above f q r → Above f p r
lengthen h here = higher here h
lengthen h (higher a k) = higher (lengthen h a) k

Below-Above : {f : Forest} {q r : Ptr} → Below f q r → Above f q r
Below-Above itself = here
Below-Above (deeper h b) = lengthen h (Below-Above b)

split-Above :
    {f : Forest} {q r : Ptr}
    → Above f q r
    → (q ≡ r) ⊎ ((s : Ptr) × Above f q s × (has r (kids_of (f.node s)) ≡ true))
split-Above here = inl refl
split-Above (higher {s = s} a k) = inr (s, a, k)

module _ (f : Forest) (forest : IsForest f) where
  older : {q r : Ptr} → Above f q r → q ≤ r
  older here = omega arith
  older (higher {s = s} {r = r} a k) = omega (arith, older a, forest.younger s r k)

  one_parent :
      (p s r : Ptr) → has r (kids_of (f.node p)) ≡ true → has r (kids_of (f.node s)) ≡ true → p ≡ s
  one_parent p s r h k = ground (arith, forest.belongs p r h, forest.belongs s r k)

  -- A child of a node is not above another one.
  beside :
      (p q r : Ptr)
      → has q (kids_of (f.node p)) ≡ true
      → has r (kids_of (f.node p)) ≡ true
      → Above f q r
      → q ≡ r
  beside p q r h k a = elim (split-Above a) [
    | inl same ↦ same
    | inr (s, b, j) ↦ absurd (ground (arith, one_parent p s r k j, forest.younger p q h, older b))
  ]

  -- A node is below one child of another node at most.
  disjoint :
      (p q u r : Ptr)
      → has q (kids_of (f.node p)) ≡ true
      → has u (kids_of (f.node p)) ≡ true
      → Above f q r
      → Above f u r
      → q ≡ u
  disjoint p q u r h k here b = sym (beside p u q k h b)
  disjoint p q u r h k (higher {s = s} a j) b = elim (split-Above b) [
    | inl same ↦ beside p q u h k (subst (λ x. Above f q x) (sym same) (higher a j))
    | inr (v, c, i) ↦ disjoint p q u s h k a (subst (λ x. Above f u x) (one_parent v s r i j) c)
  ]

  -- From one forest to another, some nodes were freed, and all else is as it was.
  abbrev pub Freed : (Ptr → Type 0) → Forest → Forest → Type 0
  Freed nodes g h =
      ((a : Ptr) → nodes a → h.node a ≡ none)
      × ((a : Ptr) → ¬ (nodes a) → h.node a ≡ g.node a)
      × (h.root ≡ g.root)
      × (h.next ≡ g.next)

  abbrev pub Frees : (Ptr → Type 0) → Forest → Result (Unit {0}) → Type 0
  Frees nodes g r = (h : Forest) × (r ≡ returned tt h) × Freed nodes g h

  abbrev Same : (Ptr → Type 0) → Forest → Type 0
  Same nodes g = (a : Ptr) → nodes a → g.node a ≡ f.node a

  module _ (p : Ptr) (destroy : Ptr → Forest → Result (Unit {0})) where
    destroy_children-Frees :
        (xs : List (Option Ptr)) (g : Forest)
        → ((q : Ptr) → has q (present xs) ≡ true → has q (kids_of (f.node p)) ≡ true)
        → distinct (present xs) ≡ true
        → ((q : Ptr) (h : Forest)
            → has q (kids_of (f.node p)) ≡ true
            → Same (Below f q) h
            → Frees (Below f q) h (destroy q h))
        → Same (BelowSome f (present xs)) g
        → Frees (BelowSome f (present xs)) g (destroy_children destroy xs g)
    unfolding destroy_children
    destroy_children-Frees [] g sub once each same =
        (g, refl, (λ a (q, h, b). absurd (ground (arith, h)), λ a n. refl, refl, refl))
    destroy_children-Frees (none ∷ xs) g sub once each same =
        destroy_children-Frees xs g sub once each same
    destroy_children-Frees (some q ∷ xs) g sub once each same =
        go (each q g (sub q (ground arith)) λ a b. same a (q, ground arith, b)) λ h s.
          destroy_children-Frees xs h (λ r k. sub r (ground (arith, k))) (ground (arith, once)) each
            s
      where
        apart : (a : Ptr) → BelowSome f (present xs) a → ¬ (Below f q a)
        apart a (r, k, b) c =
            let eq =
              disjoint p q r a (sub q (ground arith)) (sub r (ground (arith, k))) (Below-Above c)
                (Below-Above b) in
            absurd (ground (arith, once, eq, k))

        go :
            Frees (Below f q) g (destroy q g)
            → ((h : Forest)
                → Same (BelowSome f (present xs)) h
                → Frees (BelowSome f (present xs)) h (destroy_children destroy xs h))
            → Frees (BelowSome f (q ∷ present xs)) g (destroy_children destroy (some q ∷ xs) g)
        go (h, eq, (gone, kept, root, next)) rest =
            let (h', eq', (gone', kept', root', next')) =
              rest h λ a (r, k, b).
                kept a (λ c. apart a (r, k, b) c) ∙ same a (r, ground (arith, k), b) in
            rw (eq, destroy_children)
              (
                h',
                eq',
                (
                  λ a (r, k, b). elim (Bool-cases (r == q)) [
                    | inl y ↦
                        let c = subst (λ x. Below f x a) (ground (arith, y)) b in
                        kept' a (λ d. apart a d c) ∙ gone a c
                    | inr n ↦ gone' a (r, ground (arith, n, k), b)
                  ],
                  λ a n.
                      kept' a (λ (r, k, b). n (r, ground (arith, k), b))
                      ∙ kept a (λ c. n (q, ground arith, c)),
                  root' ∙ root,
                  next' ∙ next,
                ),
              )

  descend :
      (destroy : Ptr → Forest → Result (Unit {0}))
      → (p : Ptr) (t : TreeNode) → f.node p ≡ some t
      → (g : Forest) → Same (Below f p) g
      → Frees (BelowSome f (present t.children)) g (destroy_children destroy t.children g)
      → Frees
          (Below f p)
          g
          (after (destroy_children destroy t.children g) λ _ h. free_node p (h.node p) h)
  descend destroy p t at g same (h, eq, (gone, kept, root, next)) =
      rw (eq, free_node)
        (rw still (
          _,
          refl,
          (
            λ a b. elim (split-Below b) [
              | inl is ↦ ground (arith, is)
              | inr (r, k, c) ↦
                  ground (arith, gone a (r, ap (λ n. has r (kids_of n)) (sym at) ∙ k, c))
            ],
            λ a n.
                ground (arith, λ (is : a ≡ p). n (subst (λ x. Below f p x) (sym is) itself))
                ∙ kept a (λ (r, k, b). n (deeper (child r k) b)),
            root,
            next,
          ),
        ))
    where
      child : (r : Ptr) → has r (present t.children) ≡ true → has r (kids_of (f.node p)) ≡ true
      child r k = ap (λ n. has r (kids_of n)) at ∙ k

      still : h.node p ≡ some t
      still =
          kept p (λ (r, k, b). omega (arith, forest.younger p r (child r k), older (Below-Above b)))
          ∙ same p itself
          ∙ at

  destroy-Frees :
      (fuel p : ℕ)
      → f.next ≤ p + fuel
      → exists (f.node p) ≡ true
      → (g : Forest) → Same (Below f p) g
      → Frees (Below f p) g (destroy_tree fuel p g)
  unfolding destroy_tree
  destroy-Frees zero p enough there g same =
      absurd (ground (arith, forest.fresh p (omega (arith, enough)), there))
  destroy-Frees (suc fuel) p enough there g same =
      let ih = destroy-Frees fuel in
      let (t, at) = node_at (f.node p) there in
      rw (same p itself ∙ at, destroy_tree)
        (descend (destroy_tree fuel) p t at g same (
          destroy_children-Frees p (destroy_tree fuel) t.children g
            (λ q k. ap (λ n. has q (kids_of n)) at ∙ k)
            (ap (λ n. distinct (kids_of n)) (sym at) ∙ forest.once p)
            (λ q h k.
              ih q (omega (arith, enough, forest.younger p q k))
                (known_parent (f.node q) p (forest.belongs p q k)) h)
            λ a (q, k, b). same a (deeper (ap (λ n. has q (kids_of n)) at ∙ k) b)))

  -- Destroying the tree below a node of a forest returns, with as much fuel as there are addresses
  -- in use, and never touches a node that was freed: the nodes below that one, and itself, are freed
  -- once each, and all others are as they were.
  pub tree_destroy-Frees :
      (p : Ptr) → exists (f.node p) ≡ true → Frees (Below f p) f (tree_destroy f.next (some p) f)
  unfolding tree_destroy
  tree_destroy-Frees p there = destroy-Frees f.next p (omega arith) there f λ a b. refl
