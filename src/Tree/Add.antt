-- ===== src/Tree/Add.antt =====
-- `tree_add` of src/tree.c against a tree without arrays: each node has its list of children.
use netemul.Base.{
  suc, ◌+◌, ◌%◌, ◌^◌, ◌<◌, ◌≡◌, refl, Bool, true, false, none, some, [], ◌∷◌, ◌++◌, arith, length,
  has, ap, sym, ◌∙◌, ◌==◌, if◌then◌else◌, Bool-cases, inl, inr,
}
use netemul.Node.{Ptr}
use netemul.Env.{Env}
use netemul.World.Run.{write}
use netemul.Tree.{
  TreeNode, Forest, returned, tree_add, new_node, set_child, leaf, max_children_count,
}
use netemul.Tree.Children.{
  packed, present, nulls-packed, length-nulls, first_null-packed, first_null-full, set_child-packed,
  present-set_child, length-set_child, length-present,
}
use netemul.Tree.Shape.{
  IsForest, distinct, distinct-append, has-append, has_room, is_packed, kids_of, nulls-present,
  parent_of, size_of, vertex, with_child,
}

-- The forest after a node was added, or not, below one.
abbrev pub Refined : Forest → (parent self : Ptr) → TreeNode → Forest → Type 0
Refined f parent self t f' =
    IsForest f'
    × ((a : Ptr)
        → vertex (f'.node a) ≡ (
            if has_room t
            then with_child (λ b. vertex (f.node b)) f.next parent self a
            else vertex (f.node a)))
    × (f'.root ≡ f.root)
    × (f'.count ≡ (if has_room t then (f.count + 1) % 2 ^ 32 else f.count))
    × (f'.next ≡ (if has_room t then suc f.next else f.next))

module _ (e : Env) (memory : (a : Ptr) → e.malloc_ok a ≡ true) (f : Forest) (forest : IsForest f)
    (parent self : Ptr) (t : TreeNode) (there : f.node parent ≡ some t) where
  abbrev room : Bool
  room = has_room t

  front : packed t.count t.children ≡ true
  front = ap is_packed (sym there) ∙ forest.front parent

  size : length t.children ≡ max_children_count
  size = ap size_of (sym there) ∙ forest.size parent

  known : length (present t.children) ≡ t.count
  known = length-present t.count t.children front

  older : parent < f.next
  older = ground (arith, forest.fresh parent, there)

  -- The parent with its child
  abbrev filled : TreeNode
  filled = record t { children = set_child t.count f.next t.children; count = t.count + 1 }

  abbrev extended : Forest
  extended = record f {
    node = write (write f.node f.next (some (leaf (some parent) self))) parent (some filled);
    count = (f.count + 1) % 2 ^ 32;
    next = suc f.next;
  }

  module _ (space : room ≡ true) where
    below : t.count < length t.children
    below = ground (arith, known, size, space)

    added : tree_add e (some parent) self f ≡ returned (some f.next) extended
    unfolding tree_add new_node
    added = rw there (
        rw (first_null-packed t.count t.children front below)
          (rw (memory f.next) (rw other (rw there refl))))
      where
        other : (parent == f.next) ≡ false
        other = ground (arith, older)

    extended-vertex :
        (a : Ptr)
        → vertex (extended.node a) ≡ with_child (λ b. vertex (f.node b)) f.next parent self a
    extended-vertex a =
        ground
          (arith, present-set_child f.next t.count t.children front below, nulls-present 64, there)

    new_parents :
        (q : Ptr)
        → parent_of (extended.node q) ≡ (if q == f.next then some parent else parent_of (f.node q))
    new_parents q = ground (arith, there, older)

    new_kids :
        (p : Ptr)
        → kids_of (extended.node p) ≡ (
            if p == parent
            then kids_of (f.node p) ++ f.next ∷ []
            else if p == f.next
            then []
            else kids_of (f.node p))
    new_kids p =
        ground
          (arith, there, present-set_child f.next t.count t.children front below, nulls-present 64)

    extended_belongs :
        (p q : Ptr)
        → has q (kids_of (extended.node p)) ≡ true
        → parent_of (extended.node q) ≡ some p
    extended_belongs p q h = ground (
      arith,
      new_parents q,
      new_kids p,
      has-append q f.next (kids_of (f.node p)),
      forest.belongs p q,
      forest.fresh f.next,
      h,
    )

    extended_younger : (p q : Ptr) → has q (kids_of (extended.node p)) ≡ true → p < q
    extended_younger p q h =
        ground (
          arith,
          new_kids p,
          has-append q f.next (kids_of (f.node p)),
          forest.younger p q,
          older,
          h,
        )

    new_child : has f.next (kids_of (f.node parent)) ≡ false
    new_child = elim (Bool-cases (has f.next (kids_of (f.node parent)))) [
      | inl y ↦ absurd (ground (arith, forest.belongs parent f.next y, forest.fresh f.next))
      | inr n ↦ n
    ]

    extended_once : (p : Ptr) → distinct (kids_of (extended.node p)) ≡ true
    extended_once p = ground (
      arith,
      new_kids p,
      forest.once p,
      distinct-append f.next (kids_of (f.node parent)) new_child,
    )

    extended-IsForest : IsForest extended
    extended-IsForest = record {
      fresh = λ p n. ground (arith, forest.fresh p, older);
      front = λ p. ground (
        arith,
        forest.front p,
        set_child-packed f.next t.count t.children front below,
        nulls-packed 64,
      );
      size = λ p.
          ground (
            arith,
            forest.size p,
            length-set_child f.next t.count t.children,
            length-nulls 64,
            size,
          );
      belongs = extended_belongs;
      younger = extended_younger;
      once = extended_once;
    }

  full : room ≡ false → tree_add e (some parent) self f ≡ returned none f
  unfolding tree_add
  full none_left =
      rw there (
        rw (first_null-full t.count t.children front (ground (arith, known, size, none_left))) refl)

  -- Adding a node below another one succeeds, if there is memory, and does to the tree that its user
  -- sees what it should: the new node, which has no children, is the last child of its parent, and all
  -- else is as it was. A parent with 64 children takes no more, and nothing changes.
  pub tree_add-refines :
      (f' : Forest) × (tree_add e (some parent) self f
        ≡ returned (if has_room t then some f.next else none) f')
      × Refined f parent self t f'
  tree_add-refines = elim (Bool-cases room) [
    | inl y ↦ (
      extended,
      added y ∙ ap (λ b. returned (if b then some f.next else none) extended) (sym y),
      (extended-IsForest y, λ a. extended-vertex y a ∙ rw y refl, refl, rw y refl, rw y refl),
    )
    | inr n ↦ (
      f,
      full n ∙ ap (λ b. returned (if b then some f.next else none) f) (sym n),
      (forest, λ a. rw n refl, refl, rw n refl, rw n refl),
    )
  ]
