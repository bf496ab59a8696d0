-- ===== src/Tests/Trees.antt =====
-- The theorems on trees at a root without children, and with one.
use netemul.Base.{ℕ, Option, ◌≡◌, refl, none, some, ◌∷◌, arith, ◌==◌, if◌then◌else◌}
use netemul.Env.Model.{example_env}
use netemul.Tree.{
  Forest, leaf, nulls, tree_add, tree_search, tree_destroy, search_at, search_children, returned,
}
use netemul.Tree.Search.{Searched, Below, tree_search-Searched}
use netemul.Tree.Free.{Frees, tree_destroy-Frees}
use netemul.Sketch.{
  blank, Drawing, drawn, sketch, sketch_node, sketch_at, sketch_pixel, sketch_children,
}
use netemul.Sketch.Rows.{Drawn, Sketched, sketch_node-Drawn}
use netemul.Tree.Add.{Refined, tree_add-refines}
use netemul.Tree.Shape.{IsForest}

abbrev small : Forest
small = record {
  node = λ a. if a == 1 then some (leaf none 7) else none;
  root = some 1;
  count = 1;
  next = 2;
}

small-IsForest : IsForest small
small-IsForest = record {
  fresh = λ p h. ground arith;
  front = λ p. ground arith;
  size = λ p. ground arith;
  belongs = λ p q h. ground (arith, h);
  younger = λ p q h. ground (arith, h);
  once = λ p. ground arith;
}

tree_add-refines_example :
    (f' : Forest) × (tree_add example_env (some 1) 8 small ≡ returned (some 2) f')
    × Refined small 1 8 (leaf none 7) f'
unfolding example_env
tree_add-refines_example =
    tree_add-refines example_env (λ a. refl) small small-IsForest 1 8 (leaf none 7) refl

-- A root with one child
abbrev pair : Forest
pair = record {
  node = λ a.
      if a == 1
      then some (record { self = 7; parent = none; children = some 2 ∷ nulls 63; count = 1 })
      else if a == 2
      then some (leaf (some 1) 8)
      else none;
  root = some 1;
  count = 2;
  next = 3;
}

pair-IsForest : IsForest pair
pair-IsForest = record {
  fresh = λ p h. ground arith;
  front = λ p. ground arith;
  size = λ p. ground arith;
  belongs = λ p q h. ground (arith, h);
  younger = λ p q h. ground (arith, h);
  once = λ p. ground arith;
}

tree_search-Searched_example : Searched pair 8 (Below pair 1) (tree_search 3 (some 1) 8 pair)
tree_search-Searched_example = tree_search-Searched pair pair-IsForest 8 1 refl

-- The child is found.
tree_search_found : tree_search 3 (some 1) 8 pair ≡ returned (some 2) pair
unfolding tree_search search_at search_children
tree_search_found = refl

sketch_node-Drawn_example :
    Drawn (Sketched (pair.node 1) blank 0 0) (sketch_node pair 3 1 0 0 blank)
sketch_node-Drawn_example = sketch_node-Drawn pair pair-IsForest 3 1 0 0 blank (omega arith) refl

abbrev rows_of : Drawing → Option ℕ
rows_of (drawn n c) = some n
rows_of _ = none

-- The child stands on the root's row.
sketch_rows : rows_of (sketch pair 3 (some 1) 0 0) ≡ some 1
unfolding sketch sketch_node sketch_at sketch_pixel sketch_children
sketch_rows = refl

-- The root goes with its child.
tree_destroy-Frees_example :
    Frees pair pair-IsForest (Below pair 1) pair (tree_destroy 3 (some 1) pair)
tree_destroy-Frees_example = tree_destroy-Frees pair pair-IsForest 1 refl
