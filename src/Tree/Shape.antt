-- ===== src/Tree/Shape.antt =====
-- Well-formed trees of src/tree.c, and how their user sees them: each node with its list of children.
use netemul.Base.{
  ℕ, zero, suc, ◌<◌, ◌≤◌, ◌≡◌, refl, Bool, true, false, ◌||◌, ◌&&◌, not, Option, none, some, List,
  [], ◌∷◌, ◌++◌, arith, length, has, ltb, ◌==◌, if◌then◌else◌,
}
use netemul.Node.{Ptr}
use netemul.Tree.{TreeNode, Forest, nulls, max_children_count}
use netemul.Tree.Children.{packed, present}

-- A node of the tree as its user sees it
pub record Vertex : Type 0 where
  pub self : Ptr
  pub parent : Option Ptr
  pub kids : List Ptr

abbrev pub vertex : Option TreeNode → Option Vertex
vertex none = none
vertex (some t) = some (record { self = t.self; parent = t.parent; kids = present t.children })

abbrev pub grown : Ptr → Option Vertex → Option Vertex
grown p none = none
grown p (some v) = some (record v { kids = v.kids ++ p ∷ [] })

-- The tree with a new node, the last child of its parent.
abbrev pub with_child : (Ptr → Option Vertex) → (new parent self : Ptr) → Ptr → Option Vertex
with_child tree new parent self a =
    if a == parent
    then grown new (tree a)
    else if a == new
    then some (record { self = self; parent = some parent; kids = [] })
    else tree a

abbrev pub parent_of : Option TreeNode → Option Ptr
parent_of none = none
parent_of (some t) = t.parent

abbrev pub is_packed : Option TreeNode → Bool
is_packed none = true
is_packed (some t) = packed t.count t.children

abbrev pub size_of : Option TreeNode → ℕ
size_of none = max_children_count
size_of (some t) = length t.children

abbrev pub kids_of : Option TreeNode → List Ptr
kids_of none = []
kids_of (some t) = present t.children

-- Is no element in the list twice?
abbrev pub distinct : List Ptr → Bool
distinct [] = true
distinct (x ∷ xs) = not (has x xs) && distinct xs

-- The children of a node stand at the front of its array, as many as it counts, each once, know it,
-- and are younger than it.
pub record IsForest (f : Forest) : Type 0 where
  pub fresh : (p : Ptr) → f.next ≤ p → f.node p ≡ none
  pub front : (p : Ptr) → is_packed (f.node p) ≡ true
  pub size : (p : Ptr) → size_of (f.node p) ≡ max_children_count
  pub belongs : (p q : Ptr) → has q (kids_of (f.node p)) ≡ true → parent_of (f.node q) ≡ some p
  pub younger : (p q : Ptr) → has q (kids_of (f.node p)) ≡ true → p < q
  pub once : (p : Ptr) → distinct (kids_of (f.node p)) ≡ true

pub has-append : (x y : ℕ) (xs : List ℕ) → has x (xs ++ y ∷ []) ≡ (has x xs || (x == y))
has-append x y [] = ground arith
has-append x y (z ∷ xs) = ground (arith, has-append x y xs)

pub distinct-append :
    (y : ℕ) (xs : List ℕ) → has y xs ≡ false → distinct xs ≡ true → distinct (xs ++ y ∷ []) ≡ true
distinct-append y [] h d = refl
distinct-append y (x ∷ xs) h d = ground (arith, h, d, has-append x y xs, distinct-append y xs)

pub nulls-present : (n : ℕ) → present (nulls n) ≡ []
nulls-present zero = refl
nulls-present (suc n) = nulls-present n

-- Has a node room for a child?
abbrev pub has_room : TreeNode → Bool
has_room t = ltb (length (present t.children)) max_children_count
