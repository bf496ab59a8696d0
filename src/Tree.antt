-- ===== src/Tree.antt =====
-- src/tree.c: the tree of nodes that the command `tree` draws, with its own root and count. A node
-- has a fixed array of children.
pub mod Children
pub mod Shape
pub mod Add
pub mod Search
pub mod Settled
pub mod Grow
pub mod Free
use netemul.Base.{
  ℕ, zero, suc, ◌+◌, ◌-◌, ◌%◌, ◌^◌, Bool, true, false, Option, none, some, List, [], ◌∷◌,
  if◌then◌else◌, ◌==◌,
}
use netemul.Node.{Ptr, max_component_count}
use netemul.Env.{Env}
use netemul.World.Run.{write}

pub record TreeNode : Type 0 where
  pub self : Ptr
  pub parent : Option Ptr
  pub children : List (Option Ptr)
  pub count : ℕ

-- The allocated nodes, and the static variables `root` and `count`, a number of 32 bits.
pub record Forest : Type 0 where
  pub node : Ptr → Option TreeNode
  pub root : Option Ptr
  pub count : ℕ
  pub next : Ptr

-- A call returns, reads through a null or dangling pointer, or has too little fuel.
pub data Result (A : Type 0) : Type 0 where
  returned : A → Forest → Result A
  crashed : Result A
  unfinished : Result A

module _ {A B : Type 0} where
  abbrev pub after : Result A → (A → Forest → Result B) → Result B
  after (returned a f) k = k a f
  after crashed k = crashed
  after unfinished k = unfinished

abbrev pub tree_get_root : Forest → Option Ptr
tree_get_root f = f.root

abbrev pub tree_get_count : Forest → ℕ
tree_get_count f = f.count

unfoldable pub tree_init : Forest → Forest
tree_init f = record f { root = none; count = 0 }

abbrev pub nulls : ℕ → List (Option Ptr)
nulls zero = []
nulls (suc n) = none ∷ nulls n

abbrev pub max_children_count : ℕ
max_children_count = max_component_count

-- A node without children
abbrev pub leaf : Option Ptr → Ptr → TreeNode
leaf parent self = record {
  self = self;
  parent = parent;
  children = nulls max_children_count;
  count = 0;
}

-- The index of the first child that is null
unfoldable pub first_null : List (Option Ptr) → Option ℕ
first_null [] = none
first_null (none ∷ xs) = some 0
first_null (some p ∷ xs) = elim (first_null xs) [ none ↦ none | some i ↦ some (suc i) ]

-- `children[i] = p`
unfoldable pub set_child : ℕ → Ptr → List (Option Ptr) → List (Option Ptr)
set_child i p [] = []
set_child zero p (x ∷ xs) = some p ∷ xs
set_child (suc i) p (x ∷ xs) = x ∷ set_child i p xs

-- `tree_get_children_cnt`
unfoldable pub count_children : List (Option Ptr) → ℕ
count_children [] = 0
count_children (none ∷ xs) = count_children xs
count_children (some p ∷ xs) = suc (count_children xs)

abbrev pub counted : Forest → Forest
counted f = record f { count = (f.count + 1) % 2 ^ 32 }

module _ (e : Env) where
  -- `_add`: the result of `malloc` is not tested.
  unfoldable pub new_node : Option Ptr → Ptr → Forest → Result Ptr
  new_node parent self f =
      if e.malloc_ok f.next
      then returned f.next
          (record f { node = write f.node f.next (some (leaf parent self)); next = suc f.next })
      else crashed

  -- The new node is put into its parent, which is read again.
  abbrev pub put_child : Ptr → ℕ → Ptr → Option TreeNode → Forest → Result (Option Ptr)
  put_child parent i p none f = crashed
  put_child parent i p (some t) f = returned (some p) (
      counted (record f {
        node =
            write f.node parent
              (some (record t { children = set_child i p t.children; count = t.count + 1 }));
      }))

  abbrev pub add_at : Ptr → Ptr → Option ℕ → Forest → Result (Option Ptr)
  add_at parent self none f = returned none f
  add_at parent self (some i) f =
      after (new_node (some parent) self f) λ p g. put_child parent i p (g.node parent) g

  abbrev pub add_below : Ptr → Ptr → Option TreeNode → Forest → Result (Option Ptr)
  add_below parent self none f = crashed
  add_below parent self (some t) f = add_at parent self (first_null t.children) f

  -- `tree_add`; a full parent takes no child.
  unfoldable pub tree_add : Option Ptr → Ptr → Forest → Result (Option Ptr)
  unfolding new_node first_null set_child
  tree_add (some parent) self f = add_below parent self (f.node parent) f
  tree_add none self f = elim f.root [
    | none ↦
        after (new_node none self f) λ p g. returned (some p) (counted (record g { root = some p }))
    | some r ↦ crashed
  ]

-- The first result that is not null, of a search in each of these.
unfoldable pub search_children :
    (Option Ptr → Forest → Result (Option Ptr)) → List (Option Ptr) → Forest → Result (Option Ptr)
search_children search [] f = returned none f
search_children search (x ∷ xs) f =
    after (search x f)
      λ found g. elim found [ none ↦ search_children search xs g | some p ↦ returned (some p) g ]

-- A search at a node that is not null; `search` is the call for a child.
unfoldable pub search_at :
    (Option Ptr → Forest → Result (Option Ptr))
    → (p self : Ptr) → Option TreeNode
    → Forest
    → Result (Option Ptr)
unfolding search_children
search_at search p self none f = crashed
search_at search p self (some t) f =
    if t.self == self then returned (some p) f else search_children search t.children f

-- `tree_search`: the fuel is the tree's depth at least.
unfoldable pub tree_search : ℕ → Option Ptr → Ptr → Forest → Result (Option Ptr)
unfolding search_at
tree_search fuel none self f = returned none f
tree_search zero (some p) self f = unfinished
tree_search (suc fuel) (some p) self f =
    search_at (λ x. tree_search fuel x self) p self (f.node p) f

-- `free(tree)` after the count went down; a second `free` of a node is a crash.
abbrev pub free_node : Ptr → Option TreeNode → Forest → Result (Unit {0})
free_node p none f = crashed
free_node p (some t) f =
    returned tt (record f { count = (f.count + 2 ^ 32 - 1) % 2 ^ 32; node = write f.node p none })

unfoldable pub destroy_children :
    (Ptr → Forest → Result (Unit {0})) → List (Option Ptr) → Forest → Result (Unit {0})
destroy_children destroy [] f = returned tt f
destroy_children destroy (none ∷ xs) f = destroy_children destroy xs f
destroy_children destroy (some p ∷ xs) f = after (destroy p f) λ _ g. destroy_children destroy xs g

-- `_destroy`; `root` is not reset.
unfoldable pub destroy_tree : ℕ → Ptr → Forest → Result (Unit {0})
unfolding destroy_children
destroy_tree zero p f = unfinished
destroy_tree (suc fuel) p f = elim (f.node p) [
  | none ↦ crashed
  | some t ↦
      after (destroy_children (destroy_tree fuel) t.children f) λ _ g. free_node p (g.node p) g
]

unfoldable pub tree_destroy : ℕ → Option Ptr → Forest → Result (Unit {0})
unfolding destroy_tree
tree_destroy fuel none f = returned tt f
tree_destroy fuel (some p) f = destroy_tree fuel p f
