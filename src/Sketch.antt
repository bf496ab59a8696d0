-- ===== src/Sketch.antt =====
-- `sketch` of src/sketch.c: the nodes of a tree are drawn on a canvas, a node left of its children,
-- and each leaf on a row of its own.
pub mod Rows
use netemul.Base.{
  ℕ, zero, suc, ◌+◌, ◌-◌, Bool, true, false, ◌&&◌, Option, none, some, List, [], ◌∷◌, if◌then◌else◌,
  ◌==◌, ltb, get_elem?,
}
use netemul.Node.{Ptr}
use netemul.Tree.{TreeNode, Forest}

pub record Pixel : Type 0 where
  pub node : Option Ptr
  pub existed : Bool
  pub children : ℕ
  pub pipe : ℕ

-- The pixels by row and column
abbrev pub Canvas : Type 0
Canvas = ℕ → ℕ → Pixel

abbrev pub rows : ℕ
rows = 28

abbrev pub columns : ℕ
columns = 28

-- What `memset` leaves.
abbrev pub blank : Canvas
blank row column = record { node = none; existed = false; children = 0; pipe = 0 }

-- A drawing returns the rows it took, reads or writes out of bounds, or has too little fuel.
pub data Drawing : Type 0 where
  drawn : ℕ → Canvas → Drawing
  crashed : Drawing
  unfinished : Drawing

abbrev pub behind : Drawing → (ℕ → Canvas → Drawing) → Drawing
behind (drawn n c) k = k n c
behind crashed k = crashed
behind unfinished k = unfinished

abbrev pub put : Canvas → ℕ → ℕ → Pixel → Canvas
put c row column x i j = if (i == row) && (j == column) then x else c i j

-- `children[i]->self`, and `children[count - 1]`, with a fault for what is not there.
abbrev pub self_at : Forest → Option (Option Ptr) → Option Ptr
self_at f (some (some q)) = elim (f.node q) [ none ↦ none | some t ↦ some t.self ]
self_at f (some none) = none
self_at f none = none

abbrev pub last_index : ℕ → Option ℕ
last_index zero = none
last_index (suc n) = some n

abbrev pub last_child : TreeNode → Option (Option Ptr)
last_child t = elim (last_index t.count) [ none ↦ none | some i ↦ get_elem? t.children i ]

-- The kind of the line to a child, by the last and the first child of its parent.
abbrev pub pipe_between : Ptr → Option Ptr → Option Ptr → Option ℕ
pipe_between self none first = none
pipe_between self (some l) none = if self == l then some 2 else none
pipe_between self (some l) (some a) =
    if self == l then some 2 else if self == a then some 0 else some 3

-- `pipe` of a node, by its parent; it stays where that is null.
abbrev pub pipe_of : Forest → Ptr → ℕ → Option TreeNode → Option ℕ
pipe_of f self old none = none
pipe_of f self old (some p) =
    if p.count == 1
    then some 1
    else pipe_between self (self_at f (last_child p)) (self_at f (get_elem? p.children 0))

abbrev pub pipe_below : Forest → Ptr → ℕ → Option Ptr → Option ℕ
pipe_below f self old none = some old
pipe_below f self old (some p) = pipe_of f self old (f.node p)

-- The loop over the children: `total` rows are taken, and `first` is true before any child. Behind
-- 64 children the array is read past its end.
unfoldable pub sketch_children :
    (Ptr → ℕ → Canvas → Drawing)
    → (total : ℕ) → (first : Bool) → List (Option Ptr)
    → Canvas
    → Drawing
sketch_children draw total first [] c = crashed
sketch_children draw total first (none ∷ xs) c = drawn (if first then total + 1 else total) c
sketch_children draw total first (some q ∷ xs) c =
    behind (draw q total c) λ n d. sketch_children draw (total + n) false xs d

-- A node is drawn with the line to it, and then its children; `draw` is the call for a child.
unfoldable pub sketch_pixel :
    (Ptr → ℕ → Canvas → Drawing) → (level sequence : ℕ) → TreeNode → Canvas → Option ℕ → Drawing
unfolding sketch_children
sketch_pixel draw level sequence t c none = crashed
sketch_pixel draw level sequence t c (some pipe) = sketch_children draw 0 true t.children (
    put c sequence level
      (record { node = some t.self; existed = true; children = t.count; pipe = pipe }))

unfoldable pub sketch_at :
    Forest
    → (Ptr → ℕ → Canvas → Drawing)
    → (level sequence : ℕ) → Option TreeNode
    → Canvas
    → Drawing
unfolding sketch_pixel
sketch_at f draw level sequence none c = crashed
sketch_at f draw level sequence (some t) c =
    if ltb sequence rows && ltb level columns
    then sketch_pixel draw level sequence t c (pipe_below f t.self (c sequence level).pipe t.parent)
    else crashed

-- `_sketch`
unfoldable pub sketch_node : Forest → ℕ → Ptr → (level sequence : ℕ) → Canvas → Drawing
unfolding sketch_at
sketch_node f zero p level sequence c = unfinished
sketch_node f (suc fuel) p level sequence c =
    sketch_at f (λ q total. sketch_node f fuel q (level + 1) (sequence + total)) level sequence
      (f.node p) c

-- `sketch`: a null pointer is read.
unfoldable pub sketch : Forest → ℕ → Option Ptr → (level sequence : ℕ) → Drawing
unfolding sketch_node
sketch f fuel none level sequence = crashed
sketch f fuel (some p) level sequence = sketch_node f fuel p level sequence blank
