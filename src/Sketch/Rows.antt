-- ===== src/Sketch/Rows.antt =====
-- Where `sketch` of src/sketch.c draws the nodes of a tree.
use netemul.Base.{
  ℕ, zero, suc, ◌+◌, ◌≤◌, ◌≡◌, refl, Bool, true, false, ◌&&◌, ◌||◌, Option, none, some, List, [],
  ◌∷◌, arith, has, ltb, leb, if◌then◌else◌, ap, ◌∙◌, Bool-cases, inl, inr,
}
use netemul.Node.{Ptr}
use netemul.Tree.{TreeNode, Forest}
use netemul.Tree.Children.{present}
use netemul.Tree.Shape.{IsForest, kids_of}
use netemul.Tree.Search.{exists, known_parent}
use netemul.Sketch.{
  Pixel, Canvas, Drawing, drawn, crashed, unfinished, sketch_pixel, behind, put, rows, columns,
  pipe_below, sketch_children, sketch_at, sketch_node,
}

-- Is a pixel outside some rows, or left of a column?
abbrev pub outside : (from count column : ℕ) → (i j : ℕ) → Bool
outside from count column i j = ltb i from || leb (from + count) i || ltb j column

-- A drawing takes so many rows, and leaves all else as it was.
abbrev pub Within : Canvas → (from column : ℕ) → ℕ → Canvas → Type 0
Within c from column n d = (1 ≤ n) × ((i j : ℕ) → outside from n column i j ≡ true → d i j ≡ c i j)

-- A drawing runs out of bounds, or stays within the rows that it returns.
pub data Drawn (Q : ℕ → Canvas → Type 0) : Drawing → Type 0 where
  overrun : Drawn Q crashed
  done : {n : ℕ} {d : Canvas} → Q n d → Drawn Q (drawn n d)

abbrev some_rows : Bool → ℕ → ℕ
some_rows first total = if first then 1 else total

widen :
    (c d : Canvas) (from column total m : ℕ)
    → ((i j : ℕ) → outside (from + total) m column i j ≡ true → d i j ≡ c i j)
    → {r : Drawing} → Drawn (λ n e. (total + m ≤ n) × Within d from column n e) r
    → Drawn (λ n e. (total ≤ n) × Within c from column n e) r
widen c d from column total m same overrun = overrun
widen c d from column total m same (done (more, (at_least, kept))) =
    done (omega (arith, more), (at_least, λ i j h. kept i j h ∙ same i j (ground (arith, h, more))))

module _ (draw : Ptr → ℕ → Canvas → Drawing) (from column : ℕ) where
  children-Drawn :
      (xs : List (Option Ptr)) (total : ℕ) (first : Bool) (c : Canvas)
      → 1 ≤ some_rows first total
      → ((q total : ℕ) (d : Canvas)
          → has q (present xs) ≡ true
          → Drawn (Within d (from + total) column) (draw q total d))
      → Drawn
          (λ n d. (total ≤ n) × Within c from column n d)
          (sketch_children draw total first xs c)
  unfolding sketch_children
  children-Drawn [] total first c any each = overrun
  children-Drawn (none ∷ xs) total true c any each =
      done (omega arith, (omega arith, λ i j h. refl))
  children-Drawn (none ∷ xs) total false c any each = done (omega arith, (any, λ i j h. refl))
  children-Drawn (some q ∷ xs) total first c any each =
      go
        (λ m d h.
          children-Drawn xs (total + m) false d (omega (arith, h))
            λ r k e h. each r k e (ground (arith, h)))
        (draw q total c) (each q total c (ground arith))
    where
      go :
          ((m : ℕ) (d : Canvas)
            → 1 ≤ m
            → Drawn
                (λ n e. (total + m ≤ n) × Within d from column n e)
                (sketch_children draw (total + m) false xs d))
          → (r : Drawing) → Drawn (Within c (from + total) column) r
          → Drawn
              (λ n d. (total ≤ n) × Within c from column n d)
              (behind r λ m d. sketch_children draw (total + m) false xs d)
      go rest unfinished d = elim d [ ]
      go rest crashed overrun = overrun
      go rest (drawn m d) (done (some_row, same)) =
          widen c d from column total m same (rest m d some_row)

abbrev self_of : Pixel → Option Ptr
self_of x = x.node

-- The node's own pixel is left of those of its children.
abbrev pub Sketched : Option TreeNode → Canvas → (from column : ℕ) → ℕ → Canvas → Type 0
Sketched o c from column n d =
    Within c from column n d × (((t : TreeNode) → o ≡ some t → (d from column).node ≡ some t.self))

module _ (f : Forest) (forest : IsForest f) where
  own :
      (t : TreeNode) (c : Canvas) (from column : ℕ) (x : Pixel)
      → x.node ≡ some t.self
      → {r : Drawing}
      → Drawn (λ n d. (0 ≤ n) × Within (put c from column x) from (column + 1) n d) r
      → Drawn (Sketched (some t) c from column) r
  own t c from column x is overrun = overrun
  own t c from column x is (done {n = n} {d = d} (_, (some_row, same))) = done (
    (some_row, λ i j h. same i j (ground (arith, h)) ∙ ground (arith, h, some_row)),
    λ s eq. ap self_of (same from column (ground arith)) ∙ ground (arith, is, eq),
  )

  module _ (draw : Ptr → ℕ → Canvas → Drawing) (level sequence : ℕ) (c : Canvas) where
    pixel-Drawn :
        (t : TreeNode)
        → ((q total : ℕ) (d : Canvas)
            → has q (present t.children) ≡ true
            → Drawn (Within d (sequence + total) (level + 1)) (draw q total d))
        → (pipe : Option ℕ)
        → Drawn (Sketched (some t) c sequence level) (sketch_pixel draw level sequence t c pipe)
    unfolding sketch_pixel
    pixel-Drawn t each none = overrun
    pixel-Drawn t each (some pipe) =
        own t c sequence level
          (record { node = some t.self; existed = true; children = t.count; pipe = pipe }) refl
          (children-Drawn draw sequence (level + 1) t.children 0 true _ (omega arith) each)

    at-Drawn :
        (o : Option TreeNode)
        → ((q total : ℕ) (d : Canvas)
            → has q (kids_of o) ≡ true
            → Drawn (Within d (sequence + total) (level + 1)) (draw q total d))
        → Drawn (Sketched o c sequence level) (sketch_at f draw level sequence o c)
    unfolding sketch_at
    at-Drawn none each = overrun
    at-Drawn (some t) each = elim (Bool-cases (ltb sequence rows && ltb level columns)) [
      | inl y ↦ rw y (pixel-Drawn t each (pipe_below f t.self (c sequence level).pipe t.parent))
      | inr n ↦ rw n overrun
    ]

  strip :
      {o : Option TreeNode} {c : Canvas} {from column : ℕ} {r : Drawing}
      → Drawn (Sketched o c from column) r
      → Drawn (Within c from column) r
  strip overrun = overrun
  strip (done (within, _)) = done within

  -- Drawing a node of a forest comes to an end, with as much fuel as there are addresses in use. It
  -- runs out of the canvas or of an array; or it draws the node at its row and column, returns a
  -- number of rows that is not zero, and leaves every pixel outside these rows, and left of the
  -- node, as it was.
  pub sketch_node-Drawn :
      (fuel p level sequence : ℕ) (c : Canvas)
      → f.next ≤ p + fuel
      → exists (f.node p) ≡ true
      → Drawn (Sketched (f.node p) c sequence level) (sketch_node f fuel p level sequence c)
  unfolding sketch_node
  sketch_node-Drawn zero p level sequence c enough there =
      absurd (ground (arith, forest.fresh p (omega (arith, enough)), there))
  sketch_node-Drawn (suc fuel) p level sequence c enough there =
      let ih = sketch_node-Drawn fuel in
      at-Drawn (λ q total. sketch_node f fuel q (level + 1) (sequence + total)) level sequence c
        (f.node p)
        λ q total d h. strip (
          ih q (level + 1) (sequence + total) d (omega (arith, enough, forest.younger p q h))
            (known_parent (f.node q) p (forest.belongs p q h)))
