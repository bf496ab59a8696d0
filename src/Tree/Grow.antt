-- ===== src/Tree/Grow.antt =====
-- How a tree of src/tree.c grows by `tree_add`.
use netemul.Base.{
  ℕ, suc, ◌+◌, ◌≤◌, ◌≡◌, refl, Bool, true, false, Option, none, some, List, [], arith, has,
  if◌then◌else◌, sym, ◌∙◌, Bool-cases, inl, inr, subst,
}
use netemul.Node.{Ptr}
use netemul.Env.{Env}
use netemul.World.Run.{write}
use netemul.Tree.{TreeNode, Forest, returned, tree_add, new_node, leaf, counted}
use netemul.Tree.Children.{nulls-packed, length-nulls}
use netemul.Tree.Add.{tree_add-refines}
use netemul.Tree.Shape.{
  IsForest, Vertex, vertex, kids_of, has_room, with_child, nulls-present, has-append,
}
use netemul.Tree.Search.{exists, Below, itself, deeper}
use netemul.Tree.Settled.{Settled, settled}

-- A node that is given is there.
abbrev pub Known : Forest → Option Ptr → Type 0
Known f none = Unit
Known f (some p) = exists (f.node p) ≡ true

-- All nodes are below this one.
abbrev pub AllBelow : Forest → Ptr → Type 0
AllBelow f r = (a : Ptr) → exists (f.node a) ≡ true → Below f r a

-- A forest has grown by so many nodes at most, and not at the side of a tree that it was.
pub record Grew (n : ℕ) (f g : Forest) : Type 0 where
  pub forest : IsForest g
  pub root : g.root ≡ f.root
  pub kept : (a : Ptr) → exists (f.node a) ≡ true → exists (g.node a) ≡ true
  pub more : g.next ≤ n + f.next
  pub below : (r : Ptr) → AllBelow f r → AllBelow g r

pub refl-Grew : (n : ℕ) (f : Forest) → IsForest f → Grew n f f
refl-Grew n f forest = record {
  forest = forest;
  root = refl;
  kept = λ a h. h;
  more = omega arith;
  below = λ r h. h;
}

pub Known-Grew : {n : ℕ} {f g : Forest} → Grew n f g → (p : Option Ptr) → Known f p → Known g p
Known-Grew grew none known = tt
Known-Grew grew (some p) known = grew.kept p known

pub trans-Grew : {m n k : ℕ} {f g h : Forest} → m + n ≤ k → Grew m f g → Grew n g h → Grew k f h
trans-Grew le a b = record {
  forest = b.forest;
  root = b.root ∙ a.root;
  kept = λ p x. b.kept p (a.kept p x);
  more = omega (arith, a.more, b.more, le);
  below = λ r h. b.below r (a.below r h);
}

lower-Below :
    {f : Forest} {p q r : Ptr} → Below f p q → has r (kids_of (f.node q)) ≡ true → Below f p r
lower-Below itself k = deeper k itself
lower-Below (deeper h b) k = deeper h (lower-Below b k)

widen-Below :
    {f g : Forest}
    → ((p q : Ptr) → has q (kids_of (f.node p)) ≡ true → has q (kids_of (g.node p)) ≡ true)
    → {p r : Ptr} → Below f p r
    → Below g p r
widen-Below more itself = itself
widen-Below more (deeper h b) = deeper (more _ _ h) (widen-Below more b)

abbrev seen : Option Vertex → Bool
seen none = false
seen (some v) = true

exists-vertex : (o : Option TreeNode) → exists o ≡ seen (vertex o)
exists-vertex none = refl
exists-vertex (some t) = refl

abbrev kids_seen : Option Vertex → List Ptr
kids_seen none = []
kids_seen (some v) = v.kids

kids-vertex : (o : Option TreeNode) → kids_of o ≡ kids_seen (vertex o)
kids-vertex none = refl
kids-vertex (some t) = refl

module _ (f : Forest) (forest : IsForest f) (parent self : Ptr) (room : Bool) (g : Forest) (r : Ptr)
    (there : exists (f.node parent) ≡ true)
    (same : (a : Ptr)
      → vertex (g.node a) ≡ (
          if room
          then with_child (λ b. vertex (f.node b)) f.next parent self a
          else vertex (f.node a)))
    (all : AllBelow f r) where
  more_kids : (p q : Ptr) → has q (kids_of (f.node p)) ≡ true → has q (kids_of (g.node p)) ≡ true
  more_kids p q h = ground (
    arith,
    same p,
    kids-vertex (f.node p),
    kids-vertex (g.node p),
    has-append q f.next (kids_of (f.node p)),
    forest.fresh f.next,
    h,
  )

  new_kid : room ≡ true → has f.next (kids_of (g.node parent)) ≡ true
  new_kid y = ground (
    arith,
    same parent,
    kids-vertex (g.node parent),
    exists-vertex (f.node parent),
    has-append f.next f.next (kids_of (f.node parent)),
    there,
    y,
  )

  fresh_node :
      (a : Ptr)
      → exists (g.node a) ≡ true
      → exists (f.node a) ≡ false
      → (room ≡ true) × (a ≡ f.next)
  fresh_node a h new = (
    ground (arith, same a, exists-vertex (f.node a), exists-vertex (g.node a), there, h, new),
    ground (arith, same a, exists-vertex (f.node a), exists-vertex (g.node a), there, h, new),
  )

  all_below : AllBelow g r
  all_below a h = elim (Bool-cases (exists (f.node a))) [
    | inl old ↦ widen-Below more_kids (all a old)
    | inr new ↦
        let (y, is) = fresh_node a h new in
        subst (λ x. Below g r x) (sym is)
          (lower-Below (widen-Below more_kids (all parent there)) (new_kid y))
  ]

pub node_at : (o : Option TreeNode) → exists o ≡ true → (t : TreeNode) × (o ≡ some t)
node_at none h = absurd (ground (arith, h))
node_at (some t) h = (t, refl)

known_if :
    (b : Bool) (p : Ptr) (g : Forest)
    → (b ≡ true → exists (g.node p) ≡ true)
    → Known g (if b then some p else none)
known_if true p g h = h refl
known_if false p g h = tt

module _ (e : Env) (memory : (a : Ptr) → e.malloc_ok a ≡ true) (f : Forest)
    (forest : IsForest f) where
  -- A node is added, or not, and the call returns.
  abbrev pub Added : Ptr → Ptr → Type 0
  Added parent self =
      (p : Option Ptr) × (g : Forest) × (tree_add e (some parent) self f ≡ returned p g)
      × Grew 1 f g
      × Known g p

  pub tree_add-Added : (parent self : Ptr) → exists (f.node parent) ≡ true → Added parent self
  tree_add-Added parent self there = go (node_at (f.node parent) there)
    where
      go : (t : TreeNode) × (f.node parent ≡ some t) → Added parent self
      go (t, at) =
          let (g, eq, (forest', same, root, count, next)) =
            tree_add-refines e memory f forest parent self t at in
          (
            if has_room t then some f.next else none,
            g,
            eq,
            record {
              forest = forest';
              root = root;
              kept = λ a h.
                  ground (arith, same a, exists-vertex (f.node a), exists-vertex (g.node a), h);
              more = ground (arith, next);
              below = λ r h. all_below f forest parent self (has_room t) g r there same h;
            },
            known_if (has_room t) f.next g λ y.
                ground
                  (arith, same f.next, exists-vertex (g.node f.next), forest.fresh f.next, at, y),
          )

  pub tree_add-Grew :
      (parent self : Ptr)
      → exists (f.node parent) ≡ true
      → Settled (λ p g. Grew 1 f g × Known g p) (tree_add e (some parent) self f)
  tree_add-Grew parent self there =
      let (p, g, eq, grew, known) = tree_add-Added parent self there in
      rw eq (settled (grew, known))

  -- The forest with a root
  abbrev pub rooted : Ptr → Forest
  rooted self = counted (record f {
    node = write f.node f.next (some (leaf none self));
    root = some f.next;
    next = suc f.next;
  })

  pub rooted-IsForest : (self : Ptr) → IsForest (rooted self)
  rooted-IsForest self = record {
    fresh = λ p n. ground (arith, forest.fresh p);
    front = λ p. ground (arith, forest.front p, nulls-packed 64);
    size = λ p. ground (arith, forest.size p, length-nulls 64);
    belongs = λ p q h. ground (arith, forest.belongs p q, nulls-present 64, forest.fresh f.next, h);
    younger = λ p q h. ground (arith, forest.younger p q, nulls-present 64, h);
    once = λ p. ground (arith, forest.once p, nulls-present 64);
  }

  pub tree_add-root :
      (self : Ptr) → f.root ≡ none → tree_add e f.root self f ≡ returned (some f.next) (rooted self)
  unfolding tree_add new_node
  tree_add-root self h = rw h (rw (memory f.next) refl)
