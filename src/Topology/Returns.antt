-- ===== src/Topology/Returns.antt =====
-- When the links of a network can be followed without a read through a bad pointer, by `check_node`
-- of src/command.c and src/rpc_manager.c.
use netemul.Base.{
  ℕ, zero, suc, ◌<◌, ◌≡◌, refl, Bool, true, false, Option, none, some, List, arith, length,
}
use netemul.Node.{Ptr, Name}
use netemul.Env.{Env}
use netemul.Env.Laws.{ListLaws}
use netemul.World.{World, Composite}
use netemul.Manager.{get_node}
use netemul.Listing.{Hit, missing, broken, hit}
use netemul.Topology.Follow.{
  Shorter, Follows, Grown, check_link-Shorter, check_port-Grown, check_node-Grown,
}
use netemul.Tree.{Forest, Result, returned, crashed, unfinished, after}
use netemul.Tree.Shape.{IsForest}
use netemul.Tree.Settled.{Settled, settled}
use netemul.Tree.Grow.{Known, Known-Grew, tree_add-Added}
use netemul.Topology.{check_link_at, check_port, check_ports, check_node, value_of}
use netemul.Topology.Named.{Links, Good, Named, check_link-Good}

module _ (e : Env) (lists : ListLaws e) (memory : (a : Ptr) → e.malloc_ok a ≡ true) (w : World)
    (named : (q : Ptr) (b : Composite) → w.composite q ≡ some b → Named e w b) where
  -- A call does not crash; the links that are left can be followed.
  abbrev Fine : Result (List Ptr) → Type 0
  Fine (returned left g) = Links e w left
  Fine crashed = ⊥
  Fine unfinished = Unit

  abbrev FineStep : Result (Bool × List Ptr) → Type 0
  FineStep (returned (b, left) g) = Links e w left
  FineStep crashed = ⊥
  FineStep unfinished = Unit

  after-Fine :
      {P : Bool × List Ptr → Forest → Type 0}
      → (k : Bool × List Ptr → Forest → Result (List Ptr)) → (r : Result (Bool × List Ptr))
      → Settled P r
      → FineStep r
      → ((b : Bool) (left : List Ptr) (g : Forest)
          → P (b, left) g
          → Links e w left
          → Fine (k (b, left) g))
      → Fine (after r k)
  after-Fine k crashed s fine each = fine
  after-Fine k unfinished s fine each = tt
  after-Fine k (returned (b, left) g) (settled p) fine each = each b left g p fine

  step-Fine :
      (r : Result (List Ptr)) → Fine r → FineStep (after r λ left g. returned (true, left) g)
  step-Fine (returned left g) h = h
  step-Fine crashed h = h
  step-Fine unfinished h = tt

  module _ (check : Ptr → List Ptr → Option Ptr → Forest → Result (List Ptr)) where
    abbrev Fines : List Ptr → Type 0
    Fines links =
        (q : Ptr) (b : Composite) (ls : List Ptr) (parent : Option Ptr) (f : Forest)
        → w.composite q ≡ some b
        → length ls < length links
        → IsForest f
        → Known f parent
        → Links e w ls
        → Fine (check q ls parent f)

    check_port-Fine :
        (links : List Ptr)
        → Fines links
        → (parent : Option Ptr) (r : Hit (Name × List Ptr)) (f : Forest) → Shorter links r
        → Good e w r
        → Links e w links
        → IsForest f
        → Known f parent
        → FineStep (check_port e w check links parent r f)
    unfolding check_port
    check_port-Fine links each parent missing f less good h forest known = h
    check_port-Fine links each parent broken f less good h forest known = good
    check_port-Fine links each none (hit (name, ls)) f less (leads, h') h forest known = h'
    check_port-Fine links each (some p) (hit (name, ls)) f less ((q, b, found, at), h') h forest
          known =
        let (tree, g, eq, grew, known') = tree_add-Added e memory f forest p q known in
        step-Fine _
          (rw found (rw eq (each q b ls tree g at (omega (arith, less)) grew.forest known' h')))

    more-Fine :
        (name : Name) (n : ℕ) (parent : Option Ptr) (b : Bool) (left : List Ptr) (g : Forest)
        → Links e w left
        → Fine (check_ports e w check name n left parent g)
        → Fine
            (elim b [ true ↦ check_ports e w check name n left parent g | false ↦ returned left g ])
    more-Fine name n parent false left g h rest = h
    more-Fine name n parent true left g h rest = rest

    check_ports-Fine :
        (box : Composite) (n : ℕ) (links : List Ptr) (parent : Option Ptr) (f : Forest)
        → Named e w box
        → Follows e lists memory w check links
        → Fines links
        → Links e w links
        → IsForest f
        → Known f parent
        → Fine (check_ports e w check box.name n links parent f)
    unfolding check_ports
    check_ports-Fine box zero links parent f named' settles each h forest known = h
    check_ports-Fine box (suc n) links parent f named' settles each h forest known =
        let ih = check_ports-Fine box n in
        let node = value_of (get_node e box.name w) in
        after-Fine
          (λ (goes_on, left) g. elim goes_on [
            | true ↦ check_ports e w check box.name n left parent g
            | false ↦ returned left g
          ])
          _
          (check_port-Grown e lists memory w check links settles parent
            (check_link_at e w node links) f (check_link-Shorter e lists memory w node links) forest
            known)
          (check_port-Fine links each parent (check_link_at e w node links) f
            (check_link-Shorter e lists memory w node links)
            (check_link-Good e w lists memory named box links named' h) h forest known)
          λ b left g (le, grew) h'. more-Fine box.name n parent b left g h' (
            ih left parent g named' (λ q ls p u less. settles q ls p u (omega (arith, less, le)))
              (λ q c ls p u at less. each q c ls p u at (omega (arith, less, le))) h' grew.forest
              (Known-Grew grew parent known))

  check_node-Fine :
      (fuel : ℕ) (q : Ptr) (b : Composite) (links : List Ptr) (parent : Option Ptr) (f : Forest)
      → w.composite q ≡ some b
      → length links < fuel
      → IsForest f
      → Known f parent
      → Links e w links
      → Fine (check_node e w fuel q links parent f)
  unfolding check_node
  check_node-Fine zero q b links parent f at enough forest known h = tt
  check_node-Fine (suc fuel) q b links parent f at enough forest known h =
      let ih = check_node-Fine fuel in
      rw at (
        check_ports-Fine (check_node e w fuel) b b.node_count links parent f (named q b at)
          (λ p ls u g less.
            check_node-Grown e lists memory w fuel p ls u g (omega (arith, less, enough)))
          (λ p c ls u g there less. ih p c ls u g there (omega (arith, less, enough))) h forest
          known)

  -- The call returns, with links that can be followed, and the tree has grown.
  abbrev pub Returned : List Ptr → Forest → Result (List Ptr) → Type 0
  Returned links f r =
      (left : List Ptr) × (g : Forest) × (r ≡ returned left g)
      × Links e w left
      × Grown links f left g

  settle :
      (links : List Ptr) (f : Forest) (r : Result (List Ptr))
      → Settled (Grown links f) r
      → Fine r
      → Returned links f r
  settle links f crashed s fine = absurd fine
  settle links f unfinished s fine = elim s [ ]
  settle links f (returned left g) (settled grown) fine = (left, g, refl, fine, grown)

  -- Following the links from a composite returns, with more fuel than there are links, if there is
  -- memory, every composite is found by its name and has ports whose names fit, and the links that are
  -- given have cables only that lead, by names that fit, to composites: no pointer is read that is
  -- bad. The tree is well formed behind it, has all its nodes, and has grown by a node at most for each
  -- link that was taken.
  pub check_node-Returned :
      (q : Ptr) (b : Composite) (links : List Ptr) (parent : Option Ptr) (f : Forest)
      → w.composite q ≡ some b
      → IsForest f
      → Known f parent
      → Links e w links
      → Returned links f (check_node e w (suc (length links)) q links parent f)
  check_node-Returned q b links parent f at forest known h =
      settle links f _
        (check_node-Grown e lists memory w (suc (length links)) q links parent f (omega arith)
          forest known)
        (check_node-Fine (suc (length links)) q b links parent f at (omega arith) forest known h)
