-- ===== src/Topology/Follow.antt =====
-- How the tree of src/command.c and src/rpc_manager.c grows when the links are followed.
use netemul.Base.{
  ℕ, zero, suc, ◌+◌, ◌-◌, ◌<◌, ◌≤◌, ◌≡◌, Bool, true, false, Option, none, some, List, [], ◌∷◌,
  arith, length, has,
}
use netemul.Node.{Ptr, Name}
use netemul.Env.{Env}
use netemul.Env.Laws.{ListLaws, erase}
use netemul.World.{World, Composite}
use netemul.World.Run.{children}
use netemul.Manager.{NodeRef, component, composite, get_node, tokens}
use netemul.Tree.{Forest, Result, returned}
use netemul.Tree.Shape.{IsForest}
use netemul.Tree.Search.{exists}
use netemul.Tree.Settled.{Settled, crash, settled, follow, weaken}
use netemul.Tree.Grow.{Known, Grew, refl-Grew, trans-Grew, Known-Grew, tree_add-Grew}
use netemul.Listing.{Hit, missing, broken, hit}
use netemul.Topology.{
  or_else, with_link, find_port, find_link, take_link, link_of, check_link, check_link_at,
  follow_node, check_port, check_ports, check_composite, check_node, value_of,
}

-- The links that are left are no more, and the forest has grown by a node at most for each that was
-- taken.
abbrev pub Grown : List Ptr → Forest → List Ptr → Forest → Type 0
Grown links f left g = (length left ≤ length links) × Grew (length links - length left) f g

length-erase : (x : ℕ) (xs : List ℕ) → has x xs ≡ true → length (erase x xs) + 1 ≡ length xs
length-erase x [] h = ground (arith, h)
length-erase x (y ∷ ys) h = ground (arith, h, length-erase x ys)

-- What a search takes is in a list.
abbrev pub Taken : List Ptr → Hit (Ptr × Name) → Type 0
Taken links missing = Unit
Taken links broken = Unit
Taken links (hit (l, n)) = has l links ≡ true

-- What is left when a link was taken
abbrev pub Shorter : List Ptr → Hit (Name × List Ptr) → Type 0
Shorter links missing = Unit
Shorter links broken = Unit
Shorter links (hit (n, left)) = length left + 1 ≤ length links

module _ (e : Env) (lists : ListLaws e) (memory : (a : Ptr) → e.malloc_ok a ≡ true)
    (w : World) where
  taken :
      (l : Ptr) (ls : List Ptr) (r : Hit Name) (rest : Hit (Ptr × Name))
      → Taken ls rest
      → Taken (l ∷ ls) (or_else (with_link e w l r) rest)
  taken l ls missing missing h = tt
  taken l ls missing broken h = tt
  taken l ls missing (hit (k, n)) h = ground (arith, h)
  taken l ls broken rest h = tt
  taken l ls (hit n) rest h = ground arith

  pub find_link-Taken : (b : Composite) (links : List Ptr) → Taken links (find_link e w b links)
  unfolding find_link
  find_link-Taken b [] = tt
  find_link-Taken b (l ∷ ls) =
      taken l ls (find_port e w b.name 0 b.node_count (value_of (children l w)))
        (find_link e w b ls) (find_link-Taken b ls)

  take_link-Shorter :
      (links : List Ptr) (r : Hit (Ptr × Name))
      → Taken links r
      → Shorter links (take_link e w links r)
  take_link-Shorter links missing h = tt
  take_link-Shorter links broken h = tt
  take_link-Shorter links (hit (l, n)) h =
      rw (lists.remove_lem links l) (rw h (omega (arith, length-erase l links h)))

  link_of-Shorter : (links : List Ptr) (o : Option Composite) → Shorter links (link_of e w links o)
  link_of-Shorter links none = tt
  link_of-Shorter links (some b) =
      take_link-Shorter links (find_link e w b links) (find_link-Taken b links)

  pub check_link-Shorter :
      (node : Option (Option NodeRef)) (links : List Ptr)
      → Shorter links (check_link_at e w node links)
  unfolding check_link
  check_link-Shorter none links = tt
  check_link-Shorter (some none) links = tt
  check_link-Shorter (some (some (component p))) links = tt
  check_link-Shorter (some (some (composite p))) links = link_of-Shorter links (w.composite p)

  -- What a call of `check_node` is to do.
  abbrev pub Follows :
      (Ptr → List Ptr → Option Ptr → Forest → Result (List Ptr)) → List Ptr → Type 0
  Follows check links =
      (q : Ptr) (ls : List Ptr) (parent : Option Ptr) (f : Forest)
      → length ls < length links
      → IsForest f
      → Known f parent
      → Settled (Grown ls f) (check q ls parent f)

  module _ (check : Ptr → List Ptr → Option Ptr → Forest → Result (List Ptr)) where
    pub follow_node-Grown :
        (links ls : List Ptr)
        → length ls < length links
        → Follows check links
        → (parent : Ptr) (node : Option (Option NodeRef)) (f : Forest) → IsForest f
        → exists (f.node parent) ≡ true
        → Settled (Grown links f) (follow_node e w check parent ls node f)
    follow_node-Grown links ls less each parent none f forest there = crash
    follow_node-Grown links ls less each parent (some none) f forest there = crash
    follow_node-Grown links ls less each parent (some (some (component q))) f forest there = crash
    follow_node-Grown links ls less each parent (some (some (composite q))) f forest there =
        follow (tree_add-Grew e memory f forest parent q there) λ tree g (grew, known).
          weaken (each q ls tree g less grew.forest known) λ left h (le, more).
            (omega (arith, le, less), trans-Grew (omega (arith, le, less)) grew more)

    pub check_port-Grown :
        (links : List Ptr)
        → Follows check links
        → (parent : Option Ptr) (r : Hit (Name × List Ptr)) (f : Forest) → Shorter links r
        → IsForest f
        → Known f parent
        → Settled (λ (_, left) g. Grown links f left g) (check_port e w check links parent r f)
    unfolding check_port
    check_port-Grown links each parent missing f less forest known =
        settled (omega arith, refl-Grew _ f forest)
    check_port-Grown links each parent broken f less forest known = crash
    check_port-Grown links each none (hit (name, ls)) f less forest known =
        settled (omega (arith, less), refl-Grew _ f forest)
    check_port-Grown links each (some p) (hit (name, ls)) f less forest known =
        follow
          (follow_node-Grown links ls (omega (arith, less)) each p
            (value_of (get_node e (tokens name).0 w)) f forest known)
          λ left g grown. settled grown

    more_ports :
        (name : Name) (n : ℕ) (links : List Ptr) (parent : Option Ptr) (f : Forest)
        → Known f parent
        → (b : Bool) (left : List Ptr) (g : Forest) → Grown links f left g
        → (IsForest g
            → Known g parent
            → Settled (Grown left g) (check_ports e w check name n left parent g))
        → Settled
            (Grown links f)
            (elim b [ true ↦ check_ports e w check name n left parent g | false ↦ returned left g ])
    more_ports name n links parent f known false left g grown rest = settled grown
    more_ports name n links parent f known true left g (le, grew) rest =
        weaken (rest grew.forest (Known-Grew grew parent known)) λ last h (le', grew').
          (omega (arith, le, le'), trans-Grew (omega (arith, le, le')) grew grew')

    pub check_ports-Grown :
        (name : Name) (n : ℕ) (links : List Ptr) (parent : Option Ptr) (f : Forest)
        → Follows check links
        → IsForest f
        → Known f parent
        → Settled (Grown links f) (check_ports e w check name n links parent f)
    unfolding check_ports
    check_ports-Grown name zero links parent f each forest known =
        settled (omega arith, refl-Grew _ f forest)
    check_ports-Grown name (suc n) links parent f each forest known =
        let ih = check_ports-Grown name n in
        let node = value_of (get_node e name w) in
        follow
          (check_port-Grown links each parent (check_link_at e w node links) f
            (check_link-Shorter node links) forest known)
          λ (b, left) g grown.
            more_ports name n links parent f known b left g grown λ forest' known'.
              ih left parent g (λ q ls p h less. each q ls p h (omega (arith, less, grown.0)))
                forest' known'

    check_composite-Grown :
        (links : List Ptr) (parent : Option Ptr) (o : Option Composite) (f : Forest)
        → Follows check links
        → IsForest f
        → Known f parent
        → Settled (Grown links f) (check_composite e w check links parent o f)
    check_composite-Grown links parent none f each forest known = crash
    check_composite-Grown links parent (some b) f each forest known =
        check_ports-Grown b.name b.node_count links parent f each forest known

  -- From a forest, and a node of the tree that is there, or none, following the links never runs out
  -- of fuel, if there is more than there are links and if there is memory: it reads through a bad
  -- pointer, or returns the links that are left, no more than before. The forest is well formed, its
  -- root is as it was, its nodes are still there, and it has grown by a node at most for each link
  -- that was taken.
  pub check_node-Grown :
      (fuel : ℕ) (node : Ptr) (links : List Ptr) (parent : Option Ptr) (f : Forest)
      → length links < fuel
      → IsForest f
      → Known f parent
      → Settled (Grown links f) (check_node e w fuel node links parent f)
  unfolding check_node
  check_node-Grown zero node links parent f enough forest known = ground (arith, enough)
  check_node-Grown (suc fuel) node links parent f enough forest known =
      let ih = check_node-Grown fuel in
      check_composite-Grown (check_node e w fuel) links parent (w.composite node) f
        (λ q ls p g less. ih q ls p g (omega (arith, less, enough))) forest known
