-- ===== src/Topology.antt =====
-- What the command `tree` of src/command.c and `tree_handler` of src/rpc_manager.c do: the links of
-- the network are followed from a node, and the tree of the nodes that are met is drawn. The network
-- is read only. The text of the drawing, `sketch_render`, is left out: the canvas stands for it.
pub mod Show
pub mod Follow
pub mod Clears
pub mod Named
pub mod Returns
use netemul.Base.{
  ℕ, zero, suc, ◌+◌, Bool, true, false, Option, none, some, List, [], ◌∷◌, if◌then◌else◌, length,
  ltb, ◌==◌, same,
}
use netemul.Node.{NodeType, Ptr, Name, max_name_len, max_node_count, same_type}
use netemul.Env.{Env, NameMap}
use netemul.World.{World, Component, Composite}
use netemul.World.Run.{Run, ok, fault, out_of_fuel, exited, children}
use netemul.Component.Wiring.{input_of, output_of}
use netemul.Manager.{NodeRef, component, composite, port_name, fits_name, tokens, get_node}
use netemul.Tree.{
  Forest, Result, returned, crashed, unfinished, after, tree_init, tree_get_root, tree_add,
  tree_destroy,
}
use netemul.Listing.{Hit, missing, broken, hit, collect}
use netemul.Sketch.{Canvas, Drawing, drawn, sketch}

abbrev pub or_else : {A : Type 0} → Hit A → Hit A → Hit A
or_else missing r = r
or_else broken r = broken
or_else (hit a) r = hit a

-- The value that a read of the network gives.
abbrev pub value_of : {A : Type 0} → Run A → Option A
value_of (ok a w) = some a
value_of fault = none
value_of out_of_fuel = none
value_of (exited n) = none

abbrev pub name_of : Option Component → Option Name
name_of none = none
name_of (some c) = some c.name

-- `strcpy` of a name into eight bytes
abbrev pub copied : Option Name → Hit Name
copied none = broken
copied (some n) = if fits_name n then hit n else broken

-- One round of the loop over the cables of a link: the name of a cable's input is compared.
abbrev pub match_cable : Name → Option Name → Option Name → Hit Name → Hit Name
match_cable temp none out rest = broken
match_cable temp (some n) out rest = if same temp n then copied out else rest

abbrev pub removed : List Ptr → Option (List Ptr) → List Ptr
removed links none = links
removed links (some ls) = ls

module _ (e : Env) (w : World) where
  -- `p->name`
  abbrev pub end_name : Option Ptr → Option Name
  end_name none = none
  end_name (some p) = name_of (w.component p)

  abbrev pub input_name : Option Ptr → Option Name
  input_name none = none
  input_name (some c) = end_name (input_of (w.component c))

  abbrev pub output_name : Option Ptr → Option Name
  output_name none = none
  output_name (some c) = end_name (output_of (w.component c))

  unfoldable pub find_cable : Name → List (Option Ptr) → Hit Name
  find_cable temp [] = missing
  find_cable temp (c ∷ cs) = match_cable temp (input_name c) (output_name c) (find_cable temp cs)

  abbrev pub find_in : Name → Option (List (Option Ptr)) → Hit Name
  find_in temp none = broken
  find_in temp (some cables) = find_cable temp cables

  -- The loop over the ports of a composite, from a number on: its name is printed into eight bytes.
  unfoldable pub find_port : Name → (i n : ℕ) → Option (List (Option Ptr)) → Hit Name
  unfolding find_cable
  find_port name i zero cables = missing
  find_port name i (suc n) cables =
      or_else (if fits_name (port_name name i) then find_in (port_name name i) cables else broken)
        (find_port name (i + 1) n cables)

  abbrev pub with_link : Ptr → Hit Name → Hit (Ptr × Name)
  with_link l missing = missing
  with_link l broken = broken
  with_link l (hit n) = hit (l, n)

  -- The loop over the links
  unfoldable pub find_link : Composite → List Ptr → Hit (Ptr × Name)
  unfolding find_port
  find_link b [] = missing
  find_link b (l ∷ ls) =
      or_else (with_link l (find_port b.name 0 b.node_count (value_of (children l w))))
        (find_link b ls)

  -- The link is taken from the list; the name is that of the port behind it.
  abbrev pub take_link : List Ptr → Hit (Ptr × Name) → Hit (Name × List Ptr)
  take_link links missing = missing
  take_link links broken = broken
  take_link links (hit (l, n)) = hit (n, removed links (e.list_remove_data links l))

  abbrev pub link_of : List Ptr → Option Composite → Hit (Name × List Ptr)
  link_of links none = broken
  link_of links (some b) = take_link links (find_link b links)

  -- `check_link`; its result is the parent, whatever it finds.
  unfoldable pub check_link : Option NodeRef → List Ptr → Hit (Name × List Ptr)
  unfolding find_link
  check_link none links = broken
  check_link (some (component p)) links = missing
  check_link (some (composite p)) links = link_of links (w.composite p)

  abbrev pub check_link_at : Option (Option NodeRef) → List Ptr → Hit (Name × List Ptr)
  check_link_at none links = broken
  check_link_at (some node) links = check_link node links

  -- The node behind a link is put into the tree, and looked at in its turn by `check`. A null pointer
  -- and a component are read as a composite.
  abbrev pub follow_node :
      (Ptr → List Ptr → Option Ptr → Forest → Result (List Ptr))
      → Ptr
      → List Ptr
      → Option (Option NodeRef)
      → Forest
      → Result (List Ptr)
  follow_node check parent links none f = crashed
  follow_node check parent links (some none) f = crashed
  follow_node check parent links (some (some (component q))) f = crashed
  follow_node check parent links (some (some (composite q))) f =
      after (tree_add e (some parent) q f) λ tree g. check q links tree g

  -- What a port of `check_node` does: whether its loop goes on, and the links that are left.
  unfoldable pub check_port :
      (Ptr → List Ptr → Option Ptr → Forest → Result (List Ptr))
      → List Ptr
      → Option Ptr
      → Hit (Name × List Ptr)
      → Forest
      → Result (Bool × List Ptr)
  unfolding get_node tree_add
  check_port check links parent missing f = returned (false, links) f
  check_port check links parent broken f = crashed
  check_port check links none (hit (name, ls)) f = returned (false, ls) f
  check_port check links (some p) (hit (name, ls)) f =
      after (follow_node check p ls (value_of (get_node e (tokens name).0 w)) f)
        λ left g. returned (true, left) g

  unfoldable pub check_ports :
      (Ptr → List Ptr → Option Ptr → Forest → Result (List Ptr))
      → Name
      → ℕ
      → List Ptr
      → Option Ptr
      → Forest
      → Result (List Ptr)
  unfolding check_port check_link get_node
  check_ports check name zero links parent f = returned links f
  check_ports check name (suc n) links parent f =
      after (check_port check links parent (check_link_at (value_of (get_node e name w)) links) f)
        λ (goes_on, left) g. elim goes_on [
          | true ↦ check_ports check name n left parent g
          | false ↦ returned left g
        ]

  abbrev pub check_composite :
      (Ptr → List Ptr → Option Ptr → Forest → Result (List Ptr))
      → List Ptr
      → Option Ptr
      → Option Composite
      → Forest
      → Result (List Ptr)
  check_composite check links parent none f = crashed
  check_composite check links parent (some b) f =
      check_ports check b.name b.node_count links parent f

  -- `check_node`
  unfoldable pub check_node : ℕ → Ptr → List Ptr → Option Ptr → Forest → Result (List Ptr)
  unfolding check_ports
  check_node zero node links parent f = unfinished
  check_node (suc fuel) node links parent f =
      check_composite (check_node fuel) links parent (w.composite node) f

  -- The drawing is shown, and the tree is freed.
  abbrev pub finish_tree : Drawing → Forest → Result Canvas
  finish_tree (drawn n c) f = after (tree_destroy f.next (tree_get_root f) f) λ _ g. returned c g
  finish_tree Drawing.crashed f = crashed
  finish_tree Drawing.unfinished f = unfinished

  -- The tree of a node is grown along the links and drawn. A component is read as a composite.
  unfoldable pub draw_tree : NodeRef → List Ptr → Forest → Result Canvas
  unfolding tree_add check_node sketch tree_destroy
  draw_tree (component p) links f = crashed
  draw_tree (composite p) links f = after (tree_add e (tree_get_root f) p f) λ this g.
      after (check_node (suc (length links)) p links this g)
        λ left h. finish_tree (sketch h h.next (tree_get_root h) 0 0) h
