-- ===== src/Tests/Drawing.antt =====
-- The commands `tree` and `list` at a hub that is linked with a host.
use netemul.Base.{
  Option, ◌≡◌, refl, true, none, some, List, [], ◌∷◌, arith, codes, ◌==◌, if◌then◌else◌, decimal,
  digits,
}
use netemul.Node.{Ptr, Name}
use netemul.World.{World, Component}
use netemul.World.Run.{children, load_composite, first_nodes}
use netemul.Env.Model.{example_env, example_env-ListLaws}
use netemul.Manager.{get_node, find_node, port_name, tokens}
use netemul.Tree.{
  Forest, Result, returned, tree_add, leaf, new_node, first_null, set_child, tree_init,
  tree_destroy, destroy_tree, destroy_children,
}
use netemul.Tree.Shape.{IsForest}
use netemul.Tree.Settled.{Settled}
use netemul.Sketch.{sketch, sketch_node, sketch_at, sketch_pixel, sketch_children}
use netemul.Listing.{collect, cmd_list, done}
use netemul.Listing.Complete.{registered, cmd_list_complete}
use netemul.Listing.Complete
use netemul.Topology.{
  check_node, check_ports, check_port, check_link, find_link, find_port, find_cable, draw_tree,
}
use netemul.Topology.Show.{Shown, shown, cmd_tree, cmd_tree_again, tree_handler}
use netemul.Topology.Follow.{Grown, check_node-Grown}
use netemul.Topology.Clears.{Clear, tree-Clear}
use netemul.Tests.{linked, linked_components}

abbrev named : Name → Option Component → Option Component
named name none = none
named name (some c) = some (record c { name = name })

-- The ports of the hub and the host have their names, and the link is registered.
abbrev pub drawable : World
drawable = record linked {
  component = λ a.
      if a == 20
      then named (codes "h0.0") (linked_components 20)
      else if a == 22
      then named (codes "v0.0") (linked_components 22)
      else linked_components a;
  manager = record (linked.manager) {
    nodes = (codes "h0", 10) ∷ (codes "l0", 11) ∷ (codes "v0", 12) ∷ [];
  };
}

abbrev no_trees : Forest
no_trees = record { node = λ a. none; root = none; count = 0; next = 1 }

abbrev cells : Result Shown → List (Option Ptr)
cells (returned (shown c) f) = (c 0 0).node ∷ (c 0 1).node ∷ (c 0 2).node ∷ (c 1 1).node ∷ []
cells _ = []

-- The hub is drawn, and the host right of it.
cmd_tree_drawn :
    cells (cmd_tree_again example_env drawable (codes "tree" ∷ codes "h0" ∷ []) no_trees)
    ≡ some 10 ∷ some 12 ∷ none ∷ none ∷ []
unfolding example_env cmd_tree_again collect draw_tree get_node check_node check_ports check_port
    check_link find_link find_port find_cable children load_composite first_nodes find_node tokens
    port_name decimal digits tree_add new_node first_null set_child tree_init tree_destroy
    destroy_tree destroy_children sketch sketch_node sketch_at sketch_pixel sketch_children
cmd_tree_drawn = refl

pub memory : (a : Ptr) → example_env.malloc_ok a ≡ true
unfolding example_env
memory a = refl

-- A tree with the hub alone
abbrev pub hub_tree : Forest
hub_tree = record {
  node = λ a. if a == 1 then some (leaf none 10) else none;
  root = some 1;
  count = 1;
  next = 2;
}

pub hub_tree-IsForest : IsForest hub_tree
hub_tree-IsForest = record {
  fresh = λ p h. ground arith;
  front = λ p. ground arith;
  size = λ p. ground arith;
  belongs = λ p q h. ground (arith, h);
  younger = λ p q h. ground (arith, h);
  once = λ p. ground arith;
}

check_node_grows :
    Settled
      (Grown (11 ∷ []) hub_tree)
      (check_node example_env drawable 2 10 (11 ∷ []) (some 1) hub_tree)
check_node_grows =
    check_node-Grown example_env example_env-ListLaws memory drawable 2 10 (11 ∷ []) (some 1)
      hub_tree (omega arith) hub_tree-IsForest refl

tree-Clear_example :
    Settled
      (λ _ g. Clear g)
      (cmd_tree example_env drawable (codes "tree" ∷ codes "h0" ∷ []) no_trees)
    × Settled
        (λ _ g. Clear g)
        (cmd_tree_again example_env drawable (codes "tree" ∷ codes "h0" ∷ []) no_trees)
    × Settled (λ _ g. Clear g) (tree_handler example_env drawable (codes "h0") no_trees)
tree-Clear_example =
    tree-Clear example_env example_env-ListLaws memory drawable (codes "tree" ∷ codes "h0" ∷ [])
      (codes "h0") no_trees λ a. refl

cmd_list_complete_example :
    ((cmd_list example_env drawable (codes "list" ∷ [])).1 ≡ done)
    × ((p : Ptr)
        → Complete.shown p (cmd_list example_env drawable (codes "list" ∷ [])).0
          ≡ registered p drawable.manager.nodes)
unfolding example_env
cmd_list_complete_example =
    cmd_list_complete drawable example_env (λ xs x. refl) refl (codes "list")
      (refl, (refl, (refl, tt)))
