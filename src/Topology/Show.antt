-- ===== src/Topology/Show.antt =====
-- The command `tree` of src/command.c, in both versions, and `tree_handler` of src/rpc_manager.c.
use netemul.Base.{Option, none, some, List, [], ◌∷◌, if◌then◌else◌, length, ltb}
use netemul.Node.{NodeType, Ptr, Name, max_name_len}
use netemul.Env.{Env}
use netemul.World.{World}
use netemul.Manager.{NodeRef, get_node}
use netemul.Tree.{Forest, Result, returned, crashed, after, tree_init}
use netemul.Listing.{Hit, missing, broken, hit, collect}
use netemul.Sketch.{Canvas}
use netemul.Topology.{value_of, draw_tree}

-- What `tree` and its handler show.
pub data Shown : Type 0 where
  wrong_number no_list list_full too_long not_found : Shown
  shown : Canvas → Shown

module _ (e : Env) (w : World) where
  abbrev pub show_node : Option (Option NodeRef) → List Ptr → Forest → Result Shown
  show_node none links f = crashed
  show_node (some none) links f = returned not_found f
  show_node (some (some node)) links f =
      after (draw_tree e w node links f) λ c g. returned (shown c) g

  abbrev pub show_tree : Name → Hit (List Ptr) → Forest → Result Shown
  show_tree name missing f = returned list_full f
  show_tree name broken f = crashed
  show_tree name (hit links) f = show_node (value_of (get_node e name w)) links (tree_init f)

  -- The first version tests the name's length behind `tree_init`.
  abbrev pub show_short : Name → Hit (List Ptr) → Forest → Result Shown
  show_short name missing f = returned list_full f
  show_short name broken f = crashed
  show_short name (hit links) f =
      if ltb max_name_len (length name)
      then returned too_long (tree_init f)
      else show_node (value_of (get_node e name w)) links (tree_init f)

  abbrev pub with_list :
      (Hit (List Ptr) → Forest → Result Shown) → Option (List Ptr) → Forest → Result Shown
  with_list show none f = returned no_list f
  with_list show (some list) f = show (collect e w NodeType.link w.manager.nodes list) f

  -- `cmd_tree`, first version
  unfoldable pub cmd_tree : List Name → Forest → Result Shown
  unfolding collect draw_tree get_node tree_init
  cmd_tree (_ ∷ name ∷ []) f = with_list (show_short name) e.list_create f
  cmd_tree _ f = returned wrong_number f

  -- `cmd_tree`, second version
  unfoldable pub cmd_tree_again : List Name → Forest → Result Shown
  unfolding collect draw_tree get_node tree_init
  cmd_tree_again (_ ∷ name ∷ []) f = with_list (show_tree name) e.list_create f
  cmd_tree_again _ f = returned wrong_number f

  -- What the callback of `tree_handler` gets: a vector with the drawing, or null.
  abbrev pub drawing_of : Shown → Option Canvas
  drawing_of (shown c) = some c
  drawing_of _ = none

  unfoldable pub tree_handler : Name → Forest → Result (Option Canvas)
  unfolding collect draw_tree get_node tree_init
  tree_handler name f =
      after (with_list (show_tree name) e.list_create f) λ s g. returned (drawing_of s) g
