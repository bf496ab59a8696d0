-- ===== src/Listing.antt =====
-- The command `list` of src/command.c: the registered nodes of some kinds, under labels. What is
-- printed stands as a list of its parts; the call of a node's `get` as the node.
pub mod Complete
use netemul.Base.{
  Bool, true, false, ◌||◌, Option, none, some, List, [], ◌∷◌, ◌++◌, if◌then◌else◌, same, codes,
}
use netemul.Node.{NodeType, Ptr, Name, same_type}
use netemul.Env.{Env, NameMap}
use netemul.World.{World, Composite}

-- What a search comes to: nothing, a read through a bad pointer, or something.
pub data Hit (A : Type 0) : Type 0 where
  missing : Hit A
  broken : Hit A
  hit : A → Hit A

-- The labels of `cmd_list`, and the headings of `list_component`.
pub data Label : Type 0 where
  physical_ports virtual_ports link_label ethernet_switch hub_switch_label switch_label : Label

pub data Item : Type 0 where
  label : Label → Item
  heading : NodeType → Item
  node : Ptr → Item
  usage : Item

-- How `list` ends; `failed` is its result -1.
pub data Status : Type 0 where
  done failed wrong_number not_found crashed : Status

abbrev pub node_items : List Ptr → List Item
node_items [] = []
node_items (p ∷ ps) = node p ∷ node_items ps

-- Has `list` a heading for this kind?
abbrev pub has_heading : NodeType → Bool
has_heading NodeType.physical = true
has_heading NodeType.host = true
has_heading NodeType.hub_switch = true
has_heading NodeType.ether_switch = true
has_heading NodeType.link = true
has_heading _ = false

-- `list_component`
abbrev pub list_component : NodeType → List Ptr → List Item
list_component type list = heading type ∷ node_items list

abbrev pub label_items : Option Label → List Item
label_items none = []
label_items (some l) = label l ∷ []

-- A part of the whole list: its label, and its kind of nodes.
abbrev pub Part : Type 0
Part = Option Label × NodeType

-- The parts that `list` prints by itself, and those of an argument.
abbrev pub all_parts : List Part
all_parts =
    (some physical_ports, NodeType.physical)
    ∷ (some virtual_ports, NodeType.host)
    ∷ (some switch_label, NodeType.hub_switch)
    ∷ (none, NodeType.ether_switch)
    ∷ (some link_label, NodeType.link)
    ∷ []

abbrev pub is_either : Name → Name → Name → Bool
is_either s a b = same s a || same s b

unfoldable pub parts_of : Name → Option (List Part)
parts_of s =
    if is_either s (codes "-p") (codes "physical")
    then some ((some physical_ports, NodeType.physical) ∷ [])
    else if is_either s (codes "-v") (codes "host")
    then some ((some virtual_ports, NodeType.host) ∷ [])
    else if is_either s (codes "-l") (codes "link")
    then some ((some link_label, NodeType.link) ∷ [])
    else if is_either s (codes "-s") (codes "switch")
    then some ((some ethernet_switch, NodeType.ether_switch) ∷ [])
    else if is_either s (codes "-h") (codes "hub")
    then some ((some hub_switch_label, NodeType.hub_switch) ∷ [])
    else none

module _ (e : Env) (w : World) where
  -- The registered nodes of a kind, in the map's order. `missing` stands for a list that takes no
  -- more.
  abbrev pub add_node : NodeType → List Ptr → Ptr → Option Composite → Hit (List Ptr)
  add_node type list p none = broken
  add_node type list p (some b) =
      if same_type b.type type
      then elim (e.list_add list p) [ none ↦ missing | some ls ↦ hit ls ]
      else hit list

  unfoldable pub collect : NodeType → NameMap → List Ptr → Hit (List Ptr)
  collect type [] list = hit list
  collect type ((name, p) ∷ m) list = elim (add_node type list p (w.composite p)) [
    | missing ↦ missing
    | broken ↦ broken
    | hit ls ↦ collect type m ls
  ]

  abbrev pub collect_in : NodeType → Option (List Ptr) → Hit (List Ptr)
  collect_in type none = missing
  collect_in type (some list) = collect type w.manager.nodes list

  -- `list` of `cmd_list`, with what is behind it
  abbrev pub list_then :
      List Item → NodeType → Hit (List Ptr) → List Item × Status → List Item × Status
  list_then before type missing after = (before, failed)
  list_then before type broken after = (before, crashed)
  list_then before type (hit list) after =
      let shown = if has_heading type then list_component type list else [] in
      (before ++ shown ++ after.0, after.1)

  unfoldable pub list_parts : List Part → List Item × Status
  unfolding collect
  list_parts [] = ([], done)
  list_parts ((l, type) ∷ ps) =
      list_then (label_items l) type (collect_in type e.list_create) (list_parts ps)

  abbrev pub list_some : Option (List Part) → List Item × Status
  list_some none = (usage ∷ [], not_found)
  list_some (some ps) = list_parts ps

  -- `cmd_list`
  unfoldable pub cmd_list : List Name → List Item × Status
  unfolding list_parts parts_of
  cmd_list (_ ∷ []) = list_parts all_parts
  cmd_list (_ ∷ s ∷ []) = list_some (parts_of s)
  cmd_list _ = ([], wrong_number)
