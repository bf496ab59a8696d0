-- ===== src/Link.antt =====
-- src/link.c: which components can be connected, the two cables between them, and the link's
-- attributes.
pub mod Connect
pub mod Disconnect
use netemul.Base.{Bool, true, false, Option, none, some, List, [], ◌∷◌, if◌then◌else◌}
use netemul.Node.{NodeType, Ptr, Name, link_set, component_set, cable_set, composite_set}
use netemul.Env.{Env}
use netemul.World.Run.{
  Cmd, pure, ◌>>=◌, ◌>>◌, fails, deref, load, load_composite, update, update_composite, children,
}
use netemul.Cable.{set_cable}
use netemul.Manager.{NodeRef, component, composite}
use netemul.Endpoint.{create_composite, register_or_destroy}

-- The first component of a composite that nothing leads to; a null element is a fault.
unfoldable pub first_available : List (Option Ptr) → Cmd (Option Ptr)
unfolding load
first_available [] = pure none
first_available (n ∷ ns) = do
  p ← deref n
  c ← load p
  elim c.input [ none ↦ pure (some p) | some _ ↦ first_available ns ]

-- `is_available`
unfoldable pub is_available : NodeRef → Cmd (Option Ptr)
unfolding children first_available load
is_available (composite p) = do ns ← children p; first_available ns
is_available (component p) = do
  c ← load p
  elim c.output [ none ↦ pure (some p) | some _ ↦ pure none ]

-- `connect_cable`, its eight assignments in their order
unfoldable pub connect_cable : (source cable0 cable1 destination : Ptr) → Cmd (Unit {0})
unfolding update
connect_cable source cable0 cable1 destination = do
  update source (λ c. record c { output = some cable0; input = some cable1 })
  update destination (λ c. record c { output = some cable1; input = some cable0 })
  update cable0 (λ c. record c { output = some destination; input = some source })
  update cable1 (λ c. record c { output = some source; input = some destination })

-- `nodes[0]` and `nodes[1]` of a link
unfoldable pub two_cables : Ptr → Cmd (Ptr × Ptr)
unfolding load_composite
two_cables link = do
  c ← load_composite link
  elim c.nodes [ some a ∷ some b ∷ ns ↦ pure (a, b) | _ ↦ fails ]

module _ (e : Env) where
  unfoldable pub extend_link : Ptr → Ptr → Ptr → Cmd Bool
  unfolding two_cables connect_cable update_composite
  extend_link src dst this = do
    (cable0, cable1) ← two_cables this
    connect_cable src cable0 cable1 dst
    update_composite this (λ c. record c { set = link_set })
    pure true

  -- `_link_create`
  unfoldable pub new_link : NodeRef → NodeRef → Cmd (Option Ptr)
  unfolding is_available create_composite extend_link
  new_link source destination = do
    src ← is_available source
    dst ← is_available destination
    elim src [
      | none ↦ pure none
      | some s ↦ elim dst [
        | none ↦ pure none
        | some d ↦ create_composite e NodeType.link 2 (extend_link s d)
      ]
    ]

  -- `link_create`
  unfoldable pub link_create : NodeRef → NodeRef → Cmd (Option Ptr)
  unfolding new_link register_or_destroy
  link_create source destination = do
    link ← new_link source destination
    register_or_destroy e link b'l' (λ _. pure true)

  -- `set` of a link: the first cable, then the second.
  unfoldable pub set_link : Ptr → List Name → Cmd Bool
  unfolding two_cables set_cable
  set_link this argv = do
    (cable0, cable1) ← two_cables this
    first ← set_cable e cable0 argv
    if first then set_cable e cable1 argv else pure false

  -- `node->set(node, argc, argv)`
  unfoldable pub set_node : NodeRef → List Name → Cmd Bool
  unfolding load load_composite set_cable set_link
  set_node (component p) argv = do
    c ← load p
    elim c.set [
      | component_set ↦ pure false
      | cable_set ↦ set_cable e p argv
      | composite_set ↦ fails
      | link_set ↦ fails
    ]
  set_node (composite p) argv = do
    c ← load_composite p
    elim c.set [
      | component_set ↦ fails
      | cable_set ↦ fails
      | composite_set ↦ pure false
      | link_set ↦ set_link p argv
    ]
