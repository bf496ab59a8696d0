-- ===== src/Endpoint.antt =====
-- How nodes come into being: src/host.c, src/physical.c, src/hub_switch.c, src/ether_switch.c,
-- src/switch.c and src/endpoint.c.
pub mod FreeName
use netemul.Base.{
  ℕ, zero, suc, ◌+◌, Bool, true, false, Option, none, some, List, [], ◌∷◌, if◌then◌else◌, decimal,
  length, ltb,
}
use netemul.Node.{
  NodeType, Ptr, Name, ForwardMethod, hub_send, ether_switch_send, ether_switch_destroy,
  mac_table_size, max_node_count,
}
use netemul.Env.{Env}
use netemul.World.Run.{
  Cmd, pure, ◌>>=◌, ◌>>◌, fails, deref, found, load, load_composite, store_composite, update,
  update_composite, malloc, children,
}
use netemul.Composite.{zeroed_composite, inherit_composite, destroy_whole}
use netemul.Manager.{NodeRef, get_node, node_register}
use netemul.Interface.{port_attach}

module _ (e : Env) where
  -- A new composite that inherits, is extended, and is destroyed where that fails.
  unfoldable pub create_composite : NodeType → ℕ → (Ptr → Cmd Bool) → Cmd (Option Ptr)
  unfolding malloc store_composite inherit_composite destroy_whole
  create_composite type node_count extend = do
    m ← malloc e
    elim m [
      | none ↦ pure none
      | some this ↦ (do
        store_composite this (record zeroed_composite { type = type; node_count = node_count })
        inherited ← inherit_composite e this
        if inherited
            then (do
              extended ← extend this
              if extended then pure (some this) else (do destroy_whole e this; pure none))
            else (do destroy_whole e this; pure none))
    ]

  unfoldable pub host_create : ℕ → Cmd (Option Ptr)
  unfolding create_composite
  host_create port_count = create_composite NodeType.host port_count (λ _. pure true)

  unfoldable pub physical_create : Cmd (Option Ptr)
  unfolding create_composite
  physical_create = create_composite NodeType.physical 1 (λ _. pure true)

  -- `nodes[i]->packet_forward = …`
  unfoldable pub set_methods : ForwardMethod → List (Option Ptr) → Cmd (Unit {0})
  unfolding update
  set_methods f [] = pure tt
  set_methods f (n ∷ ns) = do
    p ← deref n
    update p (λ c. record c { packet_forward = f })
    set_methods f ns

  unfoldable pub extend_hub : Ptr → Cmd Bool
  unfolding children set_methods
  extend_hub this = do ns ← children this; set_methods hub_send ns; pure true

  unfoldable pub hub_create : ℕ → Cmd (Option Ptr)
  unfolding create_composite extend_hub
  hub_create port_count = create_composite NodeType.hub_switch port_count extend_hub

  unfoldable pub extend_ether_switch : Ptr → Cmd Bool
  unfolding update_composite children set_methods
  extend_ether_switch this = do
    update_composite this (λ c. record c { table = e.cache_create mac_table_size })
    elim (e.cache_create mac_table_size) [
      | none ↦ pure false
      | some _ ↦ (do
        ns ← children this
        set_methods ether_switch_send ns
        update_composite this (λ c. record c { destroy = ether_switch_destroy })
        pure true)
    ]

  unfoldable pub ether_switch_create : ℕ → Cmd (Option Ptr)
  unfolding create_composite extend_ether_switch
  ether_switch_create port_count =
      create_composite NodeType.ether_switch port_count extend_ether_switch

  -- `name[0] = letter; sprintf(&name[1], "%d", i)`
  abbrev pub numbered : ℕ → ℕ → Name
  numbered letter i = letter ∷ decimal i

  -- What the loop does with a name, by what has it.
  unfoldable pub unless_taken : Cmd Bool → Cmd Bool → Option NodeRef → Cmd Bool
  unless_taken register next none = register
  unless_taken register next (some _) = next

  -- The loop that registers a node under the first free name. Both the search and the
  -- registration work on the node's own name.
  unfoldable pub register_loop : Ptr → ℕ → (n i : ℕ) → Cmd Bool
  unfolding update_composite get_node node_register unless_taken
  register_loop this letter zero i = pure false
  register_loop this letter (suc n) i = do
    update_composite this (λ c. record c { name = numbered letter i })
    taken ← get_node e (numbered letter i)
    unless_taken (node_register e this (numbered letter i)) (register_loop this letter n (i + 1))
        taken

  -- A node that is not there, or that cannot be registered and finished, is no result.
  unfoldable pub register_or_destroy : Option Ptr → ℕ → (Ptr → Cmd Bool) → Cmd (Option Ptr)
  unfolding register_loop destroy_whole
  register_or_destroy none letter finish = pure none
  register_or_destroy (some this) letter finish = do
    registered ← register_loop this letter max_node_count 0
    finished ← (if registered then finish this else pure false)
    if finished then pure (some this) else (do destroy_whole e this; pure none)

  unfoldable pub switch_create : ℕ → NodeType → Cmd (Option Ptr)
  unfolding ether_switch_create hub_create register_or_destroy
  switch_create port_count NodeType.ether_switch = do
    s ← ether_switch_create port_count
    register_or_destroy s b's' (λ _. pure true)
  switch_create port_count NodeType.hub_switch = do
    s ← hub_create port_count
    register_or_destroy s b'h' (λ _. pure true)
  switch_create port_count _ = pure none

  -- The loop that attaches the ports of a host; it ends early, and no one is told, if one fails.
  unfoldable pub attach_ports : List (Option Ptr) → Cmd (Unit {0})
  unfolding port_attach update
  attach_ports [] = pure tt
  attach_ports (n ∷ ns) = do
    p ← deref n
    ni ← port_attach e p NodeType.virtual_port
    update p (λ c. record c { port = record (c.port) { ni = ni } })
    elim ni [ none ↦ pure tt | some _ ↦ attach_ports ns ]

  unfoldable pub finish_host : Ptr → Cmd Bool
  unfolding children attach_ports
  finish_host this = do ns ← children this; attach_ports ns; pure true

  -- `physical_send_port_create`
  unfoldable pub open_send_port : Ptr → Cmd Bool
  unfolding load update
  open_send_port p = do
    c ← load p
    elim (e.send_socket p c.port.ifname) [
      | none ↦ pure false
      | some wfd ↦ (do
        update p (λ d. record d { port = record (d.port) { wfd = wfd; sll_addr = [] } })
        pure true)
    ]

  -- The name of the interface is copied to sixteen bytes; there may be no name.
  unfoldable pub finish_physical : Option Name → Ptr → Cmd Bool
  unfolding load_composite update port_attach open_send_port
  finish_physical context this = do
    c ← load_composite this
    p ← elim c.nodes [ [] ↦ fails | n ∷ ns ↦ deref n ]
    ifname ← found context
    if ltb (length ifname) 16 then pure tt else fails
    update p (λ d. record d { port = record (d.port) { ifname = ifname } })
    ni ← port_attach e p NodeType.physical_port
    update p (λ d. record d { port = record (d.port) { ni = ni } })
    elim ni [ none ↦ pure false | some _ ↦ open_send_port p ]

  unfoldable pub endpoint_create : ℕ → NodeType → Option Name → Cmd (Option Ptr)
  unfolding physical_create host_create register_or_destroy finish_physical finish_host
  endpoint_create port_count NodeType.physical context = do
    end ← physical_create
    register_or_destroy end b'p' (finish_physical context)
  endpoint_create port_count NodeType.host context = do
    end ← host_create port_count
    register_or_destroy end b'v' finish_host
  endpoint_create port_count _ context = pure none
