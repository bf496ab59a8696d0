-- ===== src/Port.antt =====
-- src/port.c, and the creation of virtual and physical ports in src/virtual_port.c and
-- src/physical_port.c.
pub mod Create
use netemul.Base.{Option, none, some, if◌then◌else◌}
use netemul.Node.{NodeType, Ptr, virtual_forward, physical_forward, virtual_port_destroy}
use netemul.Env.{Env}
use netemul.World.{Component}
use netemul.World.Run.{Cmd, pure, ◌>>=◌, ◌>>◌, fails, load, store, update, free_component, malloc}
use netemul.Component.{zeroed, inherit, destroy_component}

module _ (e : Env) where
  -- `_port_create`
  unfoldable pub new_port : Cmd (Option Ptr)
  unfolding malloc store inherit destroy_component
  new_port = do
    m ← malloc e
    elim m [
      | none ↦ pure none
      | some this ↦ (do
        store this (record zeroed { type = NodeType.port })
        inherited ← inherit e this
        if inherited then pure (some this) else (do destroy_component this; pure none))
    ]

  -- `realloc`: the object moves to a fresh address. If there is no memory, the source goes on to
  -- call `port->destroy` through the null pointer that it was given.
  unfoldable pub realloc : Ptr → Cmd Ptr
  unfolding malloc load store free_component
  realloc p = do
    m ← malloc e
    elim m [ none ↦ fails | some p' ↦ (do c ← load p; store p' c; free_component p; pure p') ]

  -- A port that is there moves to the memory of a larger object, and is changed there.
  unfoldable pub extend_port : (Component → Component) → Option Ptr → Cmd (Option Ptr)
  unfolding realloc update
  extend_port f none = pure none
  extend_port f (some p) = do this ← realloc p; update this f; pure (some this)

  abbrev pub as_virtual : Component → Component
  as_virtual c = record c {
    type = NodeType.virtual_port;
    packet_forward = virtual_forward;
    destroy = virtual_port_destroy;
  }

  abbrev pub as_physical : Component → Component
  as_physical c = record c { type = NodeType.physical_port; packet_forward = physical_forward }

  -- `virtual_port_create`
  unfoldable pub virtual_port_create : Cmd (Option Ptr)
  unfolding new_port extend_port
  virtual_port_create = do m ← new_port; extend_port as_virtual m

  -- `physical_port_create`
  unfoldable pub physical_port_create : Cmd (Option Ptr)
  unfolding new_port extend_port
  physical_port_create = do m ← new_port; extend_port as_physical m

  unfoldable pub port_create : NodeType → Cmd (Option Ptr)
  unfolding new_port virtual_port_create physical_port_create
  port_create NodeType.port = new_port
  port_create NodeType.physical_port = physical_port_create
  port_create NodeType.virtual_port = virtual_port_create
  port_create _ = pure none
