-- ===== src/Interface.antt =====
-- src/ni.c: the interface behind a port, with `port_attach` and `port_detach` of src/manager.c.
-- Opening the device is the environment's.
use netemul.Base.{ℕ, Option, none, some, if◌then◌else◌, ltb}
use netemul.Node.{NodeType, Ptr}
use netemul.Env.{Env}
use netemul.World.{Component, Ni}
use netemul.World.Run.{
  Cmd, pure, ◌>>=◌, ◌>>◌, fails, deref, found, modify, load, update, malloc, set_manager, write,
}
use netemul.Component.{destroy_component}
use netemul.Manager.{fd_add, fd_remove}

abbrev pub max_ni_count : ℕ
max_ni_count = 1024

unfoldable pub load_ni : Ptr → Cmd Ni
load_ni p w = found (w.ni p) w

unfoldable pub store_ni : Ptr → Ni → Cmd (Unit {0})
store_ni p n = modify (λ w. record w { ni = write w.ni p (some n) })

unfoldable pub free_ni : Ptr → Cmd (Unit {0})
unfolding load_ni
free_ni p = do load_ni p; modify (λ w. record w { ni = write w.ni p none })

module _ (e : Env) where
  -- The descriptor for a port of a kind. For any other kind the source closes a context that it
  -- never set.
  unfoldable pub open_device : NodeType → Ptr → Component → Cmd (Option ℕ)
  open_device NodeType.virtual_port ni c = pure (e.tap_create ni c.name)
  open_device NodeType.physical_port ni c = pure (e.raw_create ni c.port.ifname)
  open_device _ ni c = fails

  -- `ni_create`
  unfoldable pub ni_create : Ptr → NodeType → Cmd (Option Ptr)
  unfolding malloc load open_device fd_add store_ni
  ni_create port type = do
    m ← malloc e
    elim m [
      | none ↦ pure none
      | some ni ↦ (do
        c ← load port
        device ← open_device type ni c
        elim device [
          | none ↦ pure none
          | some fd ↦ (do
            added ← fd_add e fd
            if added
                then (do store_ni ni (record { fd = fd; port = port; type = type }); pure (some ni))
                else pure none)
        ])
    ]

  -- `ni_destroy`
  unfoldable pub ni_destroy : Ptr → Cmd (Unit {0})
  unfolding load_ni fd_remove free_ni
  ni_destroy ni = do n ← load_ni ni; fd_remove e n.fd; free_ni ni

  -- `port_attach`: the descriptor is the index of the interface.
  unfoldable pub port_attach : Ptr → NodeType → Cmd (Option Ptr)
  unfolding ni_create load_ni update
  port_attach port type = do
    m ← ni_create port type
    elim m [
      | none ↦ pure none
      | some ni ↦ (do
        n ← load_ni ni
        if ltb n.fd max_ni_count then pure tt else fails
        set_manager (λ g. record g { nis = write g.nis n.fd (some ni) })
        update port (λ c. record c { port = record (c.port) { fd = n.fd } })
        pure (some ni))
    ]

  unfoldable pub port_detach : Option Ptr → Cmd (Unit {0})
  unfolding ni_destroy
  port_detach ni = do n ← deref ni; ni_destroy n

  -- `destroy` of a virtual port: what a component does, after its interface is gone.
  unfoldable pub destroy_virtual : Ptr → Cmd (Unit {0})
  unfolding load port_detach destroy_component
  destroy_virtual this = do c ← load this; port_detach c.port.ni; destroy_component this
