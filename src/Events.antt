-- ===== src/Events.antt =====
-- The loop of src/main.c over events: the busy events of src/network.c and src/input.c and the
-- timers of src/cable.c, in any order that the event machine may choose.
use netemul.Base.{ℕ, ◌≡◌, ◌≢◌, true, some, List, [], ◌∷◌, has, Bool}
use netemul.Node.{Ptr}
use netemul.Env.{Env}
use netemul.World.{World, Manager}
use netemul.World.Run.{Cmd, pure, ◌>>◌}
use netemul.World.Ends.{Ends}
use netemul.Network.{network_control, expire}
use netemul.Network.Safe.{Safe}
use netemul.Manager.{NodeRef}
use netemul.Command.{set_active}
use netemul.Network.Active.{node_there}
use netemul.Input.{receive, aligned_start, fits_buffer, read_packet}
use netemul.Switch.{can_copy}

-- A round of `network_control`, a timer by its place among those that wait, a packet that an
-- interface has, or a node that a command or a remote call switches on or off.
pub data Event : Type 0 where
  round : Event
  timer : ℕ → Event
  frame : ℕ → List ℕ → Event
  switch : Bool → NodeRef → Event

module _ (e : Env) where
  unfoldable pub happen : Event → Cmd (Unit {0})
  unfolding network_control expire receive set_active
  happen round = do network_control e; pure tt
  happen (timer n) = do expire e n; pure tt
  happen (frame fd bytes) = receive e fd (some bytes)
  happen (switch active node) = set_active active node

  unfoldable pub run : List Event → Cmd (Unit {0})
  unfolding happen
  run [] = pure tt
  run (v ∷ vs) = do happen v; run vs

  -- A packet comes to the interface of a polled descriptor, fits a buffer wherever that is, and can be
  -- copied from there; a node that is switched is there.
  abbrev pub Possible : World → Event → Type 0
  Possible w round = Unit
  Possible w (timer n) = Unit
  Possible w (frame fd bytes) =
      (has fd w.manager.fds ≡ true)
      × (fd ≢ 0)
      × ((a : Ptr)
          → (fits_buffer (aligned_start (e.buffer_address a)) bytes ≡ true)
            × (can_copy (read_packet (aligned_start (e.buffer_address a)) bytes) ≡ true))
  Possible w (switch active node) = node_there w node ≡ true

  abbrev pub AllPossible : World → List Event → Type 0
  AllPossible w [] = Unit
  AllPossible w (v ∷ vs) = Possible w v × AllPossible w vs
