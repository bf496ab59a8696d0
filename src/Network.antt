-- ===== src/Network.antt =====
-- The call of `packet_forward` through its pointer, and src/network.c: one packet for each round
-- of the event loop. A cable calls the method of what it leads to, hence the fuel: two calls are
-- enough where no cable leads to a cable.
pub mod Process
pub mod Control
pub mod Methods
pub mod Safe
pub mod Alike
pub mod Active
pub mod Rounds
use netemul.Base.{ℕ, zero, suc, Bool, true, Option, none, some, List, [], ◌∷◌}
use netemul.Node.{
  Ptr, ForwardMethod, component_forward, hub_send, ether_switch_send, virtual_forward,
  physical_forward, cable_forward,
}
use netemul.Env.{Env}
use netemul.World.{Timer}
use netemul.World.Run.{Cmd, pure, ◌>>=◌, ◌>>◌, found, world, modify, load, store, out_of_fuel}
use netemul.Component.{forward_component, forward_virtual, forward_physical}
use netemul.Cable.{forward_cable, deliver}
use netemul.Switch.{send_hub}
use netemul.EtherSwitch.{send_ether}

abbrev pub behind : Timer → Option (Timer × List Timer) → Option (Timer × List Timer)
behind t none = none
behind t (some (s, rest)) = some (s, t ∷ rest)

-- A timer by its place in the list, and the others.
unfoldable pub take_timer : ℕ → List Timer → Option (Timer × List Timer)
take_timer n [] = none
take_timer zero (t ∷ ts) = some (t, ts)
take_timer (suc n) (t ∷ ts) = behind t (take_timer n ts)

module _ (e : Env) where
  -- The method that a component points to; `next` is the call that a cable makes.
  unfoldable pub forward_by :
      (Ptr → Ptr → Cmd (Unit {0})) → ForwardMethod → Ptr → Ptr → Cmd (Unit {0})
  unfolding forward_component forward_virtual forward_physical forward_cable send_hub send_ether
  forward_by next component_forward = forward_component e
  forward_by next hub_send = send_hub e
  forward_by next ether_switch_send = send_ether e
  forward_by next virtual_forward = forward_virtual
  forward_by next physical_forward = forward_physical
  forward_by next cable_forward = forward_cable e next

  -- `this->packet_forward(this, packet)`
  unfoldable pub forward : ℕ → Ptr → Ptr → Cmd (Unit {0})
  unfolding load forward_by
  forward zero this packet = λ w. out_of_fuel
  forward (suc fuel) this packet = do
    c ← load this
    forward_by (forward fuel) c.packet_forward this packet

  -- `network_control`: the first component with a packet in its queue forwards that packet.
  unfoldable pub control_loop : List Ptr → Cmd (Unit {0})
  unfolding load store forward
  control_loop [] = pure tt
  control_loop (p ∷ ps) = do
    c ← load p
    q ← found c.queue
    elim (e.fifo_pop q) [
      | none ↦ control_loop ps
      | some (packet, q') ↦ (do store p (record c { queue = some q' }); forward 2 p packet)
    ]

  unfoldable pub network_control : Cmd Bool
  unfolding control_loop
  network_control = do w ← world; control_loop w.manager.components; pure true

  -- The event machine fires the timer of a delayed packet, which is not repeated.
  unfoldable pub fire : Timer → Cmd Bool
  unfolding deliver forward
  fire t = do deliver e (forward 1) t.cable t.packet; pure true

  unfoldable pub fire_taken : Option (Timer × List Timer) → Cmd Bool
  unfolding fire
  fire_taken none = pure true
  fire_taken (some (t, rest)) = do modify (λ v. record v { timers = rest }); fire t

  -- The event machine may call the callback of any timer, once: their period is zero.
  unfoldable pub expire : ℕ → Cmd Bool
  unfolding take_timer fire_taken
  expire n = do w ← world; fire_taken (take_timer n w.timers)
