-- ===== src/Network/Methods.antt =====
-- What becomes of a packet that `packet_forward` of a port is given, for each of its methods.
use netemul.Base.{
  ℕ, suc, ◌≡◌, refl, Bool, true, false, Option, none, some, List, ◌∷◌, ◌-◌, arith, ◌==◌,
  if◌then◌else◌, sym, ap, ◌∙◌,
}
use netemul.Node.{
  Ptr, ForwardMethod, component_forward, hub_send, ether_switch_send, virtual_forward,
  physical_forward, cable_forward,
}
use netemul.Env.{Env, Cache}
use netemul.Env.Laws.{FifoLaws, CacheLaws}
use netemul.World.{World, Component, Composite}
use netemul.World.Run.{write, ◌>>=◌, ◌>>◌, free_packet, load, load_packet, update}
use netemul.World.Ends.{Ends, weaken}
use netemul.Component.{
  forward_component, forward_virtual, forward_physical, network_process, send, bytes,
}
use netemul.Ownership.{
  Copyable, Owned, Held, Sound, Tables, Shape, Shape-components, Taken, is_cable, same_cable,
  skeleton, outline,
}
use netemul.Ownership.Hold.{Keeps, Keeps-quiet, Keeps-refl, free_packet-Taken}
use netemul.Switch.{send_hub}
use netemul.Switch.Broadcast.{SwitchPort}
use netemul.Switch.Port.{SwitchPort-Shape, owner_of}
use netemul.Switch.Hub.{up, is_up-up, send_hub-Spent}
use netemul.EtherSwitch.{send_ether}
use netemul.EtherSwitch.Send.{send_ether-Settled}
use netemul.Network.{forward, forward_by}
use netemul.Network.Process.{network_process-Placed}

abbrev pub is_ether : Option Component → Bool
is_ether none = false
is_ether (some c) = elim c.packet_forward [ ether_switch_send ↦ true | _ ↦ false ]

abbrev pub has_table : Option Composite → Bool
has_table none = false
has_table (some b) = elim b.table [ none ↦ false | some _ ↦ true ]

-- A port that works: its owner is there with all its nodes, and a switch has its table.
pub record Port (w : World) (p : Ptr) : Type 0 where
  pub nodes : List (Option Ptr)
  pub at : SwitchPort w p nodes
  pub not_cable : is_cable (w.component p) ≡ false
  pub tabled :
      (s : Ptr)
      → is_ether (w.component p) ≡ true
      → owner_of (w.component p) ≡ some s
      → has_table (w.composite s) ≡ true

get_table : (b : Composite) → has_table (some b) ≡ true → (c : Cache) × (b.table ≡ some c)
get_table b h = go b.table refl
  where
    go : (t : Option Cache) → b.table ≡ t → (c : Cache) × (b.table ≡ some c)
    go none q = absurd (ground (arith, q))
    go (some c) q = (c, q)

is_ether-skeleton : (o : Option Component) → is_ether (skeleton o) ≡ is_ether o
is_ether-skeleton none = refl
is_ether-skeleton (some c) = refl

owner_of-skeleton : (o : Option Component) → owner_of (skeleton o) ≡ owner_of o
owner_of-skeleton none = refl
owner_of-skeleton (some c) = refl

has_table-outline : (o : Option Composite) → has_table (outline o) ≡ has_table o
has_table-outline none = refl
has_table-outline (some b) = by_table b.table refl
  where
    by_table : (t : Option Cache) → b.table ≡ t → has_table (outline (some b)) ≡ has_table (some b)
    by_table none q = rw q refl
    by_table (some c) q = rw q refl

-- A port works in each state of the same shape.
pub Port-Shape : (w v : World) (p : Ptr) → Shape w v → Port w p → Port v p
Port-Shape w v p s port = record {
  nodes = port.nodes;
  at = SwitchPort-Shape w v p port.nodes port.at s;
  not_cable = same_cable _ _ (s.same p) ∙ port.not_cable;
  tabled = λ r ether owner.
      sym (has_table-outline (v.composite r))
      ∙ ap has_table (s.boxes r)
      ∙ has_table-outline (w.composite r)
      ∙ port.tabled r
          (sym (is_ether-skeleton (w.component p))
            ∙ ap is_ether (sym (s.same p))
            ∙ is_ether-skeleton (v.component p)
            ∙ ether)
          (sym (owner_of-skeleton (w.component p))
            ∙ ap owner_of (sym (s.same p))
            ∙ owner_of-skeleton (v.component p)
            ∙ owner);
}

module _ (e : Env) (fifo : FifoLaws e) (laws : CacheLaws e)
    (memory : (a : Ptr) → e.malloc_ok a ≡ true) (w : World) (this p : Ptr) (port : Port w this)
    (sizes : Copyable w) (owned : Owned w) (sound : Sound w) (tables : Tables w)
    (held : Held w p) where
  start : Keeps w p w
  start = Keeps-refl w p owned sound held

  component-Taken : Ends (λ _ u. Taken w p u) (forward_component e this p w)
  unfolding forward_component network_process
  component-Taken =
      weaken (network_process-Placed e fifo w this p port.nodes port.at owned sound held)
        λ _ u t. record { owned = t.owned; sound = t.sound; shape = t.shape; lost = t.lost }

  hub-Taken : Ends (λ _ u. Taken w p u) (send_hub e this p w)
  hub-Taken =
      weaken (send_hub-Spent e fifo w this p port.nodes port.at sizes owned sound held)
        λ _ u t. record { owned = t.owned; sound = t.sound; shape = t.shape; lost = t.lost }

  ether-Taken :
      port.at.component.packet_forward ≡ ether_switch_send
      → Ends (λ _ u. Taken w p u) (send_ether e this p w)
  ether-Taken method =
      let (c, has) = get_table port.at.composite table in
      let (keyed, known) = tables port.at.switch port.at.composite c port.at.switch_there has in
      weaken
        (send_ether-Settled e fifo laws w this p port.nodes port.at c held.packet sizes owned sound
          held held.allocated known has keyed (memory w.next))
        λ _ u t. record { owned = t.owned; sound = t.sound; shape = t.shape; lost = t.lost }
    where
      table : has_table (some port.at.composite) ≡ true
      table =
          ap has_table (sym port.at.switch_there)
          ∙ port.tabled port.at.switch (ground (arith, port.at.there, method))
              (ground (arith, port.at.there, port.at.owner))

  virtual-Taken : Ends (λ _ u. Taken w p u) (forward_virtual this p w)
  unfolding forward_virtual send
  virtual-Taken = rw (is_up-up w this p port.nodes port.at) (by_up (up w this p port.nodes port.at))
    where
      sent : World
      sent = record w {
        sent =
            (
              port.at.component.port.fd,
              bytes held.packet.buffer 0 (held.packet.end - held.packet.start),
            )
            ∷ w.sent;
      }

      by_up :
          (b : Bool)
          → Ends
              (λ _ u. Taken w p u)
              ((if b
                  then (do c ← load this; q ← load_packet p; send c.port.fd q; free_packet p)
                  else free_packet p)
                w)
      by_up true = rw port.at.there (
          rw held.allocated (
            free_packet-Taken w sent p (
              Keeps-quiet w sent p (λ a r. refl) refl refl (omega arith)
                (Shape-components w sent (λ a. refl) (λ a. refl) refl refl refl (λ h. h)) owned
                sound held)))
      by_up false = free_packet-Taken w w p start

  -- The physical port after it took the address of a packet.
  abbrev addressed : World
  addressed = record w {
    component = write w.component this (
        some (record (port.at.component) {
          port = record (port.at.component.port) {
            sll_addr = bytes held.packet.buffer held.packet.start 6;
          };
        }));
    sent =
        (
          port.at.component.port.wfd,
          bytes held.packet.buffer 0 (held.packet.end - held.packet.start),
        )
        ∷ w.sent;
  }

  addressed-Keeps : Keeps w p addressed
  addressed-Keeps =
      Keeps-quiet w addressed p (λ a r. ground (arith, port.at.there)) refl refl (omega arith)
        (Shape-components w addressed (λ a. ground (arith, port.at.there)) (λ a. refl) refl refl
          refl (λ h. h))
        owned sound held

  physical-Taken : Ends (λ _ u. Taken w p u) (forward_physical this p w)
  unfolding forward_physical send
  physical-Taken =
      rw (is_up-up w this p port.nodes port.at) (by_up (up w this p port.nodes port.at))
    where
      self : (this == this) ≡ true
      self = ground arith

      by_up :
          (b : Bool)
          → Ends
              (λ _ u. Taken w p u)
              ((if b
                  then (do
                    q ← load_packet p
                    update this λ c. record c {
                      port = record (c.port) { sll_addr = bytes q.buffer q.start 6 };
                    }
                    c ← load this
                    send c.port.wfd q
                    free_packet p)
                  else free_packet p)
                w)
      by_up true =
          rw held.allocated
            (rw port.at.there (rw self (free_packet-Taken w addressed p addressed-Keeps)))
      by_up false = free_packet-Taken w w p start

  -- A port takes a packet with any of its methods.
  pub forward-Taken : (fuel : ℕ) → Ends (λ _ u. Taken w p u) (forward e (suc fuel) this p w)
  unfolding forward forward_by
  forward-Taken fuel = rw port.at.there (by_method port.at.component.packet_forward refl)
    where
      by_method :
          (m : ForwardMethod)
          → port.at.component.packet_forward ≡ m
          → Ends (λ _ u. Taken w p u) (forward_by e (forward e fuel) m this p w)
      by_method component_forward q = component-Taken
      by_method hub_send q = hub-Taken
      by_method ether_switch_send q = ether-Taken q
      by_method virtual_forward q = virtual-Taken
      by_method physical_forward q = physical-Taken
      by_method cable_forward q = absurd (ground (arith, q, port.at.there, port.not_cable))
