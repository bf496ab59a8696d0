-- ===== src/Component.antt =====
-- src/component.c, the ports' methods of src/virtual_port.c and src/physical_port.c, and the entry
-- of packets, `network_process` of src/network.c.
pub mod Wiring
use netemul.Base.{
  ℕ, zero, suc, ◌+◌, ◌-◌, ◌%◌, ◌^◌, Bool, true, false, Option, none, some, List, [], ◌∷◌,
  if◌then◌else◌,
}
use netemul.Node.{
  NodeType, Ptr, component_forward, component_destroy, component_set, packet_queue_size,
}
use netemul.Env.{Env}
use netemul.World.{Component, Packet}
use netemul.World.Run.{
  Cmd, pure, ◌>>=◌, ◌>>◌, deref, found, modify, load, load_composite, load_packet, store, update,
  update_composite, free_component, free_packet, when_some,
}

-- What `memset` leaves of a new component.
abbrev pub zeroed : Component
zeroed = record {
  type = NodeType.none;
  name = [];
  is_active = false;
  destroy = component_destroy;
  set = component_set;
  owner = none;
  input = none;
  output = none;
  packet_forward = component_forward;
  queue = none;
  cable = record {
    bandwidth = 0;
    output_closed = 0;
    error_rate = 0;
    drop_rate = 0;
    jitter = 0;
    latency = 0;
  };
  port = record { ni = none; fd = 0; wfd = 0; sll_addr = []; ifname = [] };
}

module _ (e : Env) where
  -- `component_inherit`
  unfoldable pub inherit : Ptr → Cmd Bool
  unfolding update
  inherit this = do
    update this λ c. record c {
      is_active = true;
      destroy = component_destroy;
      set = component_set;
      packet_forward = component_forward;
      queue = e.fifo_create packet_queue_size;
    }
    c ← load this
    elim c.queue [ none ↦ pure false | some _ ↦ pure true ]

  -- `fifo_push(p->queue, packet)`
  unfoldable pub push_to : Ptr → Ptr → Cmd Bool
  unfolding load store
  push_to p packet = do
    c ← load p
    q ← found c.queue
    elim (e.fifo_push q packet) [
      | none ↦ pure false
      | some q' ↦ (do store p (record c { queue = some q' }); pure true)
    ]

-- `this->is_active && this->owner->is_active`
unfoldable pub is_up : Ptr → Cmd Bool
unfolding load load_composite
is_up this = do
  c ← load this
  if c.is_active then (do o ← deref c.owner; b ← load_composite o; pure b.is_active) else pure false

-- `destroy` of a component: its neighbours forget it, and its owner counts one node less. The count
-- is only ever lowered and compared with indices: one below zero would act as zero does.
unfoldable pub destroy_component : Ptr → Cmd (Unit {0})
unfolding load update update_composite free_component
destroy_component this = do
  c ← load this
  when_some c.input (λ src. update src (λ s. record s { output = none }))
  when_some c.output (λ dst. update dst (λ d. record d { input = none }))
  when_some c.owner (λ o. update_composite o (λ b. record b { node_count = b.node_count - 1 }))
  free_component this

module _ (e : Env) where
  -- A packet is put into the queue behind a port, or freed: nothing is there, or the queue is full.
  unfoldable pub enqueue : Option Ptr → Ptr → Cmd (Unit {0})
  unfolding push_to free_packet
  enqueue none packet = free_packet packet
  enqueue (some out) packet = do
    pushed ← push_to e out packet
    if pushed then pure tt else free_packet packet

  -- `packet_forward` of a component
  unfoldable pub forward_component : Ptr → Ptr → Cmd (Unit {0})
  unfolding is_up load enqueue free_packet
  forward_component this packet = do
    up ← is_up this
    if up then (do c ← load this; enqueue c.output packet) else free_packet packet

  -- `network_process`: a packet that was read from a port's interface
  unfoldable pub network_process : Ptr → Ptr → Cmd (Unit {0})
  unfolding is_up load enqueue free_packet
  network_process port packet = do
    up ← is_up port
    if up then (do c ← load port; enqueue c.output packet) else free_packet packet

-- `packet_read` of a component is not implemented: it always returns `NULL`.
unfoldable pub packet_read : Ptr → Cmd (Option Ptr)
unfolding is_up load
packet_read this = do
  up ← is_up this
  if up
      then (do c ← load this; elim c.output [ none ↦ pure none | some _ ↦ pure none ])
      else pure none

-- The bytes of a buffer, from an offset.
unfoldable pub bytes : (ℕ → ℕ) → ℕ → ℕ → List ℕ
bytes buffer at zero = []
bytes buffer at (suc n) = buffer at ∷ bytes buffer (at + 1) n

-- `packet->end - packet->start`, kept in a `uint16_t`.
abbrev pub packet_len : Packet → ℕ
packet_len p = (p.end + 2 ^ 16 - p.start) % 2 ^ 16

-- `write(fd, packet->buffer, packet->end - packet->start)`: the bytes from the buffer's beginning.
unfoldable pub send : ℕ → Packet → Cmd (Unit {0})
unfolding bytes
send fd p = modify (λ w. record w { sent = (fd, bytes p.buffer 0 (p.end - p.start)) ∷ w.sent })

-- `packet_forward` of a virtual port
unfoldable pub forward_virtual : Ptr → Ptr → Cmd (Unit {0})
unfolding is_up load load_packet send free_packet
forward_virtual this packet = do
  up ← is_up this
  if up
      then (do c ← load this; p ← load_packet packet; send c.port.fd p; free_packet packet)
      else free_packet packet

-- `packet_forward` of a physical port
unfoldable pub forward_physical : Ptr → Ptr → Cmd (Unit {0})
unfolding is_up load load_packet send free_packet update
forward_physical this packet = do
  up ← is_up this
  if up
      then (do
        p ← load_packet packet
        update this λ c. record c { port = record (c.port) { sll_addr = bytes p.buffer p.start 6 } }
        c ← load this
        send c.port.wfd p
        free_packet packet)
      else free_packet packet
