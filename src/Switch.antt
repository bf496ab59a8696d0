-- ===== src/Switch.antt =====
-- src/switch.c and src/hub_switch.c: how a switch sends a packet on.
pub mod Echo
pub mod Dup
pub mod Copies
pub mod Broadcast
pub mod Port
pub mod Hub
use netemul.Base.{
  ◌+◌, ◌%◌, ◌^◌, Bool, true, false, ◌&&◌, ◌||◌, ℕ, Option, none, some, List, [], ◌∷◌, ltb, leb,
  ◌==◌, if◌then◌else◌,
}
use netemul.Node.{Ptr}
use netemul.Env.{Env}
use netemul.World.{Packet}
use netemul.World.Run.{
  Cmd, pure, ◌>>=◌, ◌>>◌, fails, deref, load, load_packet, store_packet, free_packet, malloc,
  children,
}
use netemul.Component.{push_to, is_up, packet_len}

-- `sizeof(Packet)` counts two bytes behind the offset of `buffer`: they fill up the struct.
abbrev pub slack : ℕ
slack = 2

-- The copy of a packet: the bytes from `start` to `end`, and the first two, which the copy of the
-- struct takes along. `sizeof(Packet) + len` bytes are allocated for it.
unfoldable pub copy : Packet → Packet
copy p = record p {
  end = (p.start + packet_len p) % 2 ^ 16;
  capacity = packet_len p + slack;
  buffer = λ i.
      if ltb i slack || (leb p.start i && ltb i (p.start + packet_len p)) then p.buffer i else 0;
}

-- Do the bytes from `start` on, as many as `packet_dup` takes, end within the packet's block, and
-- within the one that is allocated for the copy?
abbrev pub can_copy : Packet → Bool
can_copy p =
    leb (p.start + packet_len p) p.capacity && leb (p.start + packet_len p) (packet_len p + slack)

-- What is done with a copy, if there was memory for it.
abbrev pub with_copy : Option Ptr → (Ptr → Cmd Bool) → Cmd Bool
with_copy none f = pure false
with_copy (some copied) f = f copied

module _ (e : Env) where
  -- A packet goes where a port leads to, if anywhere.
  unfoldable pub send_out : Option Ptr → Ptr → Cmd Bool
  unfolding push_to
  send_out none packet = pure false
  send_out (some out) packet = push_to e out packet

  -- `switch_unicast`
  unfoldable pub unicast : Ptr → Ptr → Cmd Bool
  unfolding load send_out
  unicast port packet = do c ← load port; send_out c.output packet

  -- `packet_dup`; a copy that does not stay within the blocks is a failure.
  unfoldable pub packet_dup : Ptr → Cmd (Option Ptr)
  unfolding malloc load_packet store_packet copy
  packet_dup packet = do
    m ← malloc e
    elim m [
      | none ↦ pure none
      | some p ↦ (do
        old ← load_packet packet
        if can_copy old then pure tt else fails
        store_packet p (copy old)
        pure (some p))
    ]

  -- A copy goes to one port, or is freed.
  unfoldable pub offer : Ptr → Ptr → Cmd (Unit {0})
  unfolding unicast free_packet
  offer dst copied = do sent ← unicast dst copied; if sent then pure tt else free_packet copied

  -- The loop of `switch_broadcast` over the nodes: `false` if a copy has no memory.
  unfoldable pub broadcast_to : List (Option Ptr) → Ptr → Ptr → Cmd Bool
  unfolding packet_dup offer
  broadcast_to [] port packet = pure true
  broadcast_to (none ∷ ns) port packet = broadcast_to ns port packet
  broadcast_to (some dst ∷ ns) port packet = elim (dst == port) [
    | true ↦ broadcast_to ns port packet
    | false ↦ (do
      m ← packet_dup packet
      with_copy m λ copied. do offer dst copied; broadcast_to ns port packet)
  ]

  -- `switch_broadcast`
  unfoldable pub broadcast : Ptr → Ptr → Cmd Bool
  unfolding load children broadcast_to free_packet
  broadcast port packet = do
    c ← load port
    s ← deref c.owner
    ns ← children s
    all ← broadcast_to ns port packet
    if all then (do free_packet packet; pure true) else pure false

  -- `packet_forward` of a hub's port
  unfoldable pub send_hub : Ptr → Ptr → Cmd (Unit {0})
  unfolding is_up broadcast free_packet
  send_hub this packet = do
    up ← is_up this
    if up
        then (do done ← broadcast this packet; if done then pure tt else free_packet packet)
        else free_packet packet
