-- ===== src/EtherSwitch/Route.antt =====
-- Where src/ether_switch.c sends a packet whose destination is in the table.
use netemul.Base.{
  ◌∙◌, ◌≡◌, ◌≢◌, refl, Bool, true, false, Option, none, some, arith, ◌==◌, ◌⊎◌, inl, inr,
  Bool-cases,
}
use netemul.Node.{Ptr}
use netemul.Env.{Env, Fifo, MacTableEntity, Cache}
use netemul.Env.Laws.{FifoLaws, CacheLaws, entry, has_room}
use netemul.World.{World, Component, Composite, Packet}
use netemul.World.Run.{write}
use netemul.World.Ends.{Ends, ends, weaken}
use netemul.Component.{push_to}
use netemul.Component.Wiring.{output_of}
use netemul.Switch.{unicast, send_out}
use netemul.Ownership.{Held, Sound, count_in, is_there, outline}
use netemul.EtherSwitch.Learn.{retable_outline}
use netemul.Ownership.Push.{get_component, get_queue, push_to-queued, push_to-full, count_in-queued}
use netemul.EtherSwitch.{route, send_to, dmac}

-- The packet is in the one queue that a port leads to, and no other component has changed.
pub record Forwarded (w : World) (port packet : Ptr) (w' : World) : Type 0 where
  pub peer : Ptr
  pub leads : output_of (w.component port) ≡ some peer
  pub arrived : count_in packet (w'.component peer) ≡ 1
  pub others : (a : Ptr) → a ≢ peer → w'.component a ≡ w.component a

-- A port leads to a queue that is full.
pub record Full (w : World) (port : Ptr) : Type 0 where
  pub peer : Ptr
  pub component : Component
  pub queue : Fifo
  pub leads : output_of (w.component port) ≡ some peer
  pub there : w.component peer ≡ some component
  pub has_queue : component.queue ≡ some queue
  pub full : has_room queue ≡ false

-- Why a packet for a port is not sent on: it came by this port, which is not where it goes back to,
-- or the port leads nowhere, or to a full queue.
abbrev pub Stuck : World → Ptr → Ptr → Type 0
Stuck w this port = (port ≡ this) ⊎ ((output_of (w.component port) ≡ none) ⊎ Full w port)

-- Nothing but components and the table of a switch differs.
pub record Outside (w : World) (s : Ptr) (w' : World) : Type 0 where
  pub others : (a : Ptr) → a ≢ s → w'.composite a ≡ w.composite a
  pub outlined : outline (w'.composite s) ≡ outline (w.composite s)
  pub packets : w'.packet ≡ w.packet
  pub interfaces : w'.ni ≡ w.ni
  pub manager : w'.manager ≡ w.manager
  pub timers : w'.timers ≡ w.timers
  pub next : w'.next ≡ w.next
  pub readings : w'.readings ≡ w.readings
  pub sent : w'.sent ≡ w.sent

-- By the result: sent on by a port, or still at hand where there is a reason, with no component
-- changed.
abbrev pub Routed : World → Ptr → Ptr → Ptr → Ptr → Bool → World → Type 0
Routed w s this port packet true w' = (port ≢ this) × Forwarded w port packet w' × Outside w s w'
Routed w s this port packet false w' =
    Stuck w this port × (w'.component ≡ w.component) × Outside w s w'

module _ (e : Env) (fifo : FifoLaws e) (w : World) (s this d packet : Ptr) (sound : Sound w)
    (held : Held w packet) (other : d ≢ this) where
  push_to-Routed :
      (o : Ptr)
      → output_of (w.component d) ≡ some o
      → Ends (Routed w s this d packet) (push_to e o packet w)
  push_to-Routed o out =
      let (c, q, there, queue) = get_queue (w.component o) (sound d o out) in
      elim (Bool-cases (has_room q)) [
        | inl room ↦ rw (push_to-queued e fifo w o c q packet there queue room) (
            ends (
              other,
              record {
                peer = o;
                leads = out;
                arrived = ground (
                  arith,
                  count_in-queued e fifo w o c q packet there queue o packet,
                  held.unqueued o,
                );
                others = λ a n. ground arith;
              },
              record {
                others = λ a n. refl;
                outlined = refl;
                packets = refl;
                interfaces = refl;
                manager = refl;
                timers = refl;
                next = refl;
                readings = refl;
                sent = refl;
              },
            ))
        | inr full ↦ rw (push_to-full e fifo w o c q packet there queue full) (
            ends (
              inr (
                  inr (record {
                    peer = o;
                    component = c;
                    queue = q;
                    leads = out;
                    there = there;
                    has_queue = queue;
                    full = full;
                  })),
              refl,
              record {
                others = λ a n. refl;
                outlined = refl;
                packets = refl;
                interfaces = refl;
                manager = refl;
                timers = refl;
                next = refl;
                readings = refl;
                sent = refl;
              },
            ))
      ]

  pub unicast-Routed :
      is_there (w.component d) ≡ true → Ends (Routed w s this d packet) (unicast e d packet w)
  unfolding unicast
  unicast-Routed h =
      let (c, there) = get_component (w.component d) h in rw there (by_output c there c.output refl)
    where
      by_output :
          (c : Component)
          → w.component d ≡ some c
          → (o : Option Ptr) → c.output ≡ o
          → Ends (Routed w s this d packet) (send_out e o packet w)
      by_output c there none unset = ends (
        inr (inl (ground (arith, unset))),
        refl,
        record {
          others = λ a n. refl;
          outlined = refl;
          packets = refl;
          interfaces = refl;
          manager = refl;
          timers = refl;
          next = refl;
          readings = refl;
          sent = refl;
        },
      )
      by_output c there (some o) out = push_to-Routed o (ground (arith, out))

-- A packet for a known address goes to the port of that address alone: it is put once into the
-- queue of what this port leads to, and no other component changes. It is not sent on, and stays at
-- hand with no component changed, only if it came by this port, or the port leads nowhere or to a
-- full queue. Of the rest of the state only the table of the switch may change.
pub route-Routed :
    (e : Env) (fifo : FifoLaws e) (laws : CacheLaws e) (w : World) (s this packet : Ptr)
    (b : Composite) (c : Cache) (p : Packet) (v : MacTableEntity)
    → w.composite s ≡ some b
    → b.table ≡ some c
    → w.packet packet ≡ some p
    → entry c.entries (dmac p) ≡ some v
    → is_there (w.component v.port) ≡ true
    → Sound w
    → Held w packet
    → Ends (Routed w s this v.port packet) (route e s this packet w)
unfolding route
route-Routed e fifo laws w s this packet b c p v there has at known port_there sound held = rw at (
    rw there (
      rw has (
        rw there
          (rw (laws.get_lem c (dmac p)) (rw known (by_port (Bool-cases (v.port == this))))))))
  where
    looked_up : World
    looked_up = record w {
      composite = write w.composite s (some (record b { table = some (e.cache_get c (dmac p)).1 }));
    }

    still_held : Held looked_up packet
    still_held = record {
      packet = held.packet;
      allocated = held.allocated;
      unqueued = held.unqueued;
      untimed = held.untimed;
    }

    outside : (u : World) → Outside looked_up s u → Outside w s u
    outside u o = record {
      others = λ a n. ground (arith, o.others a n);
      outlined =
          o.outlined ∙ ground (arith, there, retable_outline b (e.cache_get c (dmac p)).1 c has);
      packets = o.packets;
      interfaces = o.interfaces;
      manager = o.manager;
      timers = o.timers;
      next = o.next;
      readings = o.readings;
      sent = o.sent;
    }

    full : Full looked_up v.port → Full w v.port
    full f = record {
      peer = f.peer;
      component = f.component;
      queue = f.queue;
      leads = f.leads;
      there = f.there;
      has_queue = f.has_queue;
      full = f.full;
    }

    before :
        (sent : Bool) (u : World)
        → Routed looked_up s this v.port packet sent u
        → Routed w s this v.port packet sent u
    before true u (n, f, o) = (
      n,
      record { peer = f.peer; leads = f.leads; arrived = f.arrived; others = f.others },
      outside u o,
    )
    before false u (inl back, same, o) = (inl back, same, outside u o)
    before false u (inr (inl nowhere), same, o) = (inr (inl nowhere), same, outside u o)
    before false u (inr (inr f), same, o) = (inr (inr (full f)), same, outside u o)

    by_port :
        ((v.port == this) ≡ true) ⊎ ((v.port == this) ≡ false)
        → Ends (Routed w s this v.port packet) (send_to e (some v.port) this packet looked_up)
    by_port (inl self) =
        rw (self, send_to)
          (ends (
            inl (ground (arith, self)),
            refl,
            outside looked_up (record {
              others = λ a n. refl;
              outlined = refl;
              packets = refl;
              interfaces = refl;
              manager = refl;
              timers = refl;
              next = refl;
              readings = refl;
              sent = refl;
            }),
          ))
    by_port (inr other) =
        rw (other, send_to)
          (weaken
            (unicast-Routed e fifo looked_up s this v.port packet sound still_held (ground arith)
              port_there)
            before)
