-- ===== src/Port/Create.antt =====
-- What the creation of ports and cables leaves, src/port.c, src/virtual_port.c,
-- src/physical_port.c and src/cable.c.
use netemul.Base.{
  ℕ, ◌≤◌, ◌<◌, ◌≡◌, ◌≢◌, refl, true, false, Option, none, some, [], arith, ◌==◌, ◌∙◌, sym, inl, inr,
  Bool-cases, Option-cases,
}
use netemul.Node.{
  NodeType, Ptr, ForwardMethod, DestroyMethod, component_forward, virtual_forward, physical_forward,
  cable_forward, component_destroy, virtual_port_destroy,
}
use netemul.Env.{Env, Fifo}
use netemul.Env.Laws.{FifoLaws}
use netemul.World.{World, Component}
use netemul.World.Run.{◌>>=◌, load, store, update, malloc, free_component}
use netemul.World.Ends.{Ends, ends, follow}
use netemul.Component.{inherit, destroy_component, zeroed}
use netemul.Component.Wiring.{IsWired, output_of, input_of}
use netemul.Port.{
  new_port, extend_port, as_virtual, as_physical, realloc, virtual_port_create,
  physical_port_create, port_create,
}
use netemul.Node.{packet_queue_size}

-- No address from `next` on is in use.
abbrev pub Fresh : World → Type 0
Fresh w = (a : Ptr) → w.next ≤ a → w.component a ≡ none

-- Nothing but components, addresses and the clocks' readings differs.
pub record Beyond (w w' : World) : Type 0 where
  pub composites : w'.composite ≡ w.composite
  pub packets : w'.packet ≡ w.packet
  pub interfaces : w'.ni ≡ w.ni
  pub manager : w'.manager ≡ w.manager
  pub timers : w'.timers ≡ w.timers
  pub sent : w'.sent ≡ w.sent

-- The methods that a component of a type has from the start.
abbrev pub forward_of : NodeType → ForwardMethod
forward_of NodeType.virtual_port = virtual_forward
forward_of NodeType.physical_port = physical_forward
forward_of NodeType.cable = cable_forward
forward_of _ = component_forward

abbrev pub destroy_of : NodeType → DestroyMethod
destroy_of NodeType.virtual_port = virtual_port_destroy
destroy_of _ = component_destroy

-- A component of a type at a new address, with the methods of its type, connected with nothing, with
-- an empty queue; nothing else has changed. Or no component, and nothing has changed.
pub record New (type : NodeType) (w : World) (p : Ptr) (w' : World) : Type 0 where
  pub unused : w.component p ≡ none
  pub component : Component
  pub queue : Fifo
  pub there : w'.component p ≡ some component
  pub has_type : component.type ≡ type
  pub active : component.is_active ≡ true
  pub free : (component.input ≡ none) × (component.output ≡ none)
  pub has_queue : component.queue ≡ some queue
  pub empty : queue.items ≡ []
  pub others : (a : Ptr) → a ≢ p → w'.component a ≡ w.component a
  pub fresh : Fresh w'
  pub later : w.next < w'.next
  pub forwards : component.packet_forward ≡ forward_of type
  pub destroys : component.destroy ≡ destroy_of type
  pub beyond : Beyond w w'

abbrev pub Created : NodeType → World → Option Ptr → World → Type 0
Created type w none w' = ((a : Ptr) → w'.component a ≡ w.component a) × Beyond w w'
Created type w (some p) w' = New type w p w'

pub self : (a : ℕ) → (a == a) ≡ true
self a = ground arith

module _ (e : Env) (laws : FifoLaws e) (w : World) (fresh : Fresh w) where
  new_port-Created : Ends (Created NodeType.port w) (new_port e w)
  unfolding new_port malloc store inherit update load destroy_component free_component
  new_port-Created = elim (Bool-cases (e.malloc_ok w.next)) [
    | inr m ↦ rw m (
        ends (
          λ a. refl,
          record {
            composites = refl;
            packets = refl;
            interfaces = refl;
            manager = refl;
            timers = refl;
            sent = refl;
          },
        ))
    | inl m ↦ rw m (elim (Option-cases (e.fifo_create packet_queue_size)) [
      | inl f ↦ rw f (
          rw (self w.next) (
            rw (self w.next) (
              rw (self w.next) (
                rw (self w.next) (
                  ends (
                    λ a. ground (arith, fresh w.next),
                    record {
                      composites = refl;
                      packets = refl;
                      interfaces = refl;
                      manager = refl;
                      timers = refl;
                      sent = refl;
                    },
                  ))))))
      | inr (q, f) ↦ rw f (
          rw (self w.next) (
            rw (self w.next) (
              ends (record {
                unused = fresh w.next (omega arith);
                component = record zeroed {
                  type = NodeType.port;
                  is_active = true;
                  queue = some q;
                };
                queue = q;
                there = ground arith;
                has_type = refl;
                active = refl;
                free = (refl, refl);
                has_queue = refl;
                empty = (laws.create_empty packet_queue_size q f).0;
                others = λ a n. ground arith;
                fresh = λ a h. ground (arith, fresh a);
                later = omega arith;
                forwards = refl;
                destroys = refl;
                beyond = record {
                  composites = refl;
                  packets = refl;
                  interfaces = refl;
                  manager = refl;
                  timers = refl;
                  sent = refl;
                };
              }))))
    ])
  ]

-- A change of a component that leaves its state and its connections alone.
record Renames (type : NodeType) (f : Component → Component) : Type 0 where
  typed : (c : Component) → (f c).type ≡ type
  active : (c : Component) → (f c).is_active ≡ c.is_active
  input : (c : Component) → (f c).input ≡ c.input
  output : (c : Component) → (f c).output ≡ c.output
  queue : (c : Component) → (f c).queue ≡ c.queue
  forwards : (c : Component) → (f c).packet_forward ≡ forward_of type
  destroys : (c : Component) → c.destroy ≡ component_destroy → (f c).destroy ≡ destroy_of type

module _ (e : Env) (type : NodeType) (f : Component → Component) (renames : Renames type f)
    (w u : World) (p : Ptr) (new : New NodeType.port w p u) where
  apart : (p == u.next) ≡ false
  apart = ground (arith, new.fresh u.next, new.there)

  apart' : (u.next == p) ≡ false
  apart' = ground (arith, apart)

  -- The port moves to another address, and its type is changed.
  moved-New : e.malloc_ok u.next ≡ true → Ends (Created type w) (extend_port e f (some p) u)
  unfolding extend_port realloc malloc load store update free_component
  moved-New m = rw m (
      rw new.there (
        rw apart (
          rw new.there (
            rw apart' (
              rw (self u.next) (
                ends (record {
                  unused = ground (arith, new.others u.next, new.fresh u.next, apart);
                  component = f new.component;
                  queue = new.queue;
                  there = ground (arith, apart);
                  has_type = renames.typed new.component;
                  active = renames.active new.component ∙ new.active;
                  free = (
                    renames.input new.component ∙ new.free.0,
                    renames.output new.component ∙ new.free.1,
                  );
                  has_queue = renames.queue new.component ∙ new.has_queue;
                  empty = new.empty;
                  others = λ a n. ground (arith, new.others a, new.unused);
                  fresh = λ a h. ground (arith, new.fresh a);
                  later = omega (arith, new.later);
                  forwards = renames.forwards new.component;
                  destroys = renames.destroys new.component new.destroys;
                  beyond = record {
                    composites = new.beyond.composites;
                    packets = new.beyond.packets;
                    interfaces = new.beyond.interfaces;
                    manager = new.beyond.manager;
                    timers = new.beyond.timers;
                    sent = new.beyond.sent;
                  };
                })))))))

module _ (e : Env) (laws : FifoLaws e) (w : World) (fresh : Fresh w)
    (memory : (a : Ptr) → w.next < a → e.malloc_ok a ≡ true) where
  extend_port-Created :
      (type : NodeType) (f : Component → Component)
      → Renames type f
      → Ends (Created type w) ((do m ← new_port e; extend_port e f m) w)
  unfolding extend_port
  extend_port-Created type f renames = follow (new_port-Created e laws w fresh) after
    where
      after :
          (m : Option Ptr) (u : World)
          → Created NodeType.port w m u
          → Ends (Created type w) (extend_port e f m u)
      after none u same = ends same
      after (some p) u new = moved-New e type f renames w u p new (memory u.next new.later)

-- Creating a port of any of the three kinds ends, if the larger objects of the virtual and of the
-- physical port find memory. It gives a component of this kind at an address that was not in use,
-- with the `packet_forward` and the `destroy` of its kind, switched on, connected with nothing, with
-- an empty queue; or it gives no port. The other components, the composites, packets, interfaces,
-- timers, the manager and what was sent are as they were.
pub port_create-Created :
    (e : Env) (laws : FifoLaws e) (w : World)
    → Fresh w
    → ((a : Ptr) → w.next < a → e.malloc_ok a ≡ true)
    → Ends (Created NodeType.port w) (port_create e NodeType.port w)
      × Ends (Created NodeType.virtual_port w) (port_create e NodeType.virtual_port w)
      × Ends (Created NodeType.physical_port w) (port_create e NodeType.physical_port w)
unfolding port_create virtual_port_create physical_port_create
port_create-Created e laws w fresh memory = (
  new_port-Created e laws w fresh,
  extend_port-Created e laws w fresh memory NodeType.virtual_port (as_virtual e) (record {
    typed = λ c. refl;
    active = λ c. refl;
    input = λ c. refl;
    output = λ c. refl;
    queue = λ c. refl;
    forwards = λ c. refl;
    destroys = λ c h. refl;
  }),
  extend_port-Created e laws w fresh memory NodeType.physical_port (as_physical e) (record {
    typed = λ c. refl;
    active = λ c. refl;
    input = λ c. refl;
    output = λ c. refl;
    queue = λ c. refl;
    forwards = λ c. refl;
    destroys = λ c h. h;
  }),
)

module _ (type : NodeType) (w w' : World) (p : Ptr) (new : New type w p w') where
  output-New : (a : Ptr) → output_of (w'.component a) ≡ output_of (w.component a)
  output-New a = ground (arith, new.others a, new.there, new.unused, new.free.1)

  input-New : (a : Ptr) → input_of (w'.component a) ≡ input_of (w.component a)
  input-New a = ground (arith, new.others a, new.there, new.unused, new.free.0)

  -- A new component leaves a sound wiring sound.
  pub New-IsWired : IsWired w → IsWired w'
  New-IsWired wired = record {
    forth = λ a b h. input-New b ∙ wired.forth a b (sym (output-New a) ∙ h);
    back = λ a b h. output-New b ∙ wired.back a b (sym (input-New a) ∙ h);
  }
