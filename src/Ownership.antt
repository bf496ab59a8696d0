-- ===== src/Ownership.antt =====
-- Who owns a packet. A packet belongs to one queue, to one timer of a cable, or to the function
-- that holds it: it is never in two places, and no place keeps one that was freed.
pub mod Push
pub mod Hold
pub mod Delay
pub mod Take
use netemul.Base.{
  ℕ, suc, ◌+◌, ◌≤◌, ◌≡◌, ◌≢◌, refl, Bool, true, false, Option, none, some, List, [], ◌∷◌, arith,
  ◌==◌, ◌||◌, if◌then◌else◌, ◌∙◌, sym, ap,
}
use netemul.Node.{
  Ptr, component_forward, hub_send, ether_switch_send, virtual_forward, physical_forward,
  cable_forward,
}
use netemul.Env.{Fifo, Cache}
use netemul.Env.Laws.{Keyed}
use netemul.World.{World, Component, Composite, Packet, Timer, Manager}
use netemul.Component.Wiring.{output_of}
use netemul.EtherSwitch.Ports.{Known}
use netemul.Switch.{can_copy}

-- How often a list holds a number.
abbrev pub count : ℕ → List ℕ → ℕ
count p [] = 0
count p (x ∷ xs) = if p == x then suc (count p xs) else count p xs

abbrev pub count_queue : ℕ → Option Fifo → ℕ
count_queue p none = 0
count_queue p (some q) = count p q.items

-- How often the queue of a component holds a packet.
abbrev pub count_in : ℕ → Option Component → ℕ
count_in p none = 0
count_in p (some c) = count_queue p c.queue

-- How often a packet waits for a timer.
abbrev pub count_timers : ℕ → List Timer → ℕ
count_timers p [] = 0
count_timers p (t ∷ ts) = if p == t.packet then suc (count_timers p ts) else count_timers p ts

pub record Owned (w : World) : Type 0 where
  pub stored : (a p : Ptr) → w.packet p ≡ none → count_in p (w.component a) ≡ 0
  pub once : (a p : Ptr) → count_in p (w.component a) ≤ 1
  pub apart : (a b p : Ptr) → a ≢ b → count_in p (w.component a) + count_in p (w.component b) ≤ 1
  pub fresh : (p : Ptr) → w.next ≤ p → w.packet p ≡ none
  pub timed_stored : (p : Ptr) → w.packet p ≡ none → count_timers p w.timers ≡ 0
  pub timed_once : (p : Ptr) → count_timers p w.timers ≤ 1
  pub timed_apart : (a p : Ptr) → count_in p (w.component a) + count_timers p w.timers ≤ 1

-- The packet is allocated, but in no queue and at no timer: a function holds it, or it is lost.
pub record Held (w : World) (p : Ptr) : Type 0 where
  pub packet : Packet
  pub allocated : w.packet p ≡ some packet
  pub unqueued : (a : Ptr) → count_in p (w.component a) ≡ 0
  pub untimed : count_timers p w.timers ≡ 0

abbrev pub has_queue : Option Component → Bool
has_queue none = false
has_queue (some c) = elim c.queue [ none ↦ false | some _ ↦ true ]

abbrev pub is_there : Option Component → Bool
is_there none = false
is_there (some _) = true

-- What a component leads to is allocated, with a queue.
abbrev pub Sound : World → Type 0
Sound w = (a o : Ptr) → output_of (w.component a) ≡ some o → has_queue (w.component o) ≡ true

-- Each table of a switch holds an address once, and leads to ports that are there.
abbrev pub Tables : World → Type 0
Tables w =
    (s : Ptr) (b : Composite) (c : Cache)
    → w.composite s ≡ some b
    → b.table ≡ some c
    → Keyed c.entries × Known (λ a. is_there (w.component a)) c.entries

-- Is it a cable, and does a packet of it wait for a timer?
abbrev pub is_cable : Option Component → Bool
is_cable none = false
is_cable (some c) = elim c.packet_forward [ cable_forward ↦ true | _ ↦ false ]

abbrev pub delays : Ptr → List Timer → Bool
delays a [] = false
delays a (t ∷ ts) = (a == t.cable) || delays a ts

-- Only cables delay packets.
abbrev pub Waiting : World → Type 0
Waiting w = (a : Ptr) → delays a w.timers ≡ true → is_cable (w.component a) ≡ true

-- Every packet can be copied.
abbrev pub Copyable : World → Type 0
Copyable w = (p : Ptr) (k : Packet) → w.packet p ≡ some k → can_copy k ≡ true

abbrev pub emptied : Option Fifo → Option Fifo
emptied none = none
emptied (some q) = some (record q { items = [] })

-- A component without what the passing of packets changes in it.
abbrev pub skeleton : Option Component → Option Component
skeleton none = none
skeleton (some c) = some (record c {
  queue = emptied c.queue;
  cable = record (c.cable) { output_closed = 0 };
  port = record (c.port) { sll_addr = [] };
})

abbrev pub blanked : Option Cache → Option Cache
blanked none = none
blanked (some t) = some (record { capacity = 0; entries = [] })

abbrev pub outline : Option Composite → Option Composite
outline none = none
outline (some b) = some (record b { table = blanked b.table })

-- The second state has the first one's nodes: no more than queues, tables, the times of cables and
-- the addresses last sent to differ.
pub record Shape (w w' : World) : Type 0 where
  pub same : (a : Ptr) → skeleton (w'.component a) ≡ skeleton (w.component a)
  pub boxes : (a : Ptr) → outline (w'.composite a) ≡ outline (w.composite a)
  pub manager : w'.manager ≡ w.manager
  pub interfaces : w'.ni ≡ w.ni
  pub tables : Tables w → Tables w'
  pub waiting : Waiting w → Waiting w'
  pub packets : Copyable w → Copyable w'

-- What can be read off a skeleton
output-skeleton : (o : Option Component) → output_of (skeleton o) ≡ output_of o
output-skeleton none = refl
output-skeleton (some c) = refl

is_there-skeleton : (o : Option Component) → is_there (skeleton o) ≡ is_there o
is_there-skeleton none = refl
is_there-skeleton (some c) = refl

is_cable-skeleton : (o : Option Component) → is_cable (skeleton o) ≡ is_cable o
is_cable-skeleton none = refl
is_cable-skeleton (some c) = refl

has_queue-emptied :
    (c : Component) (q : Option Fifo)
    → c.queue ≡ q
    → has_queue (skeleton (some c)) ≡ has_queue (some c)
has_queue-emptied c none h = rw h refl
has_queue-emptied c (some q) h = rw h refl

has_queue-skeleton : (o : Option Component) → has_queue (skeleton o) ≡ has_queue o
has_queue-skeleton none = refl
has_queue-skeleton (some c) = has_queue-emptied c c.queue refl

module _ (x y : Option Component) (same : skeleton x ≡ skeleton y) where
  pub same_output : output_of x ≡ output_of y
  same_output = sym (output-skeleton x) ∙ ap output_of same ∙ output-skeleton y

  pub same_queue : has_queue x ≡ has_queue y
  same_queue = sym (has_queue-skeleton x) ∙ ap has_queue same ∙ has_queue-skeleton y

  pub same_cable : is_cable x ≡ is_cable y
  same_cable = sym (is_cable-skeleton x) ∙ ap is_cable same ∙ is_cable-skeleton y

  pub same_there : is_there x ≡ is_there y
  same_there = sym (is_there-skeleton x) ∙ ap is_there same ∙ is_there-skeleton y

-- Tables stay as they are where the composites do, and the components do not go away.
pub keep-Tables :
    (w w' : World)
    → ((a : Ptr) → skeleton (w'.component a) ≡ skeleton (w.component a))
    → ((a : Ptr) → w'.composite a ≡ w.composite a)
    → Tables w
    → Tables w'
keep-Tables w w' same boxes tables s b c there has =
    let (keyed, known) = tables s b c (sym (boxes s) ∙ there) has in
    (keyed, λ k v h. same_there _ _ (same v.port) ∙ known k v h)

pub keep-Waiting :
    (w w' : World)
    → ((a : Ptr) → skeleton (w'.component a) ≡ skeleton (w.component a))
    → w'.timers ≡ w.timers
    → Waiting w
    → Waiting w'
keep-Waiting w w' same timers waiting a h =
    same_cable _ _ (same a) ∙ waiting a (ap (delays a) (sym timers) ∙ h)

-- Only packets, queues, the clock and what was sent differ.
pub Shape-components :
    (w w' : World)
    → ((a : Ptr) → skeleton (w'.component a) ≡ skeleton (w.component a))
    → ((a : Ptr) → w'.composite a ≡ w.composite a)
    → w'.manager ≡ w.manager
    → w'.ni ≡ w.ni
    → w'.timers ≡ w.timers
    → (Copyable w → Copyable w')
    → Shape w w'
Shape-components w w' same boxes manager interfaces timers packets = record {
  same = same;
  boxes = λ a. ap outline (boxes a);
  manager = manager;
  interfaces = interfaces;
  tables = keep-Tables w w' same boxes;
  waiting = keep-Waiting w w' same timers;
  packets = packets;
}

pub Shape-refl : (w : World) → Shape w w
Shape-refl w = Shape-components w w (λ a. refl) (λ a. refl) refl refl refl λ h. h

pub Shape-trans : {u v w : World} → Shape u v → Shape v w → Shape u w
Shape-trans s t = record {
  same = λ a. t.same a ∙ s.same a;
  boxes = λ a. t.boxes a ∙ s.boxes a;
  manager = t.manager ∙ s.manager;
  interfaces = t.interfaces ∙ s.interfaces;
  waiting = λ h. t.waiting (s.waiting h);
  packets = λ h. t.packets (s.packets h);
  tables = λ h. t.tables (s.tables h);
}

pub Shape-Sound : {w w' : World} → Shape w w' → Sound w → Sound w'
Shape-Sound {w} {w'} s sound a o e =
    same_queue _ _ (s.same o) ∙ sound a o (sym (same_output _ _ (s.same a)) ∙ e)

-- After a step took a packet that was at hand: no packet is in two places, none that was freed is
-- kept, none is lost that was not lost before, and the nodes are as they were.
pub record Taken (w : World) (p : Ptr) (w' : World) : Type 0 where
  pub owned : Owned w'
  pub sound : Sound w'
  pub shape : Shape w w'
  pub lost : (x : Ptr) → Held w' x → Held w x × (x ≢ p)
