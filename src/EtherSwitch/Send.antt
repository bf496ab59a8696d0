-- ===== src/EtherSwitch/Send.antt =====
-- `ether_switch_send` of src/ether_switch.c: what becomes of a packet that a switch's port is given.
use netemul.Base.{
  ◌≡◌, ◌≢◌, refl, Bool, true, false, ◌⊎◌, inl, inr, Option, none, some, List, Bool-cases,
  if◌then◌else◌, arith, ap, subst, sym, ◌∙◌, ◌==◌,
}
use netemul.Node.{Ptr}
use netemul.Env.{Env, MacTableEntity, Cache}
use netemul.Env.Laws.{FifoLaws, CacheLaws, entry, Keyed}
use netemul.World.{World, Packet}
use netemul.World.Run.{load, deref, ◌>>=◌, pure, free_packet}
use netemul.World.Ends.{Ends, ends, follow, weaken, both}
use netemul.Switch.{unicast}
use netemul.Ownership.{
  Copyable, Owned, Held, Sound, Tables, Shape, Shape-refl, Shape-trans, Shape-Sound, count_in,
  is_there,
}
use netemul.Ownership.Hold.{Keeps}
use netemul.Switch.Copies.{Sent, unicast-Sent}
use netemul.Switch.Broadcast.{SwitchPort, Spent, Done, broadcast-Done, free_packet-Spent}
use netemul.Switch.Hub.{up, is_up-up}
use netemul.EtherSwitch.{send_ether, route, send_to, lookup_port, update_table, port_of, smac, dmac}
use netemul.EtherSwitch.Learn.{Learnt, update_table-Learnt}
use netemul.EtherSwitch.Ports.{Known}
use netemul.EtherSwitch.Keep.{tabled, tabled-Keeps, same_component, same_packet, Learnt-Keeps}
use netemul.Switch.Port.{SwitchPort-Shape}
use netemul.EtherSwitch.Route.{Routed, unicast-Routed}

-- A packet is freed, or once in a queue; and the queues and the wiring are as they should be.
pub record Settled (w : World) (p : Ptr) (w' : World) : Type 0 where
  pub owned : Owned w'
  pub sound : Sound w'
  pub shape : Shape w w'
  pub place : (w'.packet p ≡ none) ⊎ ((o : Ptr) × (count_in p (w'.component o) ≡ 1))
  pub lost : (x : Ptr) → Held w' x → Held w x × (x ≢ p)

-- What sending leaves, by its result: the packet is settled, or still at hand.
abbrev Sending : World → Ptr → Bool → World → Type 0
Sending w p true w' = Settled w p w'
Sending w p false w' = Keeps w p w'

module _ (w v : World) (p : Ptr) (k : Keeps w p v) where
  Spent-Settled : (x : World) → Spent v p x → Settled w p x
  Spent-Settled x t = record {
    owned = t.owned;
    sound = t.sound;
    shape = Shape-trans k.shape t.shape;
    place = inl t.freed;
    lost = λ y h. (k.lost y (t.lost y h).0, (t.lost y h).1);
  }

  Done-Sending : (done : Bool) (x : World) → Done v p done x → Sending w p done x
  Done-Sending true x t = Spent-Settled x t
  Done-Sending false x j = record {
    owned = j.owned;
    held = j.held;
    sound = j.sound;
    shape = Shape-trans k.shape j.shape;
    lost = λ y h. k.lost y (j.lost y h);
  }

module _ (e : Env) (fifo : FifoLaws e) (w v : World) (this p : Ptr) (ns : List (Option Ptr))
    (at : SwitchPort v this ns) (k : Keeps w p v) (sizes : Copyable v) where
  unicast-Sending :
      (d : Ptr) → d ≢ this → is_there (v.component d) ≡ true → Ends (Sending w p) (unicast e d p v)
  unicast-Sending d other there =
      weaken
        (both (unicast-Sent e fifo v d p k.owned k.sound k.held there)
          (unicast-Routed e fifo v at.switch this d p k.sound k.held other there))
        after
    where
      after :
          (sent : Bool) (x : World)
          → Sent e fifo v p sent x × Routed v at.switch this d p sent x
          → Sending w p sent x
      after true x ((o, s, _, lost), (_, f, _)) = record {
        owned = o;
        sound = Shape-Sound s k.sound;
        shape = Shape-trans k.shape s;
        place = inr (f.peer, f.arrived);
        lost = λ y h. (k.lost y (lost y h).0, (lost y h).1);
      }
      after false x (same, _) = subst (Keeps w p) (sym same) k

  send_to-Sending :
      (dst : Option Ptr)
      → ((d : Ptr) → dst ≡ some d → is_there (v.component d) ≡ true)
      → Ends (Sending w p) (send_to e dst this p v)
  unfolding send_to
  send_to-Sending none there =
      weaken (broadcast-Done e fifo v this p ns at sizes k.owned k.sound k.held)
        (Done-Sending w v p k)
  send_to-Sending (some d) there = elim (Bool-cases (d == this)) [
    | inl self ↦ rw self (ends k)
    | inr other ↦ rw other (unicast-Sending d (ground arith) (there d refl))
  ]

-- Where nothing is left to do, the packet is freed if it is still at hand.
finish-Settled :
    (w : World) (p : Ptr) (sent : Bool) (x : World)
    → Sending w p sent x
    → Ends (λ _ w'. Settled w p w') ((if sent then pure tt else free_packet p) x)
finish-Settled w p true x t = ends t
finish-Settled w p false x k = weaken (free_packet-Spent x p k) λ _ y t. record {
  owned = t.owned;
  sound = t.sound;
  shape = t.shape;
  place = inl t.freed;
  lost = t.lost;
}

module _ (e : Env) (fifo : FifoLaws e) (laws : CacheLaws e) (w : World) (this p : Ptr)
    (ns : List (Option Ptr)) (at : SwitchPort w this ns) (c : Cache) (packet : Packet)
    (sizes : Copyable w) (owned : Owned w) (sound : Sound w) (held : Held w p)
    (at_hand : w.packet p ≡ some packet)
    (known : Known (λ a. is_there (w.component a)) c.entries) where
  route-Sending :
      (u : World)
      → Learnt w at.switch at.composite c (smac packet) this true u
      → Ends (Sending w p) (route e at.switch this p u)
  unfolding route lookup_port
  route-Sending u l =
      rw (same_packet w this p ns at c (smac packet) owned sound held true u l p ∙ at_hand) (
        rw l.there (
          rw l.has_table (
            rw l.there (
              send_to-Sending e fifo w looked_up this p ns again kept (kept.shape.packets sizes)
                (port_of (e.cache_get l.table (dmac packet)).0) ports))))
    where
      looked_up : World
      looked_up = tabled u at.switch l.switch (e.cache_get l.table (dmac packet)).1

      good :
          Tables u
          → Keyed (e.cache_get l.table (dmac packet)).1.entries
            × Known (λ a. is_there (u.component a)) (e.cache_get l.table (dmac packet)).1.entries
      good tables =
          let (keyed, known) = tables at.switch l.switch l.table l.there l.has_table in
          (
            laws.get_keyed l.table (dmac packet) keyed,
            λ k v h. known k v (sym (laws.kept_lem l.table (dmac packet) k) ∙ h),
          )

      kept : Keeps w p looked_up
      kept =
          tabled-Keeps u at.switch l.switch (e.cache_get l.table (dmac packet)).1 l.there l.table
            l.has_table good
            (Learnt-Keeps w this p ns at c (smac packet) owned sound held true u l
              (ground (arith, at.there)) known)

      again : SwitchPort looked_up this ns
      again = SwitchPort-Shape w looked_up this ns at kept.shape

      ports :
          (d : Ptr)
          → port_of (e.cache_get l.table (dmac packet)).0 ≡ some d
          → is_there (u.component d) ≡ true
      ports d h =
          by_entry (entry l.table.entries (dmac packet)) refl
            (ap port_of (sym (laws.get_lem l.table (dmac packet))) ∙ h)
        where
          in_table : Known (λ a. is_there (w.component a)) l.table.entries
          in_table = l.ports (λ a. is_there (w.component a)) (ground (arith, at.there)) known

          by_entry :
              (o : Option MacTableEntity)
              → entry l.table.entries (dmac packet) ≡ o
              → port_of (entry l.table.entries (dmac packet)) ≡ some d
              → is_there (u.component d) ≡ true
          by_entry none q h = ground (arith, q)
          by_entry (some v) q h =
              ap is_there
                (same_component w this p ns at c (smac packet) owned sound held true u l d)
              ∙ ground (arith, in_table (dmac packet) v q)

-- A switch's port that is given a packet at hand never fails, if every packet can be copied,
-- there is memory for an entry of the table and the table leads to ports that are there. Afterwards the packet is freed or once in
-- a queue, no packet is in two places, none that was freed is kept, none is lost that was not lost
-- before, and the nodes are as they were: whether the port is up or not, the table is updated or
-- not, and the destination is known, unknown, or where the packet came from.
pub send_ether-Settled :
    (e : Env) (fifo : FifoLaws e) (laws : CacheLaws e) (w : World) (this p : Ptr)
    (ns : List (Option Ptr)) (at : SwitchPort w this ns) (c : Cache) (packet : Packet)
    → Copyable w
    → Owned w
    → Sound w
    → Held w p
    → w.packet p ≡ some packet
    → Known (λ a. is_there (w.component a)) c.entries
    → at.composite.table ≡ some c
    → Keyed c.entries
    → e.malloc_ok w.next ≡ true
    → Ends (λ _ w'. Settled w p w') (send_ether e this p w)
unfolding send_ether
send_ether-Settled e fifo laws w this p ns at c packet sizes owned sound held at_hand known has
      keyed memory =
    rw (is_up-up w this p ns at) (by_up (up w this p ns at))
  where
    start : Keeps w p w
    start = record {
      owned = owned;
      held = held;
      sound = sound;
      shape = Shape-refl w;
      lost = λ x h. h;
    }

    freed : (u : World) → Keeps w p u → Ends (λ _ w'. Settled w p w') (free_packet p u)
    freed u k = finish-Settled w p false u k

    after :
        (learnt : Bool) (u : World)
        → Learnt w at.switch at.composite c (smac packet) this learnt u
        → Ends
            (λ _ w'. Settled w p w')
            ((if learnt
                then (do sent ← route e at.switch this p; if sent then pure tt else free_packet p)
                else free_packet p)
              u)
    after true u l =
        follow
          (route-Sending e fifo laws w this p ns at c packet sizes owned sound held at_hand known u
            l)
          (finish-Settled w p)
    after false u l = freed u (
        Learnt-Keeps w this p ns at c (smac packet) owned sound held false u l
          (ground (arith, at.there)) known)

    by_up :
        (b : Bool)
        → Ends
            (λ _ w'. Settled w p w')
            ((if b
                then (do
                  c ← load this
                  s ← deref c.owner
                  learnt ← update_table e s p this
                  if learnt
                      then (do sent ← route e s this p; if sent then pure tt else free_packet p)
                      else free_packet p)
                else free_packet p)
              w)
    by_up true = rw at.there (
        rw at.owner (
          follow
            (update_table-Learnt e laws w at.switch p this at.composite c packet at.switch_there has
              keyed at_hand memory)
            after))
    by_up false = freed w start
