-- ===== src/Switch/Copies.antt =====
-- Copies of a packet, src/switch.c, as to who owns them: `packet_dup`, and what becomes of a copy.
use netemul.Base.{
  suc, ◌≡◌, ◌≢◌, refl, Bool, true, false, Option, none, some, arith, ap, sym, if◌then◌else◌, inl,
  inr, Bool-cases, subst, ◌==◌,
}
use netemul.Node.{Ptr}
use netemul.Env.{Env}
use netemul.Env.Laws.{FifoLaws, has_room}
use netemul.World.{World, Component, Packet}
use netemul.World.Run.{write, pure, free_packet}
use netemul.World.Ends.{Ends, ends, follow}
use netemul.Component.{push_to}
use netemul.Switch.{packet_dup, unicast, send_out, offer, copy, can_copy}
use netemul.Ownership.{
  Owned, Held, Sound, Copyable, Shape, Shape-components, Shape-Sound, has_queue, is_there,
}
use netemul.Ownership.Hold.{
  Keeps, Held-same, freed-Shape, freed_lost, free_packet-ok, free_packet-Owned,
}
use netemul.Ownership.Push.{
  get_queue, get_component, push_to-queued, push_to-full, queued-Owned, queued-Held, queued-Shape,
  queued_lost,
}

-- A copy can be copied again.
copy-copyable : (k : Packet) → can_copy k ≡ true → can_copy (copy k) ≡ true
unfolding copy
copy-copyable k h = ground (arith, h)

-- A copy is at hand beside the packet, or there is none.
abbrev pub Copied : Ptr → Option Ptr → World → Type 0
Copied p none w = Unit
Copied p (some r) w = Held w r × (p ≢ r)

-- Such a copy may be lost, but nothing else is that was not lost before.
pub record Duplicated (w : World) (p : Ptr) (m : Option Ptr) (w' : World) : Type 0 where
  pub owned : Owned w'
  pub held : Held w' p
  pub sound : Sound w'
  pub shape : Shape w w'
  pub copied : Copied p m w'
  pub lost : (x : Ptr) → m ≢ some x → Held w' x → Held w x

module _ (w : World) (p : Ptr) (owned : Owned w) (held : Held w p) where
  -- The state after an allocation, with a packet in the new memory or with none.
  abbrev allocated : Option Packet → World
  allocated k = record w { packet = write w.packet w.next k; next = suc w.next }

  next_free : w.packet w.next ≡ none
  next_free = owned.fresh w.next (omega arith)

  ne_next : p ≢ w.next
  ne_next q = ground (arith, held.allocated, next_free)

  allocated-Owned : (k : Packet) → Owned (allocated (some k))
  allocated-Owned k = record {
    stored = λ a r n. ground (arith, owned.stored a r);
    once = owned.once;
    apart = owned.apart;
    fresh = λ r n. ground (arith, owned.fresh r);
    timed_stored = λ r n. ground (arith, owned.timed_stored r);
    timed_once = owned.timed_once;
    timed_apart = owned.timed_apart;
  }

  allocated-Held : (k : Packet) → Held (allocated (some k)) p
  allocated-Held k = record {
    packet = held.packet;
    allocated = ground (arith, ne_next, held.allocated);
    unqueued = held.unqueued;
    untimed = held.untimed;
  }

  allocated-new : (k : Packet) → Held (allocated (some k)) w.next
  allocated-new k = record {
    packet = k;
    allocated = ground arith;
    unqueued = λ a. owned.stored a w.next next_free;
    untimed = owned.timed_stored w.next next_free;
  }

  allocated-Copyable : Copyable w → Copyable (allocated (some (copy held.packet)))
  allocated-Copyable sizes a k at = elim (Bool-cases (a == w.next)) [
    | inl y ↦
        subst (λ k. can_copy k ≡ true) (same y)
          (copy-copyable held.packet (sizes p held.packet held.allocated))
    | inr n ↦ sizes a k (ground (arith, at, n))
  ]
    where
      same : (a == w.next) ≡ true → copy held.packet ≡ k
      same y = ground (arith, at, y)

  -- Nothing is lost but the new packet.
  allocated_lost : (k : Packet) (x : Ptr) → x ≢ w.next → Held (allocated (some k)) x → Held w x
  allocated_lost k x n h = record {
    packet = h.packet;
    allocated = ground (arith, h.allocated);
    unqueued = h.unqueued;
    untimed = h.untimed;
  }

module _ (e : Env) where
  pub packet_dup-Ends :
      (w : World) (p : Ptr)
      → Copyable w
      → Owned w
      → Held w p
      → Sound w
      → Ends (Duplicated w p) (packet_dup e p w)
  unfolding packet_dup
  packet_dup-Ends w p sizes owned held sound = elim (Bool-cases (e.malloc_ok w.next)) [
    | inl y ↦
        rw (y, held.allocated, sizes p held.packet held.allocated)
          (ends (record {
            owned = allocated-Owned w p owned held (copy held.packet);
            held = allocated-Held w p owned held (copy held.packet);
            sound = sound;
            shape =
                Shape-components w (allocated w p owned held (some (copy held.packet))) (λ a. refl)
                  (λ a. refl) refl refl refl (allocated-Copyable w p owned held);
            copied = (allocated-new w p owned held (copy held.packet), ne_next w p owned held);
            lost =
                λ x n. allocated_lost w p owned held (copy held.packet) x λ q. n (ap some (sym q));
          }))
    | inr n ↦ rw n (
        ends (record {
          owned = record {
            stored = owned.stored;
            once = owned.once;
            apart = owned.apart;
            fresh = λ r h. owned.fresh r (omega arith);
            timed_stored = owned.timed_stored;
            timed_once = owned.timed_once;
            timed_apart = owned.timed_apart;
          };
          held = Held-same w (record w { next = suc w.next }) refl refl refl p held;
          sound = sound;
          shape =
              Shape-components w (record w { next = suc w.next }) (λ a. refl) (λ a. refl) refl refl
                refl (λ h. h);
          copied = tt;
          lost = λ x n h. Held-same (record w { next = suc w.next }) w refl refl refl x h;
        }))
  ]

module _ (e : Env) (laws : FifoLaws e) where
  -- What `switch_unicast` of a packet `r` does, by its result.
  abbrev pub Sent : World → Ptr → Bool → World → Type 0
  Sent w r true w' =
      Owned w'
      × Shape w w'
      × ((p : Ptr) → p ≢ r → Held w p → Held w' p)
      × ((x : Ptr) → Held w' x → Held w x × (x ≢ r))
  Sent w r false w' = w' ≡ w

  push_to-Sent :
      (w : World) (o r : Ptr)
      → Owned w
      → Held w r
      → has_queue (w.component o) ≡ true
      → Ends (Sent w r) (push_to e o r w)
  push_to-Sent w o r owned held h =
      let (d, q, there, queue) = get_queue (w.component o) h in
      elim (Bool-cases (has_room q)) [
        | inl room ↦ rw (push_to-queued e laws w o d q r there queue room) (
            ends (
              queued-Owned e laws w o d q r there queue owned held,
              queued-Shape e laws w o d q r there queue,
              λ p n. queued-Held e laws w o d q r there queue p n,
              queued_lost e laws w o d q r there queue,
            ))
        | inr full ↦ rw (push_to-full e laws w o d q r there queue full) (ends refl)
      ]

  pub unicast-Sent :
      (w : World) (dst r : Ptr)
      → Owned w
      → Sound w
      → Held w r
      → is_there (w.component dst) ≡ true
      → Ends (Sent w r) (unicast e dst r w)
  unfolding unicast send_out
  unicast-Sent w dst r owned sound held h =
      let (c, there) = get_component (w.component dst) h in
      rw there (by_output c there c.output refl)
    where
      by_output :
          (c : Component)
          → w.component dst ≡ some c
          → (o : Option Ptr) → c.output ≡ o
          → Ends (Sent w r) (send_out e o r w)
      by_output c there none unset = ends refl
      by_output c there (some o) out =
          push_to-Sent w o r owned held (sound dst o (ground (arith, out)))

  -- After a copy was offered to a port, another packet is still at hand, and the copy is not lost.
  abbrev pub Offered : World → Ptr → Ptr → World → Type 0
  Offered w p r w' = Keeps w p w' × ((x : Ptr) → Held w' x → x ≢ r)

  free_packet-Offered :
      (w : World) (r p : Ptr)
      → Owned w
      → Sound w
      → Held w r
      → Held w p
      → p ≢ r
      → Ends (λ _ w'. Offered w p r w') (free_packet r w)
  free_packet-Offered w r p owned sound held_r held ne = rw (free_packet-ok w r held_r) (
      ends (
        record {
          owned = free_packet-Owned w r owned held_r;
          held = record {
            packet = held.packet;
            allocated = ground (arith, ne, held.allocated);
            unqueued = held.unqueued;
            untimed = held.untimed;
          };
          sound = sound;
          shape = freed-Shape w r;
          lost = λ x h. (freed_lost w r x h).0;
        },
        λ x h. (freed_lost w r x h).1,
      ))

  after_unicast :
      (w : World) (r p : Ptr)
      → Owned w
      → Sound w
      → Held w r
      → Held w p
      → p ≢ r
      → (sent : Bool) (w' : World) → Sent w r sent w'
      → Ends (λ _ u. Offered w p r u) ((if sent then pure tt else free_packet r) w')
  after_unicast w r p owned sound held_r held ne true w' (o, s, keep, lost) = ends (
    record {
      owned = o;
      held = keep p ne held;
      sound = Shape-Sound s sound;
      shape = s;
      lost = λ x h. (lost x h).0;
    },
    λ x h. (lost x h).1,
  )
  after_unicast w r p owned sound held_r held ne false w' same =
      rw same (free_packet-Offered w r p owned sound held_r held ne)

  -- A copy that is offered to a port is queued or freed.
  pub offer-Offered :
      (w : World) (dst r p : Ptr)
      → Owned w
      → Sound w
      → Held w r
      → Held w p
      → p ≢ r
      → is_there (w.component dst) ≡ true
      → Ends (λ _ w'. Offered w p r w') (offer e dst r w)
  unfolding offer
  offer-Offered w dst r p owned sound held_r held ne h =
      follow (unicast-Sent w dst r owned sound held_r h)
        (after_unicast w r p owned sound held_r held ne)
