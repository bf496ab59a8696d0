-- ===== src/Ownership/Hold.antt =====
-- Steps of a function that holds a packet, and the packet's end.
use netemul.Base.{◌≤◌, ◌≡◌, ◌≢◌, refl, none, Option, arith, ap, sym, ◌∙◌}
use netemul.Node.{Ptr}
use netemul.World.{World, Component, Packet}
use netemul.World.Run.{ok, write, free_packet}
use netemul.World.Ends.{Ends, ends}
use netemul.Ownership.{
  Owned, Held, Sound, Shape, Shape-components, Shape-refl, Shape-trans, Shape-Sound, Taken,
  count_in, count_timers,
}

-- Where a packet is depends on components, packets and timers only.
pub Held-same :
    (w w' : World)
    → w.component ≡ w'.component
    → w.packet ≡ w'.packet
    → w.timers ≡ w'.timers
    → (p : Ptr) → Held w p
    → Held w' p
Held-same w w' components packets timers p h = record {
  packet = h.packet;
  allocated = ap (λ (f : Ptr → Option Packet). f p) (sym packets) ∙ h.allocated;
  unqueued =
      λ a. ap (λ (f : Ptr → Option Component). count_in p (f a)) (sym components) ∙ h.unqueued a;
  untimed = ap (count_timers p) (sym timers) ∙ h.untimed;
}

-- What a step with a packet at hand keeps, `v` being the state before it.
pub record Keeps (v : World) (p : Ptr) (w : World) : Type 0 where
  pub owned : Owned w
  pub held : Held w p
  pub sound : Sound w
  pub shape : Shape v w
  pub lost : (x : Ptr) → Held w x → Held v x

-- A packet at hand is freed.
abbrev pub freed : World → Ptr → World
freed w p = record w { packet = write w.packet p none }

pub freed-Shape : (w : World) (p : Ptr) → Shape w (freed w p)
freed-Shape w p =
    Shape-components w (freed w p) (λ a. refl) (λ a. refl) refl refl refl
      λ sizes a k at. sizes a k (ground (arith, at))

pub freed_lost : (w : World) (p x : Ptr) → Held (freed w p) x → Held w x × (x ≢ p)
freed_lost w p x h = (
  record {
    packet = h.packet;
    allocated = ground (arith, h.allocated);
    unqueued = h.unqueued;
    untimed = h.untimed;
  },
  λ same. ground (arith, h.allocated),
)

pub free_packet-ok : (w : World) (p : Ptr) → Held w p → free_packet p w ≡ ok tt (freed w p)
unfolding free_packet
free_packet-ok w p held = rw held.allocated

-- A packet at hand may be freed.
pub free_packet-Owned : (w : World) (p : Ptr) → Owned w → Held w p → Owned (freed w p)
free_packet-Owned w p owned held = record {
  stored = λ a r n. ground (arith, owned.stored a r, held.unqueued a);
  once = owned.once;
  apart = owned.apart;
  fresh = λ r n. ground (arith, owned.fresh r);
  timed_stored = λ r n. ground (arith, owned.timed_stored r, held.untimed);
  timed_once = owned.timed_once;
  timed_apart = owned.timed_apart;
}

pub Keeps-refl : (w : World) (p : Ptr) → Owned w → Sound w → Held w p → Keeps w p w
Keeps-refl w p owned sound held = record {
  owned = owned;
  held = held;
  sound = sound;
  shape = Shape-refl w;
  lost = λ x h. h;
}

module _ {u v w : World} {p : Ptr} (k : Keeps u p v) where
  pub Keeps-trans : Keeps v p w → Keeps u p w
  Keeps-trans j = record {
    owned = j.owned;
    held = j.held;
    sound = j.sound;
    shape = Shape-trans k.shape j.shape;
    lost = λ x h. k.lost x (j.lost x h);
  }

  pub Keeps-Taken : Taken v p w → Taken u p w
  Keeps-Taken t = record {
    owned = t.owned;
    sound = t.sound;
    shape = Shape-trans k.shape t.shape;
    lost = λ x h. (k.lost x (t.lost x h).0, (t.lost x h).1);
  }

-- A change that leaves queues, packets and timers alone.
pub Keeps-quiet :
    (w u : World) (p : Ptr)
    → ((a r : Ptr) → count_in r (u.component a) ≡ count_in r (w.component a))
    → u.packet ≡ w.packet
    → u.timers ≡ w.timers
    → w.next ≤ u.next
    → Shape w u
    → Owned w
    → Sound w
    → Held w p
    → Keeps w p u
Keeps-quiet w u p counts packets timers next shape owned sound held = record {
  owned = record {
    stored = λ a r n. counts a r ∙ owned.stored a r (sym (packet r) ∙ n);
    once = λ a r. ground (arith, counts a r, owned.once a r);
    apart = λ a b r n. ground (arith, counts a r, counts b r, owned.apart a b r n);
    fresh = λ r n. ground (arith, packet r, owned.fresh r);
    timed_stored = λ r n. waits r ∙ owned.timed_stored r (sym (packet r) ∙ n);
    timed_once = λ r. ground (arith, waits r, owned.timed_once r);
    timed_apart = λ a r. ground (arith, waits r, counts a r, owned.timed_apart a r);
  };
  held = record {
    packet = held.packet;
    allocated = packet p ∙ held.allocated;
    unqueued = λ a. counts a p ∙ held.unqueued a;
    untimed = waits p ∙ held.untimed;
  };
  sound = Shape-Sound shape sound;
  shape = shape;
  lost = λ x h. record {
    packet = h.packet;
    allocated = sym (packet x) ∙ h.allocated;
    unqueued = λ a. sym (counts a x) ∙ h.unqueued a;
    untimed = sym (waits x) ∙ h.untimed;
  };
}
  where
    packet : (r : Ptr) → u.packet r ≡ w.packet r
    packet r = ap (λ (f : Ptr → Option Packet). f r) packets

    waits : (r : Ptr) → count_timers r u.timers ≡ count_timers r w.timers
    waits r = ap (count_timers r) timers

pub free_packet-Taken :
    (w u : World) (p : Ptr) → Keeps w p u → Ends (λ _ w'. Taken w p w') (free_packet p u)
free_packet-Taken w u p k = rw (free_packet-ok u p k.held) (
    ends (record {
      owned = free_packet-Owned u p k.owned k.held;
      sound = k.sound;
      shape = Shape-trans k.shape (freed-Shape u p);
      lost = λ x h. (k.lost x (freed_lost u p x h).0, (freed_lost u p x h).1);
    }))
