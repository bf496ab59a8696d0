-- ===== src/Ownership/Take.antt =====
-- A packet that is taken out of a queue, or away from a timer.
use netemul.Base.{
  suc, ◌≤◌, ◌≡◌, ◌≢◌, refl, true, none, some, Option, List, ◌∷◌, arith, if◌then◌else◌, ◌==◌, ◌⊎◌,
  inl, inr,
}
use netemul.Node.{Ptr}
use netemul.Env.{Fifo}
use netemul.World.{World, Component, Timer, Packet}
use netemul.World.Run.{write}
use netemul.Ownership.{
  Owned, Held, Sound, Shape, Shape-components, Shape-Sound, count, count_in, count_timers, delays,
  keep-Tables,
}

-- Where a packet was taken away, it is at hand, and nothing else is lost.
pub record Got (w : World) (p : Ptr) (w' : World) : Type 0 where
  pub owned : Owned w'
  pub held : Held w' p
  pub sound : Sound w'
  pub shape : Shape w w'
  pub lost : (x : Ptr) → Held w' x → x ≢ p → Held w x

-- A packet that is kept is allocated.
pub allocated_of_kept :
    (w : World) (p : Ptr)
    → Owned w
    → ((a : Ptr) × (1 ≤ count_in p (w.component a))) ⊎ (1 ≤ count_timers p w.timers)
    → (k : Packet) × (w.packet p ≡ some k)
allocated_of_kept w p owned kept = go (w.packet p) refl kept
  where
    go :
        (o : Option Packet)
        → w.packet p ≡ o
        → ((a : Ptr) × (1 ≤ count_in p (w.component a))) ⊎ (1 ≤ count_timers p w.timers)
        → (k : Packet) × (o ≡ some k)
    go (some k) q h = (k, refl)
    go none q (inl (a, h)) = absurd (ground (arith, owned.stored a p q))
    go none q (inr h) = absurd (ground (arith, owned.timed_stored p q))

-- The state with the first packet of a queue taken out.
abbrev pub dequeued : World → Ptr → Component → Fifo → List Ptr → World
dequeued w a c q rest = record w {
  component = write w.component a (some (record c { queue = some (record q { items = rest }) }));
}

module _ (w : World) (a p : Ptr) (c : Component) (q : Fifo) (rest : List Ptr)
    (there : w.component a ≡ some c) (queue : c.queue ≡ some q) (items : q.items ≡ p ∷ rest)
    (owned : Owned w) (sound : Sound w) where
  abbrev after : World
  after = dequeued w a c q rest

  counted_first :
      (r : Ptr) → count_in r (w.component a) ≡ (if r == p then suc (count r rest) else count r rest)
  counted_first r = ground (arith, there, queue, items)

  counted :
      (b r : Ptr)
      → count_in r (after.component b)
        ≡ (if b == a then count r rest else count_in r (w.component b))
  counted b r = ground arith

  none_left : count p rest ≡ 0
  none_left = ground (arith, counted_first p, owned.once a p)

  elsewhere : (b : Ptr) → b ≢ a → count_in p (w.component b) ≡ 0
  elsewhere b n = ground (arith, counted_first p, owned.apart b a p n)

  dequeued-Shape : Shape w after
  dequeued-Shape =
      Shape-components w after (λ b. ground (arith, there, queue)) (λ b. refl) refl refl refl
        (λ h. h)

  dequeued-Owned : Owned after
  dequeued-Owned = record {
    stored = λ b r n. ground (arith, counted b r, counted_first r, owned.stored b r n);
    once = λ b r. ground (arith, counted b r, counted_first r, owned.once b r);
    apart =
        λ b d r n. ground (arith, counted b r, counted d r, counted_first r, owned.apart b d r n);
    fresh = owned.fresh;
    timed_stored = owned.timed_stored;
    timed_once = owned.timed_once;
    timed_apart = λ b r. ground (arith, counted b r, counted_first r, owned.timed_apart b r);
  }

  pub dequeued-Got : Got w p after
  dequeued-Got = record {
    owned = dequeued-Owned;
    held = record {
      packet = (allocated_of_kept w p owned (inl (a, ground (arith, counted_first p)))).0;
      allocated = (allocated_of_kept w p owned (inl (a, ground (arith, counted_first p)))).1;
      unqueued = λ b. ground (arith, counted b p, none_left, elsewhere b);
      untimed = ground (arith, counted_first p, owned.timed_apart a p);
    };
    sound = Shape-Sound dequeued-Shape sound;
    shape = dequeued-Shape;
    lost = λ x h n. record {
      packet = h.packet;
      allocated = h.allocated;
      unqueued = λ b. ground (arith, counted b x, counted_first x, h.unqueued b);
      untimed = h.untimed;
    };
  }

-- A timer's packet is taken when the timer is: `rest` are the other timers.
module _ (w : World) (t : Timer) (rest : List Timer)
    (counts : (r : Ptr)
      → count_timers r w.timers
        ≡ (if r == t.packet then suc (count_timers r rest) else count_timers r rest))
    (remain : (a : Ptr) → delays a rest ≡ true → delays a w.timers ≡ true) (owned : Owned w)
    (sound : Sound w) where
  abbrev fired : World
  fired = record w { timers = rest }

  fired-Owned : Owned fired
  fired-Owned = record {
    stored = owned.stored;
    once = owned.once;
    apart = owned.apart;
    fresh = owned.fresh;
    timed_stored = λ r n. ground (arith, counts r, owned.timed_stored r n);
    timed_once = λ r. ground (arith, counts r, owned.timed_once r);
    timed_apart = λ a r. ground (arith, counts r, owned.timed_apart a r);
  }

  fired-Shape : Shape w fired
  fired-Shape = record {
    same = λ a. refl;
    boxes = λ a. refl;
    manager = refl;
    interfaces = refl;
    tables = keep-Tables w fired (λ a. refl) (λ a. refl);
    waiting = λ waiting a h. waiting a (remain a h);
    packets = λ h. h;
  }

  pub fired-Got : Got w t.packet fired
  fired-Got = record {
    owned = fired-Owned;
    held = record {
      packet = (allocated_of_kept w t.packet owned (inr (ground (arith, counts t.packet)))).0;
      allocated = (allocated_of_kept w t.packet owned (inr (ground (arith, counts t.packet)))).1;
      unqueued = λ a. ground (arith, counts t.packet, owned.timed_apart a t.packet);
      untimed = ground (arith, counts t.packet, owned.timed_once t.packet);
    };
    sound = sound;
    shape = fired-Shape;
    lost = λ x h n. record {
      packet = h.packet;
      allocated = h.allocated;
      unqueued = h.unqueued;
      untimed = ground (arith, counts x, h.untimed);
    };
  }
