-- ===== src/Ownership/Delay.antt =====
-- A packet that waits for a timer of a cable.
use netemul.Base.{suc, ◌≡◌, ◌≢◌, refl, true, ◌||◌, List, [], ◌∷◌, ◌++◌, arith, if◌then◌else◌, ◌==◌}
use netemul.Node.{Ptr}
use netemul.World.{World, Timer}
use netemul.Ownership.{
  Owned, Held, Shape, Shape-trans, Taken, count_timers, delays, is_cable, Waiting, keep-Tables,
  same_cable,
}
use netemul.Ownership.Hold.{Keeps}

count_timers-append :
    (p : Ptr) (ts : List Timer) (t : Timer)
    → count_timers p (ts ++ t ∷ [])
      ≡ (if p == t.packet then suc (count_timers p ts) else count_timers p ts)
count_timers-append p [] t = refl
count_timers-append p (s ∷ ts) t = ground (arith, count_timers-append p ts t)

delays-append :
    (a : Ptr) (ts : List Timer) (t : Timer)
    → delays a (ts ++ t ∷ []) ≡ (delays a ts || (a == t.cable))
delays-append a [] t = ground arith
delays-append a (s ∷ ts) t = ground (arith, delays-append a ts t)

-- The state with one more timer.
abbrev pub delayed : World → Timer → World
delayed w t = record w { timers = w.timers ++ t ∷ [] }

module _ (w v : World) (t : Timer) (k : Keeps w t.packet v)
    (cable : is_cable (w.component t.cable) ≡ true) where
  counted :
      (r : Ptr)
      → count_timers r (delayed v t).timers
        ≡ (if r == t.packet then suc (count_timers r v.timers) else count_timers r v.timers)
  counted r = count_timers-append r v.timers t

  delayed-Owned : Owned (delayed v t)
  delayed-Owned = record {
    stored = k.owned.stored;
    once = k.owned.once;
    apart = k.owned.apart;
    fresh = k.owned.fresh;
    timed_stored = λ r n. ground (arith, counted r, k.owned.timed_stored r n, k.held.allocated);
    timed_once = λ r. ground (arith, counted r, k.owned.timed_once r, k.held.untimed);
    timed_apart = λ a r.
        ground (arith, counted r, k.owned.timed_apart a r, k.held.untimed, k.held.unqueued a);
  }

  delayed-Waiting : Waiting v → Waiting (delayed v t)
  delayed-Waiting waiting a h = ground (
    arith,
    delays-append a v.timers t,
    waiting a,
    same_cable (v.component t.cable) (w.component t.cable) (k.shape.same t.cable),
    cable,
  )

  delayed-Shape : Shape v (delayed v t)
  delayed-Shape = record {
    same = λ a. refl;
    boxes = λ a. refl;
    manager = refl;
    interfaces = refl;
    tables = keep-Tables v (delayed v t) (λ a. refl) (λ a. refl);
    waiting = delayed-Waiting;
    packets = λ h. h;
  }

  delayed_lost : (x : Ptr) → Held (delayed v t) x → Held v x × (x ≢ t.packet)
  delayed_lost x h = (
    record {
      packet = h.packet;
      allocated = h.allocated;
      unqueued = h.unqueued;
      untimed = ground (arith, counted x, h.untimed);
    },
    λ same. ground (arith, counted x, h.untimed),
  )

  pub delayed-Taken : Taken w t.packet (delayed v t)
  delayed-Taken = record {
    owned = delayed-Owned;
    sound = k.sound;
    shape = Shape-trans k.shape delayed-Shape;
    lost = λ x h. (k.lost x (delayed_lost x h).0, (delayed_lost x h).1);
  }
