-- ===== src/Ownership/Push.antt =====
-- A packet at the end of a queue.
use netemul.Base.{
  ℕ, suc, ◌+◌, ◌≡◌, ◌≢◌, refl, true, false, Option, none, some, List, [], ◌∷◌, ◌++◌, arith, ◌==◌,
  if◌then◌else◌,
}
use netemul.Node.{Ptr}
use netemul.Env.{Env, Fifo}
use netemul.Env.Laws.{FifoLaws, has_room, pushed}
use netemul.World.{World, Component}
use netemul.World.Run.{ok, write}
use netemul.Component.{push_to}
use netemul.Ownership.{Owned, Held, Shape, Shape-components, count, count_in, has_queue, is_there}

-- The component and the queue behind a pointer that has one.
pub get_queue :
    (o : Option Component)
    → has_queue o ≡ true
    → (d : Component) × (q : Fifo) × (o ≡ some d) × (d.queue ≡ some q)
get_queue none h = cc
get_queue (some d) h = go d.queue refl
  where
    go :
        (q : Option Fifo)
        → d.queue ≡ q
        → (c : Component) × (r : Fifo) × (some d ≡ some c) × (c.queue ≡ some r)
    go none e = absurd (ground arith)
    go (some q) e = (d, q, refl, e)

pub get_component : (o : Option Component) → is_there o ≡ true → (d : Component) × (o ≡ some d)
get_component none h = cc
get_component (some d) h = (d, refl)

count-append : (p : ℕ) (xs ys : List ℕ) → count p (xs ++ ys) ≡ count p xs + count p ys
count-append p [] ys = omega arith
count-append p (x ∷ xs) ys = ground (arith, count-append p xs ys)

-- The state with a packet put at the end of a queue.
abbrev pub queued : World → Ptr → Component → Fifo → Ptr → World
queued w o d q p = record w {
  component = write w.component o (some (record d { queue = some (pushed q p) }));
}

module _ (e : Env) (laws : FifoLaws e) (w : World) (o : Ptr) (d : Component) (q : Fifo) (p : Ptr)
    (there : w.component o ≡ some d) (queue : d.queue ≡ some q) where
  pub push_to-queued : has_room q ≡ true → push_to e o p w ≡ ok true (queued w o d q p)
  unfolding push_to
  push_to-queued room = rw there (rw queue (rw (laws.push_lem q p, room)))

  pub push_to-full : has_room q ≡ false → push_to e o p w ≡ ok false w
  unfolding push_to
  push_to-full full = rw there (rw queue (rw (laws.push_lem q p, full)))

  pub count_in-queued :
      (a r : Ptr)
      → count_in r ((queued w o d q p).component a) ≡ (
          if a == o
          then (if r == p then suc (count_in r (w.component a)) else count_in r (w.component a))
          else count_in r (w.component a))
  count_in-queued a r = ground (arith, count-append r q.items (p ∷ []))

  pub queued-Owned : Owned w → Held w p → Owned (queued w o d q p)
  queued-Owned owned held = record {
    stored = λ a r n. ground (arith, count_in-queued a r, owned.stored a r n, held.allocated);
    once = λ a r. ground (arith, count_in-queued a r, owned.once a r, held.unqueued a);
    apart = λ a b r n. ground (
      arith,
      count_in-queued a r,
      count_in-queued b r,
      owned.apart a b r n,
      held.unqueued a,
      held.unqueued b,
    );
    fresh = owned.fresh;
    timed_stored = owned.timed_stored;
    timed_once = owned.timed_once;
    timed_apart = λ a r. ground (
      arith,
      count_in-queued a r,
      owned.timed_apart a r,
      held.unqueued a,
      held.untimed,
      owned.timed_once r,
    );
  }

  pub queued-Held : (r : Ptr) → r ≢ p → Held w r → Held (queued w o d q p) r
  queued-Held r n held = record {
    packet = held.packet;
    allocated = held.allocated;
    unqueued = λ a. ground (arith, count_in-queued a r, held.unqueued a);
    untimed = held.untimed;
  }

  pub queued-Shape : Shape w (queued w o d q p)
  queued-Shape =
      Shape-components w (queued w o d q p) (λ a. ground (arith, there, queue)) (λ a. refl) refl
        refl refl (λ h. h)

  -- A packet that nothing keeps now was kept by nothing before, and is another one.
  pub queued_lost : (x : Ptr) → Held (queued w o d q p) x → Held w x × (x ≢ p)
  queued_lost x h = (
    record {
      packet = h.packet;
      allocated = h.allocated;
      unqueued = λ a. ground (arith, count_in-queued a x, h.unqueued a);
      untimed = h.untimed;
    },
    λ same. ground (arith, count_in-queued o x, h.unqueued o),
  )
