-- ===== src/Input/Receive.antt =====
-- A packet that `input_process` of src/input.c reads, in a network that is safe.
use netemul.Base.{
  Bool-cases, inl, inr, subst, ℕ, suc, ◌≡◌, ◌≢◌, refl, true, Option, some, List, arith, has,
  if◌then◌else◌, ◌==◌,
}
use netemul.Node.{Ptr}
use netemul.Env.{Env}
use netemul.Env.Laws.{FifoLaws}
use netemul.World.{World, Packet}
use netemul.World.Run.{write}
use netemul.World.Ends.{Ends, weaken}
use netemul.Ownership.{Owned, Held, Copyable, Taken, same_there}
use netemul.Switch.{can_copy}
use netemul.Network.Process.{network_process-Placed}
use netemul.Network.Safe.{Safe, Sane, Sane-Shape, Attached, Stays, Steady, same_box}
use netemul.Network.Alike.{Alike}
use netemul.Network.Active.{Sane-Alike}
use netemul.Input.{receive, read_into, aligned_start, fits_buffer, read_packet, blank_packet}

-- What is known when a packet came.
record Arrived (w v : World) : Type 0 where
  pub owned : Owned v
  pub held : Held v w.next
  pub lost : (x : Ptr) → Held v x → x ≢ w.next → Held w x

-- The state with a new packet.
abbrev arrived : World → (Ptr → Option Packet) → World
arrived w packets = record w { next = suc w.next; packet = packets }

module _ (w : World) (packets : Ptr → Option Packet) (k : Packet)
    (new : (a : Ptr) → packets a ≡ (if a == w.next then some k else w.packet a))
    (owned : Owned w) where
  arrived-Alike : Alike w (arrived w packets)
  arrived-Alike = record {
    same = λ a. refl;
    boxes = λ a. refl;
    interfaces = refl;
    manager = refl;
    timers = refl;
  }

  arrived-Arrived : Arrived w (arrived w packets)
  arrived-Arrived = record {
    owned = record {
      stored = λ a p n. ground (arith, new p, owned.stored a p, owned.fresh p);
      once = owned.once;
      apart = owned.apart;
      fresh = λ p n. ground (arith, new p, owned.fresh p);
      timed_stored = λ p n. ground (arith, new p, owned.timed_stored p);
      timed_once = owned.timed_once;
      timed_apart = owned.timed_apart;
    };
    held = record {
      packet = k;
      allocated = ground (arith, new w.next);
      unqueued = λ a. owned.stored a w.next (owned.fresh w.next (omega arith));
      untimed = owned.timed_stored w.next (owned.fresh w.next (omega arith));
    };
    lost = λ x h n. record {
      packet = h.packet;
      allocated = ground (arith, new x, h.allocated, n);
      unqueued = h.unqueued;
      untimed = h.untimed;
    };
  }

module _ (e : Env) (fifo : FifoLaws e) (memory : (a : Ptr) → e.malloc_ok a ≡ true) (w : World)
    (safe : Safe e w) (fd : ℕ) (polled : has fd w.manager.fds ≡ true) (interface : fd ≢ 0)
    (bytes : List ℕ)
    (fits : fits_buffer (aligned_start (e.buffer_address w.next)) bytes ≡ true) where
  abbrev start : ℕ
  start = aligned_start (e.buffer_address w.next)

  abbrev packets : Ptr → Option Packet
  packets =
      write (write w.packet w.next (some (blank_packet start))) w.next
        (some (read_packet start bytes))

  abbrev v : World
  v = arrived w packets

  came : Arrived w v
  came = arrived-Arrived w packets (read_packet start bytes) (λ b. ground arith) safe.sane.owned

  came-Sane : Sane e v
  came-Sane =
      Sane-Alike e w v
        (arrived-Alike w packets (read_packet start bytes) (λ b. ground arith) safe.sane.owned)
        came.owned safe.sane

  receive-Taken : Ends (λ _ u. Taken v w.next u) (receive e fd (some bytes) w)
  unfolding receive read_into
  receive-Taken = rw (memory w.next) (
      rw a.listed (
        rw a.there (
          rw self (
            rw fits (
              weaken
                (network_process-Placed e fifo v a.interface.port w.next a.port.nodes a.port.at
                  came-Sane.owned came-Sane.sound came.held)
                λ _ u t. record {
                  owned = t.owned;
                  sound = t.sound;
                  shape = t.shape;
                  lost = t.lost;
                })))))
    where
      a : Attached v fd
      a = came-Sane.polled fd polled interface

      self : (w.next == w.next) ≡ true
      self = ground arith

  Taken-Safe : (u : World) → Taken v w.next u → Stays e w u
  Taken-Safe u t = record {
    safe = record {
      sane = Sane-Shape e v u t.shape t.owned t.sound came-Sane;
      kept = λ x h. safe.kept x (came.lost x (t.lost x h).0 (t.lost x h).1);
    };
    manager = t.shape.manager;
    parts = λ a. same_there _ _ (t.shape.same a);
    boxes = λ a. same_box v u t.shape a;
  }

  -- A packet that is read from the interface of a polled descriptor, and fits its buffer where that
  -- is in memory, does not make a safe state fail, if there is memory: it is put into the queue
  -- behind the port or freed, and the state is safe again, with the same manager.
  pub receive-Stays : Ends (λ _ u. Stays e w u) (receive e fd (some bytes) w)
  receive-Stays = weaken receive-Taken λ _ u t. Taken-Safe u t

  came-Copyable : Copyable w → can_copy (read_packet start bytes) ≡ true → Copyable v
  came-Copyable sizes good a k at = elim (Bool-cases (a == w.next)) [
    | inl y ↦ subst (λ k. can_copy k ≡ true) (same y) good
    | inr n ↦ sizes a k (ground (arith, at, n))
  ]
    where
      same : (a == w.next) ≡ true → read_packet start bytes ≡ k
      same y = ground (arith, at, y)

  -- Where all packets can be copied, and the one that is read can, it stays so.
  pub receive-Steady :
      Copyable w
      → can_copy (read_packet start bytes) ≡ true
      → Ends (λ _ u. Steady e w u) (receive e fd (some bytes) w)
  receive-Steady sizes good =
      weaken receive-Taken λ _ u t. record {
        stays = Taken-Safe u t;
        sizes = t.shape.packets (came-Copyable sizes good);
      }
