-- ===== src/Network/Process.antt =====
-- `network_process` of src/network.c: what becomes of a packet that a port's interface received.
use netemul.Base.{
  ◌≡◌, ◌≢◌, Bool, true, false, ◌⊎◌, inl, inr, Option, none, some, List, Bool-cases, if◌then◌else◌,
  arith,
}
use netemul.Node.{Ptr}
use netemul.Env.{Env}
use netemul.Env.Laws.{FifoLaws, has_room}
use netemul.World.{World}
use netemul.World.Run.{◌>>=◌, free_packet, load}
use netemul.World.Ends.{Ends, ends, weaken}
use netemul.Component.{enqueue, network_process}
use netemul.Component.Wiring.{output_of}
use netemul.Ownership.{Owned, Held, Sound, Shape, Shape-refl, Shape-Sound, count_in}
use netemul.Ownership.Push.{
  get_queue, push_to-queued, push_to-full, queued-Owned, queued-Shape, count_in-queued, queued_lost,
}
use netemul.Switch.Broadcast.{SwitchPort, free_packet-Spent}
use netemul.Switch.Hub.{up, is_up-up}

-- Where the packet is afterwards: freed, or once in the queue of what the port leads to.
pub record Placed (w : World) (port p : Ptr) (w' : World) : Type 0 where
  pub owned : Owned w'
  pub sound : Sound w'
  pub shape : Shape w w'
  pub lost : (x : Ptr) → Held w' x → Held w x × (x ≢ p)
  pub place :
      (w'.packet p ≡ none)
      ⊎ ((o : Ptr) × (output_of (w.component port) ≡ some o) × (count_in p (w'.component o) ≡ 1))

module _ (e : Env) (laws : FifoLaws e) (w : World) (port p : Ptr) (owned : Owned w)
    (sound : Sound w) (held : Held w p) where
  freed-Placed : Ends (λ _ w'. Placed w port p w') (free_packet p w)
  freed-Placed =
      weaken
        (free_packet-Spent w p (record {
          owned = owned;
          held = held;
          sound = sound;
          shape = Shape-refl w;
          lost = λ x h. h;
        }))
        λ _ u s. record {
          owned = s.owned;
          sound = s.sound;
          shape = s.shape;
          lost = s.lost;
          place = inl s.freed;
        }

  enqueue-Placed :
      (out : Option Ptr)
      → output_of (w.component port) ≡ out
      → Ends (λ _ w'. Placed w port p w') (enqueue e out p w)
  unfolding enqueue
  enqueue-Placed none unset = freed-Placed
  enqueue-Placed (some o) out =
      let (d, q, there, queue) = get_queue (w.component o) (sound port o out) in
      elim (Bool-cases (has_room q)) [
        | inl room ↦ rw (push_to-queued e laws w o d q p there queue room) (
            ends (record {
              owned = queued-Owned e laws w o d q p there queue owned held;
              sound = Shape-Sound (queued-Shape e laws w o d q p there queue) sound;
              shape = queued-Shape e laws w o d q p there queue;
              lost = queued_lost e laws w o d q p there queue;
              place = inr (
                o,
                out,
                ground (arith, count_in-queued e laws w o d q p there queue o p, held.unqueued o),
              );
            }))
        | inr full ↦ rw (push_to-full e laws w o d q p there queue full) freed-Placed
      ]

-- A packet at hand that a port's interface received is freed or put once into the queue of what
-- the port leads to, and never both; the call does not fail, whether the port is up or not,
-- connected or not, and whether there is room in the queue or not. No other packet is lost by it.
pub network_process-Placed :
    (e : Env) (laws : FifoLaws e) (w : World) (port p : Ptr) (ns : List (Option Ptr))
    → SwitchPort w port ns
    → Owned w
    → Sound w
    → Held w p
    → Ends (λ _ w'. Placed w port p w') (network_process e port p w)
unfolding network_process
network_process-Placed e laws w port p ns at owned sound held =
    rw (is_up-up w port p ns at) (by_up (up w port p ns at))
  where
    by_up :
        (b : Bool)
        → Ends
            (λ _ w'. Placed w port p w')
            ((if b then (do c ← load port; enqueue e c.output p) else free_packet p) w)
    by_up true = rw at.there (
        enqueue-Placed e laws w port p owned sound held at.component.output
          (ground (arith, at.there)))
    by_up false = freed-Placed e laws w port p owned sound held
