-- ===== src/Switch/Hub.antt =====
-- `hub_send` of src/hub_switch.c: what becomes of a packet that a hub's port is given.
use netemul.Base.{◌≡◌, Bool, true, false, inl, inr, Option, List, Bool-cases, if◌then◌else◌}
use netemul.Node.{Ptr}
use netemul.Env.{Env}
use netemul.Env.Laws.{FifoLaws}
use netemul.World.{World}
use netemul.World.Run.{ok, ◌>>=◌, pure, free_packet}
use netemul.World.Ends.{Ends, ends, follow}
use netemul.Component.{is_up}
use netemul.Switch.{send_hub, broadcast}
use netemul.Ownership.{Copyable, Owned, Held, Sound, Shape-refl}
use netemul.Switch.Broadcast.{SwitchPort, Spent, Done, broadcast-Done, free_packet-Spent}
use netemul.Ownership.Hold.{Keeps}

module _ (w : World) (port p : Ptr) (ns : List (Option Ptr)) (at : SwitchPort w port ns) where
  -- Whether a switch's port is up: it is active and so is the switch.
  pub up : Bool
  up = if at.component.is_active then at.composite.is_active else false

  pub is_up-up : is_up port w ≡ ok up w
  unfolding is_up up
  is_up-up = elim (Bool-cases at.component.is_active) [
    | inl y ↦ rw at.there (rw y (rw at.owner (rw at.switch_there)))
    | inr n ↦ rw at.there (rw n)
  ]

-- Where every packet can be copied, a hub's port that is given a packet at hand never fails: afterwards the packet is freed, no packet is in
-- two places, none that was freed is kept, none is lost that was not lost before, and the nodes are
-- as they were. So it is if the port or the hub is off, or memory runs out in the middle.
pub send_hub-Spent :
    (e : Env) (laws : FifoLaws e) (w : World) (port p : Ptr) (ns : List (Option Ptr))
    → SwitchPort w port ns
    → Copyable w
    → Owned w
    → Sound w
    → Held w p
    → Ends (λ _ w'. Spent w p w') (send_hub e port p w)
unfolding send_hub
send_hub-Spent e laws w port p ns at sizes owned sound held =
    rw (is_up-up w port p ns at) (by_up (up w port p ns at))
  where
    start : Keeps w p w
    start = record {
      owned = owned;
      held = held;
      sound = sound;
      shape = Shape-refl w;
      lost = λ x h. h;
    }

    after :
        (done : Bool) (u : World)
        → Done w p done u
        → Ends (λ _ w'. Spent w p w') ((if done then pure tt else free_packet p) u)
    after true u s = ends s
    after false u k = free_packet-Spent u p k

    by_up :
        (b : Bool)
        → Ends
            (λ _ w'. Spent w p w')
            ((if b
                then (do done ← broadcast e port p; if done then pure tt else free_packet p)
                else free_packet p)
              w)
    by_up true = follow (broadcast-Done e laws w port p ns at sizes owned sound held) after
    by_up false = free_packet-Spent w p start
