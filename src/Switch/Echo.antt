-- ===== src/Switch/Echo.antt =====
-- `hub_send` of src/hub_switch.c never gives a packet to what only the port it came by leads to.
use netemul.Base.{
  ◌≡◌, ◌≢◌, refl, Bool, true, false, Option, none, some, List, [], ◌∷◌, arith, ◌==◌, ◌∙◌, sym,
  if◌then◌else◌, ◌⊎◌, inl, inr, Bool-cases,
}
use netemul.Node.{Ptr}
use netemul.Env.{Env}
use netemul.Env.Laws.{FifoLaws, has_room}
use netemul.World.{World, Component}
use netemul.World.Run.{◌>>=◌, ◌>>◌, pure, free_packet}
use netemul.World.Ends.{Ends, ends, follow, weaken, both}
use netemul.Component.{push_to}
use netemul.Component.Wiring.{output_of}
use netemul.Switch.{
  packet_dup, unicast, send_out, offer, with_copy, broadcast_to, broadcast, send_hub,
}
use netemul.Ownership.{Copyable, Owned, Held, Sound, Shape, is_there, same_output, same_there}
use netemul.Ownership.Hold.{Keeps, free_packet-ok}
use netemul.Ownership.Push.{get_component, get_queue, push_to-queued, push_to-full}
use netemul.Switch.Copies.{Duplicated, packet_dup-Ends, Sent, unicast-Sent, offer-Offered}
use netemul.Switch.Broadcast.{
  Nodes, Shape-Nodes, SwitchPort, Done, broadcast_to-Keeps, broadcast-Done, children-ok,
}
use netemul.Switch.Hub.{up, is_up-up}

-- No other port of these leads to a component.
abbrev pub Apart : Ptr → Ptr → World → List (Option Ptr) → Type 0
Apart a port w [] = Unit
Apart a port w (none ∷ ns) = Apart a port w ns
Apart a port w (some d ∷ ns) = (d ≢ port → output_of (w.component d) ≢ some a) × Apart a port w ns

Shape-Apart :
    (a port : Ptr) {v w : World} (ns : List (Option Ptr))
    → Shape v w
    → Apart a port v ns
    → Apart a port w ns
Shape-Apart a port [] s h = tt
Shape-Apart a port (none ∷ ns) s h = Shape-Apart a port ns s h
Shape-Apart a port (some d ∷ ns) s h =
    (λ n q. h.0 n (sym (same_output _ _ (s.same d)) ∙ q), Shape-Apart a port ns s h.1)

-- A component is as it was.
abbrev pub Still : Ptr → World → World → Type 0
Still a w u = u.component a ≡ w.component a

packet_dup-Still :
    (e : Env) (w : World) (a p : Ptr)
    → Copyable w
    → Held w p
    → Ends (λ _ u. Still a w u) (packet_dup e p w)
unfolding packet_dup
packet_dup-Still e w a p sizes held = elim (Bool-cases (e.malloc_ok w.next)) [
  | inl y ↦ rw (y, held.allocated, sizes p held.packet held.allocated) (ends refl)
  | inr n ↦ rw n (ends refl)
]

module _ (e : Env) (laws : FifoLaws e) where
  unicast-Still :
      (w : World) (a dst r : Ptr)
      → Sound w
      → is_there (w.component dst) ≡ true
      → output_of (w.component dst) ≢ some a
      → Ends (λ _ u. Still a w u) (unicast e dst r w)
  unfolding unicast send_out
  unicast-Still w a dst r sound h other =
      let (c, there) = get_component (w.component dst) h in
      rw there (by_output c there c.output refl)
    where
      push_to-Still :
          (o : Ptr)
          → output_of (w.component dst) ≡ some o
          → Ends (λ _ u. Still a w u) (push_to e o r w)
      push_to-Still o out =
          let (d, q, at, queue) = get_queue (w.component o) (sound dst o out) in
          elim (Bool-cases (has_room q)) [
            | inl room ↦
                rw (push_to-queued e laws w o d q r at queue room)
                  (ends (ground (arith, out, other)))
            | inr full ↦ rw (push_to-full e laws w o d q r at queue full) (ends refl)
          ]

      by_output :
          (c : Component)
          → w.component dst ≡ some c
          → (o : Option Ptr) → c.output ≡ o
          → Ends (λ _ u. Still a w u) (send_out e o r w)
      by_output c there none unset = ends refl
      by_output c there (some o) out = push_to-Still o (ground (arith, out))

  offer-Still :
      (w : World) (a dst r : Ptr)
      → Owned w
      → Sound w
      → Held w r
      → is_there (w.component dst) ≡ true
      → output_of (w.component dst) ≢ some a
      → Ends (λ _ u. Still a w u) (offer e dst r w)
  unfolding offer
  offer-Still w a dst r owned sound held h other =
      follow
        (both (unicast-Sent e laws w dst r owned sound held h)
          (unicast-Still w a dst r sound h other))
        after
    where
      after :
          (sent : Bool) (u : World)
          → Sent e laws w r sent u × Still a w u
          → Ends (λ _ x. Still a w x) ((if sent then pure tt else free_packet r) u)
      after true u (s, still) = ends still
      after false u (same, still) = rw same (rw (free_packet-ok w r held) (ends refl))

  broadcast_to-Still :
      (a port p : Ptr) (ns : List (Option Ptr)) (w : World)
      → Copyable w
      → Owned w
      → Sound w
      → Held w p
      → Nodes w ns
      → Apart a port w ns
      → Ends (λ _ u. Still a w u) (broadcast_to e ns port p w)
  unfolding broadcast_to
  broadcast_to-Still a port p [] w sizes owned sound held nodes others = ends refl
  broadcast_to-Still a port p (none ∷ ns) w sizes owned sound held nodes others =
      broadcast_to-Still a port p ns w sizes owned sound held nodes others
  broadcast_to-Still a port p (some dst ∷ ns) w sizes owned sound held nodes others =
      send_copy (broadcast_to-Still a port p ns) (Bool-cases (dst == port))
    where
      Rest : Type 0
      Rest =
          (w : World)
          → Copyable w
          → Owned w
          → Sound w
          → Held w p
          → Nodes w ns
          → Apart a port w ns
          → Ends (λ _ u. Still a w u) (broadcast_to e ns port p w)

      after_dup :
          Rest
          → dst ≢ port
          → (m : Option Ptr) (u : World) → Duplicated w p m u × Still a w u
          → Ends
              (λ _ x. Still a w x)
              (with_copy m (λ copied. offer e dst copied >> broadcast_to e ns port p) u)
      after_dup rest n none u (d, still) = ends still
      after_dup rest n (some r) u (d, still) =
          let there = same_there _ _ (d.shape.same dst) ∙ nodes.0 in
          follow
            (both
              (offer-Offered e laws u dst r p d.owned d.sound d.copied.0 d.held d.copied.1 there)
              (offer-Still u a dst r d.owned d.sound d.copied.0 there
                λ q. others.0 n (sym (same_output _ _ (d.shape.same dst)) ∙ q)))
            λ _ v ((k, _), still').
              weaken
                (rest v (k.shape.packets (d.shape.packets sizes)) k.owned k.sound k.held
                  (Shape-Nodes ns k.shape (Shape-Nodes ns d.shape nodes.1))
                  (Shape-Apart a port ns k.shape (Shape-Apart a port ns d.shape others.1)))
                λ _ x still''. still'' ∙ still' ∙ still

      send_copy :
          Rest
          → (((dst == port) ≡ true) ⊎ ((dst == port) ≡ false))
          → Ends (λ _ u. Still a w u) (broadcast_to e (some dst ∷ ns) port p w)
      send_copy rest (inl self) =
          rw (self, broadcast_to) (rest w sizes owned sound held nodes.1 others.1)
      send_copy rest (inr other) =
          rw (other, broadcast_to)
            (follow
              (both (packet_dup-Ends e w p sizes owned held sound)
                (packet_dup-Still e w a p sizes held))
              (after_dup rest (ground (arith, other))))

broadcast-Still :
    (e : Env) (laws : FifoLaws e) (w : World) (port p a : Ptr) (ns : List (Option Ptr))
    → SwitchPort w port ns
    → Copyable w
    → Owned w
    → Sound w
    → Held w p
    → Apart a port w ns
    → Ends (λ _ u. Still a w u) (broadcast e port p w)
unfolding broadcast
broadcast-Still e laws w port p a ns at sizes owned sound held others = rw at.there (
    rw at.owner (
      rw (children-ok w at.switch at.composite ns at.switch_there at.first) (
        follow
          (both (broadcast_to-Keeps e laws port p ns w sizes owned sound held at.nodes)
            (broadcast_to-Still e laws a port p ns w sizes owned sound held at.nodes others))
          after)))
  where
    after :
        (all : Bool) (u : World)
        → Keeps w p u × Still a w u
        → Ends (λ _ x. Still a w x) ((if all then free_packet p >> pure true else pure false) u)
    after true u (k, still) = rw (free_packet-ok u p k.held) (ends still)
    after false u (k, still) = ends still

-- A hub never sends a packet back: what no other port of the hub leads to, with its queue, is as it
-- was when a packet has been given to a port, if every packet can be copied.
pub send_hub-Still :
    (e : Env) (laws : FifoLaws e) (w : World) (port p a : Ptr) (ns : List (Option Ptr))
    → SwitchPort w port ns
    → Copyable w
    → Owned w
    → Sound w
    → Held w p
    → Apart a port w ns
    → Ends (λ _ u. Still a w u) (send_hub e port p w)
unfolding send_hub
send_hub-Still e laws w port p a ns at sizes owned sound held others =
    rw (is_up-up w port p ns at) (by_up (up w port p ns at))
  where
    freed : Ends (λ _ u. Still a w u) (free_packet p w)
    freed = rw (free_packet-ok w p held) (ends refl)

    after :
        (done : Bool) (u : World)
        → Done w p done u × Still a w u
        → Ends (λ _ x. Still a w x) ((if done then pure tt else free_packet p) u)
    after true u (d, still) = ends still
    after false u (k, still) = rw (free_packet-ok u p k.held) (ends still)

    by_up :
        (b : Bool)
        → Ends
            (λ _ u. Still a w u)
            ((if b
                then (do done ← broadcast e port p; if done then pure tt else free_packet p)
                else free_packet p)
              w)
    by_up true =
        follow
          (both (broadcast-Done e laws w port p ns at sizes owned sound held)
            (broadcast-Still e laws w port p a ns at sizes owned sound held others))
          after
    by_up false = freed
