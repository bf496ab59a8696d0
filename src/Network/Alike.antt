-- ===== src/Network/Alike.antt =====
-- States that differ in what is switched on, `is_active`, and in packets that no queue has: one is
-- sound where the other is.
use netemul.Base.{ℕ, ◌≡◌, refl, false, Option, none, some, List, [], ◌∷◌, arith, sym, ap, ◌∙◌}
use netemul.Node.{Ptr}
use netemul.Env.{Cache}
use netemul.World.{World, Component, Composite}
use netemul.Component.Wiring.{output_of}
use netemul.Ownership.{Owned, Held, count_in, count_timers, is_cable, is_there, has_queue}
use netemul.Switch.Broadcast.{SwitchPort, Nodes}
use netemul.Switch.Port.{owner_of, walk_again}

abbrev pub shut : Option Component → Option Component
shut none = none
shut (some c) = some (record c { is_active = false })

abbrev pub shut_box : Option Composite → Option Composite
shut_box none = none
shut_box (some b) = some (record b { is_active = false })

pub record Alike (w v : World) : Type 0 where
  pub same : (a : Ptr) → shut (v.component a) ≡ shut (w.component a)
  pub boxes : (a : Ptr) → shut_box (v.composite a) ≡ shut_box (w.composite a)
  pub interfaces : v.ni ≡ w.ni
  pub manager : v.manager ≡ w.manager
  pub timers : v.timers ≡ w.timers

-- What can be read of a component, or of a composite, that is switched off
module _ {A : Type 0} where
  pub by_part :
      (f : Option Component → A)
      → ((c : Component) → f (shut (some c)) ≡ f (some c))
      → (x y : Option Component) → shut x ≡ shut y
      → f x ≡ f y
  by_part f off x y same = sym (at x) ∙ ap f same ∙ at y
    where
      at : (o : Option Component) → f (shut o) ≡ f o
      at none = refl
      at (some c) = off c

  pub by_box :
      (f : Option Composite → A)
      → ((b : Composite) → f (shut_box (some b)) ≡ f (some b))
      → (x y : Option Composite) → shut_box x ≡ shut_box y
      → f x ≡ f y
  by_box f off x y same = sym (at x) ∙ ap f same ∙ at y
    where
      at : (o : Option Composite) → f (shut_box o) ≡ f o
      at none = refl
      at (some b) = off b

abbrev nodes_of : Option Composite → List (Option Ptr)
nodes_of none = []
nodes_of (some b) = b.nodes

abbrev count_of : Option Composite → ℕ
count_of none = 0
count_of (some b) = b.node_count

abbrev pub table_of : Option Composite → Option Cache
table_of none = none
table_of (some b) = b.table

module _ (w v : World) (s : Alike w v) where
  pub there_alike : (a : Ptr) → is_there (v.component a) ≡ is_there (w.component a)
  there_alike a = by_part is_there (λ c. refl) _ _ (s.same a)

  pub output_alike : (a : Ptr) → output_of (v.component a) ≡ output_of (w.component a)
  output_alike a = by_part output_of (λ c. refl) _ _ (s.same a)

  pub queue_alike : (a : Ptr) → has_queue (v.component a) ≡ has_queue (w.component a)
  queue_alike a = by_part has_queue (λ c. refl) _ _ (s.same a)

  count_alike : (p a : Ptr) → count_in p (v.component a) ≡ count_in p (w.component a)
  count_alike p a = by_part (count_in p) (λ c. refl) _ _ (s.same a)

  pub cable_alike : (a : Ptr) → is_cable (v.component a) ≡ is_cable (w.component a)
  cable_alike a = by_part is_cable (λ c. refl) _ _ (s.same a)

  pub Owned-Alike : v.packet ≡ w.packet → v.next ≡ w.next → Owned w → Owned v
  Owned-Alike packets next o = record {
    stored = λ a p h. count_alike p a ∙ o.stored a p (ap (λ f. f p) (sym packets) ∙ h);
    once = λ a p. omega (arith, count_alike p a, o.once a p);
    apart = λ a b p n. omega (arith, count_alike p a, count_alike p b, o.apart a b p n);
    fresh = λ p h. ap (λ f. f p) packets ∙ o.fresh p (omega (arith, next, h));
    timed_stored =
        λ p h. ap (count_timers p) s.timers ∙ o.timed_stored p (ap (λ f. f p) (sym packets) ∙ h);
    timed_once = λ p. omega (arith, ap (count_timers p) s.timers, o.timed_once p);
    timed_apart =
        λ a p. omega (arith, count_alike p a, ap (count_timers p) s.timers, o.timed_apart a p);
  }

  pub Held-Alike : v.packet ≡ w.packet → (p : Ptr) → Held v p → Held w p
  Held-Alike packets p h = record {
    packet = h.packet;
    allocated = ap (λ f. f p) (sym packets) ∙ h.allocated;
    unqueued = λ a. sym (count_alike p a) ∙ h.unqueued a;
    untimed = ap (count_timers p) (sym s.timers) ∙ h.untimed;
  }

  Nodes-Alike : (ns : List (Option Ptr)) → Nodes w ns → Nodes v ns
  Nodes-Alike [] h = tt
  Nodes-Alike (none ∷ ns) h = Nodes-Alike ns h
  Nodes-Alike (some n ∷ ns) (h, hs) = (there_alike n ∙ h, Nodes-Alike ns hs)

  pub SwitchPort-Alike : (p : Ptr) (ns : List (Option Ptr)) → SwitchPort w p ns → SwitchPort v p ns
  SwitchPort-Alike p ns at = go (v.component p) refl (v.composite at.switch) refl
    where
      go :
          (x : Option Component)
          → v.component p ≡ x
          → (y : Option Composite) → v.composite at.switch ≡ y
          → SwitchPort v p ns
      go none q y r = absurd (ground (arith, s.same p, at.there))
      go (some c) q none r = absurd (ground (arith, s.boxes at.switch, at.switch_there))
      go (some c) q (some b) r =
          let box : shut_box (some b) ≡ shut_box (some at.composite) =
            ap shut_box (sym r) ∙ s.boxes at.switch ∙ ap shut_box at.switch_there in
          record {
            component = c;
            switch = at.switch;
            composite = b;
            there = q;
            owner = ap owner_of (ap shut (sym q) ∙ s.same p ∙ ap shut at.there) ∙ at.owner;
            switch_there = r;
            first = rw (ap nodes_of box) (
                rw (ap count_of box)
                  (walk_again at.composite.node_count at.composite.nodes ns w v at.first));
            nodes = Nodes-Alike ns at.nodes;
          }
