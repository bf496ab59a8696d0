-- ===== src/Switch/Port.antt =====
-- The ports of a switch, src/switch.c, over the states that the passing of packets leads to.
use netemul.Base.{
  zero, suc, ◌≡◌, refl, Option, none, some, List, [], ◌∷◌, ◌⊎◌, inl, inr, ap, sym, ◌∙◌, ℕ, arith,
}
use netemul.Node.{Ptr}
use netemul.World.{World, Component, Composite}
use netemul.World.Run.{ok, fault, first_nodes}
use netemul.Ownership.{Shape, skeleton, outline}
use netemul.Switch.Broadcast.{SwitchPort, Shape-Nodes}

-- The walk over the nodes does not read the state.
walk :
    (n : ℕ) (xs : List (Option Ptr))
    → ((w : World) → first_nodes n xs w ≡ fault)
      ⊎ ((ns : List (Option Ptr)) × ((w : World) → first_nodes n xs w ≡ ok ns w))
unfolding first_nodes
walk zero xs = inr ([], λ w. refl)
walk (suc n) [] = inl λ w. refl
walk (suc n) (x ∷ xs) = elim (walk n xs) [
  | inl f ↦ inl λ w. rw (f w) refl
  | inr (ns, f) ↦ inr (x ∷ ns, λ w. rw (f w) refl)
]

pub walk_again :
    (n : ℕ) (xs ns : List (Option Ptr)) (w v : World)
    → first_nodes n xs w ≡ ok ns w
    → first_nodes n xs v ≡ ok ns v
walk_again n xs ns w v h = elim (walk n xs) [
  | inl f ↦ absurd (differ (sym (f w) ∙ h))
  | inr (ms, f) ↦ f v ∙ ap (λ (l : List (Option Ptr)). ok l v) (result (sym (f w) ∙ h))
]
  where
    differ : fault ≡ ok ns w → ⊥
    differ q = cc

    result : {ms : List (Option Ptr)} → ok ms w ≡ ok ns w → ms ≡ ns
    result q = cc

abbrev pub owner_of : Option Component → Option Ptr
owner_of none = none
owner_of (some c) = c.owner

abbrev nodes_of : Option Composite → List (Option Ptr)
nodes_of none = []
nodes_of (some b) = b.nodes

abbrev count_of : Option Composite → ℕ
count_of none = 0
count_of (some b) = b.node_count

-- A switch's port is one in each state of the same shape.
pub SwitchPort-Shape :
    (w v : World) (this : Ptr) (ns : List (Option Ptr)) (at : SwitchPort w this ns)
    → Shape w v
    → SwitchPort v this ns
SwitchPort-Shape w v this ns at s = go (v.component this) refl (v.composite at.switch) refl
  where
    go :
        (x : Option Component)
        → v.component this ≡ x
        → (y : Option Composite) → v.composite at.switch ≡ y
        → SwitchPort v this ns
    go none q y r = absurd (ground (arith, s.same this, at.there))
    go (some c) q none r = absurd (ground (arith, s.boxes at.switch, at.switch_there))
    go (some c) q (some b) r =
        let box : outline (some b) ≡ outline (some at.composite) =
          ap outline (sym r) ∙ s.boxes at.switch ∙ ap outline at.switch_there in
        let nodes : b.nodes ≡ at.composite.nodes = ap nodes_of box in
        let count : b.node_count ≡ at.composite.node_count = ap count_of box in
        record {
          component = c;
          switch = at.switch;
          composite = b;
          there = q;
          owner = ap owner_of (ap skeleton (sym q) ∙ s.same this ∙ ap skeleton at.there) ∙ at.owner;
          switch_there = r;
          first =
              rw nodes
                (rw count (walk_again at.composite.node_count at.composite.nodes ns w v at.first));
          nodes = Shape-Nodes ns s at.nodes;
        }
