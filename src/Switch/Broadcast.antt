-- ===== src/Switch/Broadcast.antt =====
-- `switch_broadcast` of src/switch.c, as to who owns a packet.
use netemul.Base.{
  ◌≡◌, ◌≢◌, Bool, true, false, Option, none, some, List, [], ◌∷◌, arith, ◌==◌, if◌then◌else◌, ◌∙◌,
  ◌⊎◌, inl, inr, Bool-cases,
}
use netemul.Node.{Ptr}
use netemul.Env.{Env}
use netemul.Env.Laws.{FifoLaws}
use netemul.World.{World, Component, Composite}
use netemul.World.Run.{ok, ◌>>◌, pure, free_packet, first_nodes, children}
use netemul.World.Ends.{Ends, ends, follow, weaken}
use netemul.Switch.{with_copy, offer, broadcast_to, broadcast}
use netemul.Ownership.{
  Copyable, Owned, Held, Sound, Shape, Shape-refl, Shape-trans, is_there, same_there,
}
use netemul.Ownership.Hold.{Keeps, free_packet-ok, free_packet-Owned, freed-Shape, freed_lost}
use netemul.Switch.Copies.{Duplicated, packet_dup-Ends, offer-Offered}

-- The nodes that are set are allocated.
abbrev pub Nodes : World → List (Option Ptr) → Type 0
Nodes w [] = Unit
Nodes w (none ∷ ns) = Nodes w ns
Nodes w (some n ∷ ns) = (is_there (w.component n) ≡ true) × Nodes w ns

pub Shape-Nodes : {v w : World} (ns : List (Option Ptr)) → Shape v w → Nodes v ns → Nodes w ns
Shape-Nodes [] s h = tt
Shape-Nodes (none ∷ ns) s h = Shape-Nodes ns s h
Shape-Nodes (some n ∷ ns) s h = (same_there _ _ (s.same n) ∙ h.0, Shape-Nodes ns s h.1)

module _ (e : Env) (laws : FifoLaws e) (port p : Ptr) where
  pub broadcast_to-Keeps :
      (ns : List (Option Ptr)) (w : World)
      → Copyable w
      → Owned w
      → Sound w
      → Held w p
      → Nodes w ns
      → Ends (λ _ w'. Keeps w p w') (broadcast_to e ns port p w)
  unfolding broadcast_to
  broadcast_to-Keeps [] w sizes owned sound held nodes =
      ends (record {
        owned = owned;
        held = held;
        sound = sound;
        shape = Shape-refl w;
        lost = λ x h. h;
      })
  broadcast_to-Keeps (none ∷ ns) w sizes owned sound held nodes =
      broadcast_to-Keeps ns w sizes owned sound held nodes
  broadcast_to-Keeps (some dst ∷ ns) w sizes owned sound held nodes =
      send_copy (broadcast_to-Keeps ns) (Bool-cases (dst == port))
    where
      Rest : Type 0
      Rest =
          (w : World)
          → Copyable w
          → Owned w
          → Sound w
          → Held w p
          → Nodes w ns
          → Ends (λ _ w'. Keeps w p w') (broadcast_to e ns port p w)

      after_dup :
          Rest
          → (m : Option Ptr) (u : World) → Duplicated w p m u
          → Ends
              (λ _ w'. Keeps w p w')
              (with_copy m (λ copied. offer e dst copied >> broadcast_to e ns port p) u)
      after_dup rest none u d = ends (record {
        owned = d.owned;
        held = d.held;
        sound = d.sound;
        shape = d.shape;
        lost = λ x h. d.lost x (λ q. cc) h;
      })
      after_dup rest (some r) u d =
          follow
            (offer-Offered e laws u dst r p d.owned d.sound d.copied.0 d.held d.copied.1
              (same_there _ _ (d.shape.same dst) ∙ nodes.0))
            λ _ v (k, offered).
              weaken
                (rest v (k.shape.packets (d.shape.packets sizes)) k.owned k.sound k.held
                  (Shape-Nodes ns (Shape-trans d.shape k.shape) nodes.1))
                λ _ x k'. record {
                  owned = k'.owned;
                  held = k'.held;
                  sound = k'.sound;
                  shape = Shape-trans (Shape-trans d.shape k.shape) k'.shape;
                  lost =
                      λ y h. d.lost y (λ q. offered y (k'.lost y h) (cc)) (k.lost y (k'.lost y h));
                }

      send_copy :
          Rest
          → (((dst == port) ≡ true) ⊎ ((dst == port) ≡ false))
          → Ends (λ _ w'. Keeps w p w') (broadcast_to e (some dst ∷ ns) port p w)
      send_copy rest (inl self) = rw (self, broadcast_to) (rest w sizes owned sound held nodes.1)
      send_copy rest (inr other) =
          rw (other, broadcast_to)
            (follow (packet_dup-Ends e w p sizes owned held sound) (after_dup rest))

-- The children of a composite are its first `node_count` nodes, where it has as many.
pub children-ok :
    (w : World) (s : Ptr) (b : Composite) (ns : List (Option Ptr))
    → w.composite s ≡ some b
    → first_nodes b.node_count b.nodes w ≡ ok ns w
    → children s w ≡ ok ns w
unfolding children
children-ok w s b ns there first = rw there first

-- A port, its switch, and the nodes that the switch has.
pub record SwitchPort (w : World) (port : Ptr) (ns : List (Option Ptr)) : Type 0 where
  pub component : Component
  pub switch : Ptr
  pub composite : Composite
  pub there : w.component port ≡ some component
  pub owner : component.owner ≡ some switch
  pub switch_there : w.composite switch ≡ some composite
  pub first : first_nodes composite.node_count composite.nodes w ≡ ok ns w
  pub nodes : Nodes w ns

-- A packet is gone from the store, the queues are as they should be, and no packet is lost.
pub record Spent (w : World) (p : Ptr) (w' : World) : Type 0 where
  pub owned : Owned w'
  pub sound : Sound w'
  pub shape : Shape w w'
  pub freed : w'.packet p ≡ none
  pub lost : (x : Ptr) → Held w' x → Held w x × (x ≢ p)

-- What a broadcast leaves, by its result: the packet is spent, or still at hand.
abbrev pub Done : World → Ptr → Bool → World → Type 0
Done w p true w' = Spent w p w'
Done w p false w' = Keeps w p w'

pub free_packet-Spent :
    {v : World} (w : World) (p : Ptr) → Keeps v p w → Ends (λ _ w'. Spent v p w') (free_packet p w)
free_packet-Spent w p k = rw (free_packet-ok w p k.held) (
    ends (record {
      owned = free_packet-Owned w p k.owned k.held;
      sound = k.sound;
      shape = Shape-trans k.shape (freed-Shape w p);
      freed = ground arith;
      lost = λ x h. (k.lost x (freed_lost w p x h).0, (freed_lost w p x h).1);
    }))

module _ (e : Env) (laws : FifoLaws e) (w : World) (port p : Ptr) (ns : List (Option Ptr))
    (at : SwitchPort w port ns) (sizes : Copyable w) (owned : Owned w) (sound : Sound w)
    (held : Held w p) where
  pub broadcast-Done : Ends (Done w p) (broadcast e port p w)
  unfolding broadcast
  broadcast-Done = rw (at.there) (
      rw (at.owner) (
        rw (children-ok w at.switch at.composite ns at.switch_there at.first)
          (follow (broadcast_to-Keeps e laws port p ns w sizes owned sound held at.nodes) after)))
    where
      after :
          (all : Bool) (u : World)
          → Keeps w p u
          → Ends (Done w p) ((if all then free_packet p >> pure true else pure false) u)
      after true u k = follow (free_packet-Spent u p k) λ _ x s. ends s
      after false u k = ends k
