-- ===== src/Link/Connect.antt =====
-- `connect_cable` of src/link.c: the two cables of a link between a source and a destination.
use netemul.Base.{◌≡◌, ◌≢◌, Option, none, some, arith, ◌==◌, if◌then◌else◌, ◌∙◌, sym}
use netemul.Node.{Ptr}
use netemul.World.{World, Component}
use netemul.World.Run.{ok, write, update}
use netemul.Component.Wiring.{IsWired, output_of, input_of}
use netemul.Link.{connect_cable}

update-ok :
    (w : World) (p : Ptr) (f : Component → Component) (c : Component)
    → w.component p ≡ some c
    → update p f w ≡ ok tt (record w { component = write w.component p (some (f c)) })
unfolding update
update-ok w p f c h = rw h

-- Two distinct free components and two fresh cables, at distinct addresses.
pub record Ready (w : World) (s c0 c1 d : Ptr) : Type 0 where
  pub source : Component
  pub cable0 : Component
  pub cable1 : Component
  pub destination : Component
  pub at_source : w.component s ≡ some source
  pub at_cable0 : w.component c0 ≡ some cable0
  pub at_cable1 : w.component c1 ≡ some cable1
  pub at_destination : w.component d ≡ some destination
  pub source_free : (source.input ≡ none) × (source.output ≡ none)
  pub cable0_free : (cable0.input ≡ none) × (cable0.output ≡ none)
  pub cable1_free : (cable1.input ≡ none) × (cable1.output ≡ none)
  pub destination_free : (destination.input ≡ none) × (destination.output ≡ none)
  pub s≢c0 : s ≢ c0
  pub s≢c1 : s ≢ c1
  pub s≢d : s ≢ d
  pub c0≢c1 : c0 ≢ c1
  pub c0≢d : c0 ≢ d
  pub c1≢d : c1 ≢ d

module _ (w : World) (s c0 c1 d : Ptr) (r : Ready w s c0 c1 d) where
  open r use {source, cable0, cable1, destination}

  abbrev pub linked : World
  linked = record w {
    component =
        write
          (write
            (write
              (write w.component s (some (record source { output = some c0; input = some c1 }))) d
              (some (record destination { output = some c1; input = some c0 })))
            c0 (some (record cable0 { output = some d; input = some s })))
          c1 (some (record cable1 { output = some s; input = some d }));
  }

  pub connect_cable-linked : connect_cable s c0 c1 d w ≡ ok tt linked
  unfolding connect_cable
  connect_cable-linked = ground arith

abbrev pub linked_output : (Ptr → Option Ptr) → (s c0 c1 d : Ptr) → Ptr → Option Ptr
linked_output f s c0 c1 d a =
    if a == c1
    then some s
    else if a == c0
    then some d
    else if a == d
    then some c1
    else if a == s
    then some c0
    else f a

module _ (f g : Ptr → Option Ptr) (s c0 c1 d : Ptr)
    (forth : (a b : Ptr) → f a ≡ some b → g b ≡ some a)
    (apart : (s ≢ c0) × (s ≢ c1) × (s ≢ d) × (c0 ≢ c1) × (c0 ≢ d) × (c1 ≢ d))
    (free : (g s ≡ none) × (g c0 ≡ none) × (g c1 ≡ none) × (g d ≡ none)) where
  linked_inverse :
      (a b : Ptr) → linked_output f s c0 c1 d a ≡ some b → linked_output g d c0 c1 s b ≡ some a
  linked_inverse a b e = ground (arith, forth a b)

module _ (w : World) (s c0 c1 d : Ptr) (r : Ready w s c0 c1 d) where
  pub outs : Ptr → Option Ptr
  outs p = output_of (w.component p)

  pub ins : Ptr → Option Ptr
  ins p = input_of (w.component p)

  pub output-linked :
      (a : Ptr) → output_of ((linked w s c0 c1 d r).component a) ≡ linked_output outs s c0 c1 d a
  unfolding outs
  output-linked a = ground arith

  pub input-linked :
      (a : Ptr) → input_of ((linked w s c0 c1 d r).component a) ≡ linked_output ins d c0 c1 s a
  unfolding ins
  input-linked a = ground (arith, r.s≢d)

  pub linked-IsWired : IsWired w → IsWired (linked w s c0 c1 d r)
  unfolding outs ins
  linked-IsWired wired = record {
    forth = λ a b e.
        input-linked b
        ∙ linked_inverse outs ins s c0 c1 d wired.forth
            (r.s≢c0, r.s≢c1, r.s≢d, r.c0≢c1, r.c0≢d, r.c1≢d)
            (
              ground (arith, r.at_source),
              ground (arith, r.at_cable0),
              ground (arith, r.at_cable1),
              ground (arith, r.at_destination),
            )
            a b (sym (output-linked a) ∙ e);
    back = λ a b e.
        output-linked b
        ∙ linked_inverse ins outs d c0 c1 s wired.back
            (
              λ q. r.c0≢d (sym q),
              λ q. r.c1≢d (sym q),
              λ q. r.s≢d (sym q),
              r.c0≢c1,
              λ q. r.s≢c0 (sym q),
              λ q. r.s≢c1 (sym q),
            )
            (
              ground (arith, r.at_destination),
              ground (arith, r.at_cable0),
              ground (arith, r.at_cable1),
              ground (arith, r.at_source),
            )
            a b (sym (input-linked a) ∙ e);
  }

-- Connecting two free components of a sound wiring leaves a sound wiring: what the source puts out
-- comes to the destination through the first cable and back through the second, and no other
-- component is touched.
pub connect_cable-IsWired :
    (w : World) (s c0 c1 d : Ptr)
    → Ready w s c0 c1 d
    → IsWired w
    → (w' : World) × (connect_cable s c0 c1 d w ≡ ok tt w')
      × IsWired w'
      × (output_of (w'.component s) ≡ some c0)
      × (output_of (w'.component c0) ≡ some d)
      × (output_of (w'.component d) ≡ some c1)
      × (output_of (w'.component c1) ≡ some s)
      × ((a : Ptr) → a ≢ s → a ≢ c0 → a ≢ c1 → a ≢ d → w'.component a ≡ w.component a)
connect_cable-IsWired w s c0 c1 d r wired = (
  linked w s c0 c1 d r,
  connect_cable-linked w s c0 c1 d r,
  linked-IsWired w s c0 c1 d r wired,
  ground arith,
  ground arith,
  ground arith,
  ground arith,
  λ a n0 n1 n2 n3. ground arith,
)
