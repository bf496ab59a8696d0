-- ===== src/Link/Disconnect.antt =====
-- Destroying the cables of a link, src/component.c, undoes what `connect_cable` of src/link.c did.
use netemul.Base.{◌-◌, ◌≡◌, ◌≢◌, none, some, arith}
use netemul.Node.{Ptr}
use netemul.World.{World, Component, Composite}
use netemul.World.Run.{ok, ◌>>◌}
use netemul.Component.{destroy_component}
use netemul.Component.Wiring.{
  IsWired, output_of, input_of, Present, without, destroy_component-without, without-IsWired,
  output-without, input-without,
}
use netemul.Link.{connect_cable}
use netemul.Link.Connect.{Ready, linked, connect_cable-linked, linked-IsWired}

module _ (w : World) (s c0 c1 d : Ptr) (r : Ready w s c0 c1 d) where
  open r use {source, cable0, cable1, destination}

  abbrev first : Component
  first = record cable0 { output = some d; input = some s }

  abbrev second : Component
  second = record cable1 { output = some s; input = some d }

  -- The states after the first and after the second cable is gone.
  abbrev half : World
  half = without (linked w s c0 c1 d r) c0 first

  abbrev whole : World
  whole = without half c1 second

  first-there : (linked w s c0 c1 d r).component c0 ≡ some first
  first-there = ground arith

  second-there : half.component c1 ≡ some second
  second-there = ground arith

  output-whole :
      (a : Ptr) → a ≢ c0 → a ≢ c1 → output_of (whole.component a) ≡ output_of (w.component a)
  output-whole a n0 n1 =
      ground
        (arith, output-without half c1 second a, output-without (linked w s c0 c1 d r) c0 first a)

  input-whole :
      (a : Ptr) → a ≢ c0 → a ≢ c1 → input_of (whole.component a) ≡ input_of (w.component a)
  input-whole a n0 n1 =
      ground
        (arith, input-without half c1 second a, input-without (linked w s c0 c1 d r) c0 first a)

-- A link that is made between free components and destroyed again leaves a sound wiring, without
-- the two cables, in which every other component is connected as it was before.
pub connect-destroy :
    (w : World) (s c0 c1 d l : Ptr) (r : Ready w s c0 c1 d) (b : Composite)
    → IsWired w
    → r.cable0.owner ≡ some l
    → r.cable1.owner ≡ some l
    → w.composite l ≡ some b
    → (w' : World) × ((connect_cable s c0 c1 d >> (destroy_component c0 >> destroy_component c1)) w
        ≡ ok tt w')
      × IsWired w'
      × (w'.component c0 ≡ none)
      × (w'.component c1 ≡ none)
      × ((a : Ptr)
          → a ≢ c0
          → a ≢ c1
          → (output_of (w'.component a) ≡ output_of (w.component a))
            × (input_of (w'.component a) ≡ input_of (w.component a)))
connect-destroy w s c0 c1 d l r b wired o0 o1 there = (
  whole w s c0 c1 d r,
  rw (connect_cable-linked w s c0 c1 d r) (
      rw
        (destroy_component-without (linked-IsWired w s c0 c1 d r wired) (first-there w s c0 c1 d r)
          owned0)
        (destroy_component-without sound (second-there w s c0 c1 d r) owned1)),
  without-IsWired (half w s c0 c1 d r) c1 (second w s c0 c1 d r) (second-there w s c0 c1 d r) sound,
  ground (arith, r.c0≢c1),
  ground arith,
  λ a n0 n1. (output-whole w s c0 c1 d r a n0 n1, input-whole w s c0 c1 d r a n0 n1),
)
  where
    owned0 : Present w.composite r.cable0.owner
    owned0 = rw o0 (b, there)

    owned1 : Present (half w s c0 c1 d r).composite r.cable1.owner
    owned1 = rw (o1, o0) (record b { node_count = b.node_count - 1 }, ground arith)

    sound : IsWired (half w s c0 c1 d r)
    sound =
        without-IsWired (linked w s c0 c1 d r) c0 (first w s c0 c1 d r) (first-there w s c0 c1 d r)
          (linked-IsWired w s c0 c1 d r wired)
