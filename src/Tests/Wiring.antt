-- ===== src/Tests/Wiring.antt =====
-- The theorems on the wiring at the example network.
use netemul.Base.{◌≡◌, ◌≢◌, refl, none, some, arith}
use netemul.Node.{Ptr}
use netemul.World.{World}
use netemul.World.Run.{ok, ◌>>◌}
use netemul.Component.{destroy_component}
use netemul.Component.Wiring.{IsWired, output_of, input_of, destroy_component-IsWired}
use netemul.Link.{connect_cable}
use netemul.Link.Connect.{Ready, connect_cable-IsWired}
use netemul.Link.Disconnect.{connect-destroy}
use netemul.Tests.{placed, link, unlinked, linked}

unlinked-IsWired : IsWired unlinked
unlinked-IsWired = record { forth = λ a b h. ground arith; back = λ a b h. ground arith }

linked-IsWired : IsWired linked
linked-IsWired = record { forth = λ a b h. ground arith; back = λ a b h. ground arith }

-- The first cable of the link is destroyed.
destroy_component-IsWired_example :
    (w' : World) × (destroy_component 30 linked ≡ ok tt w')
    × IsWired w'
    × (w'.component 30 ≡ none)
    × ((a : Ptr) → (output_of (w'.component a) ≢ some 30) × (input_of (w'.component a) ≢ some 30))
destroy_component-IsWired_example =
    destroy_component-IsWired {w = linked} {this = 30} {c = placed 11 (some 20) (some 22)}
      linked-IsWired refl (link, refl)

abbrev ready : Ready unlinked 20 30 31 22
ready = record {
  source = placed 10 none none;
  cable0 = placed 11 none none;
  cable1 = placed 11 none none;
  destination = placed 12 none none;
  at_source = refl;
  at_cable0 = refl;
  at_cable1 = refl;
  at_destination = refl;
  source_free = (refl, refl);
  cable0_free = (refl, refl);
  cable1_free = (refl, refl);
  destination_free = (refl, refl);
  s≢c0 = omega arith;
  s≢c1 = omega arith;
  s≢d = omega arith;
  c0≢c1 = omega arith;
  c0≢d = omega arith;
  c1≢d = omega arith;
}

-- The hub's first port is connected with the host's.
connect_cable-IsWired_example :
    (w' : World) × (connect_cable 20 30 31 22 unlinked ≡ ok tt w')
    × IsWired w'
    × (output_of (w'.component 20) ≡ some 30)
    × (output_of (w'.component 30) ≡ some 22)
    × (output_of (w'.component 22) ≡ some 31)
    × (output_of (w'.component 31) ≡ some 20)
    × ((a : Ptr) → a ≢ 20 → a ≢ 30 → a ≢ 31 → a ≢ 22 → w'.component a ≡ unlinked.component a)
connect_cable-IsWired_example = connect_cable-IsWired unlinked 20 30 31 22 ready unlinked-IsWired

-- They are connected, and the cables of the link destroyed.
connect-destroy_example :
    (w' : World) × ((connect_cable 20 30 31 22 >> (destroy_component 30 >> destroy_component 31))
        unlinked
      ≡ ok tt w')
    × IsWired w'
    × (w'.component 30 ≡ none)
    × (w'.component 31 ≡ none)
    × ((a : Ptr)
        → a ≢ 30
        → a ≢ 31
        → (output_of (w'.component a) ≡ output_of (unlinked.component a))
          × (input_of (w'.component a) ≡ input_of (unlinked.component a)))
connect-destroy_example =
    connect-destroy unlinked 20 30 31 22 11 ready link unlinked-IsWired refl refl refl
