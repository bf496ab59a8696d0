-- ===== src/Command/Limits.antt =====
-- The limit on the number of ports, src/command.c.
use netemul.Base.{◌^◌, ◌<◌, ◌≡◌, true, false, [], ◌∷◌, arith, codes, Bool-cases, ◌⊎◌, inl, inr, ltb}
use netemul.Node.{Name}
use netemul.Env.{Env}
use netemul.World.{World}
use netemul.World.Run.{ok}
use netemul.Command.{failed, cmd_create, create_kind, with_port_count, is_negative}

-- The words for the nodes that take a number of ports.
pub data CountedKind : Type 0 where
  host switch hub host_option switch_option hub_option : CountedKind

abbrev pub word : CountedKind → Name
word host = codes "host"
word switch = codes "switch"
word hub = codes "hub"
word host_option = codes "-v"
word switch_option = codes "-s"
word hub_option = codes "-h"

module _ (e : Env) (w : World) (name count : Name) where
  not_number :
      (kind : CountedKind)
      → e.is_uint32 count ≡ false
      → cmd_create e (name ∷ word kind ∷ count ∷ []) w ≡ ok failed w
  unfolding cmd_create create_kind with_port_count
  not_number host h = rw h
  not_number switch h = rw h
  not_number hub h = rw h
  not_number host_option h = rw h
  not_number switch_option h = rw h
  not_number hub_option h = rw h

  too_many :
      (kind : CountedKind)
      → e.is_uint32 count ≡ true
      → is_negative (e.parse_uint32 count) ≡ false
      → ltb 64 (e.parse_uint32 count) ≡ true
      → cmd_create e (name ∷ word kind ∷ count ∷ []) w ≡ ok failed w
  unfolding cmd_create create_kind with_port_count
  too_many host y low high = rw y (rw low (rw high))
  too_many switch y low high = rw y (rw low (rw high))
  too_many hub y low high = rw y (rw low (rw high))
  too_many host_option y low high = rw y (rw low (rw high))
  too_many switch_option y low high = rw y (rw low (rw high))
  too_many hub_option y low high = rw y (rw low (rw high))

-- A host, a switch or a hub with more than 64 ports, but fewer than 2 ^ 31, is refused, and
-- nothing changes. So is one whose number of ports is no number of 32 bits.
pub cmd_create-refused :
    (e : Env) (w : World) (kind : CountedKind) (name count : Name)
    → (e.is_uint32 count ≡ false) ⊎ ((64 < e.parse_uint32 count) × (e.parse_uint32 count < 2 ^ 31))
    → cmd_create e (name ∷ word kind ∷ count ∷ []) w ≡ ok failed w
cmd_create-refused e w kind name count (inl h) = not_number e w name count kind h
cmd_create-refused e w kind name count (inr (h, k)) = elim (Bool-cases (e.is_uint32 count)) [
  | inr f ↦ not_number e w name count kind f
  | inl y ↦ too_many e w name count kind y (ground arith) (ground arith)
]
