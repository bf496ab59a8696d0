-- ===== src/World/Run.antt =====
-- Commands on the state. A read through a null or dangling pointer, and any other undefined
-- behaviour that the model detects, is a fault.
use netemul.Base.{ℕ, zero, suc, List, [], ◌∷◌, Option, none, some, ◌==◌, if◌then◌else◌}
use netemul.Node.{Ptr}
use netemul.Env.{Env}
use netemul.World.{World, Component, Composite, Packet, Manager}

pub data Run (A : Type 0) : Type 0 where
  ok : A → World → Run A
  fault : Run A
  out_of_fuel : Run A
  exited : ℕ → Run A

abbrev pub Cmd : Type 0 → Type 0
Cmd A = World → Run A

abbrev pub pure : {A : Type 0} → A → Cmd A
pure = ok

module _ {A B : Type 0} where
  abbrev pub and_then : Run A → (A → Cmd B) → Run B
  and_then (ok a w) k = k a w
  and_then fault k = fault
  and_then out_of_fuel k = out_of_fuel
  and_then (exited n) k = exited n

  infixl 5 ◌>>=◌ ◌>>◌
  abbrev pub ◌>>=◌ : Cmd A → (A → Cmd B) → Cmd B
  m >>= k = λ w. and_then (m w) k

  abbrev pub ◌>>◌ : Cmd A → Cmd B → Cmd B
  m >> n = m >>= λ _. n

abbrev pub fails : {A : Type 0} → Cmd A
fails w = fault

-- `*p` where `p` may be null.
abbrev pub deref : Option Ptr → Cmd Ptr
deref none w = fault
deref (some p) w = ok p w

-- The state as a value, and a change of it.
abbrev pub world : Cmd World
world w = ok w w

abbrev pub modify : (World → World) → Cmd (Unit {0})
modify f w = ok tt (f w)

-- A store with the entry at `p` replaced.
abbrev pub write {ℓ} : {A : Type ℓ} → (Ptr → Option A) → Ptr → Option A → Ptr → Option A
write h p v a = if a == p then v else h a

abbrev pub found : {A : Type 0} → Option A → Cmd A
found none w = fault
found (some a) w = ok a w

unfoldable pub load : Ptr → Cmd Component
load p w = found (w.component p) w

unfoldable pub load_composite : Ptr → Cmd Composite
load_composite p w = found (w.composite p) w

unfoldable pub load_packet : Ptr → Cmd Packet
load_packet p w = found (w.packet p) w

unfoldable pub store : Ptr → Component → Cmd (Unit {0})
store p c w = ok tt (record w { component = write w.component p (some c) })

unfoldable pub store_composite : Ptr → Composite → Cmd (Unit {0})
store_composite p c w = ok tt (record w { composite = write w.composite p (some c) })

unfoldable pub store_packet : Ptr → Packet → Cmd (Unit {0})
store_packet p c w = ok tt (record w { packet = write w.packet p (some c) })

-- `p->f = v` for an object that must be there.
unfoldable pub update : Ptr → (Component → Component) → Cmd (Unit {0})
unfolding load store
update p f = do c ← load p; store p (f c)

unfoldable pub update_composite : Ptr → (Composite → Composite) → Cmd (Unit {0})
unfolding load_composite store_composite
update_composite p f = do c ← load_composite p; store_composite p (f c)

-- `free` of a component, of a composite and of a packet; a second `free` is a fault.
unfoldable pub free_component : Ptr → Cmd (Unit {0})
unfolding load
free_component p = do load p; modify (λ w. record w { component = write w.component p none })

unfoldable pub free_composite : Ptr → Cmd (Unit {0})
unfolding load_composite
free_composite p = do
  load_composite p
  modify (λ w. record w { composite = write w.composite p none })

unfoldable pub free_packet : Ptr → Cmd (Unit {0})
unfolding load_packet
free_packet p = do load_packet p; modify (λ w. record w { packet = write w.packet p none })

-- `malloc`: a fresh address, or null.
unfoldable pub malloc : Env → Cmd (Option Ptr)
malloc e w = ok (if e.malloc_ok w.next then some w.next else none) (record w { next = suc w.next })

-- A reading of a clock.
unfoldable pub read_clock : (ℕ → ℕ) → Cmd ℕ
read_clock f w = ok (f w.readings) (record w { readings = suc w.readings })

-- `manager->… = …`.
abbrev pub set_manager : (Manager → Manager) → Cmd (Unit {0})
set_manager f = modify (λ w. record w { manager = f w.manager })

-- `if(p) …` on a pointer.
abbrev pub when_some : Option Ptr → (Ptr → Cmd (Unit {0})) → Cmd (Unit {0})
when_some none f = pure tt
when_some (some p) f = f p

-- The elements of an array up to a count; a count past its end is a fault.
unfoldable pub first_nodes : ℕ → List (Option Ptr) → Cmd (List (Option Ptr))
first_nodes zero xs = pure []
first_nodes (suc n) [] = fails
first_nodes (suc n) (x ∷ xs) = do rest ← first_nodes n xs; pure (x ∷ rest)

-- The components of a composite, `nodes[0]` to `nodes[node_count - 1]`.
unfoldable pub children : Ptr → Cmd (List (Option Ptr))
unfolding load_composite first_nodes
children p = do c ← load_composite p; first_nodes c.node_count c.nodes
