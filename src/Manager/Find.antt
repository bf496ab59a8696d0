-- ===== src/Manager/Find.antt =====
-- `get_node` of src/manager.c behind `node_register`.
use netemul.Base.{
  ℕ, zero, suc, ◌<◌, ◌≡◌, true, Option, some, List, [], ◌∷◌, arith, has, length, get_elem?, sym, ap,
  ◌∙◌, subst,
}
use netemul.Node.{Ptr, Name}
use netemul.Env.{Env, NameMap}
use netemul.Env.Laws.{ListLaws, MapLaws, ParseLaws}
use netemul.World.{World, Composite}
use netemul.World.Run.{ok, first_nodes}
use netemul.World.Ends.{Ends, weaken}
use netemul.Ownership.{is_there}
use netemul.Manager.{port_name, fits_name, node_register, get_node, component, composite}
use netemul.Manager.Names.{NoDots}
use netemul.Manager.Lookup.{get_node-name, get_node-port_name}
use netemul.Manager.Register.{somes, AllDistinct, name_of, Registered, node_register-Registered}

somes-get_elem? :
    (ps : List Ptr) (i p : ℕ) → get_elem? ps i ≡ some p → get_elem? (somes ps) i ≡ some (some p)
somes-get_elem? [] i p h = absurd (ground (arith, h))
somes-get_elem? (x ∷ ps) zero p h = ground (arith, h)
somes-get_elem? (x ∷ ps) (suc i) p h = somes-get_elem? ps i p h

get_elem_bound : (ps : List Ptr) (i p : ℕ) → get_elem? ps i ≡ some p → i < length ps
get_elem_bound [] i p h = absurd (ground (arith, h))
get_elem_bound (x ∷ ps) zero p h = omega arith
get_elem_bound (x ∷ ps) (suc i) p h = omega (arith, get_elem_bound ps i p h)

-- What `get_node` finds.
abbrev pub Found : Env → Ptr → Name → List Ptr → World → Type 0
Found e node name ps u =
    (get_node e name u ≡ ok (some (composite node)) u)
    × ((i p : ℕ)
        → i < 256
        → get_elem? ps i ≡ some p
        → (get_node e (port_name name i) u ≡ ok (some (component p)) u)
          × (name_of (u.component p) ≡ some (port_name name i)))

module _ (e : Env) (maps : MapLaws e) (parse : ParseLaws e) (w u : World) (node : Ptr) (c : ℕ)
    (s : Name) (plain : NoDots (c ∷ s)) (ps : List Ptr) (r : Registered w node (c ∷ s) ps u)
    (b : Composite) (there : w.composite node ≡ some b) (nodes : b.nodes ≡ somes ps)
    (all : b.node_count ≡ length ps) where
  Registered-get_node :
      fits_name (c ∷ s) ≡ true
      → ((j : ℕ) → j < length ps → fits_name (port_name (c ∷ s) j) ≡ true)
      → Found e node (c ∷ s) ps u
  Registered-get_node fits port_fits = (
    get_node-name e maps u c s plain node r.registered fits,
    λ i p small at. (
      get_node-port_name e maps u c s plain node r.registered parse i b p
          (port_fits i (get_elem_bound ps i p at))
          (ap (λ (f : Ptr → Option Composite). f node) r.boxes ∙ there)
          (omega (arith, all, get_elem_bound ps i p at)) small
          (ap (λ l. get_elem? l i) nodes ∙ somes-get_elem? ps i p at),
      r.named i p at,
    ),
  )

module _ (e : Env) (lists : ListLaws e) (maps : MapLaws e) (parse : ParseLaws e)
    (takes : (xs : List ℕ) (x : ℕ) → (ys : List ℕ) × (e.list_add xs x ≡ some ys))
    (memory : (a : Ptr) → e.malloc_ok a ≡ true) (w : World) (node : Ptr) (b : Composite)
    (ps : List Ptr) (there : w.composite node ≡ some b)
    (whole : first_nodes b.node_count b.nodes w ≡ ok (somes ps) w) (nodes : b.nodes ≡ somes ps)
    (all : b.node_count ≡ length ps) (distinct : AllDistinct ps)
    (present : (p : Ptr) → has p ps ≡ true → is_there (w.component p) ≡ true)
    (fits : (j : ℕ) → j < length ps → fits_name (port_name b.name j) ≡ true)
    (put : (ms : NameMap) × (e.map_put w.manager.nodes b.name node ≡ some ms)) where
  -- A composite that is registered under its own name is found by it afterwards, and each of its
  -- components, up to the 256th, has a name by which it is found: if there is memory, the containers take what
  -- they are given, the names fit and the node's has no dot, and its components are there and
  -- differ.
  pub node_register-get_node :
      (c : ℕ) (s : Name)
      → b.name ≡ c ∷ s
      → NoDots (c ∷ s)
      → fits_name (c ∷ s) ≡ true
      → Ends (λ done u. (done ≡ true) × Found e node (c ∷ s) ps u) (node_register e node b.name w)
  node_register-get_node c s named plain short =
      weaken
        (node_register-Registered e lists maps takes memory w node b ps there whole distinct present
          fits put)
        λ done u (d, r). (
          d,
          Registered-get_node e maps parse w u node c s plain ps
              (subst (λ n. Registered w node n ps u) named r) b there nodes all short
              λ j lt. ap (λ n. fits_name (port_name n j)) (sym named) ∙ fits j lt,
        )
