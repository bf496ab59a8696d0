-- ===== src/Manager/Lookup.antt =====
-- `get_node` of src/manager.c on the names that `node_register` gives.
use netemul.Base.{ℕ, ◌<◌, ◌≤◌, ◌≡◌, true, false, some, ◌∷◌, arith, leb, length, get_elem?}
use netemul.Node.{Ptr, Name}
use netemul.Env.{Env}
use netemul.Env.Laws.{MapLaws, ParseLaws, lookup}
use netemul.World.{World, Composite}
use netemul.World.Run.{load_composite, ok, fault}
use netemul.Manager.{
  port_name, fits_name, find_node, in_composite, get_node, get_component, component, composite,
}
use netemul.Manager.Names.{NoDots, tokens-port_name, tokens-name}

module _ (e : Env) (maps : MapLaws e) (w : World) (c : ℕ) (s : Name) (plain : NoDots (c ∷ s))
    (box : Ptr) (registered : lookup w.manager.nodes (c ∷ s) ≡ some box) where
  -- The name of a registered node leads to it, if it has no dot and fewer than eight bytes.
  pub get_node-name : fits_name (c ∷ s) ≡ true → get_node e (c ∷ s) w ≡ ok (some (composite box)) w
  unfolding get_node find_node
  get_node-name fits =
      rw fits
        (rw (tokens-name c s plain) (rw (maps.get_lem w.manager.nodes (c ∷ s)) (rw registered)))

  -- The name of a port, as `node_register` prints it, leads to that port of a registered node, if
  -- the node's name has no dot, the port's has fewer than eight bytes, and its number fits a byte.
  pub get_node-port_name :
      (parse : ParseLaws e) (i : ℕ) (b : Composite) (p : Ptr)
      → fits_name (port_name (c ∷ s) i) ≡ true
      → w.composite box ≡ some b
      → i < b.node_count
      → i < 256
      → get_elem? b.nodes i ≡ some (some p)
      → get_node e (port_name (c ∷ s) i) w ≡ ok (some (component p)) w
  unfolding get_node find_node in_composite get_component load_composite
  get_node-port_name parse i b p fits there below small at = rw fits (
      rw (tokens-port_name c s i plain) (
        rw (parse.uint8_lem i small) (
          rw (maps.get_lem w.manager.nodes (c ∷ s))
            (rw registered (rw there (rw (parse.parse_lem i small) (rw within (rw at))))))))
    where
      within : leb b.node_count i ≡ false
      within = ground arith

-- A name of eight bytes or more is never looked up: copying it is undefined.
pub get_node-fault :
    (e : Env) (w : World) (name : Name) → 8 ≤ length name → get_node e name w ≡ fault
unfolding get_node
get_node-fault e w name h = rw long
  where
    long : fits_name name ≡ false
    long = ground arith
