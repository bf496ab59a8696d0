-- ===== src/Composite.antt =====
-- src/composite.c, and the `destroy` that src/ether_switch.c puts in its place.
use netemul.Base.{ℕ, zero, suc, ◌+◌, Bool, true, false, Option, none, some, List, [], ◌∷◌}
use netemul.Node.{
  NodeType, DestroyMethod, Ptr, component_destroy, virtual_port_destroy, composite_destroy,
  ether_switch_destroy, composite_set,
}
use netemul.Env.{Env}
use netemul.World.{Composite}
use netemul.World.Run.{
  Cmd, pure, ◌>>=◌, ◌>>◌, fails, load, load_composite, update, update_composite, free_composite,
  malloc, children,
}
use netemul.Component.{destroy_component}
use netemul.Cable.{cable_create}
use netemul.Port.{port_create}
use netemul.Manager.{node_unregister}
use netemul.Interface.{destroy_virtual}

abbrev pub zeroed_composite : Composite
zeroed_composite = record {
  type = NodeType.none;
  name = [];
  is_active = false;
  destroy = composite_destroy;
  set = composite_set;
  node_count = 0;
  nodes = [];
  table = none;
}

abbrev pub replicate {ℓ} : {A : Type ℓ} → ℕ → A → List A
replicate zero a = []
replicate (suc n) a = a ∷ replicate n a

-- A write out of bounds changes nothing.
abbrev pub set_elem {ℓ} : {A : Type ℓ} → List A → ℕ → A → List A
set_elem [] i v = []
set_elem (x ∷ xs) zero v = v ∷ xs
set_elem (x ∷ xs) (suc i) v = x ∷ set_elem xs i v

module _ (e : Env) where
  -- `component->destroy(component)`. No component has another method.
  unfoldable pub destroy_by : DestroyMethod → Ptr → Cmd (Unit {0})
  unfolding destroy_component destroy_virtual
  destroy_by component_destroy p = destroy_component p
  destroy_by virtual_port_destroy p = destroy_virtual e p
  destroy_by composite_destroy p = fails
  destroy_by ether_switch_destroy p = fails

  unfoldable pub destroy_one : Ptr → Cmd (Unit {0})
  unfolding load destroy_by
  destroy_one p = do c ← load p; destroy_by c.destroy p

  -- The loop over the nodes that are set
  unfoldable pub destroy_nodes : List (Option Ptr) → Cmd (Unit {0})
  unfolding destroy_one
  destroy_nodes [] = pure tt
  destroy_nodes (none ∷ ns) = destroy_nodes ns
  destroy_nodes (some p ∷ ns) = do destroy_one p; destroy_nodes ns

  -- `destroy` of a composite; the loop's bound is the count before the loop.
  unfoldable pub destroy_composite : Ptr → Cmd (Unit {0})
  unfolding load_composite node_unregister children destroy_nodes free_composite
  destroy_composite this = do
    c ← load_composite this
    node_unregister e c.name
    elim c.nodes [ [] ↦ pure tt | n ∷ ns ↦ (do all ← children this; destroy_nodes all) ]
    free_composite this

  -- `ether_switch_destroy`: its loop runs only if there is no array of nodes.
  unfoldable pub destroy_ether_switch : Ptr → Cmd (Unit {0})
  unfolding load_composite node_unregister children free_composite
  destroy_ether_switch this = do
    c ← load_composite this
    node_unregister e c.name
    elim c.nodes [ [] ↦ (do all ← children this; pure tt) | n ∷ ns ↦ pure tt ]
    free_composite this

  -- `composite->destroy(composite)`
  unfoldable pub destroy_composite_by : DestroyMethod → Ptr → Cmd (Unit {0})
  unfolding destroy_composite destroy_ether_switch
  destroy_composite_by composite_destroy p = destroy_composite p
  destroy_composite_by ether_switch_destroy p = destroy_ether_switch p
  destroy_composite_by component_destroy p = fails
  destroy_composite_by virtual_port_destroy p = fails

  unfoldable pub destroy_whole : Ptr → Cmd (Unit {0})
  unfolding load_composite destroy_composite_by
  destroy_whole p = do c ← load_composite p; destroy_composite_by c.destroy p

  -- The loops of `composite_inherit`: `n` components from index `i` on, by one way to create them.
  unfoldable pub create_nodes : Cmd (Option Ptr) → Ptr → (n i : ℕ) → Cmd Bool
  unfolding update update_composite
  create_nodes create this zero i = pure true
  create_nodes create this (suc n) i = do
    m ← create
    update_composite this (λ c. record c { nodes = set_elem c.nodes i m })
    elim m [
      | none ↦ pure false
      | some p ↦ (do
        update p (λ c. record c { owner = some this })
        create_nodes create this n (i + 1))
    ]

  -- The `switch` over the type. A cable has a bandwidth of 1 GB/s, no error, no drop, no jitter and
  -- no latency.
  unfoldable pub create_by_type : NodeType → Ptr → ℕ → Cmd Bool
  unfolding create_nodes port_create cable_create
  create_by_type NodeType.physical this n =
      create_nodes (port_create e NodeType.physical_port) this 1 0
  create_by_type NodeType.host this n = create_nodes (port_create e NodeType.virtual_port) this n 0
  create_by_type NodeType.hub_switch this n = create_nodes (port_create e NodeType.port) this n 0
  create_by_type NodeType.ether_switch this n = create_nodes (port_create e NodeType.port) this n 0
  create_by_type NodeType.link this n = create_nodes (cable_create e 1_000_000_000 0 0 0 0) this n 0
  create_by_type _ this n = pure true

  -- `composite_inherit`
  unfoldable pub inherit_composite : Ptr → Cmd Bool
  unfolding load_composite update_composite malloc create_by_type
  inherit_composite this = do
    update_composite this
        λ c. record c { is_active = true; destroy = composite_destroy; set = composite_set }
    array ← malloc e
    elim array [
      | none ↦ pure false
      | some _ ↦ (do
        update_composite this (λ c. record c { nodes = replicate c.node_count none })
        c ← load_composite this
        create_by_type c.type this c.node_count)
    ]
