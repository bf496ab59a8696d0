-- ===== src/Rpc.antt =====
-- src/rpc_manager.c: the handlers that change the network. A handler's callback gets its result.
-- The case of a bridge is left out, as its header is not in the repository.
pub mod Agree
use netemul.Base.{ℕ, Bool, true, false, Option, none, some, List, if◌then◌else◌}
use netemul.Node.{NodeType, Ptr, Name}
use netemul.Env.{Env}
use netemul.World.Run.{Cmd, pure, ◌>>=◌, ◌>>◌}
use netemul.Manager.{NodeRef, get_node}
use netemul.Endpoint.{endpoint_create, switch_create}
use netemul.Link.{link_create, set_node}
use netemul.Command.{destroy_node, set_active}

-- `CreateSpec`: the type, the port count, and the two ends of a link.
pub record CreateSpec : Type 0 where
  pub type : NodeType
  pub port_count : ℕ
  pub node0 : Name
  pub node1 : Name

abbrev pub answer : Option NodeRef → (NodeRef → Cmd Bool) → Cmd Bool
answer none f = pure false
answer (some n) f = f n

abbrev pub is_created : Option Ptr → Bool
is_created none = false
is_created (some _) = true

module _ (e : Env) where
  unfoldable pub create_by_spec : NodeType → CreateSpec → Cmd Bool
  unfolding endpoint_create link_create switch_create get_node
  create_by_spec NodeType.host spec = do
    p ← endpoint_create e spec.port_count NodeType.host none
    pure (is_created p)
  create_by_spec NodeType.link spec = do
    source ← get_node e spec.node0
    destination ← get_node e spec.node1
    answer source λ s. answer destination λ d. do p ← link_create e s d; pure (is_created p)
  create_by_spec NodeType.ether_switch spec = do
    p ← switch_create e spec.port_count NodeType.ether_switch
    pure (is_created p)
  create_by_spec NodeType.hub_switch spec = do
    p ← switch_create e spec.port_count NodeType.hub_switch
    pure (is_created p)
  create_by_spec _ spec = pure true

  unfoldable pub create_handler : CreateSpec → Cmd Bool
  unfolding create_by_spec
  create_handler spec = create_by_spec spec.type spec

  unfoldable pub destroy_handler : Name → Cmd Bool
  unfolding get_node destroy_node
  destroy_handler name = do node ← get_node e name; answer node λ n. do destroy_node e n; pure true

  unfoldable pub on_handler : Name → Cmd Bool
  unfolding get_node set_active
  on_handler name = do node ← get_node e name; answer node λ n. do set_active true n; pure true

  unfoldable pub off_handler : Name → Cmd Bool
  unfolding get_node set_active
  off_handler name = do node ← get_node e name; answer node λ n. do set_active false n; pure true

  -- `argv` has `argc` elements, 255 at most.
  unfoldable pub set_handler : Name → List Name → Cmd Bool
  unfolding get_node set_node
  set_handler name argv = do
    node ← get_node e name
    answer node λ n. do changed ← set_node e n argv; pure (if changed then true else false)
