-- ===== src/Command.antt =====
-- src/command.c: the commands that create, destroy, switch and set nodes. An argument list holds
-- the command's name first, so that `argc` is its length.
pub mod Limits
pub mod Script
use netemul.Base.{
  ℕ, ◌^◌, Bool, true, false, ◌||◌, Option, none, some, List, [], ◌∷◌, ltb, leb, if◌then◌else◌,
  codes, same, length,
}
use netemul.Node.{
  NodeType, Ptr, Name, max_component_count, default_host_port_count, default_switch_port_count,
}
use netemul.Env.{Env}
use netemul.World.Run.{Cmd, pure, ◌>>=◌, ◌>>◌, fails, exited, update, update_composite, malloc}
use netemul.Composite.{destroy_one, destroy_whole}
use netemul.Manager.{NodeRef, component, composite, get_node}
use netemul.Endpoint.{endpoint_create, switch_create}
use netemul.Link.{link_create, set_node}

-- What a command returns: 0, -1, `CMD_STATUS_WRONG_NUMBER` and `CMD_STATUS_NOT_FOUND`.
pub data Status : Type 0 where
  done failed wrong_number not_found : Status

-- The result for a node that may not be there.
abbrev pub with_node : Option NodeRef → (NodeRef → Cmd Status) → Cmd Status
with_node none f = pure failed
with_node (some n) f = f n

-- A created node is success.
abbrev pub created : Option Ptr → Status
created none = failed
created (some _) = done

-- `strcmp(arg, short) == 0 || strcmp(arg, long) == 0`
abbrev pub either : Name → Name → Name → Bool
either arg short long = same arg short || same arg long

-- `parse_uint32` is stored in an `int`: from 2 ^ 31 on it is negative, and passes the test against
-- the limit. The size of the array of nodes is then too large for any allocation.
abbrev pub is_negative : ℕ → Bool
is_negative n = leb (2 ^ 31) n

module _ (e : Env) where
  -- The outcome of `host_create`, `hub_create` and `ether_switch_create` with a negative count: the
  -- array of nodes cannot be allocated, and the composite is destroyed before it was registered.
  unfoldable pub create_negative : Cmd Status
  unfolding malloc
  create_negative = do m ← malloc e; elim m [ none ↦ pure failed | some _ ↦ fails ]

  -- The optional port count of a host, a switch or a hub.
  unfoldable pub with_port_count : List Name → ℕ → (ℕ → Cmd Status) → Cmd Status
  unfolding create_negative
  with_port_count (_ ∷ _ ∷ count ∷ []) default create =
      if e.is_uint32 count
      then (if is_negative (e.parse_uint32 count)
          then create_negative
          else if ltb max_component_count (e.parse_uint32 count)
          then pure failed
          else create (e.parse_uint32 count))
      else pure failed
  with_port_count _ default create = create default

  unfoldable pub create_host : ℕ → Cmd Status
  unfolding endpoint_create
  create_host n = do p ← endpoint_create e n NodeType.host none; pure (created p)

  unfoldable pub create_switch : NodeType → ℕ → Cmd Status
  unfolding switch_create
  create_switch type n = do p ← switch_create e n type; pure (created p)

  unfoldable pub create_physical : List Name → Cmd Status
  unfolding endpoint_create
  create_physical (_ ∷ _ ∷ ifname ∷ _) = do
    p ← endpoint_create e 1 NodeType.physical (some ifname)
    pure (created p)
  create_physical _ = do p ← endpoint_create e 1 NodeType.physical none; pure (created p)

  unfoldable pub create_link : List Name → Cmd Status
  unfolding get_node link_create
  create_link (_ ∷ _ ∷ a ∷ b ∷ []) = do
    source ← get_node e a
    destination ← get_node e b
    with_node source λ s. with_node destination λ d. do p ← link_create e s d; pure (created p)
  create_link _ = pure wrong_number

  -- The ladder over the type of the node
  unfoldable pub create_kind : Name → List Name → Cmd Status
  unfolding create_physical with_port_count create_host create_link create_switch
  create_kind kind argv =
      if either kind (codes "-p") (codes "physical")
      then create_physical argv
      else if either kind (codes "-v") (codes "host")
      then with_port_count argv default_host_port_count create_host
      else if either kind (codes "-l") (codes "link")
      then create_link argv
      else if either kind (codes "-s") (codes "switch")
      then with_port_count argv default_switch_port_count (create_switch NodeType.ether_switch)
      else if either kind (codes "-h") (codes "hub")
      then with_port_count argv default_switch_port_count (create_switch NodeType.hub_switch)
      else pure not_found

  unfoldable pub cmd_create : List Name → Cmd Status
  unfolding create_kind
  cmd_create (name ∷ kind ∷ args) =
      if leb (length args) 2 then create_kind kind (name ∷ kind ∷ args) else pure wrong_number
  cmd_create _ = pure wrong_number

  -- `node->destroy(node)`
  unfoldable pub destroy_node : NodeRef → Cmd (Unit {0})
  unfolding destroy_one destroy_whole
  destroy_node (component p) = destroy_one e p
  destroy_node (composite p) = destroy_whole e p

  unfoldable pub cmd_destroy : List Name → Cmd Status
  unfolding get_node destroy_node
  cmd_destroy (_ ∷ name ∷ []) = do
    node ← get_node e name
    with_node node λ n. do destroy_node n; pure done
  cmd_destroy _ = pure wrong_number

-- `node->is_active = active`
unfoldable pub set_active : Bool → NodeRef → Cmd (Unit {0})
unfolding update update_composite
set_active active (component p) = update p (λ c. record c { is_active = active })
set_active active (composite p) = update_composite p (λ c. record c { is_active = active })

module _ (e : Env) where
  unfoldable pub cmd_activate : List Name → Cmd Status
  unfolding get_node set_active
  cmd_activate (_ ∷ name ∷ []) = do
    node ← get_node e name
    with_node node λ n. do set_active true n; pure done
  cmd_activate _ = pure wrong_number

  unfoldable pub cmd_deactivate : List Name → Cmd Status
  unfolding get_node set_active
  cmd_deactivate (_ ∷ name ∷ []) = do
    node ← get_node e name
    with_node node λ n. do set_active false n; pure done
  cmd_deactivate _ = pure wrong_number

  unfoldable pub cmd_set : List Name → Cmd Status
  unfolding get_node set_node
  cmd_set (_ ∷ name ∷ arg ∷ args) = do
    node ← get_node e name
    with_node node
        λ n. do changed ← set_node e n (arg ∷ args); pure (if changed then done else failed)
  cmd_set _ = pure wrong_number

  -- `argc =! 2` assigns 0 to `argc`, so the number of arguments is never wrong; without an argument
  -- the name is read past the end. The node's `get` prints.
  unfoldable pub cmd_get : List Name → Cmd Status
  unfolding get_node
  cmd_get (_ ∷ name ∷ _) = do node ← get_node e name; with_node node λ n. pure done
  cmd_get _ = fails

-- `exit(0)`
unfoldable pub cmd_exit : List Name → Cmd Status
cmd_exit argv w = exited 0
