-- ===== src/Tests/Control.antt =====
-- The theorems on the manager and on commands at the example network.
use netemul.Base.{
  ℕ, ◌+◌, ◌<◌, ◌≤◌, ◌≡◌, refl, true, false, none, some, [], ◌∷◌, arith, codes, has, inr, inl,
}
use netemul.World.{World, CableState}
use netemul.World.Run.{ok, ◌>>=◌, ◌>>◌, pure, store}
use netemul.Env.Model.{
  value, example_env, example_env-MapLaws, example_env-FifoLaws, example_env-ListLaws,
  example_env-ParseLaws,
}
use netemul.Manager.{get_node, component, composite, port_name, fd_add, fd_remove, get_last}
use netemul.Manager.Lookup.{get_node-name, get_node-port_name}
use netemul.Manager.Poll.{fd_add-nfds, fd_add-fd_remove}
use netemul.Cable.{set_args, assign}
use netemul.Cable.Arguments.{set_args-partial}
use netemul.Command.{failed, cmd_create, cmd_activate, cmd_deactivate, cmd_destroy, cmd_set}
use netemul.Rpc.{on_handler, off_handler, destroy_handler, set_handler}
use netemul.Rpc.Agree.{handlers_agree, succeeded}
use netemul.Command.Limits.{cmd_create-refused, hub}
use netemul.Network.{network_control, forward}
use netemul.Network.Control.{network_control-first, network_control-idle}
use netemul.Env.{Fifo}
use netemul.Tests.{linked, host, free_components, placed, example_world}
use netemul.Base.{if◌then◌else◌, ◌==◌, decimal}

get_node-name_example : get_node example_env (codes "v0") linked ≡ ok (some (composite 12)) linked
get_node-name_example =
    get_node-name example_env example_env-MapLaws linked b'v' (codes "0")
      (omega arith, (omega arith, tt)) 12 refl refl

get_node-port_name_example :
    get_node example_env (port_name (codes "v0") 0) linked ≡ ok (some (component 22)) linked
unfolding port_name decimal
get_node-port_name_example =
    get_node-port_name example_env example_env-MapLaws linked b'v' (codes "0")
      (omega arith, (omega arith, tt)) 12 refl example_env-ParseLaws 0 host 22 refl refl
      (omega arith) (omega arith) refl

-- The descriptors are 0 and 5, and 3 is added.
fd_add-nfds_example :
    (w' : World) × (fd_add example_env 3 linked ≡ ok true w')
    × (w'.manager.fds ≡ 0 ∷ 5 ∷ 3 ∷ [])
    × (w'.manager.read_fds ≡ 0 ∷ 5 ∷ 3 ∷ [])
    × (w'.manager.fd_count ≡ 3)
    × (3 < w'.manager.nfds)
    × ((x : ℕ) → has x (0 ∷ 5 ∷ []) ≡ true → 3 < x → w'.manager.nfds ≤ x)
unfolding example_env
fd_add-nfds_example = fd_add-nfds example_env example_env-ListLaws linked 3 (0 ∷ 5 ∷ 3 ∷ []) refl

fd_add-fd_remove_example :
    (w' : World) × ((fd_add example_env 3 >> fd_remove example_env 3) linked ≡ ok true w')
    × (w'.manager.fds ≡ 0 ∷ 5 ∷ [])
    × (w'.manager.read_fds ≡ 0 ∷ 5 ∷ [])
    × (w'.manager.fd_count ≡ 2)
    × (w'.manager.nfds ≡ get_last (0 ∷ 5 ∷ []) + 1)
unfolding example_env
fd_add-fd_remove_example =
    fd_add-fd_remove example_env example_env-ListLaws linked 3 (0 ∷ 5 ∷ 3 ∷ []) refl refl

abbrev settings : CableState
settings = record {
  bandwidth = 1000;
  output_closed = 0;
  error_rate = 0;
  drop_rate = 0;
  jitter = 0;
  latency = 0;
}

-- The bandwidth is set, and the word behind it is no attribute.
set_args-partial_example :
    set_args example_env (codes "band:" ∷ codes "5" ∷ codes "colour:" ∷ codes "7" ∷ []) settings
    ≡ some (false, record settings { bandwidth = 5 })
unfolding example_env set_args assign value
set_args-partial_example =
    set_args-partial example_env (codes "band:" ∷ codes "5" ∷ []) [] (codes "colour:") (codes "7")
      settings (record settings { bandwidth = 5 }) refl (inl refl)

handlers_agree_example :
    ((do s ← cmd_activate example_env (codes "on" ∷ codes "v0" ∷ []); pure (succeeded s)) linked
      ≡ on_handler example_env (codes "v0") linked)
    × ((do s ← cmd_deactivate example_env (codes "on" ∷ codes "v0" ∷ []); pure (succeeded s)) linked
        ≡ off_handler example_env (codes "v0") linked)
    × ((do s ← cmd_destroy example_env (codes "on" ∷ codes "v0" ∷ []); pure (succeeded s)) linked
        ≡ destroy_handler example_env (codes "v0") linked)
    × ((do
      s ← cmd_set example_env (codes "on" ∷ codes "v0" ∷ codes "band:" ∷ codes "5" ∷ [])
      pure (succeeded s))
          linked
        ≡ set_handler example_env (codes "v0") (codes "band:" ∷ codes "5" ∷ []) linked)
handlers_agree_example =
    handlers_agree example_env linked (codes "on") (codes "v0") (codes "band:") (codes "5" ∷ [])

-- A hub with 65 ports
cmd_create-refused_example :
    cmd_create example_env (codes "create" ∷ codes "hub" ∷ codes "65" ∷ []) linked
    ≡ ok failed linked
unfolding example_env value
cmd_create-refused_example =
    cmd_create-refused example_env linked hub (codes "create") (codes "65")
      (inr (omega arith, omega arith))

-- The port 21 has the packet 40 in its queue.
abbrev waiting : Fifo
waiting = record { size = 8; items = 40 ∷ [] }

abbrev busy : World
busy = example_world λ a.
    if a == 21
    then some (record (placed 10 none none) { queue = some waiting })
    else free_components a

network_control-first_example :
    network_control example_env busy
    ≡ (do
      store 21 (record (placed 10 none none) { queue = some (record { size = 8; items = [] }) })
      forward example_env 2 21 40
      pure true)
        busy
network_control-first_example =
    network_control-first example_env example_env-FifoLaws busy (20 ∷ []) (22 ∷ []) 21 40
      (record (placed 10 none none) { queue = some waiting }) waiting [] refl
      ((_, _, refl, refl, refl), tt) refl refl refl

idle_round : network_control example_env linked ≡ ok true linked
idle_round =
    network_control-idle example_env example_env-FifoLaws linked
      ((_, _, refl, refl, refl), ((_, _, refl, refl, refl), ((_, _, refl, refl, refl), tt)))
