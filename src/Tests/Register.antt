-- ===== src/Tests/Register.antt =====
-- The theorem on registrations at the hub of the example network, before anything is registered, and
-- the search for a free name there.
use netemul.Base.{
  none, ◌≢◌, ◌≤◌, ℕ, zero, suc, ◌<◌, ◌≡◌, refl, true, [], ◌∷◌, ◌++◌, arith, codes, has, decimal,
  digits,
}
use netemul.World.{World}
use netemul.World.Run.{first_nodes, ◌>>◌}
use netemul.World.Ends.{Ends}
use netemul.Ownership.{is_there}
use netemul.Env.Model.{
  example_env, example_env-MapLaws, example_env-ListLaws, example_env-ParseLaws,
}
use netemul.Manager.{node_register, node_unregister, port_name, fits_name}
use netemul.Manager.Find.{Found, node_register-get_node}
use netemul.Manager.Unregister.{Restored, node_register-node_unregister}
use netemul.Node.{max_node_count}
use netemul.Env.Laws.{lookup}
use netemul.Endpoint.{numbered, register_loop}
use netemul.Endpoint.FreeName.{renamed, register_loop-first}
use netemul.Tests.{linked, linked_components, hub, ether_switch}

abbrev unregistered : World
unregistered = record linked { manager = record (linked.manager) { nodes = []; components = [] } }

ports_there : (p : ℕ) → has p (20 ∷ 21 ∷ []) ≡ true → is_there (linked_components p) ≡ true
ports_there p h = ground (arith, h)

fits : (j : ℕ) → j < 2 → fits_name (port_name (codes "h0") j) ≡ true
unfolding port_name decimal digits
fits zero h = refl
fits (suc zero) h = refl
fits (suc (suc j)) h = absurd (omega (arith, h))

node_register-get_node_example :
    Ends
      (λ done u. (done ≡ true) × Found example_env 10 (codes "h0") (20 ∷ 21 ∷ []) u)
      (node_register example_env 10 (codes "h0") unregistered)
unfolding example_env first_nodes port_name decimal
node_register-get_node_example =
    node_register-get_node example_env example_env-ListLaws example_env-MapLaws
      example_env-ParseLaws (λ xs x. (xs ++ x ∷ [], refl)) (λ a. refl) unregistered 10 hub
      (20 ∷ 21 ∷ []) refl refl refl refl (refl, (refl, tt)) ports_there fits
      ((codes "h0", 10) ∷ [], refl) b'h' (codes "0") refl (omega arith, (omega arith, tt)) refl

h0_taken :
    (j : ℕ) → 0 ≤ j → j < 1 → lookup linked.manager.nodes (numbered example_env b'h' j) ≢ none
unfolding decimal digits
h0_taken zero l h q = ground (arith, q)
h0_taken (suc j) l h q = absurd (omega (arith, h))

-- The name h0 is taken, and h1 is free.
register_loop-first_example :
    register_loop example_env 13 b'h' max_node_count 0 linked
    ≡ node_register example_env 13 (codes "h1") (renamed linked 13 ether_switch (codes "h1"))
unfolding decimal digits
register_loop-first_example =
    register_loop-first example_env example_env-MapLaws b'h' (λ q. omega (arith, q)) 2048 0 1 linked
      13 ether_switch (omega arith) (omega arith) (omega arith) refl refl h0_taken

node_register-node_unregister_example :
    Ends
      (λ _ v. Restored unregistered (codes "h0") v)
      ((node_register example_env 10 (codes "h0") >> node_unregister example_env (codes "h0"))
        unregistered)
unfolding example_env first_nodes
node_register-node_unregister_example =
    node_register-node_unregister example_env example_env-ListLaws example_env-MapLaws
      (λ xs x. (xs ++ x ∷ [], refl)) (λ a. refl) unregistered 10 hub (20 ∷ 21 ∷ []) refl refl
      (refl, (refl, tt)) ports_there fits ((codes "h0", 10) ∷ [], refl) (refl, (refl, tt))
