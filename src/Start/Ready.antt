-- ===== src/Start/Ready.antt =====
-- The state in which src/main.c goes into its event loop.
use netemul.Base.{ℕ, suc, ◌≡◌, refl, ap, true, Option, none, some, List, [], ◌∷◌, inr, arith}
use netemul.Node.{Ptr, Name, max_node_count}
use netemul.Env.{Env, NameMap}
use netemul.World.{World}
use netemul.World.Run.{Cmd, ok, pure, ◌>>◌, malloc}
use netemul.Manager.{fd_add, update_fd_info, get_last}
use netemul.Network.Safe.{Safe, Sane}
use netemul.Input.{input_init}
use netemul.Start.{
  input_process, network_round, manager_loop, Opt, Started, looping, read_options, zeroed_manager,
  manager_init, make_components, make_nodes, make_fds, run_script, main,
}

-- Nothing is allocated that belongs to the network.
pub record IsBlank (w : World) : Type 0 where
  pub components : (p : Ptr) → w.component p ≡ none
  pub composites : (p : Ptr) → w.composite p ≡ none
  pub packets : (p : Ptr) → w.packet p ≡ none
  pub timers : w.timers ≡ []

-- The state with a manager that polls the terminal
abbrev pub ready : World → World
ready w = record w {
  next = suc w.next;
  manager = record zeroed_manager { fds = 0 ∷ []; fd_count = 1; nfds = 1; read_fds = 0 ∷ [] };
}

module _ (e : Env) (w : World) (blank : IsBlank w) where
  ready-Sane : Sane e (ready w)
  ready-Sane = record {
    owned = record {
      stored = λ a p h. ground (arith, blank.components a);
      once = λ a p. ground (arith, blank.components a);
      apart = λ a b p h. ground (arith, blank.components a, blank.components b);
      fresh = λ p h. blank.packets p;
      timed_stored = λ p h. ground (arith, blank.timers);
      timed_once = λ p. ground (arith, blank.timers);
      timed_apart = λ a p. ground (arith, blank.components a, blank.timers);
    };
    sound = λ a o h. ground (arith, blank.components a, h);
    tables = λ s b c h. absurd (ground (arith, blank.composites s, h));
    waiting = λ a h. ground (arith, blank.timers, h);
    works = λ p h. ground (arith, blank.components p, h);
    listed = λ p h. ground (arith, h);
    polled = λ fd h n. absurd (n (ground (arith, h)));
  }

  ready-Safe : Safe e (ready w)
  ready-Safe = record {
    sane = ready-Sane;
    kept = λ p h. ground (arith, h.allocated, blank.packets p);
  }

-- The program goes into its loop, with these functions to call.
abbrev looping_with : Option (List ℕ) → Started
looping_with = looping (input_process ∷ network_round ∷ manager_loop ∷ [])

module _ (e : Env) (bridge_init : Cmd (Unit {0})) (open_script : Name → Option (ℕ × List ℕ))
    (cmd_exec : Name → Cmd ℕ) (unset : ℕ) (grant : ℕ → Option ℕ) (fuel : ℕ) where
  abbrev script_then : Option Name → Option (List ℕ) → Cmd Started
  script_then s clients = do
    run_script e bridge_init true open_script cmd_exec unset grant fuel s
    pure (looping_with clients)

  -- A script is run, if there is one, and the loop is entered without remote clients.
  abbrev pub entered : Option Name → Cmd Started
  entered s = script_then s (some [])

module _ (e : Env) (memory : (a : Ptr) → e.malloc_ok a ≡ true) (creates : e.list_create ≡ some [])
    (adds : e.list_add [] 0 ≡ some (0 ∷ [])) (maps : e.map_create max_node_count ≡ some [])
    (bridge_init : Cmd (Unit {0})) (bridge : (w : World) → bridge_init w ≡ ok tt w) where
  -- The state behind `memset`
  abbrev zeroed : World → World
  zeroed w = record w { next = suc w.next; manager = zeroed_manager }

  input_init-ready : (w : World) → input_init e (zeroed w) ≡ ok true (ready w)
  unfolding input_init fd_add update_fd_info get_last
  input_init-ready w = rw adds refl

  make_components-ready :
      (w : World) (o : Option (List ℕ))
      → o ≡ some []
      → make_components e (input_process ∷ []) o (ready w)
        ≡ ok (some (input_process ∷ network_round ∷ [])) (ready w)
  make_components-ready w o eq = rw eq refl

  make_nodes-ready :
      (w : World) (o : Option NameMap)
      → o ≡ some []
      → make_nodes e (input_process ∷ []) o (ready w)
        ≡ ok (some (input_process ∷ network_round ∷ [])) (ready w)
  make_nodes-ready w o eq = rw eq (make_components-ready w e.list_create creates)

  make_fds-ready :
      (w : World) (o : Option (List ℕ))
      → o ≡ some []
      → make_fds e bridge_init o (zeroed w)
        ≡ ok (some (input_process ∷ network_round ∷ [])) (ready w)
  make_fds-ready w o eq = rw eq (
      rw (input_init-ready w)
        (rw (bridge (ready w)) (make_nodes-ready w (e.map_create max_node_count) maps)))

  manager_init-ready :
      (w : World)
      → manager_init e bridge_init w ≡ ok (some (input_process ∷ network_round ∷ [])) (ready w)
  unfolding manager_init malloc
  manager_init-ready w = rw (memory w.next) (make_fds-ready w e.list_create creates)

  module _ (open_script : Name → Option (ℕ × List ℕ)) (cmd_exec : Name → Cmd ℕ) (unset : ℕ)
      (grant : ℕ → Option ℕ) (fuel : ℕ) where
    -- Started by root, with options that all take, where the memory, the lists, the map and the server
    -- can be had, the program makes a manager that polls the terminal alone and has no nodes; this state
    -- is safe. It runs the script that was named last, if there is one and it can be opened, from this
    -- state on, and goes into the event loop, with the terminal and the interfaces, the network and the
    -- remote clients to look after.
    pub main-ready :
        (w : World)
        → IsBlank w
        → (opts : List Opt) (s : Option Name) → read_options none opts ≡ inr s
        → (main e bridge_init true open_script cmd_exec unset grant fuel 0 opts w
            ≡ entered e bridge_init open_script cmd_exec unset grant fuel s (ready w))
          × Safe e (ready w)
    unfolding main
    main-ready w blank opts s takes = (
      rw takes (
          rw (manager_init-ready w) (
            ap (λ l. script_then e bridge_init open_script cmd_exec unset grant fuel s l (ready w))
              creates)),
      ready-Safe e w blank,
    )
