-- ===== src/Start.antt =====
-- The start of the program: src/main.c, `manager_init` of src/manager.c, `input_init` of src/input.c,
-- `network_init` of src/network.c and `rpc_manager_init` of src/rpc_manager.c. `event_init` and
-- `cmd_init` belong to the SDK and have no state here; `bridge_init`, whose source is missing, is an
-- argument.
pub mod Options
pub mod Ready
use netemul.Base.{
  ℕ, Bool, true, false, Option, none, some, List, [], ◌∷◌, ◌++◌, ◌⊎◌, inl, inr, if◌then◌else◌, ◌==◌,
}
use netemul.Node.{Ptr, Name, max_node_count}
use netemul.Env.{Env, NameMap}
use netemul.World.{World, Manager}
use netemul.World.Run.{Cmd, pure, ◌>>=◌, ◌>>◌, modify, malloc, set_manager}
use netemul.Input.{input_init}
use netemul.Command.Script.{command_process}

-- The functions that the event machine calls when it is busy with nothing else.
pub data Busy : Type 0 where
  input_process network_round manager_loop : Busy

-- What `getopt_long` finds, one after the other.
pub data Opt : Type 0 where
  help version unknown : Opt
  script : Name → Opt

-- The statuses 0, -1 and -2
pub data Exit : Type 0 where
  success minus_one minus_two : Exit

-- The program ends with a status, or goes into the event loop: with what is called there, and the
-- list of the remote clients.
pub data Started : Type 0 where
  stopped : Exit → Started
  looping : List Busy → Option (List ℕ) → Started

-- The loop over the options: a status to end with, or the script.
unfoldable pub read_options : Option Name → List Opt → Exit ⊎ Option Name
read_options s [] = inr s
read_options s (help ∷ opts) = inl success
read_options s (version ∷ opts) = inl success
read_options s (script name ∷ opts) = read_options (some name) opts
read_options s (unknown ∷ opts) = inl minus_one

-- What `memset` leaves of the manager.
abbrev pub zeroed_manager : Manager
zeroed_manager = record {
  nis = λ fd. none;
  nodes = [];
  components = [];
  fds = [];
  fd_count = 0;
  nfds = 0;
  read_fds = [];
}

module _ (e : Env) where
  -- What `input_init` has the event machine call
  abbrev pub input_busy : Bool → List Busy
  input_busy added = if added then input_process ∷ [] else []

  abbrev pub network_init : List Busy
  network_init = network_round ∷ []

  abbrev pub make_components : List Busy → Option (List ℕ) → Cmd (Option (List Busy))
  make_components busy none = pure none
  make_components busy (some list) = do
    set_manager (λ m. record m { components = list })
    pure (some (busy ++ network_init))

  abbrev pub make_nodes : List Busy → Option NameMap → Cmd (Option (List Busy))
  make_nodes busy none = pure none
  make_nodes busy (some nodes) = do
    set_manager (λ m. record m { nodes = nodes })
    make_components busy e.list_create

  module _ (bridge_init : Cmd (Unit {0})) where
    -- The result of `input_init` is not tested.
    abbrev pub make_fds : Option (List ℕ) → Cmd (Option (List Busy))
    make_fds none = pure none
    make_fds (some fds) = do
      set_manager (λ m. record m { fds = fds })
      added ← input_init e
      bridge_init
      make_nodes (input_busy added) (e.map_create max_node_count)

    abbrev pub make_manager : Option Ptr → Cmd (Option (List Busy))
    make_manager none = pure none
    make_manager (some p) = do set_manager (λ m. zeroed_manager); make_fds e.list_create

    -- `manager_init`: `none` stands for `false`, else what the event machine calls.
    unfoldable pub manager_init : Cmd (Option (List Busy))
    unfolding input_init malloc
    manager_init = do m ← malloc e; make_manager m

    -- `rpc_netemul_listen`: does it give a server? The text and the descriptor of a script, if it can
    -- be opened; the rest is as for `command_process`.
    module _ (listens : Bool) (open_script : Name → Option (ℕ × List ℕ)) (cmd_exec : Name → Cmd ℕ)
        (unset : ℕ) (grant : ℕ → Option ℕ) (fuel : ℕ) where
      -- `rpc_manager_init`: `none` stands for -1. The list of clients is not tested.
      abbrev pub rpc_manager_init : List Busy → Option (List Busy × Option (List ℕ))
      rpc_manager_init busy =
          if listens then some (busy ++ manager_loop ∷ [], e.list_create) else none

      abbrev pub run_file : Option (ℕ × List ℕ) → Cmd (Unit {0})
      run_file none = pure tt
      run_file (some (fd, text)) = command_process cmd_exec unset grant fd fuel text

      abbrev pub run_script : Option Name → Cmd (Unit {0})
      run_script none = pure tt
      run_script (some name) = run_file (open_script name)

      abbrev pub enter_loop : Option Name → Option (List Busy × Option (List ℕ)) → Cmd Started
      enter_loop s none = pure (stopped minus_two)
      enter_loop s (some (busy, clients)) = do run_script s; pure (looping busy clients)

      abbrev pub go_on : Option Name → Option (List Busy) → Cmd Started
      go_on s none = pure (stopped minus_one)
      go_on s (some busy) = enter_loop s (rpc_manager_init busy)

      abbrev pub start : Exit ⊎ Option Name → Cmd Started
      start (inl status) = pure (stopped status)
      start (inr s) = do m ← manager_init; go_on s m

      -- `main`, up to the event loop
      unfoldable pub main : (euid : ℕ) → List Opt → Cmd Started
      unfolding read_options manager_init command_process
      main euid opts =
          if euid == 0 then start (read_options none opts) else pure (stopped minus_one)
