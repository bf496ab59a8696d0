-- ===== src/Tests/Startup.antt =====
-- The start of the program with options, from a state without anything.
use netemul.Base.{ℕ, ◌≡◌, refl, true, ◌++◌, Option, none, some, List, [], ◌∷◌, codes}
use netemul.Node.{Name}
use netemul.World.{World}
use netemul.World.Run.{Cmd, ok, pure, ◌>>=◌}
use netemul.Env.Model.{example_env}
use netemul.Network.Safe.{Safe}
use netemul.Start.{
  manager_init, go_on, minus_one, script, help, unknown, stopped, success, read_options,
  zeroed_manager, main,
}
use netemul.Start.Options.{run_main, main-scripts}
use netemul.Start.Ready.{IsBlank, ready, entered, main-ready}

abbrev blank_world : World
blank_world = record {
  component = λ p. none;
  composite = λ p. none;
  packet = λ p. none;
  ni = λ p. none;
  next = 1;
  manager = zeroed_manager;
  timers = [];
  readings = 0;
  sent = [];
}

blank_world-IsBlank : IsBlank blank_world
blank_world-IsBlank = record {
  components = λ p. refl;
  composites = λ p. refl;
  packets = λ p. refl;
  timers = refl;
}

-- Every command of a script succeeds.
abbrev run_line : Name → Cmd ℕ
run_line line = pure 0

abbrev grant_one : ℕ → Option ℕ
grant_one n = some 0

-- One file, with one line.
abbrev one_file : Name → Option (ℕ × List ℕ)
one_file name = some (3, codes "list" ++ 10 ∷ [])

-- The program goes on to its loop with the second script.
ready_start :
    (main example_env
        (pure tt)
        true
        one_file
        run_line
        0
        grant_one
        9
        0
        (script (codes "a") ∷ script (codes "b") ∷ [])
        blank_world
      ≡ entered example_env
          (pure tt)
          one_file
          run_line
          0
          grant_one
          9
          (some (codes "b"))
          (ready blank_world))
    × Safe example_env (ready blank_world)
unfolding example_env read_options
ready_start =
    main-ready example_env (λ a. refl) refl refl refl (pure tt) (λ w. refl) one_file run_line 0
      grant_one 9 blank_world blank_world-IsBlank (script (codes "a") ∷ script (codes "b") ∷ [])
      (some (codes "b")) refl

-- The first of two scripts does not count, help ends the program, and so does another user.
main-scripts_example :
    (run_main example_env
        (pure tt)
        true
        one_file
        run_line
        0
        grant_one
        9
        0
        (script (codes "a") ∷ script (codes "b") ∷ [])
        blank_world
      ≡ run_main example_env
          (pure tt)
          true
          one_file
          run_line
          0
          grant_one
          9
          0
          (script (codes "b") ∷ [])
          blank_world)
    × (run_main example_env
          (pure tt)
          true
          one_file
          run_line
          0
          grant_one
          9
          0
          (script (codes "b") ∷ [])
          blank_world
        ≡ (do
          m ← manager_init example_env (pure tt)
          go_on example_env (pure tt) true one_file run_line 0 grant_one 9 (some (codes "b")) m)
            blank_world)
    × (run_main example_env
          (pure tt)
          true
          one_file
          run_line
          0
          grant_one
          9
          0
          (script (codes "a") ∷ help ∷ unknown ∷ [])
          blank_world
        ≡ ok (stopped success) blank_world)
    × (run_main example_env
          (pure tt)
          true
          one_file
          run_line
          0
          grant_one
          9
          1000
          (unknown ∷ [])
          blank_world
        ≡ ok (stopped minus_one) blank_world)
main-scripts_example =
    main-scripts example_env (pure tt) true one_file run_line 0 grant_one 9 (codes "a" ∷ [])
      (codes "b") help success (unknown ∷ []) 999 blank_world refl
