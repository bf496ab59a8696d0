-- ===== src/Start/Options.antt =====
-- What the options of src/main.c select, as `getopt_long` finds them.
use netemul.Base.{
  ℕ, suc, ◌≡◌, refl, Bool, Option, none, some, List, [], ◌∷◌, ◌++◌, arith, inl, inr, false, ◌==◌,
}
use netemul.Node.{Name}
use netemul.Env.{Env}
use netemul.World.{World}
use netemul.World.Run.{Cmd, ok, ◌>>=◌}
use netemul.Start.{
  Started, Opt, Exit, help, version, unknown, script, success, minus_one, stopped, read_options,
  main, manager_init, go_on,
}

-- `-s` once for each name.
abbrev pub scripts : List Name → List Opt
scripts [] = []
scripts (x ∷ xs) = script x ∷ scripts xs

-- The status with which an option ends the program, if it does.
abbrev pub status_of : Opt → Option Exit
status_of help = some success
status_of version = some success
status_of unknown = some minus_one
status_of (script name) = none

-- The last script alone is read.
read_options-last :
    (s : Option Name) (xs : List Name) (x : Name)
    → read_options s (scripts (xs ++ x ∷ [])) ≡ inr (some x)
unfolding read_options
read_options-last s [] x = refl
read_options-last s (y ∷ ys) x = read_options-last (some y) ys x

-- An option that ends the program ends it behind any scripts.
read_options-stops :
    (s : Option Name) (xs : List Name) (o : Opt) (status : Exit) (rest : List Opt)
    → status_of o ≡ some status
    → read_options s (scripts xs ++ o ∷ rest) ≡ inl status
unfolding read_options
read_options-stops s [] help status rest h = ground (arith, h)
read_options-stops s [] version status rest h = ground (arith, h)
read_options-stops s [] unknown status rest h = ground (arith, h)
read_options-stops s [] (script name) status rest h = absurd (ground (arith, h))
read_options-stops s (y ∷ ys) o status rest h = read_options-stops (some y) ys o status rest h

other_user : (n : ℕ) → (suc n == 0) ≡ false
other_user n = ground arith

module _ (e : Env) (bridge_init : Cmd (Unit {0})) (listens : Bool)
    (open_script : Name → Option (ℕ × List ℕ)) (cmd_exec : Name → Cmd ℕ) (unset : ℕ)
    (grant : ℕ → Option ℕ) (fuel : ℕ) where
  abbrev pub run_main : ℕ → List Opt → Cmd Started
  run_main euid opts = main e bridge_init listens open_script cmd_exec unset grant fuel euid opts

  -- Of several scripts the last one counts, as if it were the only one, and it is the one that is
  -- handed on to be run behind the start of the manager. An option that asks for help
  -- or for the version, or is unknown, ends the program with its status behind any scripts and
  -- whatever is behind it, before the state is changed and before any script is run; and so does a
  -- start by another user than root, with any options.
  pub main-scripts :
      (xs : List Name) (x : Name) (o : Opt) (status : Exit) (rest : List Opt) (n : ℕ) (w : World)
      → status_of o ≡ some status
      → (run_main 0 (scripts (xs ++ x ∷ [])) w ≡ run_main 0 (script x ∷ []) w)
        × (run_main 0 (script x ∷ []) w
            ≡ (do
              m ← manager_init e bridge_init
              go_on e bridge_init listens open_script cmd_exec unset grant fuel (some x) m)
                w)
        × (run_main 0 (scripts xs ++ o ∷ rest) w ≡ ok (stopped status) w)
        × (run_main (suc n) rest w ≡ ok (stopped minus_one) w)
  unfolding main read_options
  main-scripts xs x o status rest n w ends = (
    rw (read_options-last none xs x) refl,
    refl,
    rw (read_options-stops none xs o status rest ends) refl,
    rw (other_user n) refl,
  )
