-- ===== src/Rpc/Agree.antt =====
-- The handlers of src/rpc_manager.c and the commands of src/command.c do the same.
use netemul.Base.{◌≡◌, refl, Bool, true, false, Option, none, some, List, [], ◌∷◌, if◌then◌else◌}
use netemul.Node.{Name}
use netemul.Env.{Env}
use netemul.World.{World}
use netemul.World.Run.{Run, Cmd, ok, fault, out_of_fuel, exited, pure, and_then, ◌>>=◌}
use netemul.Manager.{NodeRef, get_node}
use netemul.Link.{set_node}
use netemul.Command.{
  Status, done, failed, with_node, set_active, destroy_node, cmd_activate, cmd_deactivate,
  cmd_destroy, cmd_set,
}
use netemul.Rpc.{answer, on_handler, off_handler, destroy_handler, set_handler}

-- A command's status as a handler reports it.
abbrev pub succeeded : Status → Bool
succeeded done = true
succeeded _ = false

module _ (A : Type 0) (f : NodeRef → Cmd A) (status : A → Status) (report : A → Bool)
    (same : (a : A) → succeeded (status a) ≡ report a) where
  after_lookup :
      (r : Run (Option NodeRef))
      → and_then
          (and_then r (λ n. with_node n (λ m. do a ← f m; pure (status a))))
          (λ s. pure (succeeded s))
        ≡ and_then r (λ n. answer n (λ m. do a ← f m; pure (report a)))
  after_lookup (ok none w) = refl
  after_lookup (ok (some n) w) = by_result (f n w)
    where
      by_result :
          (r : Run A)
          → and_then (and_then r (λ a. pure (status a))) (λ s. pure (succeeded s))
            ≡ and_then r (λ a. pure (report a))
      by_result (ok a u) = rw (same a)
      by_result fault = refl
      by_result out_of_fuel = refl
      by_result (exited n) = refl
  after_lookup fault = refl
  after_lookup out_of_fuel = refl
  after_lookup (exited n) = refl

-- Switching a node on or off, destroying it and setting its attributes do the same to the network
-- by a remote call as by a command with the same arguments, and report the same success, for every
-- name and state.
pub handlers_agree :
    (e : Env) (w : World) (command name arg : Name) (args : List Name)
    → ((do s ← cmd_activate e (command ∷ name ∷ []); pure (succeeded s)) w ≡ on_handler e name w)
      × ((do s ← cmd_deactivate e (command ∷ name ∷ []); pure (succeeded s)) w
          ≡ off_handler e name w)
      × ((do s ← cmd_destroy e (command ∷ name ∷ []); pure (succeeded s)) w
          ≡ destroy_handler e name w)
      × ((do s ← cmd_set e (command ∷ name ∷ arg ∷ args); pure (succeeded s)) w
          ≡ set_handler e name (arg ∷ args) w)
unfolding cmd_activate cmd_deactivate cmd_destroy cmd_set on_handler off_handler destroy_handler
    set_handler
handlers_agree e w command name arg args = (
  after_lookup Unit (set_active true) (λ _. done) (λ _. true) (λ _. refl) (get_node e name w),
  after_lookup Unit (set_active false) (λ _. done) (λ _. true) (λ _. refl) (get_node e name w),
  after_lookup Unit (destroy_node e) (λ _. done) (λ _. true) (λ _. refl) (get_node e name w),
  after_lookup Bool (λ n. set_node e n (arg ∷ args)) (λ b. if b then done else failed)
      (λ b. if b then true else false) by_result (get_node e name w),
)
  where
    by_result : (b : Bool) → succeeded (if b then done else failed) ≡ (if b then true else false)
    by_result true = refl
    by_result false = refl
