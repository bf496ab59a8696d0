-- ===== src/Tests/Script.antt =====
-- The theorems on scripts at small ones, with three bytes at most for each read.
use netemul.Base.{ℕ, ◌≡◌, refl, Option, some, List, [], ◌∷◌, arith, codes}
use netemul.Node.{Name}
use netemul.World.Run.{Cmd, ok, out_of_fuel}
use netemul.Command.Script.{execute_cmd, command_process}
use netemul.Command.Script.Lines.{run_lines, unlines, AllLines, command_process-lines}
use netemul.Command.Script.Hang.{command_process_hangs}
use netemul.Tests.{linked}

-- A `cmd_exec` that writes the command down, and fails without one.
abbrev record_cmd : Name → Cmd ℕ
record_cmd [] w = ok 1 w
record_cmd (c ∷ cs) w = ok 0 (record w { sent = (0, c ∷ cs) ∷ w.sent })

abbrev three : ℕ → Option ℕ
three n = some 2

abbrev script : List (List ℕ)
script = codes "exit" ∷ codes "on h0" ∷ [] ∷ codes "off h0" ∷ []

script-AllLines : AllLines script
script-AllLines =
    (refl, omega arith, (refl, omega arith, (refl, omega arith, (refl, omega arith, tt))))

command_process-lines_example :
    command_process record_cmd 0 three 3 100 (unlines script) linked
    ≡ run_lines record_cmd 0 script linked
command_process-lines_example =
    command_process-lines record_cmd 0 three (λ n. (2, refl)) 3 (λ h. ground (arith, h)) 100 script
      linked script-AllLines (omega arith)

-- The two commands before the empty line have been run, and the one behind it has not.
run_lines_ran :
    run_lines record_cmd 0 script linked
    ≡ ok tt (record linked { sent = (0, codes "on h0") ∷ (0, codes "exit") ∷ [] })
unfolding run_lines execute_cmd
run_lines_ran = refl

command_process_hangs_example :
    command_process record_cmd 0 three 3 1000 (codes "on h0") linked ≡ out_of_fuel
command_process_hangs_example =
    command_process_hangs record_cmd 0 three (λ n. (2, refl)) 3 (λ h. ground (arith, h)) 1000
      (codes "on h0") linked refl (omega arith) (omega arith)
