-- ===== src/Command/Script.antt =====
-- `execute_cmd` and `command_process` of src/command.c: the commands of a script or of the terminal,
-- line by line. `read` and `cmd_exec` are not in the repository: they are arguments. The buffer's
-- bytes up to `eod` are a list: `seek` stands at its end whenever `read` is called.
pub mod Text
pub mod Lines
pub mod Hang
use netemul.Base.{
  ℕ, zero, suc, ◌+◌, ◌-◌, Bool, true, false, ◌&&◌, not, Option, none, some, List, [], ◌∷◌, ◌++◌,
  if◌then◌else◌, leb, ◌==◌, length, take, drop,
}
use netemul.Node.{Name}
use netemul.World.Run.{Cmd, pure, ◌>>=◌, ◌>>◌, fails, out_of_fuel}

abbrev pub max_line_size : ℕ
max_line_size = 2048

abbrev pub newline : ℕ
newline = 10

abbrev pub min : ℕ → ℕ → ℕ
min a b = if leb a b then a else b

-- The C string that begins with these bytes.
abbrev pub c_string : List ℕ → Name
c_string [] = []
c_string (c ∷ cs) = if c == 0 then [] else c ∷ c_string cs

-- `read`: an error, or the next bytes of the file and those behind them. It gives one byte at least,
-- where it may give any and there are any; what it grants beyond is the kernel's choice.
unfoldable pub read_bytes : (ℕ → Option ℕ) → ℕ → List ℕ → Option (List ℕ × List ℕ)
read_bytes grant size rest = elim (grant (length rest)) [
  | none ↦ none
  | some more ↦ some (take (min size (suc more)) rest, drop (min size (suc more)) rest)
]

-- `cmd_exec`, by what it returns, and the value that a function has which returns none.
module _ (cmd_exec : Name → Cmd ℕ) (unset : ℕ) where
  -- `execute_cmd` returns the status of a command that failed, and does not return a value otherwise.
  unfoldable pub execute_cmd : Name → Cmd ℕ
  execute_cmd line = do status ← cmd_exec line; pure (if status == 0 then unset else status)

  -- The loop over the bytes that are new, behind those of the line that has begun: `none` if a
  -- command ends it, or whether a line was found, and what is left of the last.
  unfoldable pub scan : Bool → List ℕ → List ℕ → Cmd (Option (Bool × List ℕ))
  unfolding execute_cmd
  scan moved line [] = pure (some (moved, line))
  scan moved line (c ∷ cs) = elim (c == newline) [
    | true ↦ (do
      ret ← execute_cmd (c_string line)
      elim (ret == 0) [ true ↦ scan true [] cs | false ↦ pure none ])
    | false ↦ scan moved (line ++ c ∷ []) cs
  ]

  module _ (grant : ℕ → Option ℕ) (fd : ℕ) where
    -- What the loop does behind the scan; `next` is its next round.
    unfoldable pub resume : (List ℕ → Cmd (Unit {0})) → Option (Bool × List ℕ) → Cmd (Unit {0})
    resume next none = pure tt
    resume next (some (moved, left)) =
        if not moved && (length left == max_line_size)
        then pure tt
        else if fd == 0
        then pure tt
        else next left

    -- A read error takes one from `eod`; the move of a negative number of bytes fails.
    unfoldable pub after_error : (List ℕ → Cmd (Unit {0})) → List ℕ → Cmd (Unit {0})
    unfolding resume
    after_error next [] = fails
    after_error next (c ∷ []) = pure tt
    after_error next (c ∷ d ∷ cs) = resume next (some (false, take (suc (length cs)) (c ∷ d ∷ cs)))

    -- One round, behind the `read`. When the loop is left, `eod` is zero, so that the code behind it
    -- does nothing.
    unfoldable pub round :
        (List ℕ → List ℕ → Cmd (Unit {0}))
        → (line rest : List ℕ) → Option (List ℕ × List ℕ)
        → Cmd (Unit {0})
    unfolding scan resume after_error
    round next line rest none = after_error (λ left. next left rest) line
    round next line rest (some (got, behind)) =
        if length line + length got == 0
        then pure tt
        else (do outcome ← scan false line got; resume (λ left. next left behind) outcome)

    unfoldable pub process_loop : ℕ → List ℕ → List ℕ → Cmd (Unit {0})
    unfolding round read_bytes
    process_loop zero line rest = λ w. out_of_fuel
    process_loop (suc fuel) line rest =
        round (process_loop fuel) line rest (read_bytes grant (max_line_size - length line) rest)

    -- `command_process` over the bytes that a descriptor has.
    unfoldable pub command_process : ℕ → List ℕ → Cmd (Unit {0})
    unfolding process_loop
    command_process fuel text = process_loop fuel [] text
