-- ===== src/Command/Script/Hang.antt =====
-- `command_process` of src/command.c at the end of a script whose last line does not end.
use netemul.Base.{
  ℕ, zero, suc, ◌+◌, ◌-◌, ◌<◌, ◌≤◌, ◌≡◌, ◌≢◌, refl, Bool, false, Option, some, List, [], ◌∷◌, ◌++◌,
  ◌==◌, length, length-append, take, drop, take-drop, has, arith, sym, ap, ◌∙◌, subst,
}
use mathlib.Core.List.{append-nil, append_assoc}
use netemul.Node.{Name}
use netemul.World.{World}
use netemul.World.Run.{ok, out_of_fuel, Cmd}
use netemul.Command.Script.{
  scan, resume, round, process_loop, command_process, newline, max_line_size, min,
}
use netemul.Command.Script.Lines.{read-granted, some_bytes}

has-append :
    (xs ys : List ℕ)
    → has newline (xs ++ ys) ≡ false
    → (has newline xs ≡ false) × (has newline ys ≡ false)
has-append [] ys h = (refl, h)
has-append (x ∷ xs) ys h = ground (arith, has-append xs ys, h)

some_taken : (n : ℕ) (xs : List ℕ) → 1 ≤ n → 1 ≤ length xs → 1 ≤ length (take n xs)
some_taken zero xs h k = absurd (omega (arith, h))
some_taken (suc n) [] h k = k
some_taken (suc n) (x ∷ xs) h k = omega arith

module _ (cmd_exec : Name → Cmd ℕ) (unset : ℕ) where
  scan-plain :
      (got line : List ℕ) (moved : Bool) (w : World)
      → has newline got ≡ false
      → scan cmd_exec unset moved line got w ≡ ok (some (moved, line ++ got)) w
  unfolding scan
  scan-plain [] line moved w plain = rw (append-nil line) refl
  scan-plain (c ∷ cs) line moved w plain =
      let ih = scan-plain cs (line ++ c ∷ []) moved w in
      rw (other, scan)
        (ih (ground (arith, plain))
          ∙ ap (λ s. ok (some (moved, s)) w) (append_assoc line (c ∷ []) cs))
    where
      other : (c == newline) ≡ false
      other = ground (arith, plain)

  module _ (grant : ℕ → Option ℕ) (grants : (n : ℕ) → (m : ℕ) × (grant n ≡ some m)) (fd : ℕ)
      (script : fd ≢ 0) where
    round_plain :
        (next : List ℕ → List ℕ → Cmd (Unit {0})) (line got behind : List ℕ) (w : World)
        → has newline got ≡ false
        → 1 ≤ length line + length got
        → length (line ++ got) < max_line_size
        → round cmd_exec unset grant fd next line behind (some (got, behind)) w
          ≡ next (line ++ got) behind w
    unfolding round resume
    round_plain next line got behind w plain some_byte short =
        rw going (rw (scan-plain got line false w plain) (rw room (rw other refl)))
      where
        going : (length line + length got == 0) ≡ false
        going = ground (arith, some_byte)

        room : (length (line ++ got) == max_line_size) ≡ false
        room = ground (arith, short)

        other : (fd == 0) ≡ false
        other = ground (arith, script)

    loop_hangs :
        (fuel : ℕ) (line rest : List ℕ) (w : World)
        → has newline rest ≡ false
        → 1 ≤ length line + length rest
        → length (line ++ rest) < max_line_size
        → process_loop cmd_exec unset grant fd fuel line rest w ≡ out_of_fuel
    unfolding process_loop
    loop_hangs zero line rest w plain some_byte short = refl
    loop_hangs (suc fuel) line rest w plain some_byte short =
        let ih = loop_hangs fuel in
        let (m, granted) = grants (length rest) in
        let n = min (max_line_size - length line) (suc m) in
        let whole : (line ++ take n rest) ++ drop n rest ≡ line ++ rest =
          append_assoc line (take n rest) (drop n rest) ∙ ap (λ s. line ++ s) (take-drop n rest) in
        let total : length (line ++ take n rest) + length (drop n rest) ≡ length (line ++ rest) =
          sym (length-append (line ++ take n rest) (drop n rest)) ∙ ap length whole in
        let sum = length-append line (take n rest) in
        let whole_sum = length-append line rest in
        let plain_parts =
          has-append (take n rest) (drop n rest) (ap (has newline) (take-drop n rest) ∙ plain) in
        let taken =
          some_taken n rest (some_bytes (length line) m (omega (arith, whole_sum, short))) in
        rw
          (read-granted cmd_exec unset grant grants fd script (max_line_size - length line) m rest
            granted)
          (round_plain (process_loop cmd_exec unset grant fd fuel) line (take n rest) (drop n rest)
              w plain_parts.0 (ground (arith, taken, some_byte)) (omega (arith, total, short))
            ∙ ih (line ++ take n rest) (drop n rest) w plain_parts.1
                (omega (arith, total, whole_sum, some_byte))
                (subst (λ s. length s < max_line_size) (sym whole) short))

    -- A script that is one line without a newline, of at least one byte and fewer than the 2048 of the
    -- buffer, is never run, and the loop never ends, whatever parts of it the reads give, if no read
    -- fails: no fuel is enough.
    pub command_process_hangs :
        (fuel : ℕ) (text : List ℕ) (w : World)
        → has newline text ≡ false
        → 1 ≤ length text
        → length text < max_line_size
        → command_process cmd_exec unset grant fd fuel text w ≡ out_of_fuel
    unfolding command_process
    command_process_hangs fuel text w plain some_byte short =
        loop_hangs fuel [] text w plain (omega (arith, some_byte)) short
