-- ===== src/Command/Script/Lines.antt =====
-- What `command_process` of src/command.c makes of a script: its lines, whatever the reads are.
use netemul.Base.{
  ℕ, zero, suc, ◌+◌, ◌-◌, ◌<◌, ◌≤◌, ◌≡◌, ◌≢◌, refl, Bool, true, false, ◌&&◌, not, Option, some,
  List, [], ◌∷◌, ◌++◌, ◌==◌, length, take, drop, take-drop, length-drop, has, arith, ap, ◌∙◌,
}
use netemul.Node.{Name}
use netemul.World.{World}
use netemul.World.Run.{Cmd, pure, ◌>>=◌}
use netemul.Command.Script.{
  execute_cmd, resume, round, process_loop, command_process, c_string, newline, max_line_size,
  read_bytes, min,
}
use mathlib.Core.List.{append-nil, append_assoc}
use netemul.Command.Script.Text.{fits, fits_bound, take_none, run_text, scan-run_text, then_cong}

-- The text of lines, each with its newline.
abbrev pub unlines : List (List ℕ) → List ℕ
unlines [] = []
unlines (l ∷ ls) = l ++ newline ∷ unlines ls

-- A line has no newline in it, and fits the buffer with the one behind it.
abbrev pub AllLines : List (List ℕ) → Type 0
AllLines [] = Unit
AllLines (l ∷ ls) = (has newline l ≡ false) × (length l < max_line_size) × AllLines ls

pub some_bytes : (n m : ℕ) → n < max_line_size → 1 ≤ min (max_line_size - n) (suc m)
some_bytes n m h = ground (arith, h)

-- What is left of a text after a read is shorter.
less :
    (n m fuel : ℕ) (rest : List ℕ)
    → n < max_line_size
    → (c : ℕ) (cs : List ℕ) → rest ≡ c ∷ cs
    → length rest < suc fuel
    → length (drop (min (max_line_size - n) (suc m)) rest) < fuel
less n m fuel rest h c cs q enough = ground (
  arith,
  length-drop (min (max_line_size - n) (suc m)) rest,
  some_bytes n m h,
  ap length q,
  enough,
)

fits_line :
    (n : ℕ) (l t : List ℕ)
    → has newline l ≡ false
    → n + length l < max_line_size
    → fits 0 t ≡ true
    → fits n (l ++ newline ∷ t) ≡ true
fits_line n [] t plain short h = ground (arith, short, h)
fits_line n (c ∷ l) t plain short h = ground (arith, fits_line (n + 1) l t, plain, short, h)

fits_lines : (ls : List (List ℕ)) → AllLines ls → fits 0 (unlines ls) ≡ true
fits_lines [] all = refl
fits_lines (l ∷ ls) (plain, short, all) =
    fits_line 0 l (unlines ls) plain (omega (arith, short)) (fits_lines ls all)

module _ (cmd_exec : Name → Cmd ℕ) (unset : ℕ) where
  -- The commands of these lines, until one fails.
  unfoldable pub run_lines : List (List ℕ) → Cmd (Unit {0})
  run_lines [] = pure tt
  run_lines (l ∷ ls) = do
    ret ← execute_cmd cmd_exec unset (c_string l)
    elim (ret == 0) [ true ↦ run_lines ls | false ↦ pure tt ]

  run_text-line :
      (l line t : List ℕ) (w : World)
      → has newline l ≡ false
      → run_text cmd_exec unset line (l ++ newline ∷ t) w
        ≡ (do
          ret ← execute_cmd cmd_exec unset (c_string (line ++ l))
          elim (ret == 0) [ true ↦ run_text cmd_exec unset [] t | false ↦ pure tt ])
            w
  unfolding run_text
  run_text-line [] line t w plain = rw (append-nil line) refl
  run_text-line (c ∷ l) line t w plain =
      let ih = run_text-line l (line ++ c ∷ []) t w in
      rw (other, run_text)
        (ih (ground (arith, plain))
          ∙ ap
              (λ s.
                (do
                  ret ← execute_cmd cmd_exec unset (c_string s)
                  elim (ret == 0) [ true ↦ run_text cmd_exec unset [] t | false ↦ pure tt ])
                  w)
              (append_assoc line (c ∷ []) l))
    where
      other : (c == newline) ≡ false
      other = ground (arith, plain)

  run_text-lines :
      (ls : List (List ℕ)) (w : World)
      → AllLines ls
      → run_text cmd_exec unset [] (unlines ls) w ≡ run_lines ls w
  unfolding run_text run_lines
  run_text-lines [] w all = refl
  run_text-lines (l ∷ ls) w (plain, short, all) =
      let ih = run_text-lines ls in
      run_text-line l [] (unlines ls) w plain
      ∙ then_cong (execute_cmd cmd_exec unset (c_string l) w) _ _
          λ ret u. after (λ v. ih v all) (ret == 0) u
    where
      after :
          ((v : World) → run_text cmd_exec unset [] (unlines ls) v ≡ run_lines ls v)
          → (goes_on : Bool) (u : World)
          → (elim goes_on as (λ _. Cmd (Unit {0})) [
            | true ↦ run_text cmd_exec unset [] (unlines ls)
            | false ↦ pure tt
          ])
              u
            ≡ (elim goes_on as (λ _. Cmd (Unit {0})) [ true ↦ run_lines ls | false ↦ pure tt ]) u
      after h true u = h u
      after h false u = refl

module _ (cmd_exec : Name → Cmd ℕ) (unset : ℕ) where
  module _ (grant : ℕ → Option ℕ) (grants : (n : ℕ) → (m : ℕ) × (grant n ≡ some m)) (fd : ℕ)
      (script : fd ≢ 0) where
    resumed :
        (next : List ℕ → Cmd (Unit {0})) (rest : List ℕ)
        → ((left : List ℕ) (w : World)
            → fits (length left) rest ≡ true
            → next left w ≡ run_text cmd_exec unset left rest w)
        → (moved : Bool) (left : List ℕ) (w : World) → fits (length left) rest ≡ true
        → resume cmd_exec unset grant fd next (some (moved, left)) w
          ≡ run_text cmd_exec unset left rest w
    unfolding resume
    resumed next rest h moved left w f = rw short (rw other (h left w f))
      where
        short : (not moved && (length left == max_line_size)) ≡ false
        short = ground (arith, fits_bound (length left) rest f)

        other : (fd == 0) ≡ false
        other = ground (arith, script)

    -- A round that reads so many bytes
    round_text :
        (next : List ℕ → List ℕ → Cmd (Unit {0})) (n : ℕ) (line rest : List ℕ) (w : World)
        → 1 ≤ n
        → ((left : List ℕ) (v : World)
            → (c : ℕ) (cs : List ℕ) → rest ≡ c ∷ cs
            → fits (length left) (drop n rest) ≡ true
            → next left (drop n rest) v ≡ run_text cmd_exec unset left (drop n rest) v)
        → fits (length line) rest ≡ true
        → round cmd_exec unset grant fd next line rest (some (take n rest, drop n rest)) w
          ≡ run_text cmd_exec unset line rest w
    unfolding round resume run_text
    round_text next n line [] w some_byte h f = rw (take_none n) (rw empty refl)
      where
        empty : (length line + 0 == 0) ≡ true
        empty = ground (arith, f)
    round_text next zero line (c ∷ cs) w some_byte h f = absurd (omega (arith, some_byte))
    round_text next (suc n) line (c ∷ cs) w some_byte h f = rw more (
        scan-run_text cmd_exec unset (drop n cs)
          (resume cmd_exec unset grant fd (λ left. next left (drop n cs))) (λ v. refl)
          (resumed (λ left. next left (drop n cs)) (drop n cs) (λ left v. h left v c cs refl))
          (c ∷ take n cs) false line w (ap (fits (length line)) (take-drop (suc n) (c ∷ cs)) ∙ f)
        ∙ ap (λ t. run_text cmd_exec unset line t w) (take-drop (suc n) (c ∷ cs)))
      where
        more : (length line + suc (length (take n cs)) == 0) ≡ false
        more = ground arith

    pub read-granted :
        (size m : ℕ) (rest : List ℕ)
        → grant (length rest) ≡ some m
        → read_bytes grant size rest
          ≡ some (take (min size (suc m)) rest, drop (min size (suc m)) rest)
    unfolding read_bytes
    read-granted size m rest h = rw (h, read_bytes) refl

    loop-run_text :
        (fuel : ℕ) (line rest : List ℕ) (w : World)
        → length rest < fuel
        → fits (length line) rest ≡ true
        → process_loop cmd_exec unset grant fd fuel line rest w
          ≡ run_text cmd_exec unset line rest w
    unfolding process_loop
    loop-run_text zero line rest w enough f = absurd (omega (arith, enough))
    loop-run_text (suc fuel) line rest w enough f =
        let ih = loop-run_text fuel in
        let (m, granted) = grants (length rest) in
        rw (read-granted (max_line_size - length line) m rest granted) (
          round_text (process_loop cmd_exec unset grant fd fuel)
            (min (max_line_size - length line) (suc m)) line rest w
            (some_bytes (length line) m (fits_bound (length line) rest f))
            (λ left v c cs q.
              ih left (drop (min (max_line_size - length line) (suc m)) rest) v
                (less (length line) m fuel rest (fits_bound (length line) rest f) c cs q enough))
            f)

    -- A script, whose lines are shorter than the buffer and all end, is run line by line, until a
    -- command fails, whatever parts of it the reads give, if none of them fails: the loop ends.
    pub command_process-lines :
        (fuel : ℕ) (ls : List (List ℕ)) (w : World)
        → AllLines ls
        → length (unlines ls) < fuel
        → command_process cmd_exec unset grant fd fuel (unlines ls) w
          ≡ run_lines cmd_exec unset ls w
    unfolding command_process
    command_process-lines fuel ls w all enough =
        loop-run_text fuel [] (unlines ls) w enough (fits_lines ls all)
        ∙ run_text-lines cmd_exec unset ls w all
