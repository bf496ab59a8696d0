-- ===== src/Command/Script/Text.antt =====
-- The scan of `command_process` of src/command.c: a text that is read in parts is run as a whole.
use netemul.Base.{
  ℕ, zero, suc, ◌+◌, ◌<◌, ◌≡◌, refl, Bool, true, false, ◌&&◌, Option, none, some, List, [], ◌∷◌,
  ◌++◌, ltb, ◌==◌, length, length-append, take, arith, ◌∙◌, Bool-cases, inl, inr,
}
use netemul.Node.{Name}
use netemul.World.{World}
use netemul.World.Run.{Run, ok, fault, out_of_fuel, exited, Cmd, and_then, pure, ◌>>=◌}
use netemul.Command.Script.{execute_cmd, scan, c_string, newline, max_line_size}

module _ {A B : Type 0} where
  pub then_cong :
      (r : Run A) (f g : A → Cmd B)
      → ((a : A) (w : World) → f a w ≡ g a w)
      → and_then r f ≡ and_then r g
  then_cong (ok a w) f g h = h a w
  then_cong fault f g h = refl
  then_cong out_of_fuel f g h = refl
  then_cong (exited n) f g h = refl

module _ {A B C : Type 0} where
  then_assoc :
      (r : Run A) (f : A → Cmd B) (k : B → Cmd C)
      → and_then (and_then r f) k ≡ and_then r (λ a. f a >>= k)
  then_assoc (ok a w) f k = refl
  then_assoc fault f k = refl
  then_assoc out_of_fuel f k = refl
  then_assoc (exited n) f k = refl

-- Every line behind one that has so many bytes already fits the buffer, and the last one ends.
abbrev pub fits : ℕ → List ℕ → Bool
fits n [] = n == 0
fits n (c ∷ cs) = elim (c == newline) [
  | true ↦ ltb n max_line_size && fits 0 cs
  | false ↦ ltb (n + 1) max_line_size && fits (n + 1) cs
]

fits_behind :
    (n c : ℕ) (cs : List ℕ) → (c == newline) ≡ true → fits n (c ∷ cs) ≡ true → fits 0 cs ≡ true
fits_behind n c cs y h = ground (arith, y, h)

pub fits_bound : (n : ℕ) (cs : List ℕ) → fits n cs ≡ true → n < max_line_size
fits_bound n [] h = ground (arith, h)
fits_bound n (c ∷ cs) h = ground (arith, h)

pub take_none : (n : ℕ) → take {A = ℕ} n [] ≡ []
take_none zero = refl
take_none (suc n) = refl

longer :
    (line : List ℕ) (c : ℕ) (cs : List ℕ)
    → (c == newline) ≡ false
    → fits (length line) (c ∷ cs) ≡ true
    → fits (length (line ++ c ∷ [])) cs ≡ true
longer line c cs n h = ground (arith, length-append line (c ∷ []), n, h)

module _ (cmd_exec : Name → Cmd ℕ) (unset : ℕ) where
  -- The commands of a text behind the beginning of a line, byte by byte, until one fails.
  unfoldable pub run_text : List ℕ → List ℕ → Cmd (Unit {0})
  run_text line [] = pure tt
  run_text line (c ∷ cs) = elim (c == newline) [
    | true ↦ (do
      ret ← execute_cmd cmd_exec unset (c_string line)
      elim (ret == 0) [ true ↦ run_text [] cs | false ↦ pure tt ])
    | false ↦ run_text (line ++ c ∷ []) cs
  ]

  module _ (rest : List ℕ) (k : Option (Bool × List ℕ) → Cmd (Unit {0}))
      (stops : (w : World) → k none w ≡ ok tt w)
      (goes : (moved : Bool) (left : List ℕ) (w : World)
        → fits (length left) rest ≡ true
        → k (some (moved, left)) w ≡ run_text left rest w) where
    after_line :
        (cs : List ℕ)
        → ((w : World) → and_then (scan cmd_exec unset true [] cs w) k ≡ run_text [] (cs ++ rest) w)
        → (goes_on : Bool) (w : World)
        → and_then
            ((elim goes_on as (λ _. Cmd (Option (Bool × List ℕ))) [
              | true ↦ scan cmd_exec unset true [] cs
              | false ↦ pure none
            ])
              w)
            k
          ≡ (elim goes_on as (λ _. Cmd (Unit {0})) [
            | true ↦ run_text [] (cs ++ rest)
            | false ↦ pure tt
          ])
              w
    after_line cs rest true w = rest w
    after_line cs rest false w = stops w

    pub scan-run_text :
        (got : List ℕ) (moved : Bool) (line : List ℕ) (w : World)
        → fits (length line) (got ++ rest) ≡ true
        → and_then (scan cmd_exec unset moved line got w) k ≡ run_text line (got ++ rest) w
    unfolding scan run_text
    scan-run_text [] moved line w h = goes moved line w h
    scan-run_text (c ∷ cs) moved line w h =
        let ih = scan-run_text cs in
        elim (Bool-cases (c == newline)) [
          | inl y ↦
              rw (y, scan)
                (rw (y, run_text)
                  (then_assoc (execute_cmd cmd_exec unset (c_string line) w) _ k
                    ∙ then_cong (execute_cmd cmd_exec unset (c_string line) w) _ _ λ ret u.
                      after_line cs
                        (λ v. ih true [] v (fits_behind (length line) c (cs ++ rest) y h))
                        (ret == 0) u))
          | inr n ↦
              rw (n, scan)
                (rw (n, run_text) (ih moved (line ++ c ∷ []) w (longer line c (cs ++ rest) n h)))
        ]
