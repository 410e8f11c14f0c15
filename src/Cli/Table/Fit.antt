-- ===== src/Cli/Table/Fit.antt =====
-- The columns of the table are wide enough for their cells.
use gopm.Base.{ℕ, ◌≤◌, ◌≡◌, refl, ◌∙◌, List, [], ◌∷◌, map, arith, length, Str}
use gopm.Cli.Table.{widened, widened_all}

-- There is a width for each cell, which is no longer.
abbrev pub Fit : List Str → List ℕ → Type 0
Fit [] [] = Unit
Fit [] (w ∷ ws) = ⊥
Fit (cell ∷ cells) [] = ⊥
Fit (cell ∷ cells) (w ∷ ws) = (length cell ≤ w) × Fit cells ws

-- Widening makes room for a row, and keeps the room that there was.
pub Fit-widened :
    (cells : List Str) (ws : List ℕ) → length cells ≡ length ws → Fit cells (widened ws cells)
Fit-widened [] [] e = tt
Fit-widened [] (w ∷ ws) e = absurd (omega arith)
Fit-widened (cell ∷ cells) [] e = absurd (omega arith)
Fit-widened (cell ∷ cells) (w ∷ ws) e = (ground arith, Fit-widened cells ws (omega arith))

pub Fit-widened_kept :
    (cells row : List Str) (ws : List ℕ) → Fit cells ws → Fit cells (widened ws row)
Fit-widened_kept [] row [] f = tt
Fit-widened_kept [] row (w ∷ ws) f = absurd f
Fit-widened_kept (cell ∷ cells) row [] f = absurd f
Fit-widened_kept (cell ∷ cells) [] (w ∷ ws) f = f
Fit-widened_kept (cell ∷ cells) (r ∷ row) (w ∷ ws) f =
    (ground arith, Fit-widened_kept cells row ws f.1)

pub length-widened : (row : List Str) (ws : List ℕ) → length (widened ws row) ≡ length ws
length-widened row [] = refl
length-widened [] (w ∷ ws) = refl
length-widened (cell ∷ row) (w ∷ ws) = omega (arith, length-widened row ws)

pub Fit-widened_all_kept :
    (cells : List Str) (rows : List (List Str)) (ws : List ℕ)
    → Fit cells ws
    → Fit cells (widened_all ws rows)
Fit-widened_all_kept cells [] ws f = f
Fit-widened_all_kept cells (row ∷ rows) ws f =
    Fit-widened_all_kept cells rows (widened ws row) (Fit-widened_kept cells row ws f)

pub length-widened_all :
    (rows : List (List Str)) (ws : List ℕ) → length (widened_all ws rows) ≡ length ws
length-widened_all [] ws = refl
length-widened_all (row ∷ rows) ws =
    length-widened_all rows (widened ws row) ∙ length-widened row ws

abbrev pub FitAll : List (List Str) → List ℕ → Type 0
FitAll [] ws = Unit
FitAll (row ∷ rows) ws = Fit row ws × FitAll rows ws

pub Fit-lengths : (cells : List Str) → Fit cells (map (length {A = ℕ}) cells)
Fit-lengths [] = tt
Fit-lengths (cell ∷ cells) = (omega arith, Fit-lengths cells)
