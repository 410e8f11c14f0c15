-- ===== src/Cli/Table/Width.antt =====
-- The width of the table's lines on a terminal.
use gopm.Base.{
  ℕ, zero, suc, ◌+◌, ◌-◌, ◌≤◌, ◌<◌, ◌≡◌, refl, sym, ap, ◌∙◌, inl, inr, Bool, true, false, ◌&&◌,
  List, [], ◌∷◌, ◌++◌, map, append_assoc, arith, leb, ◌==◌, if◌then◌else◌, leb→le, Bool-cases,
  length, replicate, length-replicate, Str, codes,
}
use gopm.Ipc.{ProcessInfo}
use gopm.Cli.Table.Fit.{
  Fit, Fit-widened, length-widened, Fit-widened_all_kept, length-widened_all, Fit-lengths, FitAll,
}
use gopm.Cli.Table.{
  headers, row_of, widened, widened_all, header_widths, pad_right, spaces, color_code, colorize,
  rules, border, padded, cells_from, line, status_col, render_list,
}

-- How many runes a terminal shows: from the escape character to the next `m` it shows nothing.
abbrev pub shown : Bool → Str → ℕ
shown escaped [] = 0
shown false (c ∷ s) = if c == 27 then shown true s else suc (shown false s)
shown true (c ∷ s) = if c == b'm' then shown false s else shown true s

-- No escape character is in the text.
abbrev pub Plain : Str → Type 0
Plain [] = Unit
Plain (c ∷ s) = ((c == 27) ≡ false) × Plain s

abbrev pub AllPlain : List Str → Type 0
AllPlain [] = Unit
AllPlain (s ∷ ss) = Plain s × AllPlain ss

abbrev pub PlainRows : List (List Str) → Type 0
PlainRows [] = Unit
PlainRows (row ∷ rows) = AllPlain row × PlainRows rows

-- The widths of the columns, with a border and two spaces each.
abbrev pub total : List ℕ → ℕ
total [] = 0
total (w ∷ ws) = w + 3 + total ws

-- Every line shows the same number of runes.
abbrev pub AllShow : ℕ → List Str → Type 0
AllShow n [] = Unit
AllShow n (s ∷ ss) = (shown false s ≡ n) × AllShow n ss

shown-append : (s t : Str) → Plain s → shown false (s ++ t) ≡ length s + shown false t
shown-append [] t h = omega arith
shown-append (c ∷ s) t h = rw (h.0) (omega (arith, shown-append s t h.1))

Plain-replicate : (n c : ℕ) → (c == 27) ≡ false → Plain (replicate n c)
Plain-replicate zero c h = tt
Plain-replicate (suc n) c h = (h, Plain-replicate n c h)

shown-replicate :
    (n c : ℕ) (t : Str) → (c == 27) ≡ false → shown false (replicate n c ++ t) ≡ n + shown false t
shown-replicate n c t h =
    let a = shown-append (replicate n c) t (Plain-replicate n c h) in
    let b = length-replicate n c in omega arith

shown-pad_right :
    (cell t : Str) (w : ℕ)
    → Plain cell
    → length cell ≤ w
    → shown false (pad_right cell w ++ t) ≡ w + shown false t
unfolding pad_right
shown-pad_right cell t w h le = elim (Bool-cases (leb w (length cell))) [
  | inl e ↦ let a = shown-append cell t h in let b = leb→le w (length cell) e in rw e (omega arith)
  | inr e ↦
      let a = shown-append cell (spaces (w - length cell) ++ t) h in
      let b = shown-replicate (w - length cell) 32 t refl in rw (e, append_assoc) (omega arith)
]

-- The code of a color is not shown.
shown-color_code :
    (s r : Str) → shown true (codes "[" ++ (color_code s ++ (codes "m" ++ r))) ≡ shown false r
unfolding codes
shown-color_code s r = ground arith

shown-reset : (r : Str) → shown false ((27 ∷ codes "[0m") ++ r) ≡ shown false r
unfolding codes
shown-reset r = refl

colorize-append :
    (cell : Str) (w : ℕ) (t : Str)
    → colorize cell w ++ t
      ≡ 27
        ∷ (codes "["
            ++ (color_code cell
                ++ (codes "m"
                    ++ (cell ++ ((27 ∷ codes "[0m") ++ (spaces (w - length cell) ++ t))))))
unfolding colorize
colorize-append cell w t = simp append_assoc refl

shown-colorize :
    (cell t : Str) (w : ℕ)
    → Plain cell
    → length cell ≤ w
    → shown false (colorize cell w ++ t) ≡ w + shown false t
shown-colorize cell t w h le =
    let rest : Str = (27 ∷ codes "[0m") ++ (spaces (w - length cell) ++ t) in
    let d = shown-reset (spaces (w - length cell) ++ t) in
    let a = shown-append cell rest h in
    let b = shown-replicate (w - length cell) 32 t refl in
    let c = shown-color_code cell (cell ++ rest) in rw colorize-append (c ∙ omega arith)

shown-padded :
    (colored : Bool) (i : ℕ) (cell t : Str) (w : ℕ)
    → Plain cell
    → length cell ≤ w
    → shown false (padded colored i cell w ++ t) ≡ w + shown false t
shown-padded colored i cell t w h le = elim (Bool-cases (colored && i == status_col)) [
  | inl e ↦ rw e (shown-colorize cell t w h le)
  | inr e ↦ rw e (shown-pad_right cell t w h le)
]

shown-cells_from :
    (colored : Bool) (i : ℕ) (cells : List Str) (ws : List ℕ)
    → AllPlain cells
    → Fit cells ws
    → shown false (cells_from colored i cells ws) ≡ total ws
shown-cells_from colored i [] [] h f = refl
shown-cells_from colored i [] (w ∷ ws) h f = absurd f
shown-cells_from colored i (cell ∷ cells) [] h f = absurd f
shown-cells_from colored i (cell ∷ cells) (w ∷ ws) h f =
    let rest : Str = cells_from colored (suc i) cells ws in
    let a = shown-padded colored i cell (32 ∷ 9474 ∷ rest) w h.0 f.0 in
    let b = shown-cells_from colored (suc i) cells ws h.1 f.1 in
    let e = append_assoc (padded colored i cell w) (32 ∷ 9474 ∷ []) rest in
    ap (λ z. suc (shown false z)) e ∙ ap suc a ∙ omega arith

shown-rules :
    (mid right w : ℕ) (ws : List ℕ)
    → (mid == 27) ≡ false
    → (right == 27) ≡ false
    → shown false (rules (mid ∷ []) (right ∷ []) (w ∷ ws)) ≡ total (w ∷ ws)
shown-rules mid right w [] m r =
    let a = shown-replicate (w + 2) 9472 (right ∷ []) refl in
    let b : shown false (right ∷ []) ≡ 1 = rw r refl in omega arith
shown-rules mid right w (v ∷ ws) m r =
    let rest : Str = rules (mid ∷ []) (right ∷ []) (v ∷ ws) in
    let a = shown-replicate (w + 2) 9472 (mid ∷ rest) refl in
    let b : shown false (mid ∷ rest) ≡ suc (shown false rest) = rw m refl in
    let c = shown-rules mid right v ws m r in simp append_assoc (omega arith)

AllShow-append : (n : ℕ) (xs ys : List Str) → AllShow n xs → AllShow n ys → AllShow n (xs ++ ys)
AllShow-append n [] ys h k = k
AllShow-append n (x ∷ xs) ys h k = (h.0, AllShow-append n xs ys h.1 k)

shown-border :
    (left mid right : ℕ) (ws : List ℕ)
    → 0 < length ws
    → (left == 27) ≡ false
    → (mid == 27) ≡ false
    → (right == 27) ≡ false
    → shown false (border left mid right ws) ≡ suc (total ws)
shown-border left mid right [] n l m r = absurd (omega arith)
shown-border left mid right (w ∷ ws) n l m r = rw l (ap suc (shown-rules mid right w ws m r))

AllShow-lines :
    (color : Bool) (ws : List ℕ) (rows : List (List Str))
    → PlainRows rows
    → FitAll rows ws
    → AllShow (suc (total ws)) (map (line color ws) rows)
AllShow-lines color ws [] h f = tt
AllShow-lines color ws (row ∷ rows) h f =
    (ap suc (shown-cells_from color 0 row ws h.0 f.0), AllShow-lines color ws rows h.1 f.1)

Plain-headers : AllPlain headers
unfolding codes
Plain-headers = ground arith

module _ (cpu : ProcessInfo → Str) (scaled : ℕ → ℕ → Str) (color : Bool) where
  abbrev rows_of : List ProcessInfo → List (List Str)
  rows_of = map (row_of cpu scaled)

  -- The widths that `renderList` computes.
  abbrev pub widths : List ProcessInfo → List ℕ
  widths infos = widened_all header_widths (rows_of infos)

  FitAll-rows_of :
      (infos : List ProcessInfo) (ws : List ℕ)
      → length ws ≡ 9
      → FitAll (rows_of infos) (widened_all ws (rows_of infos))
  unfolding row_of
  FitAll-rows_of [] ws e = tt
  FitAll-rows_of (p ∷ infos) ws e =
      let row = row_of cpu scaled p in
      let n : length row ≡ length ws = sym e in
      (
        Fit-widened_all_kept row (rows_of infos) (widened ws row) (Fit-widened row ws n),
        FitAll-rows_of infos (widened ws row) (length-widened row ws ∙ e),
      )

  -- Every line of the table of `gopm list` shows the same number of runes, with colors or without,
  -- where no cell holds an escape character.
  pub render_list-AllShow :
      (p : ProcessInfo) (infos : List ProcessInfo)
      → PlainRows (map (row_of cpu scaled) (p ∷ infos))
      → AllShow (suc (total (widths (p ∷ infos)))) (render_list cpu scaled color (p ∷ infos))
  unfolding render_list
  render_list-AllShow p infos h =
      let ws = widths (p ∷ infos) in
      let e : length ws ≡ 9 = length-widened_all (rows_of (p ∷ infos)) header_widths in
      let top = λ (l m r : ℕ). shown-border l m r ws (omega arith) in
      let heads =
        Fit-widened_all_kept headers (rows_of (p ∷ infos)) header_widths (Fit-lengths headers) in
      let foot : List Str = border 9492 9524 9496 ws ∷ [] in
      let body =
        AllShow-append (suc (total ws)) (map (line color ws) (rows_of (p ∷ infos))) foot
          (AllShow-lines color ws (rows_of (p ∷ infos)) h
            (FitAll-rows_of (p ∷ infos) header_widths refl))
          (top 9492 9524 9496 refl refl refl, tt) in
      AllShow-append (suc (total ws))
        (border 9484 9516 9488 ws ∷ line false ws headers ∷ border 9500 9532 9508 ws ∷ [])
        (map (line color ws) (rows_of (p ∷ infos)) ++ foot)
        (
          top 9484 9516 9488 refl refl refl,
          (
            ap suc (shown-cells_from false 0 headers ws Plain-headers heads),
            (top 9500 9532 9508 refl refl refl, tt),
          ),
        )
        body
