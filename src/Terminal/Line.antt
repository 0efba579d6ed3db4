-- ===== src/Terminal/Line.antt =====
-- The input field of terminal.c as what it promises: one line of text with a cursor. `Holds` says
-- that the cells, the cursor and the two counters of a screen represent such a line.
pub mod Read
pub mod Erase
pub mod Insert
pub mod Delete
pub mod Move
pub mod Output
pub mod Session
use mathlib.Core.Path.{subst₃}
use kernel_from_scratch.Prelude.{
  ℕ, zero, suc, ◌+◌, ◌-◌, ◌*◌, ◌/◌, ◌%◌, ◌^◌, ◌≤◌, ◌<◌, ◌≡◌, ◌≢◌, ◌⊎◌, inl, inr, refl, sym, ap, ◌∙◌,
  arith, List, [], ◌∷◌, ◌++◌, ltb, leb, if◌then◌else◌, length, length-append, length-take,
  length-drop, length-replicate, replicate, length-map, get_or, get_or-append, get_or-take,
  get_or-drop, map, take, drop, add32, sub32, extend8, int8_max, lt→ltb, Bool-cases,
}
use kernel_from_scratch.Terminal.{
  Cell, Screen, Console, blank, cursor_position, cell_at, terminal_width, terminal_height,
}
use kernel_from_scratch.Terminal.Cells.{terminal_cells}
use kernel_from_scratch.Terminal.Advance.{IsValid, glyph, Redrawn}
use kernel_from_scratch.Terminal.Text.{TextAt, IsText, IsText-append, character-glyph}
use kernel_from_scratch.Terminal.Edit.{Edited}

-- The specification: a text and the number of its characters before the cursor.
pub record Line : Type 0 where
  pub text : List ℕ
  pub cursor : ℕ

abbrev pub empty_line : Line
empty_line = record { text = []; cursor = 0 }

-- A character is inserted at the cursor, unless the line is full.
abbrev pub insert : ℕ → Line → Line
insert ch l =
    if ltb (length l.text) int8_max
    then record { text = take l.cursor l.text ++ ch ∷ drop l.cursor l.text; cursor = l.cursor + 1 }
    else l

-- Backspace: at most `n` characters before the cursor go.
abbrev pub delete_before : ℕ → Line → Line
delete_before n l = record {
  text = take (l.cursor - n) l.text ++ drop l.cursor l.text;
  cursor = l.cursor - n;
}

-- Delete: at most `n` characters behind the cursor go.
abbrev pub delete_after : ℕ → Line → Line
delete_after n l = record l { text = take l.cursor l.text ++ drop n (drop l.cursor l.text) }

abbrev pub step_left : Line → Line
step_left l = record l { cursor = l.cursor - 1 }

abbrev pub step_right : Line → Line
step_right l = record l { cursor = if ltb l.cursor (length l.text) then l.cursor + 1 else l.cursor }

-- The line stands in the cells from `start` on, whole and on the screen.
pub record Holds (s : Screen) (l : Line) : Type 0 where
  pub valid : IsValid s
  pub start : ℕ
  pub position : start + l.cursor ≡ cursor_position s
  pub inside : l.cursor ≤ length l.text
  pub size : s.input_size ≡ length l.text
  pub count : s.input_cursor ≡ l.cursor
  pub bound : length l.text ≤ int8_max
  pub fits : start + length l.text < terminal_cells
  pub is_text : IsText l.text
  pub text_at : TextAt s start l.text

-- The counters may be written as other terms for the same numbers.
pub Holds-recount :
    (t : Screen) (text : List ℕ) {a a' b b' k k' : ℕ}
    → Holds (record t { input_size = a; input_cursor = b }) (record { text = text; cursor = k })
    → a ≡ a'
    → b ≡ b'
    → k ≡ k'
    → Holds (record t { input_size = a'; input_cursor = b' }) (record { text = text; cursor = k' })
Holds-recount t text h p q r =
    subst₃
      (λ a b k.
        Holds (record t { input_size = a; input_cursor = b }) (record { text = text; cursor = k }))
      p q r h

spaces-IsText : (n : ℕ) → IsText (replicate n 32)
spaces-IsText zero = tt
spaces-IsText (suc n) = (omega arith, λ e. omega arith, spaces-IsText n)

pub length-printed :
    (s : Screen) (xs : List ℕ) (erase : ℕ)
    → length (map (glyph s) (xs ++ replicate erase 32)) ≡ length xs + erase
length-printed s xs erase =
    length-map (glyph s) (xs ++ replicate erase 32)
    ∙ length-append xs (replicate erase 32)
    ∙ ap (λ k. length xs + k) (length-replicate erase 32)

-- Before an edit: the text `kept` before the cursor. Printed at the cursor: `xs`, and spaces.
module _ (s t : Screen) (start erase back : ℕ) (kept xs : List ℕ)
    (e : Edited s (map (glyph s) (xs ++ replicate erase 32)) back t) (h : IsText xs)
    (p : start + length kept ≡ cursor_position s) (small : length kept ≤ int8_max) where
  TextAt-kept :
      (i : ℕ)
      → i < length kept
      → TextAt s start kept
      → (cell_at t (start - e.lost + i)).character ≡ get_or kept i 0
  TextAt-kept i lt at =
      let sum : start - e.lost + i + e.lost ≡ start + i = ground (arith, e.above) in
      ground (arith, e.position, length-printed s xs erase, e.cells (start - e.lost + i), at i)

  TextAt_printed :
      (i j : ℕ)
      → i ≡ length kept + j
      → j < length xs
      → (cell_at t (start - e.lost + i)).character ≡ get_or xs j 0
  TextAt_printed i j f lt =
      let sum : start - e.lost + i + e.lost ≡ start + i = ground (arith, e.above) in
      let index : start - e.lost + i + e.lost - cursor_position s ≡ j = omega arith in
      let printed =
        character-glyph s (xs ++ replicate erase 32) j (blank s)
          (IsText-append xs (replicate erase 32) h (spaces-IsText erase))
          (omega (arith, length-append xs (replicate erase 32))) in
      ground (
        arith,
        e.position,
        length-printed s xs erase,
        e.cells (start - e.lost + i),
        printed,
        get_or-append xs (replicate erase 32) j 0,
      )

  -- Behind an edit the text before the cursor stays, and the printed text follows it.
  TextAt-Edited : TextAt s start kept → TextAt t (start - e.lost) (kept ++ xs)
  TextAt-Edited at i lt = elim (Bool-cases (ltb i (length kept))) [
    | inl yes' ↦ ground (arith, get_or-append kept xs i 0, TextAt-kept i (ground arith) at)
    | inr no' ↦ ground (
      arith,
      get_or-append kept xs i 0,
      TextAt_printed i (i - length kept) (ground arith) (ground (arith, length-append kept xs)),
    )
  ]

  -- With the counters set, the screen holds the text before the cursor and the printed text.
  pub Edited-Holds :
      TextAt s start kept
      → IsText kept
      → length kept + length xs ≤ int8_max
      → erase ≤ back
      → back ≤ length xs + erase
      → Holds
          (record t {
            input_size = length kept + length xs;
            input_cursor = length kept + (length xs + erase - back);
          })
          (record { text = kept ++ xs; cursor = length kept + (length xs + erase - back) })
  unfolding cell_at cursor_position
  Edited-Holds at k total enough b = record {
    valid = record { column = e.valid.column; row = e.valid.row; scroll = e.valid.scroll };
    start = start - e.lost;
    position = ground (arith, e.above, e.position, length-printed s xs erase);
    inside = omega (arith, length-append kept xs);
    size = omega (arith, length-append kept xs);
    count = refl;
    bound = omega (arith, length-append kept xs);
    fits =
        ground
          (arith, e.above, e.position, e.fits, length-printed s xs erase, length-append kept xs);
    is_text = IsText-append kept xs k h;
    text_at = TextAt-Edited at;
  }
