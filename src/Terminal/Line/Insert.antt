-- ===== src/Terminal/Line/Insert.antt =====
-- terminal.c: `terminal_putc_input` on a screen that holds a line.
use mathlib.Core.List.{append-nil}
use kernel_from_scratch.Prelude.{
  ℕ, ◌+◌, ◌-◌, ◌^◌, ◌≤◌, ◌<◌, ◌≡◌, ◌≢◌, inl, inr, ap, ◌∙◌, arith, List, [], ◌∷◌, ◌++◌, ◌||◌,
  is_negative8, ◌==◌, map, length-map, true, false, ltb, length, length-take, length-drop, take,
  drop, add32, sub32, int8_max, Bool-cases, ltb→lt,
}
use kernel_from_scratch.Terminal.{Screen, Console}
use kernel_from_scratch.Terminal.Put.{newline, putc, put_chars, move_cursor}
use kernel_from_scratch.Terminal.Input.{put_input_after_cursor, terminal_putc_input, resize}
use kernel_from_scratch.Terminal.Advance.{IsValid, glyph}
use kernel_from_scratch.Terminal.Print.{put_chars-Printed}
use kernel_from_scratch.Terminal.Text.{
  IsText, IsText-NoNewline, IsText-drop, IsText-take, TextAt-take,
}
use kernel_from_scratch.Terminal.Edit.{Edited, move_back-Edited}
use kernel_from_scratch.Terminal.Line.{Line, Holds, insert, Edited-Holds, Holds-recount}
use kernel_from_scratch.Terminal.Line.Read.{get_input_after_cursor-Holds}

-- The character and the rest of the input are printed in one go.
reprint_insert :
    (ch : ℕ) (rest : List ℕ) (c : Console)
    → length rest < 2 ^ 32
    → put_input_after_cursor rest 0 (putc ch c)
      ≡ move_cursor (sub32 0 (length rest)) (put_chars (ch ∷ rest) c)
unfolding put_input_after_cursor put_chars
reprint_insert ch rest c h = let same : add32 (length rest) 0 ≡ length rest = omega arith in rw same

insert-Edited :
    (ch : ℕ) (rest : List ℕ) (c : Console)
    → IsValid c.screen
    → IsText (ch ∷ rest)
    → length rest ≤ int8_max
    → Edited c.screen
        (map (glyph c.screen) ((ch ∷ rest) ++ []))
        (length rest)
        (put_input_after_cursor rest 0 (putc ch c)).screen
insert-Edited ch rest c v t h =
    rw (append-nil, reprint_insert ch rest c (omega arith))
      (move_back-Edited (put_chars (ch ∷ rest) c) c.screen (map (glyph c.screen) (ch ∷ rest))
        (length rest) (put_chars-Printed (ch ∷ rest) c (IsText-NoNewline (ch ∷ rest) t) v)
        (omega (arith, length-map (glyph c.screen) rest))
        (omega (arith, length-map (glyph c.screen) rest)))

-- The screen behind an insertion where there is room.
insert_room :
    (ch : ℕ) (c : Console) (l : Line)
    → Holds c.screen l
    → ch < 256
    → ch ≢ newline
    → length l.text < int8_max
    → Holds
        (resize 1 1 (put_input_after_cursor (drop l.cursor l.text) 0 (putc ch c))).screen
        (record { text = take l.cursor l.text ++ ch ∷ drop l.cursor l.text; cursor = l.cursor + 1 })
insert_room ch c l h byte ne room =
    let rest = drop l.cursor l.text in
    let kept = take l.cursor l.text in
    let t = (put_input_after_cursor rest 0 (putc ch c)).screen in
    let is_text : IsText (ch ∷ rest) = (byte, ne, IsText-drop l.cursor l.text h.is_text) in
    let tail : length rest ≡ length l.text - l.cursor = length-drop l.cursor l.text in
    let front : length kept ≡ l.cursor = omega (arith, length-take l.cursor l.text, h.inside) in
    let edited = insert-Edited ch rest c h.valid is_text (omega (arith, h.bound)) in
    let size : t.input_size ≡ length l.text =
      ap (λ (u : Screen). u.input_size) edited.rest ∙ h.size in
    let count : t.input_cursor ≡ l.cursor =
      ap (λ (u : Screen). u.input_cursor) edited.rest ∙ h.count in
    Holds-recount t (kept ++ ch ∷ rest)
      (Edited-Holds c.screen t h.start 0 (length rest) kept (ch ∷ rest) edited is_text
        (omega (arith, h.position)) (omega (arith, h.inside, h.bound))
        (TextAt-take c.screen h.start l.cursor l.text h.inside h.text_at)
        (IsText-take l.cursor l.text h.is_text) (omega (arith, h.inside)) (omega arith)
        (omega arith))
      (ground (arith, h.inside)) (ground (arith, h.inside)) (omega arith)

-- On a screen that holds a line, `terminal_putc_input` inserts the character at the cursor, and
-- changes nothing if the line already has 127 characters.
pub terminal_putc_input-Holds :
    (ch : ℕ) (c : Console) (l : Line)
    → Holds c.screen l
    → ch < 256
    → ch ≢ newline
    → Holds (terminal_putc_input ch c).screen (insert ch l)
unfolding terminal_putc_input
terminal_putc_input-Holds ch c l h byte ne = elim (Bool-cases (ltb (length l.text) int8_max)) [
  | inl room ↦
      let test : (is_negative8 c.input_size || (c.input_size == int8_max)) ≡ false =
        ground (arith, h.size) in
      rw (test, room, get_input_after_cursor-Holds h)
        (insert_room ch c l h byte ne (ltb→lt _ _ room))
  | inr full ↦
      let test : (is_negative8 c.input_size || (c.input_size == int8_max)) ≡ true =
        ground (arith, h.size, h.bound) in
      rw (test, full) h
]
