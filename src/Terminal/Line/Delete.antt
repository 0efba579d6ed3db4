-- ===== src/Terminal/Line/Delete.antt =====
-- terminal.c: `terminal_del_input` and `terminal_del_input_forward` on a screen
-- that holds a line.
use Prim.Native.Nat.{min}
use native.Mathlib.Decide.{dec_le}
use kernel_from_scratch.Prelude.{
  ℕ, zero, suc, ◌+◌, ◌-◌, ◌≤◌, ◌≡◌, refl, sym, ap, ◌∙◌, arith, List, [], ◌∷◌, ◌++◌, is_negative8,
  false, ltb, if◌then◌else◌, length, length-take, length-drop, take, drop, sub32, extend8,
}
use kernel_from_scratch.Terminal.{Screen, Console, cell_at}
use kernel_from_scratch.Terminal.Display.{show_cursor}
use kernel_from_scratch.Terminal.Input.{
  put_input_after_cursor, erase_loop, terminal_del_input, terminal_del_input_forward, resize,
}
use kernel_from_scratch.Terminal.Text.{
  TextAt, IsText, IsText-NoNewline, IsText-drop, IsText-take, TextAt-take,
}
use kernel_from_scratch.Terminal.Edit.{put_input_after_cursor-Edited}
use kernel_from_scratch.Terminal.Line.{
  Line, Holds, delete_before, delete_after, Edited-Holds, Holds-recount,
}
use kernel_from_scratch.Terminal.Line.Read.{get_input_after_cursor-Holds}
use kernel_from_scratch.Terminal.Line.Erase.{erase_loop-Erased}

del_input_screen :
    (n : ℕ) (c : Console) (l : Line)
    → Holds c.screen l
    → n ≤ l.cursor
    → Holds
        (resize
          (sub32 0 n)
          (sub32 0 n)
          (put_input_after_cursor (drop l.cursor l.text) n (erase_loop n c))).screen
        (record {
          text = take (l.cursor - n) l.text ++ drop l.cursor l.text;
          cursor = l.cursor - n;
        })
unfolding cell_at
del_input_screen n c l h small =
    let rest = drop l.cursor l.text in
    let kept = take (l.cursor - n) l.text in
    let c' = erase_loop n c in
    let t = (put_input_after_cursor rest n c').screen in
    let is_text : IsText rest = IsText-drop l.cursor l.text h.is_text in
    let tail : length rest ≡ length l.text - l.cursor = length-drop l.cursor l.text in
    let front : length kept ≡ l.cursor - n =
      omega (arith, length-take (l.cursor - n) l.text, h.inside) in
    let erased = erase_loop-Erased n c h.valid (omega (arith, h.position)) in
    let edited =
      put_input_after_cursor-Edited rest n c' erased.valid (IsText-NoNewline rest is_text)
        (omega (arith, h.bound, h.inside)) in
    let size : t.input_size ≡ length l.text =
      ap (λ (u : Screen). u.input_size) edited.rest
      ∙ ap (λ (u : Screen). u.input_size) erased.rest
      ∙ h.size in
    let count : t.input_cursor ≡ l.cursor =
      ap (λ (u : Screen). u.input_cursor) edited.rest
      ∙ ap (λ (u : Screen). u.input_cursor) erased.rest
      ∙ h.count in
    let at : TextAt c'.screen h.start kept = λ i lt.
      ap (λ v. v.character)
        (erased.cells (h.start + i) (omega (arith, h.position, erased.position)))
      ∙ TextAt-take c.screen h.start (l.cursor - n) l.text (omega (arith, h.inside)) h.text_at i
          lt in
    Holds-recount t (kept ++ rest)
      (Edited-Holds c'.screen t h.start n (length rest + n) kept rest edited is_text
        (omega (arith, h.position, erased.position)) (omega (arith, h.inside, h.bound)) at
        (IsText-take (l.cursor - n) l.text h.is_text) (omega (arith, h.inside, h.bound))
        (omega arith) (omega arith))
      (ground (arith, h.inside, h.bound)) (ground (arith, h.inside, h.bound)) (omega arith)

-- On a screen that holds a line, `terminal_del_input` deletes the `count` characters before the
-- cursor, or all of them if there are fewer; the text behind the cursor stays.
pub terminal_del_input-Holds :
    (count : ℕ) (c : Console) (l : Line)
    → Holds c.screen l
    → Holds (terminal_del_input count c).screen (delete_before count l)
unfolding terminal_del_input show_cursor
terminal_del_input-Holds count c l h =
    let test : is_negative8 c.input_size ≡ false = ground (arith, h.size, h.bound) in
    let amount : (if ltb (extend8 c.input_cursor) count then extend8 c.input_cursor else count)
        ≡ min l.cursor count =
      ground (arith, h.count, h.inside, h.bound) in
    let left : l.cursor - count ≡ l.cursor - min l.cursor count = omega arith in
    rw (test, amount, get_input_after_cursor-Holds h, left)
      (del_input_screen (min l.cursor count) c l h (omega arith))

drop_all : (n : ℕ) (xs : List ℕ) → length xs ≤ n → drop n xs ≡ []
drop_all zero [] h = refl
drop_all zero (x ∷ xs) h = absurd (omega arith)
drop_all (suc n) [] h = refl
drop_all (suc n) (x ∷ xs) h = drop_all n xs (omega arith)

drop-min : (n : ℕ) (xs : List ℕ) → drop (min (length xs) n) xs ≡ drop n xs
drop-min n xs = elim (dec_le (length xs) n) [
  | yes h ↦
      let m : min (length xs) n ≡ length xs = omega arith in
      rw m (drop_all (length xs) xs (omega arith) ∙ sym (drop_all n xs h))
  | no h ↦ let m : min (length xs) n ≡ n = omega arith in rw m
]

del_forward_screen :
    (n : ℕ) (c : Console) (l : Line)
    → Holds c.screen l
    → n + l.cursor ≤ length l.text
    → Holds
        (resize (sub32 0 n) 0 (put_input_after_cursor (drop n (drop l.cursor l.text)) n c)).screen
        (record l { text = take l.cursor l.text ++ drop n (drop l.cursor l.text) })
del_forward_screen n c l h small =
    let rest = drop n (drop l.cursor l.text) in
    let kept = take l.cursor l.text in
    let t = (put_input_after_cursor rest n c).screen in
    let is_text : IsText rest =
      IsText-drop n (drop l.cursor l.text) (IsText-drop l.cursor l.text h.is_text) in
    let tail : length rest ≡ length l.text - l.cursor - n =
      omega (arith, length-drop n (drop l.cursor l.text), length-drop l.cursor l.text) in
    let front : length kept ≡ l.cursor = omega (arith, length-take l.cursor l.text, h.inside) in
    let edited =
      put_input_after_cursor-Edited rest n c h.valid (IsText-NoNewline rest is_text)
        (omega (arith, h.bound, h.inside)) in
    let size : t.input_size ≡ length l.text =
      ap (λ (u : Screen). u.input_size) edited.rest ∙ h.size in
    let count : t.input_cursor ≡ l.cursor =
      ap (λ (u : Screen). u.input_cursor) edited.rest ∙ h.count in
    Holds-recount t (kept ++ rest)
      (Edited-Holds c.screen t h.start n (length rest + n) kept rest edited is_text
        (omega (arith, h.position)) (omega (arith, h.inside, h.bound))
        (TextAt-take c.screen h.start l.cursor l.text h.inside h.text_at)
        (IsText-take l.cursor l.text h.is_text) (omega (arith, h.inside, h.bound)) (omega arith)
        (omega arith))
      (ground (arith, h.inside, h.bound)) (ground (arith, h.inside, h.bound)) (omega arith)

-- On a screen that holds a line, `terminal_del_input_forward` deletes the `count` characters behind
-- the cursor, or all of them if there are fewer; the text before the cursor stays.
pub terminal_del_input_forward-Holds :
    (count : ℕ) (c : Console) (l : Line)
    → Holds c.screen l
    → Holds (terminal_del_input_forward count c).screen (delete_after count l)
unfolding terminal_del_input_forward
terminal_del_input_forward-Holds count c l h =
    let rest = drop l.cursor l.text in
    let test : is_negative8 c.input_size ≡ false = ground (arith, h.size, h.bound) in
    let amount : (if ltb (length rest) count then length rest else count)
        ≡ min (length rest) count =
      ground arith in
    rw (test, get_input_after_cursor-Holds h, amount, ← drop-min count rest)
      (del_forward_screen (min (length rest) count) c l h
        (omega (arith, length-drop l.cursor l.text, h.inside)))
