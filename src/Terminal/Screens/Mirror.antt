-- ===== src/Terminal/Screens/Mirror.antt =====
-- terminal.c: setting the screens up and switching between them, on the ten lines that they show.
use mathlib.Core.Path.{subst}
use kernel_from_scratch.Prelude.{
  ℕ, ◌<◌, ◌≡◌, ◌≢◌, ◌⊎◌, refl, sym, ap, ◌∙◌, arith, true, false, leb, ◌==◌, if◌then◌else◌,
  Bool-cases, inl, inr, Option, none, some, update, for_loop, for_loop_inv,
}
use kernel_from_scratch.Machine.{vga_set_cursor_visibility, vga_put_cursor, outb, inb}
use kernel_from_scratch.Terminal.{Screen, Console, terminal_screen_count}
use kernel_from_scratch.Terminal.Display.{show_cursor}
use kernel_from_scratch.Terminal.Screens.{
  Terminal, current_screen, color_screen, first_prompt, terminal_init, terminal_switch_screen,
}
use kernel_from_scratch.Terminal.Screens.Switch.{
  Ready, first_prompt-Holds, terminal_switch_screen-Ready, terminal_switch_screen-ne,
}
use kernel_from_scratch.Terminal.Line.{Line, Holds, empty_line}
use kernel_from_scratch.Terminal.Frame.{Frame, Look, frame, look}
use kernel_from_scratch.Terminal.Frame.Input.{marked, first_prompt-frame, shown-frame}
use kernel_from_scratch.Terminal.Screens.Desk.{Desk, Mirrors, Shows, look_of, line_or_empty, show}

-- What a screen shows, as the condition on which it can be switched to.
Shows-Ready :
    (i : ℕ) (s : Screen) (o : Option Line)
    → Shows i s o
    → (s.initialized ≡ false) × (line_or_empty o ≡ empty_line) ⊎ Ready s (line_or_empty o)
Shows-Ready i s none h = inl (ap (λ (v : Look). v.initialized) h, refl)
Shows-Ready i s (some l) (h, held) = inr (ap (λ (v : Look). v.initialized) h, held)

marked_look :
    (i : ℕ) (s : Screen) (o : Option Line)
    → Shows i s o
    → let marked : Look = record (look s) { initialized = true } in marked ≡ look_of i true
marked_look i s none h = ap (λ (v : Look). record v { initialized = true }) h
marked_look i s (some l) (h, held) = ap (λ (v : Look). record v { initialized = true }) h

switched_frame :
    (index : ℕ) (t : Terminal)
    → index < terminal_screen_count
    → let c : Console = record { screen = t.screens index; machine = t.machine } in
      let t' = terminal_switch_screen index t in
      frame (record { screen = t'.screens index; machine = t'.machine }) ≡ marked (frame c)
unfolding terminal_switch_screen
switched_frame index t h =
    let small : leb terminal_screen_count index ≡ false = ground arith in
    let itself : (index == index) ≡ true = ground arith in
    rw (small, itself) (shown-frame (record { screen = t.screens index; machine = t.machine }))

-- Switching shows the line of the screen, an empty one if the screen was not set up.
pub terminal_switch_screen-Mirrors :
    (index : ℕ) (t : Terminal) (d : Desk)
    → index < terminal_screen_count
    → Mirrors t d
    → let t' = terminal_switch_screen index t in
      Mirrors t' (show index d) × (t'.machine.device ≡ t.machine.device)
terminal_switch_screen-Mirrors index t d h m = (
  subst (Mirrors t') (sym shown) (record {
    index = ready.0;
    inside = h;
    line = l;
    shown_line = (rw itself refl);
    screens = λ i small. elim (Bool-cases (i == index)) [
      | inl e ↦
          let here : index ≡ i = ground arith in
          subst (λ j. Shows j (t'.screens j) (d'.lines j)) here
            (rw itself (new_look, subst (λ n. Holds (t'.screens n) l) ready.0 ready.1.1))
      | inr e ↦
          let ne : i ≢ index = λ same. ground arith in
          rw (e, terminal_switch_screen-ne index i t (inl ne)) (m.screens i small)
    ];
  }),
  ap (λ (f : Frame). f.device) (switched_frame index t h),
)
  where
    t' : Terminal
    t' = terminal_switch_screen index t

    l : Line
    l = line_or_empty (d.lines index)

    d' : Desk
    d' = record { lines = update d.lines index (some l); shown = index }

    shown : show index d ≡ d'
    shown = let large : leb terminal_screen_count index ≡ false = ground arith in rw large refl

    itself : (index == index) ≡ true
    itself = ground arith

    ready : (t'.terminal_index ≡ index) × Ready (current_screen t') l
    ready =
        terminal_switch_screen-Ready index t l h
          (Shows-Ready index (t.screens index) (d.lines index) (m.screens index h))

    new_look : look (t'.screens index) ≡ look_of index true
    new_look =
        ap (λ (f : Frame). f.look) (switched_frame index t h)
        ∙ marked_look index (t.screens index) (d.lines index) (m.screens index h)

-- The first screen with an empty line; the others are not set up.
abbrev pub first_desk : Desk
first_desk = record { lines = λ i. if i == 0 then some empty_line else none; shown = 0 }

-- The loop of `terminal_init`.
abbrev color_screens : (ℕ → Screen) → ℕ → Screen
color_screens = for_loop terminal_screen_count 0 (λ i f. update f i (color_screen i (f i)))

look-color_screens :
    (screens : ℕ → Screen) (i : ℕ)
    → i < terminal_screen_count
    → look (color_screens screens i) ≡ look_of i false
unfolding color_screen
look-color_screens screens =
    for_loop_inv (λ k f. (i : ℕ) → i < k → look (f i) ≡ look_of i false)
      (λ i f. update f i (color_screen i (f i))) terminal_screen_count 0 terminal_screen_count
      screens (omega arith)
      (λ k f a b before i h. elim (Bool-cases (i == k)) [
        | inl e ↦
            let here : k ≡ i = ground arith in
            subst (λ j. look (update f k (color_screen k (f k)) j) ≡ look_of j false) here
              (let itself : (k == k) ≡ true = ground arith in rw itself refl)
        | inr e ↦ rw e (before i (ground arith))
      ])
      (λ i h. absurd (omega arith))

-- `terminal_init` shows the first screen with an empty line.
pub terminal_init-Mirrors :
    (t : Terminal)
    → Mirrors (terminal_init t) first_desk × ((terminal_init t).machine.device ≡ t.machine.device)
unfolding terminal_init vga_set_cursor_visibility inb outb show_cursor vga_put_cursor
terminal_init-Mirrors t = (
  record {
    index = refl;
    inside = omega arith;
    line = empty_line;
    shown_line = refl;
    screens = λ i h. elim (Bool-cases (i == 0)) [
      | inl e ↦
          let here : 0 ≡ i = ground arith in
          subst (λ j. Shows j ((terminal_init t).screens j) (first_desk.lines j)) here
            (first_look, first_prompt-Holds first)
      | inr e ↦ rw e (look-color_screens t.screens i h)
    ];
  },
  ap (λ (f : Frame). f.device) (first_prompt-frame first),
)
  where
    first : Console
    first = record { screen = color_screens t.screens 0; machine = t.machine }

    first_look : look (first_prompt first).screen ≡ look_of 0 true
    first_look =
        ap (λ (f : Frame). f.look) (first_prompt-frame first)
        ∙ ap (λ (v : Look). record v { initialized = true })
            (look-color_screens t.screens 0 (omega arith))
