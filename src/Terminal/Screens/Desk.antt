-- ===== src/Terminal/Screens/Desk.antt =====
-- terminal.c: the ten screens as what they promise: ten lines, each in the colors of its screen, of
-- which one is shown.
use mathlib.Core.Path.{subst}
use mathlib.Core.Option
use kernel_from_scratch.Prelude.{
  ℕ, ◌/◌, ◌%◌, ◌^◌, ◌<◌, ◌≡◌, ◌≢◌, refl, sym, ap, ◌∙◌, arith, Bool, true, false, leb, ◌==◌,
  if◌then◌else◌, Bool-cases, inl, inr, Option, none, some, update, get_or,
}
use kernel_from_scratch.Machine.{Machine}
use kernel_from_scratch.Terminal.{Screen, Console, terminal_screen_count}
use kernel_from_scratch.Terminal.Screens.{Terminal, current_screen, on_current, screen_colors}
use kernel_from_scratch.Terminal.Line.{Line, Holds, empty_line}
use kernel_from_scratch.Terminal.Frame.{Look, look, frame, Frame}

-- The look of the screen `i`, set up or not.
abbrev pub look_of : ℕ → Bool → Look
look_of i initialized = record {
  initialized = initialized;
  fg_color = get_or screen_colors i 0 % 2 ^ 4;
  bg_color = get_or screen_colors i 0 / 2 ^ 4;
}

-- The specification: the line of each screen that was set up, and the screen that is shown.
pub record Desk : Type 0 where
  pub lines : ℕ → Option Line
  pub shown : ℕ

abbrev pub edit_shown : (Line → Line) → Desk → Desk
edit_shown f d = record d { lines = update d.lines d.shown (Option.map f (d.lines d.shown)) }

-- A screen is set up with an empty line when it is first shown.
abbrev pub line_or_empty : Option Line → Line
line_or_empty none = empty_line
line_or_empty (some l) = l

abbrev pub show : ℕ → Desk → Desk
show index d = if leb terminal_screen_count index then d else record {
  lines = update d.lines index (some (line_or_empty (d.lines index)));
  shown = index;
}

-- The screen `i` is in its colors, and holds the line if it is set up.
abbrev pub Shows : ℕ → Screen → Option Line → Type 0
Shows i s none = look s ≡ look_of i false
Shows i s (some l) = (look s ≡ look_of i true) × Holds s l

pub record Mirrors (t : Terminal) (d : Desk) : Type 0 where
  pub index : t.terminal_index ≡ d.shown
  pub inside : d.shown < terminal_screen_count
  pub line : Line
  pub shown_line : d.lines d.shown ≡ some line
  pub screens : (i : ℕ) → i < terminal_screen_count → Shows i (t.screens i) (d.lines i)

-- What an operation on the current screen leaves alone.
pub record Stays (t t' : Terminal) : Type 0 where
  pub index : t'.terminal_index ≡ t.terminal_index
  pub others : (i : ℕ) → i ≢ t.terminal_index → t'.screens i ≡ t.screens i
  pub same_look : look (t'.screens t.terminal_index) ≡ look (current_screen t)
  pub device : t'.machine.device ≡ t.machine.device

pub refl-Stays : (t : Terminal) → Stays t t
refl-Stays t = record { index = refl; others = λ i ne. refl; same_look = refl; device = refl }

pub trans-Stays : (t u v : Terminal) → Stays t u → Stays u v → Stays t v
trans-Stays t u v a b = record {
  index = b.index ∙ a.index;
  others = λ i ne. b.others i (λ e. ne (e ∙ a.index)) ∙ a.others i ne;
  same_look =
      subst (λ n. look (v.screens n) ≡ look (u.screens n)) a.index b.same_look ∙ a.same_look;
  device = b.device ∙ a.device;
}

pub on_current-Stays :
    (f : Console → Console) (t : Terminal)
    → let c : Console = record { screen = current_screen t; machine = t.machine } in
      frame (f c) ≡ frame c → Stays t (on_current f t)
on_current-Stays f t e =
    let itself : (t.terminal_index == t.terminal_index) ≡ true = ground arith in
    record {
      index = refl;
      others = λ i ne. let other : (i == t.terminal_index) ≡ false = ground arith in rw other refl;
      same_look = rw itself (ap (λ (g : Frame). g.look) e);
      device = ap (λ (g : Frame). g.device) e;
    }

Shows-line :
    (i : ℕ) (s : Screen) (o : Option Line) (l : Line)
    → o ≡ some l
    → Shows i s o
    → (look s ≡ look_of i true) × Holds s l
Shows-line i s o l e h = subst (Shows i s) e h

-- The line that the current screen holds.
pub line_shown-Holds :
    (t : Terminal) (d : Desk) (l : Line)
    → Mirrors t d
    → d.lines d.shown ≡ some l
    → Holds (current_screen t) l
line_shown-Holds t d l m e =
    subst (λ n. Holds (t.screens n) l) (sym m.index)
      (Shows-line d.shown (t.screens d.shown) (d.lines d.shown) l e (m.screens d.shown m.inside)).1

pub shown-Holds : (t : Terminal) (d : Desk) (m : Mirrors t d) → Holds (current_screen t) m.line
shown-Holds t d m = line_shown-Holds t d m.line m m.shown_line

-- An operation on the current screen that edits its line edits the line that is shown.
pub edit_shown-Mirrors :
    (g : Line → Line) (t t' : Terminal) (d : Desk) (m : Mirrors t d)
    → Stays t t'
    → Holds (t'.screens t.terminal_index) (g m.line)
    → Mirrors t' (edit_shown g d)
edit_shown-Mirrors g t t' d m s held = record {
  index = s.index ∙ m.index;
  inside = m.inside;
  line = g m.line;
  shown_line = edited;
  screens = λ i h. elim (Bool-cases (i == d.shown)) [
    | inl e ↦
        let here : d.shown ≡ i = ground arith in
        subst (λ j. Shows j (t'.screens j) ((edit_shown g d).lines j)) here
          (subst (Shows d.shown (t'.screens d.shown)) (sym edited) (looks, holds))
    | inr e ↦
        let ne : i ≢ t.terminal_index = λ same. ground (arith, m.index) in
        rw (e, s.others i ne) (m.screens i h)
  ];
}
  where
    edited : (edit_shown g d).lines d.shown ≡ some (g m.line)
    edited =
        let itself : (d.shown == d.shown) ≡ true = ground arith in rw (itself, m.shown_line) refl

    holds : Holds (t'.screens d.shown) (g m.line)
    holds = subst (λ n. Holds (t'.screens n) (g m.line)) m.index held

    looks : look (t'.screens d.shown) ≡ look_of d.shown true
    looks =
        subst (λ n. look (t'.screens n) ≡ look (t.screens n)) m.index s.same_look
        ∙ (Shows-line d.shown (t.screens d.shown) (d.lines d.shown) m.line m.shown_line
            (m.screens d.shown m.inside)).0

-- The lines do not depend on the machine.
pub machine-Mirrors :
    (t : Terminal) (m : Machine) (d : Desk) → Mirrors t d → Mirrors (record t { machine = m }) d
machine-Mirrors t m d h = record {
  index = h.index;
  inside = h.inside;
  line = h.line;
  shown_line = h.shown_line;
  screens = h.screens;
}
