-- ===== src/Keyboard/Typing.antt =====
-- keyboard.c: what the keys do to the lines of the ten screens.
use kernel_from_scratch.Prelude.{◌≡◌, refl, arith, true, ◌==◌}
use kernel_from_scratch.Terminal.{Console}
use kernel_from_scratch.Terminal.Input.{
  terminal_putc_input, terminal_del_input, terminal_del_input_forward, terminal_move,
}
use kernel_from_scratch.Terminal.Screens.{Terminal, current_screen, on_current}
use kernel_from_scratch.Terminal.Line.{Line, Holds, empty_line, insert, delete_before, delete_after}
use kernel_from_scratch.Terminal.Line.Insert.{terminal_putc_input-Holds}
use kernel_from_scratch.Terminal.Line.Delete.{
  terminal_del_input-Holds, terminal_del_input_forward-Holds,
}
use kernel_from_scratch.Terminal.Line.Move.{step, terminal_move-Holds}
use kernel_from_scratch.Terminal.Frame.{frame}
use kernel_from_scratch.Terminal.Frame.Input.{
  terminal_putc_input-frame, terminal_del_input-frame, terminal_del_input_forward-frame,
  terminal_move-frame,
}
use kernel_from_scratch.Terminal.Screens.Desk.{
  Desk, Mirrors, edit_shown, show, shown-Holds, on_current-Stays, edit_shown-Mirrors,
}
use kernel_from_scratch.Terminal.Screens.Mirror.{terminal_switch_screen-Mirrors}
use kernel_from_scratch.Keyboard.Allowed.{IsAllowed}
use kernel_from_scratch.Keyboard.{
  Action, nothing, put_input, delete_input, delete_forward, move_input, switch_to, execute, perform,
}

-- What an action does to the lines of the screens. Enter leaves an empty one.
abbrev pub desk_by : Action → Desk → Desk
desk_by nothing d = d
desk_by (put_input c) d = edit_shown (insert c) d
desk_by (delete_input n) d = edit_shown (delete_before n) d
desk_by (delete_forward n) d = edit_shown (delete_after n) d
desk_by (move_input direction) d = edit_shown (step direction) d
desk_by (switch_to index) d = show index d
desk_by execute d = edit_shown (λ l. empty_line) d

-- What an action makes of the screens, on the same hardware.
abbrev pub Acts : Action → Terminal → Desk → Terminal → Type 0
Acts a t d t' = Mirrors t' (desk_by a d) × (t'.machine.device ≡ t.machine.device)

-- An operation on the current screen that edits its line.
on_current-Acts :
    (f : Console → Console) (g : Line → Line) (t : Terminal) (d : Desk) (m : Mirrors t d)
    → let c : Console = record { screen = current_screen t; machine = t.machine } in
      frame (f c) ≡ frame c
      → Holds (f c).screen (g m.line)
      → Mirrors (on_current f t) (edit_shown g d)
        × ((on_current f t).machine.device ≡ t.machine.device)
on_current-Acts f g t d m same held =
    let itself : (t.terminal_index == t.terminal_index) ≡ true = ground arith in
    let stays = on_current-Stays f t same in
    (edit_shown-Mirrors g t (on_current f t) d m stays (rw itself held), stays.device)

pub perform-Acts :
    (run : Terminal → Terminal) (a : Action) (t : Terminal) (d : Desk)
    → IsAllowed a
    → Mirrors t d
    → (a ≡ execute → Acts execute t d (run t))
    → Acts a t d (perform run a t)
unfolding perform
perform-Acts run nothing t d ok m ran = (m, refl)
perform-Acts run (put_input c) t d (byte, ne) m ran =
    on_current-Acts (terminal_putc_input c) (insert c) t d m (terminal_putc_input-frame c _)
      (terminal_putc_input-Holds c _ m.line (shown-Holds t d m) byte ne)
perform-Acts run (delete_input n) t d ok m ran =
    on_current-Acts (terminal_del_input n) (delete_before n) t d m (terminal_del_input-frame n _)
      (terminal_del_input-Holds n _ m.line (shown-Holds t d m))
perform-Acts run (delete_forward n) t d ok m ran =
    on_current-Acts (terminal_del_input_forward n) (delete_after n) t d m
      (terminal_del_input_forward-frame n _)
      (terminal_del_input_forward-Holds n _ m.line (shown-Holds t d m))
perform-Acts run (move_input direction) t d ok m ran =
    on_current-Acts (terminal_move direction) (step direction) t d m
      (terminal_move-frame direction _) (terminal_move-Holds direction _ m.line (shown-Holds t d m))
perform-Acts run (switch_to index) t d ok m ran = terminal_switch_screen-Mirrors index t d ok m
perform-Acts run execute t d ok m ran = ran refl
