-- ===== src/Terminal/Line/Session.antt =====
-- terminal.c: any sequence of calls of the input functions.
use kernel_from_scratch.Prelude.{ℕ, ◌<◌, ◌≡◌, ◌≢◌, arith, List, [], ◌∷◌, some}
use kernel_from_scratch.Terminal.{Console}
use kernel_from_scratch.Terminal.Put.{newline}
use kernel_from_scratch.Terminal.Input.{
  Direction, terminal_putc_input, terminal_get_input, terminal_del_input,
  terminal_del_input_forward, terminal_move,
}
use kernel_from_scratch.Terminal.Line.{Line, Holds, insert, delete_before, delete_after}
use kernel_from_scratch.Terminal.Line.Read.{terminal_get_input-Holds}
use kernel_from_scratch.Terminal.Line.Insert.{terminal_putc_input-Holds}
use kernel_from_scratch.Terminal.Line.Delete.{
  terminal_del_input-Holds, terminal_del_input_forward-Holds,
}
use kernel_from_scratch.Terminal.Line.Move.{step, terminal_move-Holds}

-- The calls that the keyboard handler makes on the input.
pub data Call : Type 0 where
  putc_input : ℕ → Call
  del_input : ℕ → Call
  del_input_forward : ℕ → Call
  move : Direction → Call

unfoldable pub run : List Call → Console → Console
run [] c = c
run (putc_input ch ∷ calls) c = run calls (terminal_putc_input ch c)
run (del_input n ∷ calls) c = run calls (terminal_del_input n c)
run (del_input_forward n ∷ calls) c = run calls (terminal_del_input_forward n c)
run (move d ∷ calls) c = run calls (terminal_move d c)

unfoldable pub edit : List Call → Line → Line
edit [] l = l
edit (putc_input ch ∷ calls) l = edit calls (insert ch l)
edit (del_input n ∷ calls) l = edit calls (delete_before n l)
edit (del_input_forward n ∷ calls) l = edit calls (delete_after n l)
edit (move d ∷ calls) l = edit calls (step d l)

-- What is typed are bytes other than a newline.
abbrev pub Types : List Call → Type 0
Types [] = Unit
Types (putc_input ch ∷ calls) = (ch < 256) × (ch ≢ newline) × Types calls
Types (del_input n ∷ calls) = Types calls
Types (del_input_forward n ∷ calls) = Types calls
Types (move d ∷ calls) = Types calls

-- Any sequence of calls on a screen that holds a line leaves it holding the edited line.
pub run-Holds :
    (calls : List Call) (c : Console) (l : Line)
    → Types calls
    → Holds c.screen l
    → Holds (run calls c).screen (edit calls l)
unfolding run edit
run-Holds [] c l t h = h
run-Holds (putc_input ch ∷ calls) c l t h =
    run-Holds calls (terminal_putc_input ch c) (insert ch l) t.2
      (terminal_putc_input-Holds ch c l h t.0 t.1)
run-Holds (del_input n ∷ calls) c l t h =
    run-Holds calls (terminal_del_input n c) (delete_before n l) t
      (terminal_del_input-Holds n c l h)
run-Holds (del_input_forward n ∷ calls) c l t h =
    run-Holds calls (terminal_del_input_forward n c) (delete_after n l) t
      (terminal_del_input_forward-Holds n c l h)
run-Holds (move d ∷ calls) c l t h =
    run-Holds calls (terminal_move d c) (step d l) t (terminal_move-Holds d c l h)

-- The text that `execute` reads with its buffer of 256 bytes behind any sequence of calls is the
-- text of the edited line.
pub terminal_get_input-run :
    (calls : List Call) (c : Console) (l : Line)
    → Types calls
    → Holds c.screen l
    → terminal_get_input (run calls c).screen 256 ≡ some (edit calls l).text
terminal_get_input-run calls c l t h =
    let h' = run-Holds calls c l t h in
    ground (
      arith,
      h'.bound,
      terminal_get_input-Holds (run calls c).screen (edit calls l) 256 h' (omega arith),
    )
