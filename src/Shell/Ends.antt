-- ===== src/Shell/Ends.antt =====
-- shell.c: how a call of a command's function ends, and what it keeps.
use mathlib.Core.Path.{subst}
use kernel_from_scratch.Prelude.{
  ℕ, zero, suc, ◌+◌, ◌^◌, ◌<◌, ◌≡◌, refl, sym, ap, ◌∙◌, arith, Bool, true, false, ◌==◌, Option,
  none, some, List, [], length, codes, if_elim,
}
use kernel_from_scratch.Machine.{Machine, inb, outb}
use kernel_from_scratch.Terminal.{Console}
use kernel_from_scratch.Terminal.Put.{put_chars}
use kernel_from_scratch.Terminal.Output.{terminal_clear, terminal_begin_output, terminal_end_output}
use kernel_from_scratch.Terminal.Screens.{current_screen}
use kernel_from_scratch.Terminal.Screens.Switch.{terminal_clear-IsValid}
use kernel_from_scratch.Terminal.Frame.{
  frame, put_chars-frame, terminal_begin_output-frame, terminal_end_output-frame,
  look-terminal_clear,
}
use kernel_from_scratch.Terminal.Screens.Desk.{Stays, refl-Stays, on_current-Stays}
use kernel_from_scratch.Terminal.Advance.{IsValid}
use kernel_from_scratch.Terminal.Line.{Line, Holds, empty_line}
use kernel_from_scratch.Terminal.Line.Output.{
  put_chars-IsValid, terminal_end_output-Holds, terminal_begin_output-TextAt,
}
use kernel_from_scratch.Keyboard.{Keyboard, layout_azerty, layout_qwerty, keyboard_set_layout}
use kernel_from_scratch.Multiboot.{MmapEntry, print_multiboot_info}
use kernel_from_scratch.Multiboot.Entries.{MapAt, print_multiboot_info-info_text}
use kernel_from_scratch.StackDump.{stack_dump}
use kernel_from_scratch.StackDump.Total.{stack_dump-IsOutput}
use kernel_from_scratch.Printk.Writes.{writes_nil, writes_plain}
use kernel_from_scratch.Shell.{
  Function, help, clear, last, pmultiboot, pstack, reboot, halt, read, azerty, qwerty, Command,
  Kernel, Shell, Platform, Run, stuck, halted, done, ◌>>=◌, console, on_screen, kernel_printk, call,
  call_halt, call_clear, call_read,
}
use kernel_from_scratch.Shell.Table.{IsLast, IsReady, calls_last}
use kernel_from_scratch.Shell.Lines.{attempt-put_chars, kernel_printk-IsWritten}
use kernel_from_scratch.Shell.Calls.{polled, is_free, call_reboot-polled, call_help-help_lines}

-- What holds of the result of a call, if it returns, and what holds if it stops the processor. It is
-- not stuck.
abbrev pub EndsOr {ℓ} : {A : Type ℓ} → Type 0 → (A → Type 0) → Run A → Type 0
EndsOr H P stuck = ⊥
EndsOr H P (halted k) = H
EndsOr H P (done a) = P a

abbrev pub Ends {ℓ} : {A : Type ℓ} → (A → Type 0) → Run A → Type 0
Ends P r = EndsOr Unit P r

pub EndsOr-weaken {ℓ} :
    {A : Type ℓ} (H H' : Type 0) (P : A → Type 0) (r : Run A)
    → (H → H')
    → EndsOr H P r
    → EndsOr H' P r
EndsOr-weaken H H' P stuck f h = h
EndsOr-weaken H H' P (halted k) f h = f h
EndsOr-weaken H H' P (done a) f h = h

-- The controller is free behind fewer reads of its status than `fuel`.
abbrev pub FreeWithin : ℕ → Machine → Type 0
FreeWithin fuel m = (n : ℕ) × (n < fuel) × (is_free (polled n m) ≡ true)

-- What the platform answers in a state: the registers hold 32 bits, the memory map lies where its
-- description says, and whatever was read and written before, the controller gets free in time.
pub record Serves (p : Platform) (k : Kernel) : Type 0 where
  pub esp_fits : (k : Kernel) → p.esp k < 2 ^ 32
  pub ebp_fits : (k : Kernel) → p.ebp k < 2 ^ 32
  pub entries : List MmapEntry
  pub lower_fits : k.shell.mbi.mem_lower < 2 ^ 32
  pub upper_fits : k.shell.mbi.mem_upper < 2 ^ 32
  pub map_fits : k.shell.mbi.mmap_addr + k.shell.mbi.mmap_length < 2 ^ 32
  pub map_turns : length entries < p.map_fuel
  pub map_at :
      MapAt p.map_memory k.shell.mbi.mmap_addr
        (k.shell.mbi.mmap_addr + k.shell.mbi.mmap_length)
        entries
  pub free : (m : Machine) → m.device ≡ k.terminal.machine.device → FreeWithin p.poll_fuel m

-- The table, the command that `last` repeats, the key Ctrl, that the current screen is in order,
-- the loader's map, the other screens, the look of the current one, and the hardware.
abbrev pub Keeps : Kernel → Kernel → Type 0
Keeps k k' =
    (k'.shell.commands ≡ k.shell.commands)
    × (k'.shell.last_command ≡ k.shell.last_command)
    × (k'.keyboard.is_ctrl ≡ k.keyboard.is_ctrl)
    × (IsValid (current_screen k.terminal) → IsValid (current_screen k'.terminal))
    × (k'.shell.mbi ≡ k.shell.mbi)
    × Stays k.terminal k'.terminal

pub current_screen-on_screen :
    (f : Console → Console) (k : Kernel)
    → current_screen (on_screen f k).terminal ≡ (f (console k)).screen
current_screen-on_screen f k =
    let here : (k.terminal.terminal_index == k.terminal.terminal_index) ≡ true = ground arith in
    rw here refl

on_screen-Keeps :
    (f : Console → Console) (k : Kernel)
    → (IsValid (console k).screen → IsValid (f (console k)).screen)
    → frame (f (console k)) ≡ frame (console k)
    → Keeps k (on_screen f k)
on_screen-Keeps f k h same = (
  refl,
  refl,
  refl,
  λ v. subst IsValid (sym (current_screen-on_screen f k)) (h v),
  refl,
  on_current-Stays f k.terminal same,
)

pub put_chars-Keeps : (t : List ℕ) (k : Kernel) → Keeps k (on_screen (put_chars t) k)
put_chars-Keeps t k =
    on_screen-Keeps (put_chars t) k (put_chars-IsValid t (console k))
      (put_chars-frame t (console k))

-- A change of the keyboard's layout or of `read_pending`.
same_terminal-Keeps :
    (k : Kernel) (keyboard : Keyboard) (shell : Shell)
    → (shell.commands ≡ k.shell.commands)
    → (shell.last_command ≡ k.shell.last_command)
    → (keyboard.is_ctrl ≡ k.keyboard.is_ctrl)
    → (shell.mbi ≡ k.shell.mbi)
    → Keeps k (record k { keyboard = keyboard; shell = shell })
same_terminal-Keeps k keyboard shell a b c e = (a, b, c, λ v. v, e, refl-Stays k.terminal)

polled-device : (n : ℕ) (m : Machine) → (polled n m).device ≡ m.device
unfolding inb
polled-device zero m = refl
polled-device (suc n) m = polled-device n (inb 0x64 m).1

pub ended-Holds :
    (show_prompt : Bool) (k : Kernel)
    → IsValid (current_screen k.terminal)
    → Holds (current_screen (on_screen (terminal_end_output show_prompt) k).terminal) empty_line
ended-Holds show_prompt k v =
    subst (λ s. Holds s empty_line)
      (sym (current_screen-on_screen (terminal_end_output show_prompt) k))
      (terminal_end_output-Holds show_prompt (console k) v)

pub begun-IsValid :
    (k : Kernel) (l : Line)
    → Holds (current_screen k.terminal) l
    → IsValid (current_screen (on_screen terminal_begin_output k).terminal)
begun-IsValid k l h =
    subst IsValid (sym (current_screen-on_screen terminal_begin_output k))
      (terminal_begin_output-TextAt (console k) l h).0

pub done-Ends {ℓ} :
    {A : Type ℓ} (H : Type 0) (P : A → Type 0) (r : Run A) (a : A) → r ≡ done a → P a → EndsOr H P r
done-Ends H P r a e h = rw e h

call_halt-halted :
    (k : Kernel) → call_halt k ≡ halted (on_screen (put_chars (codes "System halted.\n")) k)
unfolding call_halt
call_halt-halted k =
    let message : List ℕ = codes "System halted.\n" in
    ap (λ r. r >>= halted)
      (kernel_printk-IsWritten message [] message k
        (writes_plain message [] [] [] refl (writes_nil [] tt)))

-- The functions that stop the processor: `halt`, and `last` if it repeats `halt`.
abbrev pub is_halt : Function → Bool
is_halt halt = true
is_halt _ = false

abbrev pub repeats_halt : (ℕ → Command) → Option ℕ → Bool
repeats_halt commands none = false
repeats_halt commands (some i) = is_halt (commands i).function

abbrev pub stops : Shell → Function → Bool
stops s last = repeats_halt s.commands s.last_command
stops s f = is_halt f

-- A function other than `last`, at any depth.
call-Ends :
    (p : Platform) (depth : ℕ) (f : Function) (k : Kernel)
    → calls_last f ≡ false
    → IsReady k.shell
    → Serves p k
    → EndsOr (is_halt f ≡ true) (Keeps k) (call p depth f k)
unfolding call call_read keyboard_set_layout
call-Ends p depth help k n r s =
    done-Ends _ (Keeps k) _ _ (call_help-help_lines k r) (put_chars-Keeps _ k)
call-Ends p depth clear k n r s =
    unfold call_clear in
    on_screen-Keeps (λ c. record c { screen = terminal_clear c.screen }) k
      (λ v. terminal_clear-IsValid (current_screen k.terminal))
      (ap (λ l. record (frame (console k)) { look = l }) (look-terminal_clear (console k).screen))
call-Ends p depth last k n r s = absurd (ground arith)
call-Ends p depth pmultiboot k n r s =
    done-Ends _ (Keeps k) _ _
      (attempt-put_chars (print_multiboot_info p.map_fuel p.map_memory k.shell.mbi) _ k (
        print_multiboot_info-info_text p.map_fuel p.map_memory k.shell.mbi s.entries (console k)
          s.map_turns s.lower_fits s.upper_fits s.map_fits s.map_at))
      (put_chars-Keeps _ k)
call-Ends p depth pstack k n r s =
    let (t, e) =
      stack_dump-IsOutput (p.stack k) (p.esp k) (p.ebp k) (s.esp_fits k) (s.ebp_fits k) in
    done-Ends _ (Keeps k) _ _
      (attempt-put_chars (stack_dump (p.stack k) (p.esp k) (p.ebp k)) t k (e (console k)))
      (put_chars-Keeps _ k)
call-Ends p depth reboot k off r s =
    let (n, turns, free) = s.free k.terminal.machine refl in
    let (j, less, first, e) = call_reboot-polled p.poll_fuel n k turns free in
    done-Ends _ (Keeps k) _ _ e (
      refl,
      refl,
      refl,
      λ v. v,
      refl,
      unfold outb in
          record {
            index = refl;
            others = λ i ne. refl;
            same_look = refl;
            device = polled-device (suc j) k.terminal.machine;
          },
    )
call-Ends p depth halt k n r s = rw (call_halt-halted k) refl
call-Ends p depth read k n r s =
    if_elim (λ k'. Keeps k k') k.shell.read_pending
      (λ e. same_terminal-Keeps k k.keyboard k.shell refl refl refl refl)
      (λ e.
        same_terminal-Keeps k k.keyboard (record k.shell { read_pending = true }) refl refl refl
          refl)
call-Ends p depth azerty k n r s =
    same_terminal-Keeps k (keyboard_set_layout layout_azerty k.keyboard) k.shell refl refl refl refl
call-Ends p depth qwerty k n r s =
    same_terminal-Keeps k (keyboard_set_layout layout_qwerty k.keyboard) k.shell refl refl refl refl

-- `last` calls one function more.
calls_last-Ends :
    (p : Platform) (depth : ℕ) (k : Kernel)
    → IsReady k.shell
    → Serves p k
    → EndsOr
        (repeats_halt k.shell.commands k.shell.last_command ≡ true)
        (Keeps k)
        (call p (suc depth) last k)
unfolding call
calls_last-Ends p depth k r s = repeated k.shell.last_command r.is_last
  where
    repeated :
        (o : Option ℕ)
        → IsLast k.shell.commands o
        → EndsOr (repeats_halt k.shell.commands o ≡ true) (Keeps k) (elim o [
          | some i ↦ call p depth (k.shell.commands i).function k
          | none ↦ kernel_printk (codes "No last command executed.\n") [] k
        ])
    repeated none t =
        done-Ends _ (Keeps k) _ _
          (kernel_printk-IsWritten (codes "No last command executed.\n") [] _ k
            (writes_plain (codes "No last command executed.\n") [] [] [] refl (writes_nil [] tt)))
          (put_chars-Keeps _ k)
    repeated (some i) (small, other) = call-Ends p depth (k.shell.commands i).function k other r s

pub call_once-Ends :
    (p : Platform) (depth : ℕ) (f : Function) (k : Kernel)
    → IsReady k.shell
    → Serves p k
    → EndsOr (stops k.shell f ≡ true) (Keeps k) (call p (suc depth) f k)
call_once-Ends p depth help k r s = call-Ends p (suc depth) help k refl r s
call_once-Ends p depth clear k r s = call-Ends p (suc depth) clear k refl r s
call_once-Ends p depth last k r s = calls_last-Ends p depth k r s
call_once-Ends p depth pmultiboot k r s = call-Ends p (suc depth) pmultiboot k refl r s
call_once-Ends p depth pstack k r s = call-Ends p (suc depth) pstack k refl r s
call_once-Ends p depth reboot k r s = call-Ends p (suc depth) reboot k refl r s
call_once-Ends p depth halt k r s = call-Ends p (suc depth) halt k refl r s
call_once-Ends p depth read k r s = call-Ends p (suc depth) read k refl r s
call_once-Ends p depth azerty k r s = call-Ends p (suc depth) azerty k refl r s
call_once-Ends p depth qwerty k r s = call-Ends p (suc depth) qwerty k refl r s

-- The platform serves every state with the same map and the same hardware.
pub same-Serves :
    (p : Platform) (k k' : Kernel)
    → (k'.shell.mbi ≡ k.shell.mbi)
    → (k'.terminal.machine.device ≡ k.terminal.machine.device)
    → Serves p k
    → Serves p k'
same-Serves p k k' map device s = record {
  esp_fits = s.esp_fits;
  ebp_fits = s.ebp_fits;
  entries = s.entries;
  lower_fits = rw map s.lower_fits;
  upper_fits = rw map s.upper_fits;
  map_fits = rw map s.map_fits;
  map_turns = s.map_turns;
  map_at = rw map s.map_at;
  free = λ m e. s.free m (e ∙ device);
}

pub begun-Stays : (k : Kernel) → Stays k.terminal (on_screen terminal_begin_output k).terminal
begun-Stays k =
    on_current-Stays terminal_begin_output k.terminal (terminal_begin_output-frame (console k))

pub ended-Stays :
    (show_prompt : Bool) (k : Kernel)
    → Stays k.terminal (on_screen (terminal_end_output show_prompt) k).terminal
ended-Stays show_prompt k =
    on_current-Stays (terminal_end_output show_prompt) k.terminal
      (terminal_end_output-frame show_prompt (console k))

pub begun-Serves :
    (p : Platform) (k : Kernel) → Serves p k → Serves p (on_screen terminal_begin_output k)
begun-Serves p k s =
    same-Serves p k (on_screen terminal_begin_output k) refl (begun-Stays k).device s
