-- ===== src/Shell/Calls.antt =====
-- shell.c: what the functions of the table do.
use Prim.Native.Nat.{bit_and}
use mathlib.Core.List.{append_assoc, append-nil}
use kernel_from_scratch.Prelude.{
  ℕ, zero, suc, ◌+◌, ◌<◌, ◌≤◌, ◌≡◌, refl, sym, ap, ◌∙◌, arith, Bool, true, false, ◌==◌, Bool-cases,
  inl, inr, some, List, [], ◌∷◌, ◌++◌, codes, update,
}
use kernel_from_scratch.Machine.{Machine, inb, outb}
use kernel_from_scratch.Terminal.{Console}
use kernel_from_scratch.Terminal.Put.{put_chars}
use kernel_from_scratch.Terminal.Sequence.{put_chars-append}
use kernel_from_scratch.Printk.{text}
use kernel_from_scratch.Printk.Text.{join}
use kernel_from_scratch.Printk.Writes.{writes_nil, writes_plain, writes_s}
use kernel_from_scratch.Shell.{
  Kernel, done, ◌>>=◌, console, on_screen, kernel_printk, call_reboot, send_reboot,
  wait_input_buffer, call_help, print_commands, command_count,
}
use kernel_from_scratch.Shell.Table.{table, table-short, IsReady}
use kernel_from_scratch.Shell.Lines.{kernel_printk-IsWritten}

-- The machine behind `n` reads of the controller's status.
abbrev pub polled : ℕ → Machine → Machine
polled zero m = m
polled (suc n) m = polled n (inb 0x64 m).1

-- The status that is read then has no bit for a full input buffer.
abbrev pub is_free : Machine → Bool
is_free m = bit_and (inb 0x64 m).0 0x02 == 0

-- The status is free at the read `j`, and not before.
abbrev pub IsFirst : ℕ → Machine → Type 0
IsFirst j m = (is_free (polled j m) ≡ true) × ((i : ℕ) → i < j → is_free (polled i m) ≡ false)

IsFirst-suc :
    (j : ℕ) (m : Machine) → is_free m ≡ false → IsFirst j (inb 0x64 m).1 → IsFirst (suc j) m
IsFirst-suc j m full (free, before) = (free, earlier)
  where
    earlier : (i : ℕ) → i < suc j → is_free (polled i m) ≡ false
    earlier zero h = full
    earlier (suc i) h = before i (omega (arith, h))

wait_input_buffer-polled :
    (fuel n : ℕ) (m : Machine)
    → n < fuel
    → is_free (polled n m) ≡ true
    → (j : ℕ) × (j ≤ n) × IsFirst j m × (wait_input_buffer fuel m ≡ some (polled (suc j) m))
unfolding wait_input_buffer
wait_input_buffer-polled zero n m h e = absurd (omega (arith, h))
wait_input_buffer-polled (suc fuel) zero m h e =
    (0, omega arith, (e, λ i less. absurd (omega (arith, less))), rw e refl)
wait_input_buffer-polled (suc fuel) (suc n) m h e = elim (Bool-cases (is_free m)) [
  | inl free ↦ (0, omega arith, (free, λ i less. absurd (omega (arith, less))), rw free refl)
  | inr full ↦
      let (j, less, first, w) =
        wait_input_buffer-polled fuel n (inb 0x64 m).1 (omega (arith, h)) e in
      (suc j, omega (arith, less), IsFirst-suc j m full first, rw full w)
]

-- If the status that the controller gives is free after `n` reads, for an `n` below the fuel, then
-- `reboot` returns: it has read the status until it was free for the first time, which is after `n`
-- reads at most, and then written the command for a reboot. Nothing else of the state changes.
pub call_reboot-polled :
    (fuel n : ℕ) (k : Kernel)
    → n < fuel
    → is_free (polled n k.terminal.machine) ≡ true
    → (j : ℕ) × (j ≤ n)
      × IsFirst j k.terminal.machine
      × (call_reboot fuel k
          ≡ done (record k {
            terminal = record k.terminal {
              machine = outb 0x64 0xFE (polled (suc j) k.terminal.machine);
            };
          }))
unfolding call_reboot
call_reboot-polled fuel n k h e =
    let (j, less, first, w) = wait_input_buffer-polled fuel n k.terminal.machine h e in
    (j, less, first, ap (send_reboot k) w)

-- Two operations on the current screen are one.
console-on_screen : (f : Console → Console) (k : Kernel) → console (on_screen f k) ≡ f (console k)
console-on_screen f k =
    let here : (k.terminal.terminal_index == k.terminal.terminal_index) ≡ true = ground arith in
    rw here refl

update-update {ℓ} :
    {A : Type ℓ} (f : ℕ → A) (i : ℕ) (a b : A) → update (update f i a) i b ≡ update f i b
update-update f i a b = λ x p. at p x
  where
    at : (p : ℕ) → update (update f i a) i b p ≡ update f i b p
    at p = elim (Bool-cases (p == i)) [ inl e ↦ rw e refl | inr e ↦ rw e refl ]

pub on_screen-put_chars :
    (t u : List ℕ) (k : Kernel)
    → on_screen (put_chars u) (on_screen (put_chars t) k) ≡ on_screen (put_chars (t ++ u)) k
on_screen-put_chars t u k =
    let same : put_chars u (console (on_screen (put_chars t) k)) ≡ put_chars (t ++ u) (console k) =
      ap (put_chars u) (console-on_screen (put_chars t) k)
      ∙ sym (put_chars-append t u (console k)) in
    ap (λ c. on_screen (λ _. c) (on_screen (put_chars t) k)) same
    ∙ ap
        (λ f. record k {
          terminal = record k.terminal {
            screens = f;
            machine = (put_chars (t ++ u) (console k)).machine;
          };
        })
        (update-update k.terminal.screens k.terminal.terminal_index _ _)

-- The lines of `help` from the command `i` on.
abbrev pub help_line : ℕ → List ℕ
help_line i = join ((table i).name ∷ codes ": " ∷ (table i).description ∷ codes "\n" ∷ [])

abbrev pub help_lines : ℕ → ℕ → List ℕ
help_lines zero i = []
help_lines (suc n) i = help_line i ++ help_lines n (i + 1)

command_line :
    (i : ℕ) (k : Kernel)
    → i < command_count
    → kernel_printk
        (codes "%s: %s\n")
        (text (some (table i).name) ∷ text (some (table i).description) ∷ [])
        k
      ≡ done (on_screen (put_chars (help_line i)) k)
command_line i k h = kernel_printk-IsWritten (codes "%s: %s\n") _ _ k (
    writes_s (some (table i).name) _ _ _ (table-short i h).0 (
      writes_plain (codes ": ") _ _ _ refl (
        writes_s (some (table i).description) _ _ _ (table-short i h).1
          (writes_plain (codes "\n") [] [] [] refl (writes_nil [] tt)))))

print_commands-help_lines :
    (n i : ℕ) (t : List ℕ) (k : Kernel)
    → i + n ≤ command_count
    → IsReady k.shell
    → print_commands n i (on_screen (put_chars t) k)
      ≡ done (on_screen (put_chars (t ++ help_lines n i)) k)
unfolding print_commands
print_commands-help_lines zero i t k h r =
    ap (λ u. done (on_screen (put_chars u) k)) (sym (append-nil t))
print_commands-help_lines (suc n) i t k h r =
    let line : List ℕ = help_line i in
    let entry = r.holds_table i (omega (arith, h)) in
    ap
      (λ c. do
        k ←
            kernel_printk (codes "%s: %s\n") (text (some c.name) ∷ text (some c.description) ∷ [])
              (on_screen (put_chars t) k)
        print_commands n (i + 1) k)
      entry
    ∙ ap (λ r. r >>= print_commands n (i + 1))
        (command_line i (on_screen (put_chars t) k) (omega (arith, h)))
    ∙ ap (print_commands n (i + 1)) (on_screen-put_chars t line k)
    ∙ print_commands-help_lines n (i + 1) (t ++ line) k (omega (arith, h)) r
    ∙ ap (λ u. done (on_screen (put_chars u) k)) (append_assoc t line (help_lines n (i + 1)))

-- `help` prints its title and, for each of the ten commands in the order of the table, a line with
-- its name and its description, and nothing else.
pub call_help-help_lines :
    (k : Kernel)
    → IsReady k.shell
    → call_help k
      ≡ done (on_screen (put_chars (codes "Available commands:\n" ++ help_lines command_count 0)) k)
unfolding call_help
call_help-help_lines k r =
    let title : List ℕ = codes "Available commands:\n" in
    ap (λ r. r >>= print_commands command_count 0)
      (kernel_printk-IsWritten title [] title k
        (writes_plain title [] [] [] refl (writes_nil [] tt)))
    ∙ print_commands-help_lines command_count 0 title k (omega arith) r
