-- ===== src/Keyboard/Allowed.antt =====
-- keyboard.c: which calls a scancode can lead to.
use kernel_from_scratch.Prelude.{
  ℕ, if_elim, ◌<◌, ◌≡◌, ◌≢◌, refl, arith, Bool, true, false, not, ◌&&◌, ltb, leb, ◌==◌, all_below,
  all_below-at,
}
use kernel_from_scratch.Chars.{toupper, islower, isdigit}
use kernel_from_scratch.Terminal.{terminal_screen_count}
use kernel_from_scratch.Terminal.Put.{newline}
use kernel_from_scratch.Keyboard.{
  Keyboard, Layout, layout_qwerty, layout_azerty, Action, put_input, switch_to, character, is_upper,
  handle_scancode, press_key, special_key,
}

-- A character is a byte other than a newline, and a screen one of the ten.
abbrev pub IsAllowed : Action → Type 0
IsAllowed (put_input c) = (c < 256) × (c ≢ newline)
IsAllowed (switch_to index) = index < terminal_screen_count
IsAllowed _ = Unit

character_table :
    (layout : Layout) (upper : Bool)
    → all_below 128
        (λ s. ltb (character layout upper s) 256 && not (character layout upper s == 10))
      ≡ true
unfolding character toupper islower
character_table layout_qwerty true = refl
character_table layout_qwerty false = refl
character_table layout_azerty true = refl
character_table layout_azerty false = refl

pub character-IsAllowed :
    (layout : Layout) (upper : Bool) (scancode : ℕ)
    → scancode < 128
    → IsAllowed (put_input (character layout upper scancode))
character-IsAllowed layout upper scancode h =
    let table =
      all_below-at 128 scancode
        (λ s. ltb (character layout upper s) 256 && not (character layout upper s == 10))
        (character_table layout upper) h in
    (ground (arith, table), ground (arith, table))

abbrev Allows : Keyboard × Action → Type 0
Allows r = IsAllowed r.1

special_key-Allows : (scancode : ℕ) (k : Keyboard) → Allows (special_key scancode k)
unfolding special_key
special_key-Allows scancode k =
    if_elim Allows (scancode == 0x1C) (λ e. tt)
      (λ e.
        if_elim Allows (scancode == 0x0E) (λ e. tt)
          (λ e.
            if_elim Allows (scancode == 0x53) (λ e. tt)
              (λ e.
                if_elim Allows (scancode == 0x3A) (λ e. tt)
                  (λ e.
                    if_elim Allows (scancode == 0x48) (λ e. tt)
                      (λ e.
                        if_elim Allows (scancode == 0x50) (λ e. tt)
                          (λ e.
                            if_elim Allows (scancode == 0x4B) (λ e. tt)
                              (λ e. if_elim Allows (scancode == 0x4D) (λ e. tt) (λ e. tt))))))))

press_key-Allows :
    (is_reading : Bool) (scancode : ℕ) (k : Keyboard) → Allows (press_key is_reading scancode k)
unfolding press_key
press_key-Allows is_reading scancode k =
    let c = character k.current_layout (is_upper k) scancode in
    if_elim Allows (leb 128 scancode) (λ large. tt)
      (λ small.
        if_elim Allows k.is_ctrl
          (λ on.
            if_elim IsAllowed (not is_reading && isdigit c) (λ digit. omega arith) (λ other. tt))
          (λ off.
            if_elim Allows (not (c == 0))
              (λ some. character-IsAllowed k.current_layout (is_upper k) scancode (ground arith))
              (λ none. special_key-Allows scancode k)))

pub handle_scancode-IsAllowed :
    (is_reading : Bool) (scancode : ℕ) (k : Keyboard)
    → IsAllowed (handle_scancode is_reading scancode k).1
unfolding handle_scancode
handle_scancode-IsAllowed is_reading scancode k =
    if_elim Allows (scancode == 0x2A) (λ e. tt)
      (λ e.
        if_elim Allows (scancode == 0xAA) (λ e. tt)
          (λ e.
            if_elim Allows (scancode == 0x36) (λ e. tt)
              (λ e.
                if_elim Allows (scancode == 0xB6) (λ e. tt)
                  (λ e.
                    if_elim Allows (scancode == 0x1D) (λ e. tt)
                      (λ e.
                        if_elim Allows (scancode == 0x9D) (λ e. tt)
                          (λ e. press_key-Allows is_reading scancode k))))))
