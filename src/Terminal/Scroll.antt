-- ===== src/Terminal/Scroll.antt =====
-- terminal.c: the rows that `align_scroll_to_cursor` brings into view.
use Prim.Native.Nat.{min, max}
use kernel_from_scratch.Prelude.{ℕ, zero, suc, ◌+◌, ◌-◌, ◌≤◌, ◌<◌, ◌^◌, ◌≡◌, ap, sym, ◌∙◌, arith}
use kernel_from_scratch.Machine.{vga_height}
use kernel_from_scratch.Terminal.{Screen, Console}
use kernel_from_scratch.Terminal.Display.{
  put_screen, show_cursor, is_cursor_above_visible, is_cursor_below_visible, scroll_up, scroll_down,
  scroll_up_while_above, scroll_down_while_below, align_scroll_to_cursor,
}

abbrev pub scrolled : Screen → ℕ → Screen
scrolled s n = record s { scroll_y = n }

pub screen-scroll_up :
    (c : Console)
    → 0 < c.scroll_y
    → c.scroll_y < 2 ^ 16
    → (scroll_up c).screen ≡ scrolled c.screen (c.scroll_y - 1)
unfolding scroll_up put_screen show_cursor
screen-scroll_up c lo hi = ap (scrolled c.screen) (omega arith)

pub screen-scroll_down :
    (c : Console)
    → c.scroll_y + 1 < 2 ^ 16
    → (scroll_down c).screen ≡ scrolled c.screen (c.scroll_y + 1)
unfolding scroll_down put_screen show_cursor
screen-scroll_down c hi = ap (scrolled c.screen) (omega arith)

screen-scroll_up_while_above :
    (fuel : ℕ) (c : Console)
    → c.scroll_y ≤ fuel
    → c.scroll_y < 2 ^ 16
    → (scroll_up_while_above fuel c).screen ≡ scrolled c.screen (min c.scroll_y c.cursor_y)
unfolding scroll_up_while_above is_cursor_above_visible
screen-scroll_up_while_above zero c f hi = ap (scrolled c.screen) (omega arith)
screen-scroll_up_while_above (suc fuel) c f hi =
    ground (arith, screen-scroll_up c, screen-scroll_up_while_above fuel (scroll_up c))

screen-scroll_down_while_below :
    (fuel : ℕ) (c : Console)
    → c.cursor_y ≤ c.scroll_y + fuel
    → c.cursor_y < 2 ^ 16
    → (scroll_down_while_below fuel c).screen
      ≡ scrolled c.screen (max c.scroll_y (c.cursor_y - (vga_height - 1)))
unfolding scroll_down_while_below is_cursor_below_visible
screen-scroll_down_while_below zero c f hi = ap (scrolled c.screen) (omega arith)
screen-scroll_down_while_below (suc fuel) c f hi =
    ground (arith, screen-scroll_down c, screen-scroll_down_while_below fuel (scroll_down c))

-- The first visible row that the loops settle on.
abbrev pub aligned : ℕ → ℕ → ℕ
aligned scroll_y cursor_y = max (min scroll_y cursor_y) (cursor_y - (vga_height - 1))

pub screen-align_scroll_to_cursor :
    (c : Console)
    → c.scroll_y < 2 ^ 16
    → c.cursor_y < 2 ^ 16
    → (align_scroll_to_cursor c).screen ≡ scrolled c.screen (aligned c.scroll_y c.cursor_y)
unfolding align_scroll_to_cursor
screen-align_scroll_to_cursor c hs hc = ground (
  arith,
  screen-scroll_up_while_above c.scroll_y c,
  screen-scroll_down_while_below c.cursor_y (scroll_up_while_above c.scroll_y c),
)

-- How many rows the view is moved.
abbrev pub distance : ℕ → ℕ → ℕ
distance a b = (a - b) + (b - a)

-- Behind `align_scroll_to_cursor` the cursor is in one of the 25 rows from the first visible one on,
-- and no other first row `n` from which it would be is nearer to the one before. No other field of
-- the screen changes.
pub align_scroll_to_cursor_ends :
    (c : Console) (n : ℕ)
    → c.scroll_y < 2 ^ 16
    → c.cursor_y < 2 ^ 16
    → n ≤ c.cursor_y
    → c.cursor_y < n + 25
    → let s = (align_scroll_to_cursor c).screen in
      (s.scroll_y ≤ c.cursor_y)
      × (c.cursor_y < s.scroll_y + 25)
      × (distance c.scroll_y s.scroll_y ≤ distance c.scroll_y n)
      × (s ≡ scrolled c.screen s.scroll_y)
align_scroll_to_cursor_ends c n hs hc lo hi =
    let e = screen-align_scroll_to_cursor c hs hc in
    let first : (align_scroll_to_cursor c).screen.scroll_y ≡ aligned c.scroll_y c.cursor_y =
      ap (λ (s : Screen). s.scroll_y) e in
    (
      omega (arith, first),
      omega (arith, first),
      omega (arith, first),
      e ∙ ap (scrolled c.screen) (sym first),
    )
