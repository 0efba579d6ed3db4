-- ===== src/Terminal/Line/Erase.antt =====
-- terminal.c: the loop of `terminal_del_input`, which blanks the cells before the cursor.
use kernel_from_scratch.Prelude.{
  ℕ, zero, suc, ◌+◌, ◌-◌, ◌*◌, ◌%◌, ◌^◌, ◌≤◌, ◌<◌, ◌≡◌, inl, inr, refl, ◌∙◌, arith, ◌==◌, ◌&&◌,
  Bool-cases, false,
}
use kernel_from_scratch.Terminal.{Screen, Console, cursor_position, cell_at, blank, set_cell}
use kernel_from_scratch.Terminal.Put.{put_cell}
use kernel_from_scratch.Terminal.Input.{erase_before, erase_loop}
use kernel_from_scratch.Terminal.Cells.{cell_at-set_cell}
use kernel_from_scratch.Terminal.Advance.{IsValid, Redrawn, Redrawn-trans}

-- The cursor of `t` is `n` cells before that of `s`, and the cells before it are those of `s`.
pub record Erased (s : Screen) (n : ℕ) (t : Screen) : Type 0 where
  pub position : cursor_position t + n ≡ cursor_position s
  pub cells : (q : ℕ) → q < cursor_position t → cell_at t q ≡ cell_at s q
  pub valid : IsValid t
  pub rest : Redrawn s t

Erased-at :
    (s : Screen) (x y : ℕ)
    → IsValid s
    → x < 80
    → y < 35
    → y * 80 + x + 1 ≡ cursor_position s
    → Erased s 1 (set_cell y x (blank s) (record s { cursor_x = x; cursor_y = y }))
unfolding cursor_position cell_at
Erased-at s x y v hx hy e = record {
  position = e;
  cells = λ q lt.
      ground (arith, cell_at-set_cell (record s { cursor_x = x; cursor_y = y }) y x q (blank s) hx);
  valid = record { column = hx; row = hy; scroll = v.scroll };
  rest = refl;
}

erase_before-Erased :
    (c : Console)
    → IsValid c.screen
    → 0 < cursor_position c.screen
    → Erased c.screen 1 (erase_before c).screen
unfolding erase_before put_cell cursor_position
erase_before-Erased c v h = elim (Bool-cases (c.cursor_x == 0)) [
  | inl first ↦
      let up : (c.cursor_y + 2 ^ 16 - 1) % 2 ^ 16 ≡ c.cursor_y - 1 = ground arith in
      rw (first, up)
        (Erased-at c.screen 79 (c.cursor_y - 1) v (omega arith) (omega arith) (ground arith))
  | inr inside ↦
      rw inside
        (Erased-at c.screen (c.cursor_x - 1) c.cursor_y v (omega arith) v.row (ground arith))
]

pub erase_loop-Erased :
    (n : ℕ) (c : Console)
    → IsValid c.screen
    → n ≤ cursor_position c.screen
    → Erased c.screen n (erase_loop n c).screen
unfolding erase_loop cursor_position
erase_loop-Erased zero c v h = record {
  position = omega arith;
  cells = λ q lt. refl;
  valid = v;
  rest = refl;
}
erase_loop-Erased (suc n) c v h =
    let first = erase_before-Erased c v (omega arith) in
    let more = erase_loop-Erased n (erase_before c) first.valid (omega (arith, first.position)) in
    let test : ((c.cursor_x == 0) && (c.cursor_y == 0)) ≡ false = ground arith in
    rw test (record {
      position = omega (arith, first.position, more.position);
      cells = λ q lt. more.cells q lt ∙ first.cells q (omega (arith, more.position));
      valid = more.valid;
      rest =
          Redrawn-trans c.screen (erase_before c).screen (erase_loop n (erase_before c)).screen
            first.rest more.rest;
    })
