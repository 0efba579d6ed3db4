-- ===== src/Printk/Format.antt =====
-- printk.c: how a format is read, directive by directive.
use mathlib.Core.List.{append_assoc}
use kernel_from_scratch.Prelude.{
  ℕ, suc, ◌+◌, ◌-◌, ◌*◌, ◌%◌, ◌^◌, ◌<◌, ◌≤◌, ◌≡◌, ◌≢◌, ◌⊎◌, refl, sym, ap, ◌∙◌, arith, Bool, true,
  false, ◌==◌, if◌then◌else◌, List, [], ◌∷◌, ◌++◌, length, take, get_or, length-append, add32,
  Bool-cases, inl, inr, some,
}
use kernel_from_scratch.Chars.{isdigit}
use kernel_from_scratch.Numerals.{value}
use kernel_from_scratch.Printk.{read_pad, read_width, read_long, read_directive}
use kernel_from_scratch.Printk.Text.{Flags, flags_format, width_of, pad_of, AllDigits, IsFlags}

value_mono : (ds : List ℕ) (n : ℕ) → n ≤ value ds n
value_mono [] n = omega arith
value_mono (d ∷ ds) n = omega (arith, value_mono ds (n * 10 + (d - 48)))

isdigit-digit : (d : ℕ) → 48 ≤ d → d ≤ 57 → isdigit d ≡ true
unfolding isdigit
isdigit-digit d h k = ground arith

-- The digits up to a character that is none give the width.
read_width-value :
    (ds : List ℕ) (x : ℕ) (s : List ℕ) (n : ℕ)
    → AllDigits ds
    → isdigit x ≡ false
    → value ds n < 2 ^ 32
    → read_width (ds ++ x ∷ s) n ≡ (value ds n, x ∷ s)
unfolding read_width
read_width-value [] x s n h e k = rw e
read_width-value (d ∷ ds) x s n h e k =
    let mono = value_mono ds (n * 10 + (d - 48)) in
    let next : add32 (n * 10 % 2 ^ 32) (d - 48) ≡ n * 10 + (d - 48) = omega arith in
    rw (isdigit-digit d h.0 h.1, next) (read_width-value ds x s (n * 10 + (d - 48)) h.2 e k)

-- A conversion character: no digit, and no `l`.
abbrev pub Ends : ℕ → Type 0
Ends ch = (isdigit ch ≡ false) × (ch ≢ 108) × (ch ≢ 48)

read_long-flag :
    (long : Bool) (ch : ℕ) (s : List ℕ)
    → ch ≢ 108
    → read_long (if long then 108 ∷ 108 ∷ ch ∷ s else ch ∷ s) ≡ (long, ch ∷ s)
read_long-flag true ch s ne = refl
read_long-flag false ch [] ne = refl
read_long-flag false ch (x ∷ s) ne = let other : (ch == 108) ≡ false = ground arith in rw other

read_pad-flag :
    (zero_pad : Bool) (ds : List ℕ) (x : ℕ) (s : List ℕ)
    → (zero_pad ≡ true) ⊎ (get_or ds 0 0 ≢ 48)
    → x ≢ 48
    → read_pad (if zero_pad then 48 ∷ (ds ++ x ∷ s) else ds ++ x ∷ s)
      ≡ (if zero_pad then 48 else 32, ds ++ x ∷ s)
read_pad-flag true ds x s o ne = refl
read_pad-flag false [] x s o ne = let other : (x == 48) ≡ false = ground arith in rw other
read_pad-flag false (d ∷ ds) x s o ne =
    let other : (d == 48) ≡ false = elim o [ inl e ↦ cc | inr e ↦ ground arith ] in rw other

-- The flags in front of `a`, and what follows `a`.
flags_format-append : (f : Flags) (a s : List ℕ) → flags_format f (a ++ s) ≡ flags_format f a ++ s
flags_format-append f a s =
    let behind : f.digits ++ (if f.is_long then 108 ∷ 108 ∷ (a ++ s) else a ++ s)
        ≡ (f.digits ++ (if f.is_long then 108 ∷ 108 ∷ a else a)) ++ s =
      elim (Bool-cases f.is_long) [
        | inl e ↦ rw e (sym (append_assoc f.digits (108 ∷ 108 ∷ a) s))
        | inr e ↦ rw e (sym (append_assoc f.digits a s))
      ] in
    elim (Bool-cases f.padded_by_zero) [ inl e ↦ rw e (ap (48 ∷◌) behind) | inr e ↦ rw e behind ]

take-append : (a s : List ℕ) → take (length (a ++ s) - length s) (a ++ s) ≡ a
take-append a s =
    let count : length (a ++ s) - length s ≡ length a = omega (arith, length-append a s) in
    rw count (take_front a s)
  where
    take_front : (a s : List ℕ) → take (length a) (a ++ s) ≡ a
    take_front [] s = refl
    take_front (x ∷ a) s = ap (x ∷◌) (take_front a s)

-- The three steps behind the `%`.
read_steps :
    (zero_pad : Bool) (ds : List ℕ) (long : Bool) (ch : ℕ) (s : List ℕ)
    → (zero_pad ≡ true) ⊎ (get_or ds 0 0 ≢ 48)
    → AllDigits ds
    → value ds 0 < 2 ^ 32
    → Ends ch
    → let f : Flags = record { padded_by_zero = zero_pad; digits = ds; is_long = long } in
      let s2 : List ℕ = if long then 108 ∷ 108 ∷ ch ∷ s else ch ∷ s in
      (read_pad (flags_format f (ch ∷ s)) ≡ (pad_of f, ds ++ s2))
      × (read_width (ds ++ s2) 0 ≡ (value ds 0, s2))
      × (read_long s2 ≡ (long, ch ∷ s))
read_steps zero_pad ds true ch s o all small e = (
  read_pad-flag zero_pad ds 108 (108 ∷ ch ∷ s) o (omega arith),
  read_width-value ds 108 (108 ∷ ch ∷ s) 0 all (unfold isdigit in refl) small,
  refl,
)
read_steps zero_pad ds false ch s o all small e = (
  read_pad-flag zero_pad ds ch s o e.2,
  read_width-value ds ch s 0 all e.0 small,
  read_long-flag false ch s e.1,
)

-- The directive that three steps read.
read_directive_lem :
    (s s1 s2 rest : List ℕ) (pad width ch : ℕ) (long : Bool)
    → read_pad s ≡ (pad, s1)
    → read_width s1 0 ≡ (width, s2)
    → read_long s2 ≡ (long, ch ∷ rest)
    → read_directive s
      ≡ some (record {
        pad = pad;
        width = width;
        has_long_long = long;
        conversion = ch;
        written = take (suc (length s - length rest)) (37 ∷ s);
        rest = rest;
      })
unfolding read_directive
read_directive_lem s s1 s2 rest pad width ch long p t l =
    rw (p, t, l, read_directive) (rw (p, t, l) refl)

-- A directive is read as its flags and its conversion character.
pub read_directive-format :
    (f : Flags) (ch : ℕ) (s : List ℕ)
    → IsFlags f
    → Ends ch
    → read_directive (flags_format f (ch ∷ s))
      ≡ some (record {
        pad = pad_of f;
        width = width_of f;
        has_long_long = f.is_long;
        conversion = ch;
        written = 37 ∷ flags_format f (ch ∷ []);
        rest = s;
      })
read_directive-format f ch s w e =
    let (p, t, l) =
      read_steps f.padded_by_zero f.digits f.is_long ch s w.no_flag w.digits w.small e in
    let front = flags_format-append f (ch ∷ []) s in
    let printed : take (suc (length (flags_format f (ch ∷ s)) - length s))
          (37 ∷ flags_format f (ch ∷ s))
        ≡ 37 ∷ flags_format f (ch ∷ []) =
      ap (λ u. 37 ∷ take (length u - length s) u) front
      ∙ ap (37 ∷◌) (take-append (flags_format f (ch ∷ [])) s) in
    read_directive_lem _ _ _ s (pad_of f) (width_of f) ch f.is_long p t l
    ∙ ap
        (λ u. some (record {
          pad = pad_of f;
          width = width_of f;
          has_long_long = f.is_long;
          conversion = ch;
          written = u;
          rest = s;
        }))
        printed
