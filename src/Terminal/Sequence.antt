-- ===== src/Terminal/Sequence.antt =====
-- terminal.c: printing characters one after the other.
use kernel_from_scratch.Prelude.{ℕ, ◌≡◌, refl, List, [], ◌∷◌, ◌++◌}
use kernel_from_scratch.Terminal.{Console}
use kernel_from_scratch.Terminal.Put.{putc, put_chars}

pub put_chars-nil : (c : Console) → put_chars [] c ≡ c
unfolding put_chars
put_chars-nil c = refl

pub put_chars-cons :
    (ch : ℕ) (chs : List ℕ) (c : Console) → put_chars (ch ∷ chs) c ≡ put_chars chs (putc ch c)
unfolding put_chars
put_chars-cons ch chs c = refl

pub put_chars-one : (ch : ℕ) (c : Console) → put_chars (ch ∷ []) c ≡ putc ch c
unfolding put_chars
put_chars-one ch c = refl

pub put_chars-append :
    (s t : List ℕ) (c : Console) → put_chars (s ++ t) c ≡ put_chars t (put_chars s c)
unfolding put_chars
put_chars-append [] t c = refl
put_chars-append (ch ∷ s) t c = put_chars-append s t (putc ch c)
