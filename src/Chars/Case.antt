-- ===== src/Chars/Case.antt =====
-- char.c: the two cases of a letter.
use kernel_from_scratch.Prelude.{ℕ, ◌<◌, ◌≡◌, arith}
use kernel_from_scratch.Chars.{islower, isupper, isalpha, isdigit, isalnum, tolower, toupper}

-- For every byte, `tolower` and `toupper` undo each other up to the case they give, and neither
-- changes whether the byte is a letter or a digit.
pub tolower-toupper :
    (c : ℕ)
    → c < 256
    → (tolower (toupper c) ≡ tolower c)
      × (toupper (tolower c) ≡ toupper c)
      × (isalnum (toupper c) ≡ isalnum c)
      × (isalnum (tolower c) ≡ isalnum c)
unfolding islower isupper isalpha isdigit isalnum tolower toupper
tolower-toupper c h = (ground arith, ground arith, ground arith, ground arith)
