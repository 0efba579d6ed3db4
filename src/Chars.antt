-- ===== src/Chars.antt =====
-- helper/char.c: classes and cases of characters. A `char` is signed, here by its bit pattern.
pub mod Case
use kernel_from_scratch.Prelude.{ℕ, ◌+◌, ◌-◌, ◌%◌, Bool, ◌&&◌, ◌||◌, leb, if◌then◌else◌}

-- `a <= b` on `char`.
abbrev pub leb8 : ℕ → ℕ → Bool
leb8 a b = leb ((a + 128) % 256) ((b + 128) % 256)

unfoldable pub islower : ℕ → Bool
islower c = leb8 97 c && leb8 c 122

unfoldable pub isupper : ℕ → Bool
isupper c = leb8 65 c && leb8 c 90

unfoldable pub isalpha : ℕ → Bool
isalpha c = islower c || isupper c

unfoldable pub isdigit : ℕ → Bool
isdigit c = leb8 48 c && leb8 c 57

unfoldable pub isalnum : ℕ → Bool
isalnum c = isalpha c || isdigit c

unfoldable pub isprint : ℕ → Bool
isprint c = leb8 32 c && leb8 c 126

unfoldable pub tolower : ℕ → ℕ
tolower c = if isupper c then (c + 32) % 256 else c

unfoldable pub toupper : ℕ → ℕ
toupper c = if islower c then (c + 256 - 32) % 256 else c
