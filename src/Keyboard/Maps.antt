-- ===== src/Keyboard/Maps.antt =====
-- interrupt/handler/keyboard.c: the character maps, as the scancodes that have a character. The
-- other elements of the arrays are 0. The characters are codes: bytes of code page 437.
use kernel_from_scratch.Prelude.{ℕ, List, [], ◌∷◌}

-- maps[KEYBOARD_LAYOUT_QWERTY]
abbrev pub qwerty : List (ℕ × ℕ)
qwerty =
    (0x02, 49)
    ∷ (0x03, 50)
    ∷ (0x04, 51)
    ∷ (0x05, 52)
    ∷ (0x06, 53)
    ∷ (0x07, 54)
    ∷ (0x08, 55)
    ∷ (0x09, 56)
    ∷ (0x0A, 57)
    ∷ (0x0B, 48)
    ∷ (0x0C, 45)
    ∷ (0x0D, 61)
    ∷ (0x10, 113)
    ∷ (0x11, 119)
    ∷ (0x12, 101)
    ∷ (0x13, 114)
    ∷ (0x14, 116)
    ∷ (0x15, 121)
    ∷ (0x16, 117)
    ∷ (0x17, 105)
    ∷ (0x18, 111)
    ∷ (0x19, 112)
    ∷ (0x1A, 91)
    ∷ (0x1B, 93)
    ∷ (0x1E, 97)
    ∷ (0x1F, 115)
    ∷ (0x20, 100)
    ∷ (0x21, 102)
    ∷ (0x22, 103)
    ∷ (0x23, 104)
    ∷ (0x24, 106)
    ∷ (0x25, 107)
    ∷ (0x26, 108)
    ∷ (0x27, 59)
    ∷ (0x28, 39)
    ∷ (0x29, 96)
    ∷ (0x2B, 92)
    ∷ (0x2C, 122)
    ∷ (0x2D, 120)
    ∷ (0x2E, 99)
    ∷ (0x2F, 118)
    ∷ (0x30, 98)
    ∷ (0x31, 110)
    ∷ (0x32, 109)
    ∷ (0x33, 44)
    ∷ (0x34, 46)
    ∷ (0x35, 47)
    ∷ (0x39, 32)
    ∷ []

-- maps[KEYBOARD_LAYOUT_AZERTY]
abbrev pub azerty : List (ℕ × ℕ)
azerty =
    (0x02, 38)
    ∷ (0x03, 130)
    ∷ (0x04, 34)
    ∷ (0x05, 39)
    ∷ (0x06, 40)
    ∷ (0x07, 45)
    ∷ (0x08, 138)
    ∷ (0x09, 95)
    ∷ (0x0A, 135)
    ∷ (0x0B, 133)
    ∷ (0x0C, 41)
    ∷ (0x0D, 61)
    ∷ (0x10, 97)
    ∷ (0x11, 122)
    ∷ (0x12, 101)
    ∷ (0x13, 114)
    ∷ (0x14, 116)
    ∷ (0x15, 121)
    ∷ (0x16, 117)
    ∷ (0x17, 105)
    ∷ (0x18, 111)
    ∷ (0x19, 112)
    ∷ (0x1A, 94)
    ∷ (0x1B, 36)
    ∷ (0x1E, 113)
    ∷ (0x1F, 115)
    ∷ (0x20, 100)
    ∷ (0x21, 102)
    ∷ (0x22, 103)
    ∷ (0x23, 104)
    ∷ (0x24, 106)
    ∷ (0x25, 107)
    ∷ (0x26, 108)
    ∷ (0x27, 109)
    ∷ (0x28, 151)
    ∷ (0x29, 253)
    ∷ (0x2B, 42)
    ∷ (0x2C, 119)
    ∷ (0x2D, 120)
    ∷ (0x2E, 99)
    ∷ (0x2F, 118)
    ∷ (0x30, 98)
    ∷ (0x31, 110)
    ∷ (0x32, 44)
    ∷ (0x33, 59)
    ∷ (0x34, 58)
    ∷ (0x35, 33)
    ∷ (0x39, 32)
    ∷ (0x56, 60)
    ∷ []

-- upper_maps[KEYBOARD_LAYOUT_QWERTY]
abbrev pub upper_qwerty : List (ℕ × ℕ)
upper_qwerty =
    (0x02, 33)
    ∷ (0x03, 64)
    ∷ (0x04, 35)
    ∷ (0x05, 36)
    ∷ (0x06, 37)
    ∷ (0x07, 94)
    ∷ (0x08, 38)
    ∷ (0x09, 42)
    ∷ (0x0A, 40)
    ∷ (0x0B, 41)
    ∷ (0x0C, 95)
    ∷ (0x0D, 43)
    ∷ (0x1A, 123)
    ∷ (0x1B, 125)
    ∷ (0x27, 58)
    ∷ (0x28, 34)
    ∷ (0x29, 126)
    ∷ (0x2B, 124)
    ∷ (0x33, 60)
    ∷ (0x34, 62)
    ∷ (0x35, 63)
    ∷ []

-- upper_maps[KEYBOARD_LAYOUT_AZERTY]
abbrev pub upper_azerty : List (ℕ × ℕ)
upper_azerty =
    (0x02, 49)
    ∷ (0x03, 50)
    ∷ (0x04, 51)
    ∷ (0x05, 52)
    ∷ (0x06, 53)
    ∷ (0x07, 54)
    ∷ (0x08, 55)
    ∷ (0x09, 56)
    ∷ (0x0A, 57)
    ∷ (0x0B, 48)
    ∷ (0x0C, 248)
    ∷ (0x0D, 43)
    ∷ (0x1B, 156)
    ∷ (0x28, 37)
    ∷ (0x2B, 230)
    ∷ (0x32, 63)
    ∷ (0x33, 46)
    ∷ (0x34, 47)
    ∷ (0x35, 21)
    ∷ (0x56, 62)
    ∷ []
