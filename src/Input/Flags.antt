-- ===== src/Input/Flags.antt =====
-- The bit operations of input/keyboard.c on a flag word. `flag` is a power of 2.
use zythos.Base.{ℕ, ◌+◌, ◌-◌, ◌/◌, ◌%◌, Bool, ◌==◌, if◌then◌else◌}

-- `(word & flag) != 0`
abbrev pub has_flag : ℕ → ℕ → Bool
has_flag flag word = word / flag % 2 == 1

-- `word | flag`
abbrev pub set_flag : ℕ → ℕ → ℕ
set_flag flag word = if has_flag flag word then word else word + flag

-- `word & ~flag`
abbrev pub clear_flag : ℕ → ℕ → ℕ
clear_flag flag word = if has_flag flag word then word - flag else word

-- `word ^ flag`
abbrev pub toggle_flag : ℕ → ℕ → ℕ
toggle_flag flag word = if has_flag flag word then word - flag else word + flag
