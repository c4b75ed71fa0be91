-- ===== src/Core/Tests.antt =====
-- Runs of core/panic.c.
use zythos.Base.{◌≡◌, refl, none, [], ◌∷◌, take}
use zythos.Core.{serial_puts_hex, panic, panic_init_died, line_end}

deadbeef :
    serial_puts_hex 3735928559
    ≡ b'0' ∷ b'x' ∷ b'd' ∷ b'e' ∷ b'a' ∷ b'd' ∷ b'b' ∷ b'e' ∷ b'e' ∷ b'f' ∷ []
unfolding serial_puts_hex
deadbeef = refl

-- The text starts with a slash and the letter n, not with a new line.
starts_with_slash : take 2 (panic panic_init_died none none) ≡ line_end
unfolding panic
starts_with_slash = refl
