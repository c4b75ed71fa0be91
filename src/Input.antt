-- ===== src/Input.antt =====
-- input/: from the bytes of a PS/2 keyboard to characters.
pub mod Keycodes
pub mod MoreKeycodes
pub mod Flags
pub mod Set1
pub mod Layouts
pub mod Keymap
pub mod Legacy
pub mod Keyboard
pub mod Tests
