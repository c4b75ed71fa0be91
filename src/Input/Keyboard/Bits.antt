-- ===== src/Input/Keyboard/Bits.antt =====
-- What each change of the modifier word does to the bits of caps lock (16) and shift (1).
use zythos.Base.{ℕ, ◌≡◌, refl, Bool, true, false, arith, if◌then◌else◌}
use zythos.Input.Keymap.{xor}
use zythos.Input.Flags.{has_flag, set_flag, clear_flag, toggle_flag}

abbrev pub hold : ℕ → Bool → ℕ → ℕ
hold flag pressed w = if pressed then set_flag flag w else clear_flag flag w

abbrev pub toggle : ℕ → Bool → ℕ → ℕ
toggle flag pressed w = if pressed then toggle_flag flag w else w

pub caps-hold_shift : (p : Bool) (w : ℕ) → has_flag 16 (hold 1 p w) ≡ has_flag 16 w
caps-hold_shift true w = ground arith
caps-hold_shift false w = ground arith

pub caps-hold_ctrl : (p : Bool) (w : ℕ) → has_flag 16 (hold 2 p w) ≡ has_flag 16 w
caps-hold_ctrl true w = ground arith
caps-hold_ctrl false w = ground arith

pub caps-hold_alt : (p : Bool) (w : ℕ) → has_flag 16 (hold 4 p w) ≡ has_flag 16 w
caps-hold_alt true w = ground arith
caps-hold_alt false w = ground arith

pub caps-hold_altgr : (p : Bool) (w : ℕ) → has_flag 16 (hold 8 p w) ≡ has_flag 16 w
caps-hold_altgr true w = ground arith
caps-hold_altgr false w = ground arith

pub caps-toggle_num : (p : Bool) (w : ℕ) → has_flag 16 (toggle 32 p w) ≡ has_flag 16 w
caps-toggle_num true w = ground arith
caps-toggle_num false w = refl

pub caps-toggle_scroll : (p : Bool) (w : ℕ) → has_flag 16 (toggle 64 p w) ≡ has_flag 16 w
caps-toggle_scroll true w = ground arith
caps-toggle_scroll false w = refl

pub caps-toggle : (p : Bool) (w : ℕ) → has_flag 16 (toggle 16 p w) ≡ xor p (has_flag 16 w)
caps-toggle true w = ground arith
caps-toggle false w = refl

pub shift-hold : (p : Bool) (w : ℕ) → has_flag 1 (hold 1 p w) ≡ p
shift-hold true w = ground arith
shift-hold false w = ground arith

pub shift-hold_ctrl : (p : Bool) (w : ℕ) → has_flag 1 (hold 2 p w) ≡ has_flag 1 w
shift-hold_ctrl true w = ground arith
shift-hold_ctrl false w = ground arith

pub shift-hold_alt : (p : Bool) (w : ℕ) → has_flag 1 (hold 4 p w) ≡ has_flag 1 w
shift-hold_alt true w = ground arith
shift-hold_alt false w = ground arith

pub shift-hold_altgr : (p : Bool) (w : ℕ) → has_flag 1 (hold 8 p w) ≡ has_flag 1 w
shift-hold_altgr true w = ground arith
shift-hold_altgr false w = ground arith

pub shift-toggle_caps : (p : Bool) (w : ℕ) → has_flag 1 (toggle 16 p w) ≡ has_flag 1 w
shift-toggle_caps true w = ground arith
shift-toggle_caps false w = refl

pub shift-toggle_num : (p : Bool) (w : ℕ) → has_flag 1 (toggle 32 p w) ≡ has_flag 1 w
shift-toggle_num true w = ground arith
shift-toggle_num false w = refl

pub shift-toggle_scroll : (p : Bool) (w : ℕ) → has_flag 1 (toggle 64 p w) ≡ has_flag 1 w
shift-toggle_scroll true w = ground arith
shift-toggle_scroll false w = refl
