-- ===== src/Input/Layouts.antt =====
-- input/keymap.h: an entry of a layout table, with the code points of a key at each level. Each child
-- is a table of input/keymap.c.
pub mod Qwerty
pub mod Azerty
pub mod Qwertz
pub mod Dvorak
use zythos.Base.{
  ℕ, zero, suc, ◌+◌, ◌-◌, ◌*◌, ◌/◌, ◌%◌, ◌^◌, ◌≤◌, ◌<◌, ◌≡◌, refl, sym, ap, ◌∙◌, ◌≢◌, ◌↔◌, ◌⊎◌, inl,
  inr, Bool, true, false, not, ◌&&◌, ◌||◌, Option, none, some, List, [], ◌∷◌, ◌++◌, map, arith, ltb,
  leb, ◌==◌, if◌then◌else◌, add32, ◌>>=◌, Bool-cases, Option-cases, ==_iff, ==-refl, length,
  get_elem?, get_or, set, take, drop, replicate, length-append, length-set, get_or-set_self,
  get_or-set_ne,
}

-- `dead_mask` has a bit per level: 1 normal, 2 shift, 4 altgr, 8 both.
pub record KeymapEntry : Type 0 where
  pub normal : ℕ
  pub shift : ℕ
  pub altgr : ℕ
  pub shift_altgr : ℕ
  pub dead_mask : ℕ
  pub alpha : Bool

abbrev pub entry : ℕ → ℕ → ℕ → ℕ → ℕ → Bool → KeymapEntry
entry n s a sa d alpha = record {
  normal = n;
  shift = s;
  altgr = a;
  shift_altgr = sa;
  dead_mask = d;
  alpha = alpha;
}
