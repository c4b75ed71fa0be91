-- ===== src/Userland/Register.antt =====
-- userland/register.c: the table of commands that are registered while the system runs, and the lookup
-- in it behind the table of the linker. A name or a path is a string; the array has its 32 entries.
pub mod Table
pub mod Kept
pub mod Calls
pub mod Runs
pub mod Long
use zythos.Base.{
  ℕ, zero, suc, ◌+◌, ◌-◌, ◌*◌, ◌/◌, ◌%◌, ◌^◌, ◌≤◌, ◌<◌, ◌≡◌, refl, sym, ap, ◌∙◌, ◌≢◌, ◌↔◌, ◌⊎◌, inl,
  inr, Bool, true, false, not, ◌&&◌, ◌||◌, Option, none, some, List, [], ◌∷◌, ◌++◌, map, arith, ltb,
  leb, ◌==◌, if◌then◌else◌, add32, ◌>>=◌, Bool-cases, Option-cases, ==_iff, ==-refl, length,
  get_elem?, get_or, set, take, drop, replicate, length-append, length-set, get_or-set_self,
  get_or-set_ne,
}
use zythos.Base.{str_eq}

abbrev pub dyn_cmd_max : ℕ
dyn_cmd_max = 32

pub record DynEntry : Type 0 where
  pub name : List ℕ
  pub path : List ℕ
  pub used : Bool

-- What is in `g_dyn_table` at the start.
abbrev pub g_dyn_table : List DynEntry
g_dyn_table = replicate dyn_cmd_max (record { name = []; path = []; used = false })

-- `max` is not 0.
abbrev pub str_cpy : List ℕ → ℕ → List ℕ
str_cpy src max = take (max - 1) src

abbrev pub is_hit : List ℕ → DynEntry → Bool
is_hit name e = e.used && str_eq e.name name

-- The first loop of `register_elf_command`.
abbrev pub set_path : List ℕ → List ℕ → List DynEntry → Option (List DynEntry)
set_path name path [] = none
set_path name path (e ∷ es) =
    let rest = set_path name path es in
    if is_hit name e
    then some (record e { path = str_cpy path 64 } ∷ es)
    else (rest >>= λ r. some (e ∷ r))

-- The second loop.
abbrev pub use_slot : List ℕ → List ℕ → List DynEntry → Option (List DynEntry)
use_slot name path [] = none
use_slot name path (e ∷ es) =
    let rest = use_slot name path es in
    if not e.used
    then some (record { name = str_cpy name 32; path = str_cpy path 64; used = true } ∷ es)
    else (rest >>= λ r. some (e ∷ r))

-- The result is `true` for 0 and `false` for -1.
pub register_elf_command : List ℕ → List ℕ → List DynEntry → Bool × List DynEntry
register_elf_command name path table = elim (set_path name path table) [
  | some after ↦ (true, after)
  | none ↦ elim (use_slot name path table) [ some after ↦ (true, after) | none ↦ (false, table) ]
]

-- The loop of `unregister_command`.
abbrev pub clear_slot : List ℕ → List DynEntry → Option (List DynEntry)
clear_slot name [] = none
clear_slot name (e ∷ es) =
    let rest = clear_slot name es in
    if is_hit name e then some (record e { used = false } ∷ es) else (rest >>= λ r. some (e ∷ r))

pub unregister_command : List ℕ → List DynEntry → Bool × List DynEntry
unregister_command name table = elim (clear_slot name table) [
  | some after ↦ (true, after)
  | none ↦ (false, table)
]

-- A command of the linker's table; its function is a number.
pub record CmdEntry : Type 0 where
  pub name : List ℕ
  pub fn : ℕ

pub data Found : Type 0 where
  static_fn : ℕ → Found
  elf_path : List ℕ → Found

-- The first loop of `cmd_lookup`.
abbrev pub static_lookup : List ℕ → List CmdEntry → Option ℕ
static_lookup name [] = none
static_lookup name (c ∷ cs) = if str_eq c.name name then some c.fn else static_lookup name cs

-- The second loop.
abbrev pub path_of : List ℕ → List DynEntry → Option (List ℕ)
path_of name [] = none
path_of name (e ∷ es) = if is_hit name e then some e.path else path_of name es

pub cmd_lookup : List CmdEntry → List ℕ → ℕ → List DynEntry → Option Found
cmd_lookup cmdtable name path_max table = elim (static_lookup name cmdtable) [
  | some fn ↦ some (static_fn fn)
  | none ↦ (path_of name table >>= λ path. some (elf_path (str_cpy path path_max)))
]
