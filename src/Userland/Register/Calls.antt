-- ===== src/Userland/Register/Calls.antt =====
-- The calls of userland/register.c as operations on a map from names to paths.
use zythos.Base.{
  ℕ, ◌<◌, ◌≡◌, refl, ◌⊎◌, inl, inr, true, false, none, some, List, [], ◌∷◌, if◌then◌else◌, ◌>>=◌,
  Bool-cases, Option-cases, length, take,
}
use zythos.Base.{IsText, str_eq}
use zythos.Userland.Register.{
  DynEntry, register_elf_command, unregister_command, path_of, set_path, use_slot, clear_slot,
}
use zythos.Userland.Register.Table.{
  IsTable, set_path_lem, set_path-none, use_slot_lem, clear_slot_lem, clear_slot-none,
}
use zythos.Userland.Register.Kept.{set_path-IsTable, use_slot-IsTable, clear_slot-IsTable}

-- Every entry is used.
abbrev pub AllUsed : List DynEntry → Type 0
AllUsed [] = Unit
AllUsed (e ∷ es) = (e.used ≡ true) × AllUsed es

pub use_slot-none :
    (name path : List ℕ) (t : List DynEntry) → use_slot name path t ≡ none → AllUsed t
use_slot-none name path [] run = tt
use_slot-none name path (e ∷ es) run = elim (Bool-cases e.used) [
  | inr free ↦ absurd (cc (rw free at run))
  | inl used ↦ elim (Option-cases (use_slot name path es)) [
    | inl nowhere ↦ (used, use_slot-none name path es nowhere)
    | inr (s, rest) ↦ absurd (cc (rw (used, rest, ◌>>=◌) at run))
  ]
]

-- `register_elf_command` of a name of at most 31 bytes fails only if the name is not in the table and
-- all entries are used, and then changes nothing. Otherwise the table stays well-formed, the name stands
-- for the path, cut to 63 bytes, and every other name stands for what it stood for.
pub register_elf_command_lem :
    (name path : List ℕ) (t : List DynEntry)
    → IsTable t
    → IsText name
    → length name < 32
    → ((register_elf_command name path t ≡ (false, t)) × (path_of name t ≡ none) × AllUsed t)
      ⊎ ((r : List DynEntry) × (register_elf_command name path t ≡ (true, r))
          × IsTable r
          × ((m : List ℕ)
              → IsText m
              → path_of m r ≡ (if str_eq name m then some (take 63 path) else path_of m t)))
unfolding register_elf_command
register_elf_command_lem name path t is text short = elim (Option-cases (set_path name path t)) [
  | inr (r, found) ↦ inr (
    r,
    rw (register_elf_command, found) refl,
    set_path-IsTable name path t r is text found,
    λ m text'. set_path_lem name path m t r is.named text text' found,
  )
  | inl absent ↦
      let gone = set_path-none name path t absent in
      elim (Option-cases (use_slot name path t)) [
        | inl full ↦
            inl (rw (register_elf_command, absent, full) refl, gone, use_slot-none name path t full)
        | inr (r, free) ↦ inr (
          r,
          rw (register_elf_command, absent, free) refl,
          use_slot-IsTable name path t r is text short gone free,
          λ m text'. use_slot_lem name path m t r text text' short gone free,
        )
      ]
]

-- `unregister_command` fails just if the name is not in the table, and then changes nothing. Otherwise
-- the table stays well-formed, the name stands for nothing, and every other name stands for what it
-- stood for.
pub unregister_command_lem :
    (name : List ℕ) (t : List DynEntry)
    → IsTable t
    → IsText name
    → ((unregister_command name t ≡ (false, t)) × (path_of name t ≡ none))
      ⊎ ((r : List DynEntry) × (unregister_command name t ≡ (true, r))
          × IsTable r
          × ((m : List ℕ) → IsText m → path_of m r ≡ (if str_eq name m then none else path_of m t)))
unfolding unregister_command
unregister_command_lem name t is text = elim (Option-cases (clear_slot name t)) [
  | inl absent ↦ inl (rw (unregister_command, absent) refl, clear_slot-none name t absent)
  | inr (r, found) ↦ inr (
    r,
    rw (unregister_command, found) refl,
    clear_slot-IsTable name t r is text found,
    λ m text'. clear_slot_lem name m t r is text text' found,
  )
]
