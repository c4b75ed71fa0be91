-- ===== src/Userland/Register/Long.antt =====
-- userland/register.c for names that do not fit their field.
use zythos.Base.{
  ℕ, ◌+◌, ◌<◌, ◌≡◌, refl, sym, ap, ◌∙◌, ◌⊎◌, inl, inr, true, false, none, some, List, [], ◌∷◌,
  arith, if◌then◌else◌, ◌>>=◌, Bool-cases, Option-cases, length,
}
use mathlib.Core.Path.{subst}
use mathlib.Core.Option.{some-injective}
use zythos.Base.{IsText, str_eq-true, length-take-le, take-IsText}
use zythos.Userland.Register.{
  DynEntry, is_hit, set_path, use_slot, register_elf_command, CmdEntry, static_lookup, path_of,
  cmd_lookup,
}
use zythos.Userland.Register.Table.{use_slot-next}
use zythos.Userland.Register.Calls.{AllUsed, use_slot-none}

-- The names are strings that fit their fields.
abbrev pub AllFit : List DynEntry → Type 0
AllFit [] = Unit
AllFit (e ∷ es) = (IsText e.name × (length e.name < 32)) × AllFit es

abbrev pub used_slots : List DynEntry → ℕ
used_slots [] = 0
used_slots (e ∷ es) = (if e.used then 1 else 0) + used_slots es

long_missed :
    (name : List ℕ) (e : DynEntry)
    → IsText e.name
    → length e.name < 32
    → IsText name
    → 31 < length name
    → is_hit name e ≡ false
long_missed name e te short text long = elim (Bool-cases (is_hit name e)) [
  | inr miss ↦ miss
  | inl hit ↦
      let same = str_eq-true e.name name te text (ground (arith, hit)) in
      absurd (omega (arith, ap length same, short, long))
]

path_of-long :
    (name : List ℕ) (t : List DynEntry)
    → AllFit t
    → IsText name
    → 31 < length name
    → path_of name t ≡ none
path_of-long name [] fit text long = refl
path_of-long name (e ∷ es) ((te, short), fit) text long =
    rw (long_missed name e te short text long) (path_of-long name es fit text long)

set_path-long :
    (name path : List ℕ) (t : List DynEntry)
    → AllFit t
    → IsText name
    → 31 < length name
    → set_path name path t ≡ none
set_path-long name path [] fit text long = refl
set_path-long name path (e ∷ es) ((te, short), fit) text long =
    rw (long_missed name e te short text long, set_path-long name path es fit text long, ◌>>=◌) refl

use_slot-fits :
    (name path : List ℕ) (t r : List DynEntry)
    → AllFit t
    → IsText name
    → use_slot name path t ≡ some r
    → AllFit r × (used_slots r ≡ used_slots t + 1)
use_slot-fits name path [] r fit text run = absurd (cc run)
use_slot-fits name path (e ∷ es) r (this, fit) text run = elim (Bool-cases e.used) [
  | inr free ↦
      let got = some-injective _ _ (rw free at run) in
      subst (λ t. AllFit t × (used_slots t ≡ used_slots (e ∷ es) + 1)) got
        (
          ((take-IsText 31 name text, omega (arith, length-take-le 31 name)), fit),
          rw free (omega arith),
        )
  | inl used ↦ elim (Option-cases (use_slot name path es)) [
    | inl nowhere ↦ absurd (cc (rw (used, nowhere, ◌>>=◌) at run))
    | inr (s, rest) ↦
        let (fits, count) = use_slot-fits name path es s fit text rest in
        subst (λ t. AllFit t × (used_slots t ≡ used_slots (e ∷ es) + 1))
          (some-injective _ _ (sym (use_slot-next name path e es s used rest) ∙ run))
          ((this, fits), rw used (omega (arith, count)))
  ]
]

-- A name of 32 bytes or more that no command of the linker's table has: `register_elf_command` takes a
-- new slot for it with each call and reports success, until all are used, but `cmd_lookup` never finds
-- it.
pub register_elf_command-long :
    (cmdtable : List CmdEntry) (name path : List ℕ) (path_max : ℕ) (t : List DynEntry)
    → AllFit t
    → IsText name
    → 31 < length name
    → static_lookup name cmdtable ≡ none
    → ((register_elf_command name path t ≡ (false, t)) × AllUsed t)
      ⊎ ((r : List DynEntry) × (register_elf_command name path t ≡ (true, r))
          × AllFit r
          × (used_slots r ≡ used_slots t + 1)
          × (cmd_lookup cmdtable name path_max r ≡ none))
unfolding register_elf_command cmd_lookup
register_elf_command-long cmdtable name path path_max t fit text long other =
    let absent = set_path-long name path t fit text long in
    elim (Option-cases (use_slot name path t)) [
      | inl full ↦
          inl (rw (register_elf_command, absent, full) refl, use_slot-none name path t full)
      | inr (r, free) ↦
          let (fits, count) = use_slot-fits name path t r fit text free in
          inr (
            r,
            rw (register_elf_command, absent, free) refl,
            fits,
            count,
            rw (cmd_lookup, other, path_of-long name r fits text long, ◌>>=◌) refl,
          )
    ]
