-- ===== src/Userland/Register/Table.antt =====
-- userland/register.c for names that fit their field.
use zythos.Base.{
  ℕ, ◌<◌, ◌≡◌, refl, sym, ap, ◌∙◌, inl, inr, true, false, Option, none, some, List, [], ◌∷◌, arith,
  if◌then◌else◌, ◌>>=◌, Bool-cases, Option-cases, length,
}
use mathlib.Core.Option.{some-injective}
use zythos.Base.{IsText, str_eq, str_eq-true, take-short}
use zythos.Userland.Register.{DynEntry, is_hit, set_path, use_slot, clear_slot, path_of, str_cpy}

abbrev pub AllNamed : List DynEntry → Type 0
AllNamed [] = Unit
AllNamed (e ∷ es) = IsText e.name × AllNamed es

-- No two used entries have the same name.
abbrev pub Distinct : List DynEntry → Type 0
Distinct [] = Unit
Distinct (e ∷ es) = (e.used ≡ true → path_of e.name es ≡ none) × Distinct es

pub record IsTable (table : List DynEntry) : Type 0 where
  pub named : AllNamed table
  pub distinct : Distinct table

-- `path` for the one name, and the old answer for all others.
abbrev pub changed : List ℕ → Option (List ℕ) → List ℕ → Option (List ℕ) → Option (List ℕ)
changed name path m before = if str_eq name m then path else before

-- Only the entries of the name itself are hit by it.
not_hit :
    (e : DynEntry) (name m : List ℕ)
    → IsText name
    → IsText m
    → is_hit name e ≡ false
    → str_eq name m ≡ true
    → is_hit m e ≡ false
not_hit e name m text text' miss same =
    ap (λ x. is_hit x e) (sym (str_eq-true name m text text' same)) ∙ miss

hit_name :
    (e : DynEntry) (name : List ℕ)
    → IsText e.name
    → IsText name
    → is_hit name e ≡ true
    → (e.used ≡ true) × (e.name ≡ name)
hit_name e name text text' hit =
    (ground (arith, hit), str_eq-true e.name name text text' (ground (arith, hit)))

-- What the answer is behind an entry that is not hit.
behind :
    (name m : List ℕ) (path : Option (List ℕ)) (e : DynEntry) (es s : List DynEntry)
    → IsText name
    → IsText m
    → is_hit name e ≡ false
    → path_of m s ≡ changed name path m (path_of m es)
    → path_of m (e ∷ s) ≡ changed name path m (path_of m (e ∷ es))
behind name m path e es s text text' miss rest = elim (Bool-cases (str_eq name m)) [
  | inl same ↦ rw (not_hit e name m text text' miss same, rest, same) refl
  | inr other ↦ rw (rest, other) refl
]

pub set_path_lem :
    (name path m : List ℕ) (t r : List DynEntry)
    → AllNamed t
    → IsText name
    → IsText m
    → set_path name path t ≡ some r
    → path_of m r ≡ changed name (some (str_cpy path 64)) m (path_of m t)
set_path_lem name path m [] r named text text' run = absurd (cc run)
set_path_lem name path m (e ∷ es) r (te, named) text text' run = elim (Bool-cases (is_hit name e)) [
  | inl hit ↦
      let got = some-injective _ _ (rw hit at run) in
      let (used, same_name) = hit_name e name te text hit in
      elim (Bool-cases (str_eq name m)) [
        | inl same ↦ rw (sym got, used, same_name, same) refl
        | inr other ↦ rw (sym got, used, same_name, other) refl
      ]
  | inr miss ↦ elim (Option-cases (set_path name path es)) [
    | inl nowhere ↦ absurd (cc (rw (miss, nowhere, ◌>>=◌) at run))
    | inr (s, rest) ↦
        let got = some-injective _ _ (rw (miss, rest, ◌>>=◌) at run) in
        ap (path_of m) (sym got)
        ∙ behind name m (some (str_cpy path 64)) e es s text text' miss
            (set_path_lem name path m es s named text text' rest)
  ]
]

pub use_slot-next :
    (name path : List ℕ) (e : DynEntry) (es s : List DynEntry)
    → e.used ≡ true
    → use_slot name path es ≡ some s
    → use_slot name path (e ∷ es) ≡ some (e ∷ s)
use_slot-next name path e es s used rest = rw (used, rest, ◌>>=◌) refl

pub use_slot_lem :
    (name path m : List ℕ) (t r : List DynEntry)
    → IsText name
    → IsText m
    → length name < 32
    → path_of name t ≡ none
    → use_slot name path t ≡ some r
    → path_of m r ≡ changed name (some (str_cpy path 64)) m (path_of m t)
use_slot_lem name path m [] r text text' short absent run = absurd (cc run)
use_slot_lem name path m (e ∷ es) r text text' short absent run = elim (Bool-cases e.used) [
  | inr free ↦
      let got = some-injective _ _ (rw free at run) in
      let whole = take-short 31 name (omega arith) in rw (sym got, free, whole) refl
  | inl used ↦ elim (Bool-cases (is_hit name e)) [
    | inl hit ↦ absurd (cc (rw hit at absent))
    | inr miss ↦ elim (Option-cases (use_slot name path es)) [
      | inl nowhere ↦ absurd (cc (rw (used, nowhere, ◌>>=◌) at run))
      | inr (s, rest) ↦
          let got = some-injective _ _ (sym (use_slot-next name path e es s used rest) ∙ run) in
          ap (path_of m) (sym got)
          ∙ behind name m (some (str_cpy path 64)) e es s text text' miss
              (use_slot_lem name path m es s text text' short (rw miss at absent) rest)
    ]
  ]
]

-- The first loop fails just for a name that is not in the table.
pub set_path-none :
    (name path : List ℕ) (t : List DynEntry) → set_path name path t ≡ none → path_of name t ≡ none
set_path-none name path [] run = refl
set_path-none name path (e ∷ es) run = elim (Bool-cases (is_hit name e)) [
  | inl hit ↦ absurd (cc (rw hit at run))
  | inr miss ↦ elim (Option-cases (set_path name path es)) [
    | inl nowhere ↦ rw miss (set_path-none name path es nowhere)
    | inr (s, rest) ↦ absurd (cc (rw (miss, rest, ◌>>=◌) at run))
  ]
]

pub clear_slot_lem :
    (name m : List ℕ) (t r : List DynEntry)
    → IsTable t
    → IsText name
    → IsText m
    → clear_slot name t ≡ some r
    → path_of m r ≡ changed name none m (path_of m t)
clear_slot_lem name m [] r is text text' run = absurd (cc run)
clear_slot_lem name m (e ∷ es) r is text text' run = elim (Bool-cases (is_hit name e)) [
  | inl hit ↦
      let got = some-injective _ _ (rw hit at run) in
      let (used, same_name) = hit_name e name is.named.0 text hit in
      let gone : path_of name es ≡ none =
        ap (λ x. path_of x es) (sym same_name) ∙ is.distinct.0 used in
      elim (Bool-cases (str_eq name m)) [
        | inl same ↦
            let m_gone = ap (λ x. path_of x es) (sym (str_eq-true name m text text' same)) ∙ gone in
            rw (sym got, same, m_gone) refl
        | inr other ↦ rw (sym got, used, same_name, other) refl
      ]
  | inr miss ↦ elim (Option-cases (clear_slot name es)) [
    | inl nowhere ↦ absurd (cc (rw (miss, nowhere, ◌>>=◌) at run))
    | inr (s, rest) ↦
        let got = some-injective _ _ (rw (miss, rest, ◌>>=◌) at run) in
        ap (path_of m) (sym got)
        ∙ behind name m none e es s text text' miss (
            clear_slot_lem name m es s (record { named = is.named.1; distinct = is.distinct.1 })
              text text' rest)
  ]
]

pub clear_slot-none :
    (name : List ℕ) (t : List DynEntry) → clear_slot name t ≡ none → path_of name t ≡ none
clear_slot-none name [] run = refl
clear_slot-none name (e ∷ es) run = elim (Bool-cases (is_hit name e)) [
  | inl hit ↦ absurd (cc (rw hit at run))
  | inr miss ↦ elim (Option-cases (clear_slot name es)) [
    | inl nowhere ↦ rw miss (clear_slot-none name es nowhere)
    | inr (s, rest) ↦ absurd (cc (rw (miss, rest, ◌>>=◌) at run))
  ]
]
