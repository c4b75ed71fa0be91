-- ===== src/Userland/Register/Kept.antt =====
-- The table of userland/register.c stays well-formed.
use zythos.Base.{
  ℕ, ◌<◌, ◌≡◌, refl, sym, ap, ◌∙◌, inl, inr, true, false, ◌&&◌, Option, none, some, List, [], ◌∷◌,
  arith, ◌>>=◌, Bool-cases, Option-cases, length,
}
use mathlib.Core.Path.{subst}
use mathlib.Core.Option.{some-injective}
use zythos.Base.{IsText, str_eq, str_eq-true, str_eq_refl, take-short, take-IsText}
use zythos.Userland.Register.{DynEntry, is_hit, set_path, use_slot, clear_slot, path_of, str_cpy}
use zythos.Userland.Register.Table.{
  IsTable, changed, set_path_lem, use_slot_lem, use_slot-next, clear_slot_lem,
}

-- A new answer for another name does not make an entry's name stand twice.
behind-Distinct :
    (name : List ℕ) (path : Option (List ℕ)) (e : DynEntry) (es s : List DynEntry)
    → IsText name
    → IsText e.name
    → is_hit name e ≡ false
    → path_of e.name s ≡ changed name path e.name (path_of e.name es)
    → (e.used ≡ true → path_of e.name es ≡ none)
    → e.used ≡ true
    → path_of e.name s ≡ none
behind-Distinct name path e es s text text' miss rest alone used =
    elim (Bool-cases (str_eq name e.name)) [
      | inl same ↦
          let here : e.used && str_eq e.name name ≡ true = ground (
            arith,
            used,
            ap (λ x. str_eq x name) (str_eq-true name e.name text text' same),
            str_eq_refl name,
          ) in
          absurd (cc (miss, here))
      | inr other ↦ rest ∙ rw (other, alone used) refl
    ]

pub set_path-IsTable :
    (name path : List ℕ) (t r : List DynEntry)
    → IsTable t
    → IsText name
    → set_path name path t ≡ some r
    → IsTable r
set_path-IsTable name path [] r is text run = absurd (cc run)
set_path-IsTable name path (e ∷ es) r is text run = elim (Bool-cases (is_hit name e)) [
  | inl hit ↦
      subst IsTable (some-injective _ _ (rw hit at run))
        (record { named = is.named; distinct = is.distinct })
  | inr miss ↦ elim (Option-cases (set_path name path es)) [
    | inl nowhere ↦ absurd (cc (rw (miss, nowhere, ◌>>=◌) at run))
    | inr (s, rest) ↦
        let tail : IsTable es = record { named = is.named.1; distinct = is.distinct.1 } in
        let kept = set_path-IsTable name path es s tail text rest in
        subst IsTable (some-injective _ _ (rw (miss, rest, ◌>>=◌) at run)) (record {
          named = (is.named.0, kept.named);
          distinct = (
            behind-Distinct name (some (str_cpy path 64)) e es s text is.named.0 miss
                (set_path_lem name path e.name es s is.named.1 text is.named.0 rest) is.distinct.0,
            kept.distinct,
          );
        })
  ]
]

pub use_slot-IsTable :
    (name path : List ℕ) (t r : List DynEntry)
    → IsTable t
    → IsText name
    → length name < 32
    → path_of name t ≡ none
    → use_slot name path t ≡ some r
    → IsTable r
use_slot-IsTable name path [] r is text short absent run = absurd (cc run)
use_slot-IsTable name path (e ∷ es) r is text short absent run = elim (Bool-cases e.used) [
  | inr free ↦
      let whole = take-short 31 name (omega arith) in
      let gone : path_of name es ≡ none = rw free at absent in
      subst IsTable (some-injective _ _ (rw free at run)) (record {
        named = (take-IsText 31 name text, is.named.1);
        distinct = ((λ _. ap (λ x. path_of x es) whole ∙ gone), is.distinct.1);
      })
  | inl used ↦ elim (Bool-cases (is_hit name e)) [
    | inl hit ↦ absurd (cc (rw hit at absent))
    | inr miss ↦ elim (Option-cases (use_slot name path es)) [
      | inl nowhere ↦ absurd (cc (rw (used, nowhere, ◌>>=◌) at run))
      | inr (s, rest) ↦
          let tail : IsTable es = record { named = is.named.1; distinct = is.distinct.1 } in
          let gone : path_of name es ≡ none = rw miss at absent in
          let kept = use_slot-IsTable name path es s tail text short gone rest in
          subst IsTable (some-injective _ _ (sym (use_slot-next name path e es s used rest) ∙ run))
            (record {
              named = (is.named.0, kept.named);
              distinct = (
                behind-Distinct name (some (str_cpy path 64)) e es s text is.named.0 miss
                    (use_slot_lem name path e.name es s text is.named.0 short gone rest)
                    is.distinct.0,
                kept.distinct,
              );
            })
    ]
  ]
]

pub clear_slot-IsTable :
    (name : List ℕ) (t r : List DynEntry)
    → IsTable t
    → IsText name
    → clear_slot name t ≡ some r
    → IsTable r
clear_slot-IsTable name [] r is text run = absurd (cc run)
clear_slot-IsTable name (e ∷ es) r is text run = elim (Bool-cases (is_hit name e)) [
  | inl hit ↦
      subst IsTable (some-injective _ _ (rw hit at run))
        (record { named = is.named; distinct = ((λ u. absurd (ground (arith, u))), is.distinct.1) })
  | inr miss ↦ elim (Option-cases (clear_slot name es)) [
    | inl nowhere ↦ absurd (cc (rw (miss, nowhere, ◌>>=◌) at run))
    | inr (s, rest) ↦
        let tail : IsTable es = record { named = is.named.1; distinct = is.distinct.1 } in
        let kept = clear_slot-IsTable name es s tail text rest in
        subst IsTable (some-injective _ _ (rw (miss, rest, ◌>>=◌) at run)) (record {
          named = (is.named.0, kept.named);
          distinct = (
            behind-Distinct name none e es s text is.named.0 miss
                (clear_slot_lem name e.name es s tail text is.named.0 rest) is.distinct.0,
            kept.distinct,
          );
        })
  ]
]
