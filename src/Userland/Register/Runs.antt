-- ===== src/Userland/Register/Runs.antt =====
-- Any sequence of calls of userland/register.c.
use zythos.Base.{
  ℕ, ◌<◌, ◌≡◌, refl, sym, ap, ◌∙◌, inl, inr, Bool, true, false, not, ◌||◌, Option, none, some, List,
  [], ◌∷◌, if◌then◌else◌, ◌>>=◌, Bool-cases, Option-cases, length, take,
}
use zythos.Base.{IsText, str_eq}
use zythos.Userland.Register.{
  clear_slot, use_slot, set_path, is_hit, DynEntry, register_elf_command, unregister_command,
  path_of,
}
use zythos.Userland.Register.Table.{IsTable}
use zythos.Userland.Register.Calls.{register_elf_command_lem, unregister_command_lem}

pub data Call : Type 0 where
  registers : List ℕ → List ℕ → Call
  unregisters : List ℕ → Call

abbrev pub call : Call → List DynEntry → Bool × List DynEntry
call (registers name path) t = register_elf_command name path t
call (unregisters name) t = unregister_command name t

-- The results of the calls one after the other, and the table in the end.
pub run_calls : List Call → List DynEntry → List Bool × List DynEntry
run_calls [] t = ([], t)
run_calls (c ∷ cs) t =
    let (ok, after) = call c t in let (oks, last) = run_calls cs after in (ok ∷ oks, last)

-- The names are texts of at most 31 bytes.
abbrev pub AreShort : List Call → Type 0
AreShort [] = Unit
AreShort (registers name path ∷ cs) = IsText name × (length name < 32) × AreShort cs
AreShort (unregisters name ∷ cs) = IsText name × AreShort cs

-- What a name stands for after a call on its own.
abbrev pub meant : List ℕ → Option (List ℕ) → Bool → Call → Option (List ℕ)
meant m path false c = path
meant m path true (registers name new) = if str_eq name m then some (take 63 new) else path
meant m path true (unregisters name) = if str_eq name m then none else path

-- What a name stands for after calls with these results: the last of them that succeeded for the name
-- decides.
abbrev pub means : List ℕ → Option (List ℕ) → List Bool → List Call → Option (List ℕ)
means m path [] cs = path
means m path (ok ∷ oks) [] = path
means m path (ok ∷ oks) (c ∷ cs) = means m (meant m path ok c) oks cs

abbrev pub is_some : Option (List DynEntry) → Bool
is_some none = false
is_some (some r) = true

-- Whether the name stands for something.
abbrev pub is_known : List ℕ → List DynEntry → Bool
is_known name [] = false
is_known name (e ∷ es) = is_hit name e || is_known name es

abbrev pub has_free : List DynEntry → Bool
has_free [] = false
has_free (e ∷ es) = not e.used || has_free es

-- A name can be registered if it is known or an entry is free, and unregistered if it is known.
abbrev pub succeeds : Call → List DynEntry → Bool
succeeds (registers name path) t = is_known name t || has_free t
succeeds (unregisters name) t = is_known name t

abbrev pub results : List Call → List DynEntry → List Bool
results [] t = []
results (c ∷ cs) t = succeeds c t ∷ results cs (call c t).1

is_some-bind :
    (e : DynEntry) (o : Option (List DynEntry)) → is_some (o >>= λ r. some (e ∷ r)) ≡ is_some o
is_some-bind e none = refl
is_some-bind e (some r) = refl

set_path-is_some :
    (name path : List ℕ) (t : List DynEntry) → is_some (set_path name path t) ≡ is_known name t
set_path-is_some name path [] = refl
set_path-is_some name path (e ∷ es) = elim (Bool-cases (is_hit name e)) [
  | inl hit ↦ rw hit refl
  | inr miss ↦ rw miss (is_some-bind e (set_path name path es) ∙ set_path-is_some name path es)
]

use_slot-is_some :
    (name path : List ℕ) (t : List DynEntry) → is_some (use_slot name path t) ≡ has_free t
use_slot-is_some name path [] = refl
use_slot-is_some name path (e ∷ es) = elim (Bool-cases e.used) [
  | inl used ↦ rw used (is_some-bind _ (use_slot name path es) ∙ use_slot-is_some name path es)
  | inr free ↦ rw free refl
]

clear_slot-is_some :
    (name : List ℕ) (t : List DynEntry) → is_some (clear_slot name t) ≡ is_known name t
clear_slot-is_some name [] = refl
clear_slot-is_some name (e ∷ es) = elim (Bool-cases (is_hit name e)) [
  | inl hit ↦ rw hit refl
  | inr miss ↦ rw miss (is_some-bind e (clear_slot name es) ∙ clear_slot-is_some name es)
]

call-succeeds : (c : Call) (t : List DynEntry) → (call c t).0 ≡ succeeds c t
unfolding register_elf_command unregister_command
call-succeeds (unregisters name) t = elim (Option-cases (clear_slot name t)) [
  | inl e ↦ rw (unregister_command, e) (sym (ap is_some e) ∙ clear_slot-is_some name t)
  | inr (r, e) ↦ rw (unregister_command, e) (sym (ap is_some e) ∙ clear_slot-is_some name t)
]
call-succeeds (registers name path) t = elim (Option-cases (set_path name path t)) [
  | inr (r, e) ↦
      let known = sym (set_path-is_some name path t) ∙ ap is_some e in
      rw (register_elf_command, e) (rw known refl)
  | inl e ↦
      let unknown = sym (set_path-is_some name path t) ∙ ap is_some e in
      elim (Option-cases (use_slot name path t)) [
        | inl f ↦
            rw (register_elf_command, e, f)
              (rw (unknown) (sym (ap is_some f) ∙ use_slot-is_some name path t))
        | inr (r, f) ↦
            rw (register_elf_command, e, f)
              (rw (unknown) (sym (ap is_some f) ∙ use_slot-is_some name path t))
      ]
]

-- What a call is for the names.
record Means (c : Call) (t : List DynEntry) : Type 0 where
  table : IsTable (call c t).1
  names : (m : List ℕ) → IsText m → path_of m (call c t).1 ≡ meant m (path_of m t) (call c t).0 c

register-Means :
    (name path : List ℕ) (t : List DynEntry)
    → IsTable t
    → IsText name
    → length name < 32
    → Means (registers name path) t
register-Means name path t is text short =
    elim (register_elf_command_lem name path t is text short) [
      | inl (e, _, _) ↦ record { table = rw e is; names = λ m tm. rw e refl }
      | inr (r, e, is', maps) ↦ record { table = rw e is'; names = λ m tm. rw e (maps m tm) }
    ]

unregister-Means :
    (name : List ℕ) (t : List DynEntry) → IsTable t → IsText name → Means (unregisters name) t
unregister-Means name t is text = elim (unregister_command_lem name t is text) [
  | inl (e, _) ↦ record { table = rw e is; names = λ m tm. rw e refl }
  | inr (r, e, is', maps) ↦ record { table = rw e is'; names = λ m tm. rw e (maps m tm) }
]

head_tail : {a b : Bool} {s t : List Bool} → a ≡ b → s ≡ t → a ∷ s ≡ b ∷ t
head_tail e f = λ i. e i ∷ f i

-- After any calls of `register_elf_command` and `unregister_command` with names of at most 31 bytes, the
-- table is well-formed. A registration has failed just where the name was not known and no entry was
-- free, and a removal where the name was not known. Each name stands for what the last call for it that succeeded says, the path
-- cut to 63 bytes or nothing; without such a call it stands for what it stood for.
pub run_calls_lem :
    (cs : List Call) (t : List DynEntry)
    → IsTable t
    → AreShort cs
    → let (oks, after) = run_calls cs t in
      IsTable after
      × (oks ≡ results cs t)
      × ((m : List ℕ) → IsText m → path_of m after ≡ means m (path_of m t) oks cs)
unfolding run_calls
run_calls_lem [] t is short = (is, refl, λ m text. refl)
run_calls_lem (registers name path ∷ cs) t is (text, few, short) =
    let c = register-Means name path t is text few in
    let (last, oks, names) = run_calls_lem cs (register_elf_command name path t).1 c.table short in
    (
      last,
      head_tail (call-succeeds (registers name path) t) oks,
      λ m tm.
          names m tm
          ∙ ap (λ p. means m p (run_calls cs (register_elf_command name path t).1).0 cs)
              (c.names m tm),
    )
run_calls_lem (unregisters name ∷ cs) t is (text, short) =
    let c = unregister-Means name t is text in
    let (last, oks, names) = run_calls_lem cs (unregister_command name t).1 c.table short in
    (
      last,
      head_tail (call-succeeds (unregisters name) t) oks,
      λ m tm.
          names m tm
          ∙ ap (λ p. means m p (run_calls cs (unregister_command name t).1).0 cs) (c.names m tm),
    )
