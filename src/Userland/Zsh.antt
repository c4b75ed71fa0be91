-- ===== src/Userland/Zsh.antt =====
-- userland/zsh.c: the shell. A string is the list of its bytes, the commands are a table of names with
-- numbers for their functions, and what is printed and executed is returned.
pub mod Commands
pub mod Parse
pub mod Exports
pub mod Session
use zythos.Base.{
  ℕ, zero, suc, ◌+◌, ◌-◌, ◌*◌, ◌/◌, ◌%◌, ◌^◌, ◌≤◌, ◌<◌, ◌≡◌, refl, sym, ap, ◌∙◌, ◌≢◌, ◌↔◌, ◌⊎◌, inl,
  inr, Bool, true, false, not, ◌&&◌, ◌||◌, Option, none, some, List, [], ◌∷◌, ◌++◌, map, arith, ltb,
  leb, ◌==◌, if◌then◌else◌, add32, ◌>>=◌, Bool-cases, Option-cases, ==_iff, ==-refl, length,
  get_elem?, get_or, set, take, drop, replicate, length-append, length-set, get_or-set_self,
  get_or-set_ne,
}
use zythos.Base.{str_cmp, is_zero}
use zythos.Userland.Register.{CmdEntry}

abbrev pub max_args : ℕ
max_args = 16

abbrev pub max_env : ℕ
max_env = 32

abbrev pub env_pool_sz : ℕ
env_pool_sz = 2048

-- The result is 0.
abbrev pub streq : List ℕ → List ℕ → Bool
streq s1 s2 = is_zero (str_cmp s1 s2)

-- Whether the result is not null.
abbrev pub find_char : List ℕ → ℕ → Bool
find_char [] c = false
find_char (x ∷ s) c = if x == c then true else find_char s c

abbrev pub starts_with : List ℕ → List ℕ → Bool
starts_with s [] = true
starts_with [] (p ∷ prefix) = false
starts_with (x ∷ s) (p ∷ prefix) = if x == p then starts_with s prefix else false

abbrev pub is_blank : ℕ → Bool
is_blank c = (c == b' ') || (c == 9) || (c == 10) || (c == 13)

abbrev pub is_quote : ℕ → Bool
is_quote c = c == b'"'

abbrev pub skip_blanks : List ℕ → List ℕ
skip_blanks [] = []
skip_blanks (c ∷ s) = if is_blank c then skip_blanks s else c ∷ s

-- The string up to the first byte that stops, and the string behind that byte.
abbrev pub until : (ℕ → Bool) → List ℕ → List ℕ × List ℕ
until stop [] = ([], [])
until stop (c ∷ s) = let rest = until stop s in if stop c then ([], s) else (c ∷ rest.0, rest.1)

-- From the first byte that is no blank on.
abbrev pub token_at : List ℕ → Option (List ℕ × List ℕ)
token_at [] = none
token_at (c ∷ s) = if is_quote c then some (until is_quote s) else some (until is_blank (c ∷ s))

-- The rounds of the loop of `parse_args` with room for so many tokens.
abbrev pub parse_from : ℕ → List ℕ → List (List ℕ)
parse_from zero line = []
parse_from (suc n) line = elim (token_at (skip_blanks line)) [
  | none ↦ []
  | some (token, rest) ↦ token ∷ parse_from n rest
]

-- The arguments; their number is the result.
pub parse_args : List ℕ → List (List ℕ)
parse_args line = parse_from (max_args - 1) line

-- `g_env_slots` up to `g_env_count`, and `g_env_pool_used`.
pub record Env : Type 0 where
  pub g_env_slots : List (List ℕ)
  pub g_env_pool_used : ℕ

-- `true` for 0.
pub env_set : List ℕ → Env → Bool × Env
env_set entry s =
    if leb (max_env - 1) (length s.g_env_slots)
    then (false, s)
    else if ltb env_pool_sz (s.g_env_pool_used + length entry + 1)
    then (false, s)
    else (
      true,
      record {
        g_env_slots = s.g_env_slots ++ entry ∷ [];
        g_env_pool_used = s.g_env_pool_used + length entry + 1;
      },
    )

abbrev pub print_slots : List (List ℕ) → List ℕ
print_slots [] = []
print_slots (e ∷ es) = e ++ 10 ∷ print_slots es

pub env_print_all : Env → List ℕ
env_print_all s = print_slots s.g_env_slots

-- The loop of `cmd_echo`.
abbrev pub echo_from : List (List ℕ) → List ℕ
echo_from [] = []
echo_from (a ∷ []) = a
echo_from (a ∷ b ∷ args) = a ++ b' ' ∷ echo_from (b ∷ args)

pub cmd_echo : List (List ℕ) → List ℕ
cmd_echo [] = 10 ∷ []
cmd_echo (command ∷ args) = echo_from args ++ 10 ∷ []

-- `true` for 0.
pub cmd_export : List (List ℕ) → Env → Bool × Env
cmd_export [] s = (false, s)
cmd_export (command ∷ []) s = (false, s)
cmd_export (command ∷ entry ∷ args) s =
    if not (find_char entry b'=') then (false, s) else env_set entry s

-- What `dispatch` does: it calls a function, executes a path, or finds nothing.
pub data Action : Type 0 where
  calls_fn : ℕ → List (List ℕ) → Action
  executes : List ℕ → Action
  not_found : List ℕ → Action

-- The loop over the table of the linker.
abbrev pub find_command : List ℕ → List CmdEntry → Option ℕ
find_command name [] = none
find_command name (c ∷ cs) = if streq c.name name then some c.fn else find_command name cs

module _ (cmdtable : List CmdEntry) (dyn_lookup : List ℕ → ℕ → Option (List ℕ)) where
  pub dispatch : List ℕ → List (List ℕ) → Action
  dispatch args0 args = elim (find_command args0 cmdtable) [
    | some fn ↦ calls_fn fn args
    | none ↦ elim (dyn_lookup args0 64) [
      | some pkg_path ↦ executes pkg_path
      | none ↦
          if starts_with args0 (b'.' ∷ b'/' ∷ []) || starts_with args0 (b'/' ∷ [])
          then executes args0
          else not_found args0
    ]
  ]

  -- The loop of `main` over what `read` gives, which is `[]` where the result is at most 0.
  pub zsh_main : List (List ℕ) → List Action
  zsh_main [] = []
  zsh_main ([] ∷ inputs) = []
  zsh_main ((c ∷ input) ∷ inputs) = elim (parse_args (c ∷ input)) [
    | [] ↦ zsh_main inputs
    | args0 ∷ args ↦
        if streq args0 (b'e' ∷ b'x' ∷ b'i' ∷ b't' ∷ [])
        then []
        else dispatch args0 (args0 ∷ args) ∷ zsh_main inputs
  ]
