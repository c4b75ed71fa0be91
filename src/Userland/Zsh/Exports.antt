-- ===== src/Userland/Zsh/Exports.antt =====
-- The environment of userland/zsh.c.
use mathlib.Core.List.{append_assoc}
use zythos.Base.{
  ℕ, ◌+◌, ◌≤◌, ◌<◌, ◌≡◌, refl, sym, ◌⊎◌, inl, inr, true, false, List, [], ◌∷◌, ◌++◌, arith, ltb,
  leb, Bool-cases, length, length-append,
}
use zythos.Userland.Zsh.{Env, env_set, print_slots, env_print_all, cmd_export, find_char}

-- What the strings take in the pool.
abbrev pub pool : List (List ℕ) → ℕ
pool [] = 0
pool (e ∷ es) = length e + 1 + pool es

-- The slots and the pool are within their arrays, and the pool holds the strings.
pub record IsEnv (s : Env) : Type 0 where
  pub slots : length s.g_env_slots ≤ 31
  pub used : s.g_env_pool_used ≡ pool s.g_env_slots
  pub fits : s.g_env_pool_used ≤ 2048

pool-append : (es : List (List ℕ)) (e : List ℕ) → pool (es ++ e ∷ []) ≡ pool es + length e + 1
pool-append [] e = omega arith
pool-append (x ∷ es) e = rw (pool-append es e) (omega arith)

print_slots-append :
    (es : List (List ℕ)) (e : List ℕ)
    → print_slots (es ++ e ∷ []) ≡ print_slots es ++ (e ++ 10 ∷ [])
print_slots-append [] e = refl
print_slots-append (x ∷ es) e =
    rw (print_slots-append es e) (sym (append_assoc x (10 ∷ print_slots es) (e ++ 10 ∷ [])))

-- `cmd_export` of an entry with a `=` fails, and changes nothing, just if the slots are all used or the
-- entry with its 0 does not fit the rest of the pool. Otherwise both stay within their arrays, and
-- `env` prints what it printed before and then the entry, also when an entry for the same variable was
-- there.
pub cmd_export_lem :
    (command entry : List ℕ) (args : List (List ℕ)) (s : Env)
    → IsEnv s
    → find_char entry b'=' ≡ true
    → let run = cmd_export (command ∷ entry ∷ args) s in
      ((run ≡ (false, s))
        × ((length s.g_env_slots ≡ 31) ⊎ (2048 < s.g_env_pool_used + length entry + 1)))
      ⊎ ((after : Env) × (run ≡ (true, after))
          × IsEnv after
          × (env_print_all after ≡ env_print_all s ++ (entry ++ 10 ∷ [])))
unfolding cmd_export env_set env_print_all
cmd_export_lem command entry args s is equals = elim (Bool-cases (leb 31 (length s.g_env_slots))) [
  | inl full ↦ inl (rw (cmd_export, equals, full) refl, inl (ground (arith, full, is.slots)))
  | inr more ↦ elim (Bool-cases (ltb 2048 (s.g_env_pool_used + length entry + 1))) [
    | inl large ↦ inl (rw (cmd_export, equals, more, large) refl, inr (ground (arith, large)))
    | inr small ↦ inr (
      record {
        g_env_slots = s.g_env_slots ++ entry ∷ [];
        g_env_pool_used = s.g_env_pool_used + length entry + 1;
      },
      rw (cmd_export, equals, more, small) refl,
      record {
        slots = ground (arith, more, length-append s.g_env_slots (entry ∷ []));
        used = rw (pool-append s.g_env_slots entry, is.used) refl;
        fits = ground (arith, small);
      },
      print_slots-append s.g_env_slots entry,
    )
  ]
]
