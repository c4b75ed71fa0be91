-- ===== src/Userland/Tests.antt =====
-- The theorems on userland/ at small tables.
use zythos.Base.{str_cmp, ℕ, ◌≡◌, refl, true, false, List, [], ◌∷◌, arith}
use zythos.Base.{IsText}
use zythos.Userland.Zsh.{parse_args, Env}
use zythos.Userland.Zsh.Commands.{cmd_pkg, unknown_subcommand}
use zythos.Userland.Zsh.Parse.{word, quoted, text, AllArgs, parse_args-render}
use zythos.Userland.Zsh.Session.{Line, typed}
use zythos.Userland.Register.{DynEntry, path_of}
use zythos.Userland.Register.Table.{IsTable}
use zythos.Userland.Register.Runs.{
  Call, registers, unregisters, run_calls, AreShort, results, means, run_calls_lem,
}

abbrev ls : List ℕ
ls = b'l' ∷ b's' ∷ []

abbrev bin_ls : List ℕ
bin_ls = b'/' ∷ b'l' ∷ b's' ∷ []

ls-IsText : IsText ls
ls-IsText = ((λ e. absurd (omega (arith, e))), ((λ e. absurd (omega (arith, e))), tt))

-- One entry that is used, and one that is not.
abbrev entries : List DynEntry
entries =
    record { name = ls; path = bin_ls; used = true }
    ∷ record { name = []; path = []; used = false }
    ∷ []

entries-IsTable : IsTable entries
entries-IsTable = record {
  named = (ls-IsText, (tt, tt));
  distinct = ((λ _. refl), ((λ _. refl), tt));
}

-- `sh` is registered, and `ls` is removed twice.
abbrev three_calls : List Call
three_calls = registers (b's' ∷ b'h' ∷ []) bin_ls ∷ unregisters ls ∷ unregisters ls ∷ []

three_calls-AreShort : AreShort three_calls
three_calls-AreShort = (
  ((λ e. absurd (omega (arith, e))), ((λ e. absurd (omega (arith, e))), tt)),
  omega arith,
  (ls-IsText, (ls-IsText, tt)),
)

run_calls_lem_example :
    let (oks, after) = run_calls three_calls entries in
    IsTable after
    × (oks ≡ results three_calls entries)
    × ((m : List ℕ) → IsText m → path_of m after ≡ means m (path_of m entries) oks three_calls)
run_calls_lem_example = run_calls_lem three_calls entries entries-IsTable three_calls-AreShort

-- echo "a b"
abbrev echo_line : Line
echo_line = record {
  command = word b'e' (b'c' ∷ b'h' ∷ b'o' ∷ []) b' ';
  args = quoted (b'a' ∷ b' ' ∷ b'b' ∷ []) 10 ∷ [];
}

echo-AllArgs : AllArgs (echo_line.command ∷ echo_line.args)
echo-AllArgs =
    (((refl, (refl, (refl, (refl, tt)))), refl, refl), (((refl, (refl, (refl, tt))), refl), tt))

parse_args-render_example :
    parse_args (typed echo_line) ≡ text echo_line.command ∷ (b'a' ∷ b' ' ∷ b'b' ∷ []) ∷ []
parse_args-render_example = parse_args-render (echo_line.command ∷ echo_line.args) echo-AllArgs

-- "A=1", which is in the environment, and "A=2"
abbrev a_is : ℕ → List ℕ
a_is n = b'A' ∷ b'=' ∷ n ∷ []

abbrev env : Env
env = record { g_env_slots = a_is b'1' ∷ []; g_env_pool_used = 4 }

-- `pkg install` of a path without a name is no subcommand.
install_unnamed :
    cmd_pkg (
      (b'p' ∷ b'k' ∷ b'g' ∷ [])
      ∷ (b'i' ∷ b'n' ∷ b's' ∷ b't' ∷ b'a' ∷ b'l' ∷ b'l' ∷ [])
      ∷ bin_ls
      ∷ [])
    ≡ unknown_subcommand
unfolding cmd_pkg str_cmp
install_unnamed = refl
