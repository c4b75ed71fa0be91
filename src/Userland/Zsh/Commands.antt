-- ===== src/Userland/Zsh/Commands.antt =====
-- userland/zsh.c: the commands `clear`, `elf` and `pkg`.
use zythos.Base.{
  ℕ, ◌-◌, ◌^◌, ◌&&◌, List, [], ◌∷◌, ◌++◌, ltb, leb, ◌==◌, if◌then◌else◌, length, get_or, drop,
}
use zythos.Userland.Pkg.{c_string, joined, entry_name}
use zythos.Userland.Zsh.{streq}

pub cmd_clear : List ℕ
cmd_clear = 27 ∷ b'[' ∷ b'H' ∷ 27 ∷ b'[' ∷ b'2' ∷ b'J' ∷ []

-- What `elf` does: it prints how it is called, it executes a path, or it executes and prints that this
-- has failed. With the result of the command.
pub data ElfOutcome : Type 0 where
  elf_usage : ElfOutcome
  elf_done : ElfOutcome
  elf_failed : List ℕ → ElfOutcome

module _ {S : Type 0} (sys_exec_call : List ℕ → S → ℕ × S) where
  -- A `long` of 32 bits; 2^32 - 1 is -1.
  pub cmd_elf : List (List ℕ) → S → ElfOutcome × ℕ × S
  cmd_elf argv s =
      let path = get_or argv 1 [] in
      let (ret, after) = sys_exec_call path s in
      if ltb (length argv) 2
      then (elf_usage, 2 ^ 32 - 1, s)
      else if ret == 0
      then (elf_done, ret, after)
      else (elf_failed path, ret, after)

-- The call of userland/pkg.c that `pkg` makes, or the line that it prints.
pub data PkgRequest : Type 0 where
  pkg_usage : PkgRequest
  installs : List ℕ → List ℕ → PkgRequest
  removes : List ℕ → PkgRequest
  lists : PkgRequest
  unknown_subcommand : PkgRequest

unfoldable pub cmd_pkg : List (List ℕ) → PkgRequest
cmd_pkg argv =
    let argc = length argv in
    let sub = get_or argv 1 [] in
    let install = b'i' ∷ b'n' ∷ b's' ∷ b't' ∷ b'a' ∷ b'l' ∷ b'l' ∷ [] in
    let remove = b'r' ∷ b'e' ∷ b'm' ∷ b'o' ∷ b'v' ∷ b'e' ∷ [] in
    if ltb argc 2
    then pkg_usage
    else if streq sub install && leb 4 argc
    then installs (get_or argv 2 []) (get_or argv 3 [])
    else if streq sub remove && leb 3 argc
    then removes (get_or argv 2 [])
    else if streq sub (b'l' ∷ b'i' ∷ b's' ∷ b't' ∷ [])
    then lists
    else unknown_subcommand

-- What `pkg list` prints of the entries that `pkg_list` gives.
pub list_text : List (List ℕ) → List ℕ
list_text [] = []
list_text (e ∷ es) =
    entry_name e es
    ++ (32 ∷ 32 ∷ [])
    ++ c_string (drop 32 e ++ joined es)
    ++ (10 ∷ [])
    ++ list_text es
