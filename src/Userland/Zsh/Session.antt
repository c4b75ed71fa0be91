-- ===== src/Userland/Zsh/Session.antt =====
-- Lines that are typed into the shell of userland/zsh.c.
use zythos.Base.{
  ℕ, ◌<◌, ◌≡◌, refl, ap, ◌∙◌, false, Option, List, [], ◌∷◌, ◌++◌, map, arith, length, take,
}
use zythos.Userland.Register.{CmdEntry}
use zythos.Userland.Zsh.{streq, parse_args, Action, dispatch, zsh_main}
use zythos.Userland.Zsh.Parse.{Arg, word, quoted, text, render, AllArgs, parse_args-render}

-- A line: its command, and the arguments behind it.
pub record Line : Type 0 where
  pub command : Arg
  pub args : List Arg

abbrev pub typed : Line → List ℕ
typed l = render (l.command ∷ l.args)

-- A line of arguments whose command is not "exit".
pub record IsLine (l : Line) : Type 0 where
  pub all : AllArgs (l.command ∷ l.args)
  pub stays : streq (text l.command) (b'e' ∷ b'x' ∷ b'i' ∷ b't' ∷ []) ≡ false

abbrev pub AllLines : List Line → Type 0
AllLines [] = Unit
AllLines (l ∷ ls) = IsLine l × AllLines ls

render-length : (a : Arg) (args : List Arg) → 0 < length (render (a ∷ args))
render-length (word c w sep) args = omega arith
render-length (quoted q sep) args = omega arith

module _ (cmdtable : List CmdEntry) (dyn_lookup : List ℕ → ℕ → Option (List ℕ)) where
  -- What the shell does for a line.
  abbrev pub run_line : Line → Action
  run_line l =
      dispatch cmdtable dyn_lookup (text l.command) (take 15 (map text (l.command ∷ l.args)))

  one_line :
      (input : List ℕ) (inputs : List (List ℕ)) (args0 : List ℕ) (args : List (List ℕ))
      → 0 < length input
      → parse_args input ≡ args0 ∷ args
      → streq args0 (b'e' ∷ b'x' ∷ b'i' ∷ b't' ∷ []) ≡ false
      → zsh_main cmdtable dyn_lookup (input ∷ inputs)
        ≡ dispatch cmdtable dyn_lookup args0 (args0 ∷ args) ∷ zsh_main cmdtable dyn_lookup inputs
  unfolding zsh_main
  one_line [] inputs args0 args more parsed stays = absurd (omega arith)
  one_line (c ∷ input) inputs args0 args more parsed stays = rw (zsh_main, parsed, stays) refl

  -- For lines of words and quoted arguments whose commands are not "exit", the shell dispatches each
  -- line in turn, by its first argument and with at most its first 15 arguments, and then goes on with
  -- the input behind them.
  pub zsh_main-lines :
      (lines : List Line) (inputs : List (List ℕ))
      → AllLines lines
      → zsh_main cmdtable dyn_lookup (map typed lines ++ inputs)
        ≡ map run_line lines ++ zsh_main cmdtable dyn_lookup inputs
  zsh_main-lines [] inputs all = refl
  zsh_main-lines (l ∷ lines) inputs (is, all) =
      one_line (typed l) (map typed lines ++ inputs) (text l.command) (take 14 (map text l.args))
        (render-length l.command l.args) (parse_args-render (l.command ∷ l.args) is.all) is.stays
      ∙ ap (λ actions. run_line l ∷ actions) (zsh_main-lines lines inputs all)
