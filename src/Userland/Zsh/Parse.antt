-- ===== src/Userland/Zsh/Parse.antt =====
-- `parse_args` of userland/zsh.c on a line of words and quoted arguments.
use zythos.Base.{
  ℕ, zero, suc, ◌≡◌, refl, ap, ◌∙◌, Bool, true, false, some, List, [], ◌∷◌, ◌++◌, map, take,
}
use zythos.Userland.Zsh.{is_blank, is_quote, skip_blanks, until, token_at, parse_from, parse_args}

-- An argument with the blank behind it: a word, by its first byte and the rest of it, or any bytes
-- between quotes.
pub data Arg : Type 0 where
  word : ℕ → List ℕ → ℕ → Arg
  quoted : List ℕ → ℕ → Arg

abbrev pub text : Arg → List ℕ
text (word c w sep) = c ∷ w
text (quoted q sep) = q

-- The line as it is typed.
abbrev pub render : List Arg → List ℕ
render [] = []
render (word c w sep ∷ args) = c ∷ (w ++ sep ∷ render args)
render (quoted q sep ∷ args) = b'"' ∷ (q ++ b'"' ∷ sep ∷ render args)

-- No byte of the string stops.
abbrev pub Without : (ℕ → Bool) → List ℕ → Type 0
Without stop [] = Unit
Without stop (c ∷ s) = (stop c ≡ false) × Without stop s

abbrev pub IsArg : Arg → Type 0
IsArg (word c w sep) = Without is_blank (c ∷ w) × (is_quote c ≡ false) × (is_blank sep ≡ true)
IsArg (quoted q sep) = Without is_quote q × (is_blank sep ≡ true)

abbrev pub AllArgs : List Arg → Type 0
AllArgs [] = Unit
AllArgs (a ∷ args) = IsArg a × AllArgs args

until_stop :
    (stop : ℕ → Bool) (s : List ℕ) (c : ℕ) (rest : List ℕ)
    → Without stop s
    → stop c ≡ true
    → until stop (s ++ c ∷ rest) ≡ (s, rest)
until_stop stop [] c rest free stops = rw stops refl
until_stop stop (x ∷ s) c rest (goes, free) stops =
    rw (goes, until_stop stop s c rest free stops) refl

-- A round of the loop.
parse_from-next :
    (n : ℕ) (line token rest : List ℕ)
    → token_at (skip_blanks line) ≡ some (token, rest)
    → parse_from (suc n) line ≡ token ∷ parse_from n rest
parse_from-next n line token rest found = rw (parse_from, found) refl

parse_from-same :
    (n : ℕ) (line other : List ℕ)
    → skip_blanks line ≡ skip_blanks other
    → parse_from n line ≡ parse_from n other
parse_from-same zero line other same = refl
parse_from-same (suc n) line other same = rw (parse_from, same) refl

pub parse_from-render :
    (n : ℕ) (args : List Arg) → AllArgs args → parse_from n (render args) ≡ take n (map text args)
parse_from-render zero args all = refl
parse_from-render (suc n) [] all = refl
parse_from-render (suc n) (word c w sep ∷ args) ((free, plain, blank), all) =
    parse_from-next n (render (word c w sep ∷ args)) (c ∷ w) (render args)
      (rw (free.0, plain, free.0, until_stop is_blank w sep (render args) free.1 blank) refl)
    ∙ ap (λ ts. (c ∷ w) ∷ ts) (parse_from-render n args all)
parse_from-render (suc n) (quoted q sep ∷ args) ((free, blank), all) =
    parse_from-next n (render (quoted q sep ∷ args)) q (sep ∷ render args)
      (rw (until_stop is_quote q b'"' (sep ∷ render args) free refl) refl)
    ∙ ap (λ ts. q ∷ ts)
        (parse_from-same n (sep ∷ render args) (render args) (rw blank refl)
          ∙ parse_from-render n args all)

-- `parse_args` gives back the arguments of a line that is made of words, which have no blank and do not
-- start with a quote, and of bytes between quotes, which have no quote, each followed by a blank. If
-- there are more than 15, it gives the first 15.
pub parse_args-render :
    (args : List Arg) → AllArgs args → parse_args (render args) ≡ take 15 (map text args)
unfolding parse_args
parse_args-render args all = parse_from-render 15 args all
