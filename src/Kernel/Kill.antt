-- ===== src/Kernel/Kill.antt =====
-- kernel/kill.c: the command `kill`. A `long` has 32 bits, and one of 2^31 or more is negative.
pub mod Numbers
mod Tests
use zythos.Base.{
  ℕ, zero, suc, ◌+◌, ◌-◌, ◌*◌, ◌/◌, ◌%◌, ◌^◌, ◌≤◌, ◌<◌, ◌≡◌, refl, sym, ap, ◌∙◌, ◌≢◌, ◌↔◌, ◌⊎◌, inl,
  inr, Bool, true, false, not, ◌&&◌, ◌||◌, Option, none, some, List, [], ◌∷◌, ◌++◌, map, arith, ltb,
  leb, ◌==◌, if◌then◌else◌, add32, ◌>>=◌, Bool-cases, Option-cases, ==_iff, ==-refl, length,
  get_elem?, get_or, set, take, drop, replicate, length-append, length-set, get_or-set_self,
  get_or-set_ne,
}

-- The loop of `kill_atol`.
abbrev pub atol_digits : ℕ → List ℕ → ℕ
atol_digits result [] = result
atol_digits result (c ∷ s) =
    let rest = atol_digits ((result * 10 + (c - b'0')) % 2 ^ 32) s in
    if leb b'0' c && leb c b'9' then rest else result

-- `-result`
abbrev pub negate : ℕ → ℕ
negate n = (2 ^ 32 - n) % 2 ^ 32

pub kill_atol : List ℕ → ℕ
kill_atol [] = 0
kill_atol (c ∷ s) = if c == b'-' then negate (atol_digits 0 s) else atol_digits 0 (c ∷ s)

abbrev pub is_negative : ℕ → Bool
is_negative n = leb (2 ^ 31) n

-- The lines that are printed, and the call that succeeds.
pub data KillOutcome : Type 0 where
  usage : KillOutcome
  invalid_id : KillOutcome
  no_such_task : KillOutcome
  killed : KillOutcome

module _ {S : Type 0} (sys_kill : ℕ → S → ℕ × S) where
  -- The exit code is 0 for `killed` and 1 otherwise.
  pub cmd_kill : List (List ℕ) → S → KillOutcome × S
  cmd_kill argv s =
      let task_id = kill_atol (get_or argv 1 []) in
      let (ret, after) = sys_kill task_id s in
      if ltb (length argv) 2
      then (usage, s)
      else if (task_id == 0) || is_negative task_id
      then (invalid_id, s)
      else if is_negative ret
      then (no_such_task, after)
      else (killed, after)
