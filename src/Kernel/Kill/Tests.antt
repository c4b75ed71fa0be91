-- ===== src/Kernel/Kill/Tests.antt =====
-- Runs of kernel/kill.c where the tasks are 1, 2 and 3.
use zythos.Base.{ℕ, ◌-◌, ◌^◌, ◌≡◌, refl, List, [], ◌∷◌, ltb, if◌then◌else◌}
use zythos.Kernel.Kill.{kill_atol, killed, cmd_kill}

abbrev sys_kill : ℕ → List ℕ → ℕ × List ℕ
sys_kill n asked = (if ltb n 4 then 0 else 2 ^ 32 - 1, n ∷ asked)

kill_three : cmd_kill sys_kill ([] ∷ (b'3' ∷ []) ∷ []) [] ≡ (killed, 3 ∷ [])
unfolding cmd_kill kill_atol
kill_three = refl

-- 2^32 + 1 is the number of the first task.
kill_wraps :
    kill_atol (b'4' ∷ b'2' ∷ b'9' ∷ b'4' ∷ b'9' ∷ b'6' ∷ b'7' ∷ b'2' ∷ b'9' ∷ b'7' ∷ []) ≡ 1
unfolding kill_atol
kill_wraps = refl

-- What stands behind the digits is left out.
kill_prefix : kill_atol (b'2' ∷ b'x' ∷ []) ≡ 2
unfolding kill_atol
kill_prefix = refl
