-- ===== src/Kernel/Kill/Numbers.antt =====
-- Numbers as arguments of the command in kernel/kill.c.
use Prim.Native.Nat.pow
use zythos.Base.{
  ℕ, zero, suc, ◌+◌, ◌-◌, ◌*◌, ◌/◌, ◌%◌, ◌^◌, ◌<◌, ◌≡◌, refl, ◌∙◌, inl, inr, Bool, true, false,
  ◌&&◌, List, [], ◌∷◌, ◌++◌, arith, ltb, leb, ◌==◌, if◌then◌else◌, Bool-cases,
}
use zythos.Kernel.Kill.{
  atol_digits, kill_atol, is_negative, invalid_id, no_such_task, killed, cmd_kill,
}

-- The decimal digits of a number below 10 ^ k.
pub decimal : ℕ → ℕ → List ℕ
decimal zero n = []
decimal (suc k) n =
    let front = decimal k (n / 10) in
    if ltb n 10 then (b'0' + n) ∷ [] else front ++ (b'0' + n % 10) ∷ []

abbrev all_digits : List ℕ → Bool
all_digits [] = true
all_digits (c ∷ s) = leb b'0' c && leb c b'9' && all_digits s

atol_digits-append :
    (s : List ℕ) (r d : ℕ)
    → all_digits s ≡ true
    → d < 10
    → atol_digits r (s ++ (b'0' + d) ∷ []) ≡ (atol_digits r s * 10 + d) % 2 ^ 32
atol_digits-append [] r d ok lt =
    let low : leb b'0' (b'0' + d) ≡ true = ground arith in
    let high : leb (b'0' + d) b'9' ≡ true = ground (arith, lt) in
    let back : b'0' + d - b'0' ≡ d = omega arith in rw (low, high, back) refl
atol_digits-append (c ∷ s) r d ok lt =
    let low : leb b'0' c ≡ true = ground (arith, ok) in
    let high : leb c b'9' ≡ true = ground (arith, ok) in
    let rest : all_digits s ≡ true = ground (arith, ok) in
    rw (low, high) (atol_digits-append s _ d rest lt)

all_digits-append :
    (s : List ℕ) (d : ℕ) → all_digits s ≡ true → d < 10 → all_digits (s ++ (b'0' + d) ∷ []) ≡ true
all_digits-append [] d ok lt = ground (arith, lt)
all_digits-append (c ∷ s) d ok lt =
    let rest = all_digits-append s d (ground (arith, ok)) lt in ground (arith, ok, rest)

decimal-digits : (k n : ℕ) → all_digits (decimal k n) ≡ true
unfolding decimal
decimal-digits zero n = refl
decimal-digits (suc k) n = elim (Bool-cases (ltb n 10)) [
  | inl it ↦ rw it (ground (arith, it))
  | inr it ↦
      rw it
        (all_digits-append (decimal k (n / 10)) (n % 10) (decimal-digits k (n / 10)) (omega arith))
]

less_tenth : (k n : ℕ) → n < 10 ^ suc k → n / 10 < 10 ^ k
less_tenth k n lt =
    let power : 10 ^ suc k ≡ 10 ^ k * 10 = λ i. pow.suc 10 k i in omega (arith, lt, power)

atol-decimal : (k n : ℕ) → n < 10 ^ k → n < 2 ^ 32 → atol_digits 0 (decimal k n) ≡ n
unfolding decimal
atol-decimal zero n lt fits = let it : n < 1 = lt in omega (arith, it)
atol-decimal (suc k) n lt fits = elim (Bool-cases (ltb n 10)) [
  | inl it ↦
      let digit : n < 10 = ground (arith, it) in
      rw it (atol_digits-append [] 0 n refl digit ∙ omega (arith, fits))
  | inr it ↦
      let rest = atol-decimal k (n / 10) (less_tenth k n lt) (omega (arith, fits)) in
      rw it (
        atol_digits-append (decimal k (n / 10)) 0 (n % 10) (decimal-digits k (n / 10)) (omega arith)
        ∙ rw rest (omega (arith, fits)))
]

kill_atol-digits : (s : List ℕ) → all_digits s ≡ true → kill_atol s ≡ atol_digits 0 s
unfolding kill_atol
kill_atol-digits [] ok = refl
kill_atol-digits (c ∷ s) ok = let digit : (c == b'-') ≡ false = ground (arith, ok) in rw digit refl

cmd_kill-number :
    {S : Type 0} (sys_kill : ℕ → S → ℕ × S) (name arg : List ℕ) (n : ℕ) (s : S)
    → n < 2 ^ 31
    → kill_atol arg ≡ n
    → let (ret, after) = sys_kill n s in
      cmd_kill sys_kill (name ∷ arg ∷ []) s ≡ (
        if n == 0
        then (invalid_id, s)
        else if is_negative ret
        then (no_such_task, after)
        else (killed, after))
unfolding cmd_kill
cmd_kill-number sys_kill name arg n s lt value =
    let positive : is_negative n ≡ false = ground (arith, lt) in
    elim (Bool-cases (n == 0)) [
      | inl it ↦ rw (cmd_kill, value, it) refl
      | inr it ↦ rw (cmd_kill, value, it, positive) refl
    ]

-- For a number below 2^31, `kill` followed by the number in decimal asks for the end of the
-- task of that number unless it is 0, and says whether there was one; 0 is refused.
pub cmd_kill-decimal :
    {S : Type 0} (sys_kill : ℕ → S → ℕ × S) (name : List ℕ) (n : ℕ) (s : S)
    → n < 2 ^ 31
    → let (ret, after) = sys_kill n s in
      cmd_kill sys_kill (name ∷ decimal 10 n ∷ []) s ≡ (
        if n == 0
        then (invalid_id, s)
        else if is_negative ret
        then (no_such_task, after)
        else (killed, after))
cmd_kill-decimal sys_kill name n s lt =
    let bounded : n < 10 ^ 10 = omega (arith, lt) in
    let value =
      kill_atol-digits (decimal 10 n) (decimal-digits 10 n)
      ∙ atol-decimal 10 n bounded (omega (arith, lt)) in
    cmd_kill-number sys_kill name (decimal 10 n) n s lt value
