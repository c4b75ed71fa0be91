-- ===== src/Kernel/KeyboardIrq/Read.antt =====
-- The wait of `sys_read` of kernel/syscall.c for a character.
use zythos.Base.{
  ℕ, zero, suc, ◌≤◌, ◌<◌, ◌≡◌, refl, ◌∙◌, true, none, some, List, [], ◌∷◌, arith, ltb, ◌>>=◌,
  length, drop,
}
use zythos.Kernel.KbdBuffer.Fifo.{Holds, pop-Holds, pop-Holds-empty}
use zythos.Kernel.KbdBuffer.{KbdBuffer, kbd_buffer_pop}
use zythos.Kernel.KeyboardIrq.{Machine, irq_all, wait_loop, sys_read}

-- The machine after the first `n` yields.
abbrev pub yielded : ℕ → List (List ℕ) → Machine → Machine
yielded zero yields m = m
yielded (suc n) [] m = m
yielded (suc n) (arrived ∷ yields) m = yielded n yields (irq_all arrived m)

found :
    (yields : List (List ℕ)) (m : Machine) (c : ℕ) (b : KbdBuffer)
    → kbd_buffer_pop m.buffer ≡ some (c, b)
    → wait_loop yields m ≡ some (c, yields, record m { buffer = b })
unfolding wait_loop
found [] m c b run = rw (run, ◌>>=◌) refl
found (arrived ∷ yields) m c b run = rw (wait_loop, run) refl

missed :
    (arrived : List ℕ) (yields : List (List ℕ)) (m : Machine)
    → kbd_buffer_pop m.buffer ≡ none
    → wait_loop (arrived ∷ yields) m ≡ wait_loop yields (irq_all arrived m)
unfolding wait_loop
missed arrived yields m run = rw (wait_loop, run) refl

wait_loop_lem :
    (n : ℕ) (yields : List (List ℕ)) (m : Machine) (c : ℕ) (cs : List ℕ)
    → n ≤ length yields
    → ((j : ℕ) → j < n → Holds (yielded j yields m).buffer [])
    → Holds (yielded n yields m).buffer (c ∷ cs)
    → (b : KbdBuffer) × (wait_loop yields m
        ≡ some (c, drop n yields, record (yielded n yields m) { buffer = b }))
      × Holds b cs
wait_loop_lem zero yields m c cs le quiet is =
    let (b, run, after) = pop-Holds m.buffer c cs is in (b, found yields m c b run, after)
wait_loop_lem (suc n) [] m c cs le quiet is = absurd (omega arith)
wait_loop_lem (suc n) (arrived ∷ yields) m c cs le quiet is =
    let (b, run, after) =
      wait_loop_lem n yields (irq_all arrived m) c cs (omega arith)
        (λ j lt. quiet (suc j) (omega arith)) is in
    (b, missed arrived yields m (pop-Holds-empty m.buffer (quiet 0 (omega arith))) ∙ run, after)

-- If the buffer is empty up to the `n`th yield and then holds characters, `sys_read` of at least one
-- byte yields `n` times and returns just the oldest character; the others stay in the buffer.
pub sys_read_lem :
    (count n : ℕ) (yields : List (List ℕ)) (m : Machine) (c : ℕ) (cs : List ℕ)
    → 0 < count
    → n ≤ length yields
    → ((j : ℕ) → j < n → Holds (yielded j yields m).buffer [])
    → Holds (yielded n yields m).buffer (c ∷ cs)
    → (b : KbdBuffer) × (sys_read count yields m
        ≡ some (c ∷ [], drop n yields, record (yielded n yields m) { buffer = b }))
      × Holds b cs
unfolding sys_read
sys_read_lem count n yields m c cs pos le quiet is =
    let (b, run, after) = wait_loop_lem n yields m c cs le quiet is in
    let asked : ltb 0 count ≡ true = ground arith in (b, rw (asked, run, ◌>>=◌) refl, after)
