-- ===== src/Kernel/KbdBuffer/Fifo.antt =====
-- kernel/kbd_buffer.c against a queue.
use zythos.Base.{
  ℕ, zero, suc, ◌+◌, ◌-◌, ◌%◌, ◌≤◌, ◌<◌, ◌≡◌, refl, sym, ap, ◌∙◌, inl, inr, true, false, Option,
  none, some, List, [], ◌∷◌, ◌++◌, arith, ltb, ◌==◌, if◌then◌else◌, add32, Bool-cases, length,
  get_or, set, drop, length-append, length-set, get_or-set_self, get_or-set_ne,
}
use mathlib.Core.Path.{subst, ap₂}
use zythos.Kernel.KbdBuffer.{KbdBuffer, empty, kbd_buffer_push, kbd_buffer_pop}

-- `n` characters from index `i` on, round the end.
abbrev pub segment : List ℕ → ℕ → ℕ → List ℕ
segment buf i zero = []
segment buf i (suc n) = get_or buf i 0 ∷ segment buf ((i + 1) % 128) n

-- The ring holds the characters `cs`, the oldest first.
pub record Holds (s : KbdBuffer) (cs : List ℕ) : Type 0 where
  pub size : length s.g_buf ≡ 128
  pub tail : s.g_tail < 128
  pub room : length cs < 128
  pub head : s.g_head ≡ (s.g_tail + length cs) % 128
  pub content : segment s.g_buf s.g_tail (length cs) ≡ cs

pub empty-Holds : Holds empty []
empty-Holds = record {
  size = refl;
  tail = omega arith;
  room = omega arith;
  head = refl;
  content = refl;
}

segment-set :
    (buf : List ℕ) (i j n v : ℕ)
    → i < 128
    → j < 128
    → n ≤ (j + 128 - i) % 128
    → segment (set buf j v) i n ≡ segment buf i n
segment-set buf i j zero v lt lt' le = refl
segment-set buf i j (suc n) v lt lt' le =
    rw
      (
        get_or-set_ne buf {i = j} {j = i} v 0 (omega arith),
        segment-set buf ((i + 1) % 128) j n v (omega arith) lt' (omega arith),
      )
      refl

segment-last :
    (buf : List ℕ) (i n : ℕ)
    → i < 128
    → segment buf i (suc n) ≡ segment buf i n ++ get_or buf ((i + n) % 128) 0 ∷ []
segment-last buf i zero lt = let e : (i + 0) % 128 ≡ i = omega arith in rw e refl
segment-last buf i (suc n) lt =
    let e : ((i + 1) % 128 + n) % 128 ≡ (i + suc n) % 128 = omega arith in
    ap (λ xs. get_or buf i 0 ∷ xs)
      (segment-last buf ((i + 1) % 128) n (omega arith)
        ∙ ap (λ k. segment buf ((i + 1) % 128) n ++ get_or buf k 0 ∷ []) e)

-- The queue.
abbrev pub enqueue : ℕ → List ℕ → List ℕ
enqueue c cs = if ltb (length cs) 127 then cs ++ c ∷ [] else cs

push-full :
    (c : ℕ) (s : KbdBuffer) (cs : List ℕ)
    → Holds s cs
    → ltb (length cs) 127 ≡ false
    → kbd_buffer_push c s ≡ s
unfolding kbd_buffer_push
push-full c s cs is full =
    let stop : (add32 s.g_head 1 % 128 == s.g_tail) ≡ true =
      ground (arith, is.head, is.tail, is.room, full) in
    rw stop refl

push-room :
    (c : ℕ) (s : KbdBuffer) (cs : List ℕ)
    → Holds s cs
    → ltb (length cs) 127 ≡ true
    → Holds (kbd_buffer_push c s) (cs ++ c ∷ [])
unfolding kbd_buffer_push
push-room c s cs is more =
    let n = length cs in
    let go : (add32 s.g_head 1 % 128 == s.g_tail) ≡ false =
      ground (arith, is.head, is.tail, is.room, more) in
    let grown : length (cs ++ c ∷ []) ≡ suc n = length-append cs (c ∷ []) ∙ omega arith in
    rw go (record {
      size = length-set s.g_buf s.g_head c ∙ is.size;
      tail = is.tail;
      room = ground (arith, grown, more);
      head = omega (arith, grown, is.head, is.tail, is.room);
      content =
          ap (segment (set s.g_buf s.g_head c) s.g_tail) grown
          ∙ segment-last (set s.g_buf s.g_head c) s.g_tail n is.tail
          ∙ ap₂ (λ xs x. xs ++ x ∷ [])
              (segment-set s.g_buf s.g_tail s.g_head n c is.tail (omega (arith, is.head))
                  (omega (arith, is.head, is.tail, is.room))
                ∙ is.content)
              (ap (λ k. get_or (set s.g_buf s.g_head c) k 0) (sym is.head)
                ∙ get_or-set_self s.g_buf s.g_head c 0 (omega (arith, is.head, is.size)));
    })

pub push-Holds :
    (c : ℕ) (s : KbdBuffer) (cs : List ℕ) → Holds s cs → Holds (kbd_buffer_push c s) (enqueue c cs)
push-Holds c s cs is = elim (Bool-cases (ltb (length cs) 127)) [
  | inl more ↦ rw more (push-room c s cs is more)
  | inr full ↦ rw full (subst (λ t. Holds t cs) (sym (push-full c s cs is full)) is)
]

pub pop-Holds-empty : (s : KbdBuffer) → Holds s [] → kbd_buffer_pop s ≡ none
unfolding kbd_buffer_pop
pop-Holds-empty s is =
    let stop : (s.g_tail == s.g_head) ≡ true = ground (arith, is.head, is.tail) in rw stop refl

small_step : (t : ℕ) → t < 128 → add32 t 1 % 128 ≡ (t + 1) % 128
small_step t lt = omega arith

pub pop-Holds :
    (s : KbdBuffer) (c : ℕ) (cs : List ℕ)
    → Holds s (c ∷ cs)
    → (t : KbdBuffer) × (kbd_buffer_pop s ≡ some (c, t)) × Holds t cs
unfolding kbd_buffer_pop
pop-Holds s c cs is =
    let go : (s.g_tail == s.g_head) ≡ false = ground (arith, is.head, is.tail, is.room) in
    (
      record s { g_tail = add32 s.g_tail 1 % 128 },
      rw go (
          ap (λ x. some (x, record s { g_tail = add32 s.g_tail 1 % 128 }))
            (ap (λ xs. get_or xs 0 0) is.content)),
      record {
        size = is.size;
        tail = omega arith;
        room = omega (arith, is.room);
        head = omega (arith, is.head, is.tail, is.room);
        content =
            ap (λ i. segment s.g_buf i (length cs)) (small_step s.g_tail is.tail)
            ∙ ap (drop 1) is.content;
      },
    )

-- What a program does with the buffer, and what a queue answers.
pub data Op : Type 0 where
  push : ℕ → Op
  pop : Op

pub run_ring : List Op → KbdBuffer → List (Option ℕ)
run_ring [] s = []
run_ring (push c ∷ ops) s = run_ring ops (kbd_buffer_push c s)
run_ring (pop ∷ ops) s =
    let failed = none ∷ run_ring ops s in
    elim (kbd_buffer_pop s) [ none ↦ failed | some (c, t) ↦ some c ∷ run_ring ops t ]

unfoldable pub run_queue : List Op → List ℕ → List (Option ℕ)
run_queue [] cs = []
run_queue (push c ∷ ops) cs = run_queue ops (enqueue c cs)
run_queue (pop ∷ ops) [] = none ∷ run_queue ops []
run_queue (pop ∷ ops) (c ∷ cs) = some c ∷ run_queue ops cs

popped :
    (ops : List Op) (s t : KbdBuffer) (c : ℕ) (out : List (Option ℕ))
    → kbd_buffer_pop s ≡ some (c, t)
    → run_ring ops t ≡ out
    → run_ring (pop ∷ ops) s ≡ some c ∷ out
unfolding run_ring
popped ops s t c out run rest = rw (run_ring, run) (ap (λ xs. some c ∷ xs) rest)

-- Whatever is pushed and popped, and in whatever order, the ring gives what a queue gives that holds
-- the oldest 127 characters and drops what is pushed while it has that many.
pub run_ring-run_queue :
    (ops : List Op) (s : KbdBuffer) (cs : List ℕ) → Holds s cs → run_ring ops s ≡ run_queue ops cs
unfolding run_ring run_queue
run_ring-run_queue [] s cs is = refl
run_ring-run_queue (push c ∷ ops) s cs is =
    run_ring-run_queue ops (kbd_buffer_push c s) (enqueue c cs) (push-Holds c s cs is)
run_ring-run_queue (pop ∷ ops) s [] is =
    rw (run_ring, pop-Holds-empty s is) (ap (λ xs. none ∷ xs) (run_ring-run_queue ops s [] is))
run_ring-run_queue (pop ∷ ops) s (c ∷ cs) is =
    let (t, run, after) = pop-Holds s c cs is in
    popped ops s t c (run_queue ops cs) run (run_ring-run_queue ops t cs after)
