-- ===== src/Drivers/Loader/Total.antt =====
-- The loop of drivers/loader.c over the program headers ends.
use zythos.Base.{
  ◌>>=◌, ◌*◌, ◌%◌, ◌^◌, add32, if◌then◌else◌, not, Bool, Option, ℕ, zero, suc, ◌+◌, ◌*◌, ◌%◌, ◌^◌,
  ◌≤◌, ◌<◌, ◌≡◌, refl, ◌∙◌, ◌⊎◌, inl, inr, Bool, true, false, not, Option, some, arith, ltb,
  if◌then◌else◌, add32, ◌>>=◌, Bool-cases,
}
use zythos.Drivers.Elf.{read_ehdr, ElfLoadResult, sizeof_ehdr}
use zythos.Drivers.Loader.{
  wrapped, Load, Outcome, failed, ok, load_segment, load_loop, elf_check_header, load_start,
  finish_load, elf_load, max_segments,
}

pub phnum_small : (m : ℕ → ℕ) (buf : ℕ) → (read_ehdr m buf).e_phnum < 65536
unfolding read_ehdr
phnum_small m buf = omega arith

Outcome-cases : (o : Outcome Load) → ((m : ℕ → ℕ) × (o ≡ failed m)) ⊎ ((t : Load) × (o ≡ ok t))
Outcome-cases (failed m) = inl (m, refl)
Outcome-cases (ok t) = inr (t, refl)

-- One round of the loop.
pub load_loop-stop :
    (rounds buf buf_size phdrs i : ℕ) (s : Load)
    → ltb i (read_ehdr (wrapped s.memory) buf).e_phnum ≡ false
    → load_loop (suc rounds) buf buf_size phdrs i s ≡ some (ok s)
unfolding load_loop
load_loop-stop rounds buf buf_size phdrs i s done = rw (load_loop, done) refl

pub load_loop-failed :
    (rounds buf buf_size phdrs i : ℕ) (s : Load) (m : ℕ → ℕ)
    → ltb i (read_ehdr (wrapped s.memory) buf).e_phnum ≡ true
    → load_segment buf buf_size (phdrs + 32 * i) s ≡ failed m
    → load_loop (suc rounds) buf buf_size phdrs i s ≡ some (failed m)
unfolding load_loop
load_loop-failed rounds buf buf_size phdrs i s m more step = rw (load_loop, more, step) refl

pub load_loop-next :
    (rounds buf buf_size phdrs i : ℕ) (s t : Load)
    → ltb i (read_ehdr (wrapped s.memory) buf).e_phnum ≡ true
    → i < 65535
    → load_segment buf buf_size (phdrs + 32 * i) s ≡ ok t
    → load_loop (suc rounds) buf buf_size phdrs i s ≡ load_loop rounds buf buf_size phdrs (i + 1) t
unfolding load_loop
load_loop-next rounds buf buf_size phdrs i s t more lt step =
    let count : (i + 1) % 65536 ≡ i + 1 = omega (arith, lt) in
    rw (load_loop, more, step, count) refl

load_loop-total :
    (rounds buf buf_size phdrs i : ℕ) (s : Load)
    → i < 65536
    → 65536 ≤ rounds + i
    → (r : Outcome Load) × (load_loop rounds buf buf_size phdrs i s ≡ some r)
load_loop-total zero buf buf_size phdrs i s lt enough = absurd (omega arith)
load_loop-total (suc rounds) buf buf_size phdrs i s lt enough =
    elim (Bool-cases (ltb i (read_ehdr (wrapped s.memory) buf).e_phnum)) [
      | inr done ↦ (ok s, load_loop-stop rounds buf buf_size phdrs i s done)
      | inl more ↦
          let small : i < 65535 = ground (arith, more, phnum_small (wrapped s.memory) buf) in
          elim (Outcome-cases (load_segment buf buf_size (phdrs + 32 * i) s)) [
            | inl (m, step) ↦ (failed m, load_loop-failed rounds buf buf_size phdrs i s m more step)
            | inr (t, step) ↦
                let (r, run) =
                  load_loop-total rounds buf buf_size phdrs (i + 1) t (omega (arith, small))
                    (omega (arith, enough)) in
                (r, load_loop-next rounds buf buf_size phdrs i s t more small step ∙ run)
          ]
    ]

guarded {ℓ} :
    {A : Type ℓ} (a b c : Bool) (x : A) (o : Option A)
    → ((r : A) × (o ≡ some r))
    → (r : A) × ((if a then some x else if b then some x else if c then some x else o) ≡ some r)
guarded true b c x o ends = (x, refl)
guarded false true c x o ends = (x, refl)
guarded false false true x o ends = (x, refl)
guarded false false false x o ends = ends

ended :
    (buf : ℕ) (loop : Outcome Load) (o : Option (Outcome Load))
    → o ≡ some loop
    → (r : Outcome (ElfLoadResult × (ℕ → ℕ))) × ((o >>= λ l. elim l [
      | failed k ↦ some (failed k)
      | ok s ↦ some (finish_load buf s)
    ])
        ≡ some r)
ended buf (failed k) o run = (failed k, rw run refl)
ended buf (ok s) o run = (finish_load buf s, rw run refl)

-- `elf_load` always comes to an end, with 0 or with -1, whatever bytes it is given: its loop makes at
-- most 65535 rounds, even where the image overwrites its own headers while it is loaded.
pub elf_load-total :
    (buf buf_size : ℕ) (m : ℕ → ℕ)
    → (r : Outcome (ElfLoadResult × (ℕ → ℕ))) × (elf_load buf buf_size m ≡ some r)
unfolding elf_load
elf_load-total buf buf_size m =
    let eh = read_ehdr (wrapped m) buf in
    let (loop, run) =
      load_loop-total max_segments buf buf_size (buf + eh.e_phoff) 0 (load_start m) (omega arith)
        (omega arith) in
    guarded (ltb buf_size sizeof_ehdr) (not (elf_check_header (wrapped m) buf))
      (ltb buf_size (add32 eh.e_phoff (eh.e_phnum * eh.e_phentsize % 2 ^ 32))) (failed m) _
      (ended buf loop _ run)
