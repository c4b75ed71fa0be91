-- ===== src/Drivers/Loader/Placed.antt =====
-- drivers/loader.c: what stands in memory after the segments are placed.
use mathlib.Core.Path.{subst}
use zythos.Drivers.Loader.Image.{IsImage, segments_of, loaded_image, elf_load_lem}
use zythos.Drivers.Loader.{elf_load, load_start}
use zythos.Drivers.Elf.{read_ehdr, ElfLoadResult}
use zythos.Base.{
  some, sym, ℕ, ◌+◌, ◌-◌, ◌≤◌, ◌<◌, ◌≡◌, refl, sym, ◌∙◌, inl, inr, true, false, not, some, List, [],
  ◌∷◌, ◌++◌, arith, ltb, ◌==◌, if◌then◌else◌, Bool-cases,
}
use zythos.Drivers.Elf.{Elf32Phdr}
use zythos.Drivers.Loader.{Load, ok}
use zythos.Drivers.Loader.Segments.{within, with_segment, with_segments}

-- The segment is not to be loaded or does not cover the address.
abbrev Misses : ℕ → Elf32Phdr → Type 0
Misses a ph = (ph.p_type ≡ 1) → within ph.p_vaddr ph.p_memsz a ≡ false

abbrev pub AllMiss : ℕ → List Elf32Phdr → Type 0
AllMiss a [] = Unit
AllMiss a (ph ∷ phs) =
    (((ph.p_type ≡ 1) → within ph.p_vaddr ph.p_memsz a ≡ false) × (ph.p_filesz ≤ ph.p_memsz))
    × AllMiss a phs

missed :
    (m : ℕ → ℕ) (buf a : ℕ) (ph : Elf32Phdr) (s : Load)
    → Misses a ph
    → ph.p_filesz ≤ ph.p_memsz
    → (with_segment m buf ph s).memory a ≡ s.memory a
missed m buf a ph s miss le = elim (Bool-cases (not (ph.p_type == 1))) [
  | inl other ↦ rw other refl
  | inr load ↦ let out = miss (ground (arith, load)) in rw load (ground (arith, out, le))
]

pub all_missed :
    (m : ℕ → ℕ) (buf a : ℕ) (phs : List Elf32Phdr) (s : Load)
    → AllMiss a phs
    → (with_segments m buf phs s).memory a ≡ s.memory a
all_missed m buf a [] s all = refl
all_missed m buf a (ph ∷ phs) s ((miss, le), all) =
    all_missed m buf a phs (with_segment m buf ph s) all ∙ missed m buf a ph s miss le

-- The range only grows.
abbrev Grows : Load → Load → Type 0
Grows s t =
    (t.load_min ≤ s.load_min)
    × (s.load_max ≤ t.load_max)
    × (s.loaded_any ≡ true → t.loaded_any ≡ true)

step-Grows : (m : ℕ → ℕ) (buf : ℕ) (ph : Elf32Phdr) (s : Load) → Grows s (with_segment m buf ph s)
step-Grows m buf ph s = elim (Bool-cases (not (ph.p_type == 1))) [
  | inl other ↦ rw other (omega arith, omega arith, λ e. e)
  | inr load ↦ rw load (ground arith, ground arith, λ _. refl)
]

all-Grows :
    (m : ℕ → ℕ) (buf : ℕ) (phs : List Elf32Phdr) (s : Load) → Grows s (with_segments m buf phs s)
all-Grows m buf [] s = (omega arith, omega arith, λ e. e)
all-Grows m buf (ph ∷ phs) s =
    let (low, high, any) = step-Grows m buf ph s in
    let (low', high', any') = all-Grows m buf phs (with_segment m buf ph s) in
    (omega (arith, low, low'), omega (arith, high, high'), λ e. any' (any e))

-- A byte of a segment stands in memory, and the range covers the segment.
abbrev Placed : (ℕ → ℕ) → ℕ → ℕ → Elf32Phdr → Load → Type 0
Placed m buf j ph t =
    (t.memory (ph.p_vaddr + j) ≡ (if ltb j ph.p_filesz then m (buf + ph.p_offset + j) else 0))
    × (t.load_min ≤ ph.p_vaddr)
    × (ph.p_vaddr + ph.p_memsz ≤ t.load_max)
    × (t.loaded_any ≡ true)

-- A segment that has just been placed.
just_placed :
    (m : ℕ → ℕ) (buf j : ℕ) (ph : Elf32Phdr) (s : Load)
    → ph.p_type ≡ 1
    → j < ph.p_memsz
    → let t = with_segment m buf ph s in
      (t.memory (ph.p_vaddr + j) ≡ (if ltb j ph.p_filesz then m (buf + ph.p_offset + j) else 0))
      × (t.load_min ≤ ph.p_vaddr)
      × (ph.p_vaddr + ph.p_memsz ≤ t.load_max)
      × (t.loaded_any ≡ true)
just_placed m buf j ph s load lt =
    let taken : not (ph.p_type == 1) ≡ false = ground (arith, load) in
    let back : ph.p_vaddr + j - ph.p_vaddr ≡ j = omega arith in
    rw (taken, back) (ground (arith, lt), ground arith, ground arith, refl)

with_segments-byte :
    (m : ℕ → ℕ) (buf j : ℕ) (before : List Elf32Phdr) (ph : Elf32Phdr) (behind : List Elf32Phdr)
    (s : Load)
    → ph.p_type ≡ 1
    → j < ph.p_memsz
    → AllMiss (ph.p_vaddr + j) behind
    → let t = with_segments m buf (before ++ ph ∷ behind) s in
      (t.memory (ph.p_vaddr + j) ≡ (if ltb j ph.p_filesz then m (buf + ph.p_offset + j) else 0))
      × (t.load_min ≤ ph.p_vaddr)
      × (ph.p_vaddr + ph.p_memsz ≤ t.load_max)
      × (t.loaded_any ≡ true)
with_segments-byte m buf j [] ph behind s load lt miss =
    let t = with_segment m buf ph s in
    let (byte, low, high, any) = just_placed m buf j ph s load lt in
    let (low', high', any') = all-Grows m buf behind t in
    (
      all_missed m buf (ph.p_vaddr + j) behind t miss ∙ byte,
      omega (arith, low, low'),
      omega (arith, high, high'),
      any' any,
    )
with_segments-byte m buf j (p ∷ before) ph behind s load lt miss =
    with_segments-byte m buf j before ph behind (with_segment m buf p s) load lt miss

-- `elf_load` of a well-formed image that has a segment to load succeeds with the entry point of the
-- header. If no later segment covers the byte number `j` of the segment, then that byte is in memory at
-- its address as in the file, or is 0 from the size in the file on; and the reported range covers the
-- segment.
pub elf_load-segment :
    (buf buf_size j : ℕ) (m : ℕ → ℕ) (before : List Elf32Phdr) (ph : Elf32Phdr)
    (behind : List Elf32Phdr)
    → IsImage buf buf_size m
    → segments_of m buf ≡ before ++ ph ∷ behind
    → ph.p_type ≡ 1
    → j < ph.p_memsz
    → AllMiss (ph.p_vaddr + j) behind
    → (r : ElfLoadResult) × (k : ℕ → ℕ) × (elf_load buf buf_size m ≡ some (ok (r, k)))
      × (r.entry ≡ (read_ehdr m buf).e_entry)
      × (k (ph.p_vaddr + j) ≡ (if ltb j ph.p_filesz then m (buf + ph.p_offset + j) else 0))
      × (r.load_min ≤ ph.p_vaddr)
      × (ph.p_vaddr + ph.p_memsz ≤ r.load_max)
elf_load-segment buf buf_size j m before ph behind is splits load lt miss =
    let s = loaded_image m buf in
    let (byte, low, high, any) =
      subst (λ phs. Placed m buf j ph (with_segments m buf phs (load_start m))) (sym splits)
        (with_segments-byte m buf j before ph behind (load_start m) load lt miss) in
    (
      record { entry = (read_ehdr m buf).e_entry; load_min = s.load_min; load_max = s.load_max },
      s.memory,
      elf_load_lem buf buf_size m is ∙ rw any refl,
      refl,
      byte,
      low,
      high,
    )
