-- ===== src/Drivers/Loader/Image.antt =====
-- drivers/loader.c on a well-formed image.
use mathlib.Core.Path.{subst}
use zythos.Base.{
  ℕ, zero, suc, ◌+◌, ◌*◌, ◌%◌, ◌^◌, ◌≤◌, ◌<◌, ◌≡◌, refl, sym, ap, ◌∙◌, inl, inr, true, false, some,
  List, [], ◌∷◌, arith, ltb, if◌then◌else◌, add32, ◌>>=◌, Bool-cases,
}
use zythos.Drivers.Elf.{Elf32Ehdr, read_ehdr, Elf32Phdr, read_phdr}
use zythos.Drivers.Loader.{
  wrapped, Load, ok, failed, elf_check_header, load_start, load_loop, finish_load, elf_load,
  max_segments,
}
use zythos.Drivers.Loader.Segments.{
  IsPlaceable, with_segment, with_segments, load_segment_lem, with_segment-Agree,
}
use zythos.Drivers.Loader.Agrees.{Agree, ehdr_agrees, wrapped-Agree, check_agrees}
use zythos.Drivers.Loader.Total.{load_loop-stop, load_loop-next, phnum_small}

-- The program headers in memory: `n` of them from `a` on.
abbrev pub segments : ℕ → ℕ → (ℕ → ℕ) → List Elf32Phdr
segments zero a m = []
segments (suc n) a m = read_phdr m a ∷ segments n (a + 32) m

abbrev pub AllPlaceable : ℕ → ℕ → List Elf32Phdr → Type 0
AllPlaceable buf buf_size [] = Unit
AllPlaceable buf buf_size (ph ∷ phs) =
    (ph.p_type ≡ 1 → IsPlaceable buf buf_size ph) × AllPlaceable buf buf_size phs

load_loop_lem :
    (m : ℕ → ℕ) (buf buf_size phdrs n rounds i : ℕ) (s : Load)
    → n < rounds
    → i + n ≡ (read_ehdr m buf).e_phnum
    → 52 ≤ buf_size
    → buf_size < 2 ^ 32
    → buf + buf_size ≤ 2 ^ 32
    → buf ≤ phdrs
    → phdrs + 32 * (i + n) ≤ buf + buf_size
    → Agree buf buf_size m s.memory
    → AllPlaceable buf buf_size (segments n (phdrs + 32 * i) m)
    → load_loop rounds buf buf_size phdrs i s
      ≡ some (ok (with_segments m buf (segments n (phdrs + 32 * i) m) s))
load_loop_lem m buf buf_size phdrs n zero i s enough count large small inside low high same all =
    absurd (omega arith)
load_loop_lem m buf buf_size phdrs zero (suc rounds) i s enough count large small inside low high
      same all =
    load_loop-stop rounds buf buf_size phdrs i s (
      ground (
        arith,
        count,
        ap (λ (eh : Elf32Ehdr). eh.e_phnum)
            (ehdr_agrees buf buf_size (wrapped-Agree buf buf_size same inside) large),
      ))
load_loop_lem m buf buf_size phdrs (suc n) (suc rounds) i s enough count large small inside low high
      same all =
    let ph = read_phdr m (phdrs + 32 * i) in
    let number =
      ap (λ (eh : Elf32Ehdr). eh.e_phnum)
        (ehdr_agrees buf buf_size (wrapped-Agree buf buf_size same inside) large) in
    let next : phdrs + 32 * i + 32 ≡ phdrs + 32 * (i + 1) = omega arith in
    let rest =
      load_loop_lem m buf buf_size phdrs n rounds (i + 1) (with_segment m buf ph s) (omega arith)
        (omega arith) large small inside low (omega arith)
        (with_segment-Agree m buf buf_size ph s all.0 same)
        (subst (λ a. AllPlaceable buf buf_size (segments n a m)) next all.1) in
    load_loop-next rounds buf buf_size phdrs i s (with_segment m buf ph s)
      (ground (arith, count, number)) (omega (arith, count, phnum_small m buf))
      (load_segment_lem m buf buf_size (phdrs + 32 * i) s all.0 small inside (omega (arith, low))
        (omega (arith, high)) same)
    ∙ rest
    ∙ ap (λ a. some (ok (with_segments m buf (segments n a m) (with_segment m buf ph s))))
        (sym next)

with_segments-Agree :
    (m : ℕ → ℕ) (buf buf_size : ℕ) (phs : List Elf32Phdr) (s : Load)
    → AllPlaceable buf buf_size phs
    → Agree buf buf_size m s.memory
    → Agree buf buf_size m (with_segments m buf phs s).memory
with_segments-Agree m buf buf_size [] s all same = same
with_segments-Agree m buf buf_size (ph ∷ phs) s (is, all) same =
    with_segments-Agree m buf buf_size phs (with_segment m buf ph s) all
      (with_segment-Agree m buf buf_size ph s is same)

-- The segments of the image that is at `buf`.
abbrev pub segments_of : (ℕ → ℕ) → ℕ → List Elf32Phdr
segments_of m buf = segments (read_ehdr m buf).e_phnum (buf + (read_ehdr m buf).e_phoff) m

-- An image below 4 GiB whose header is accepted, whose table of program headers is of the usual kind
-- and lies in the file, and whose segments lie in the file and go to places beside it.
pub record IsImage (buf buf_size : ℕ) (m : ℕ → ℕ) : Type 0 where
  pub large : 52 ≤ buf_size
  pub small : buf_size < 2 ^ 32
  pub inside : buf + buf_size ≤ 2 ^ 32
  pub accepted : elf_check_header m buf ≡ true
  pub entsize : (read_ehdr m buf).e_phentsize ≡ 32
  pub table : (read_ehdr m buf).e_phoff + 32 * (read_ehdr m buf).e_phnum ≤ buf_size
  pub placeable : AllPlaceable buf buf_size (segments_of m buf)

-- The state after all segments.
abbrev pub loaded_image : (ℕ → ℕ) → ℕ → Load
loaded_image m buf = with_segments m buf (segments_of m buf) (load_start m)

finish :
    (buf : ℕ) (s : Load) (entry : ℕ)
    → (read_ehdr (wrapped s.memory) buf).e_entry ≡ entry
    → finish_load buf s ≡ (
        if s.loaded_any
        then ok (record { entry = entry; load_min = s.load_min; load_max = s.load_max }, s.memory)
        else failed s.memory)
unfolding finish_load
finish buf s entry same = elim (Bool-cases s.loaded_any) [
  | inl any ↦ rw (any, same) refl
  | inr no_one ↦ rw no_one refl
]

-- `elf_load` of a well-formed image writes every segment to its address, the bytes of the file and
-- then 0s, one after the other, and changes nothing else. It returns 0 with the entry point and the
-- range of the segments if there is a segment to load, and -1 if there is none.
pub elf_load_lem :
    (buf buf_size : ℕ) (m : ℕ → ℕ)
    → IsImage buf buf_size m
    → let s = loaded_image m buf in
      elf_load buf buf_size m
      ≡ some (
          if s.loaded_any
          then ok (
            record {
              entry = (read_ehdr m buf).e_entry;
              load_min = s.load_min;
              load_max = s.load_max;
            },
            s.memory,
          )
          else failed s.memory)
unfolding elf_load
elf_load_lem buf buf_size m is =
    let eh = read_ehdr m buf in
    let n = eh.e_phnum in
    let phdrs = buf + eh.e_phoff in
    let few = phnum_small m buf in
    let first : phdrs + 32 * 0 ≡ phdrs = omega arith in
    let header : ltb buf_size 52 ≡ false = ground (arith, is.large) in
    let table : ltb buf_size (add32 eh.e_phoff (n * eh.e_phentsize % 2 ^ 32)) ≡ false =
      rw is.entsize (ground (arith, is.table, is.small)) in
    let agree : Agree buf buf_size m (load_start m).memory = λ a _ _. refl in
    let loop =
      load_loop_lem m buf buf_size phdrs n max_segments 0 (load_start m) (omega (arith, few))
        (omega arith) is.large is.small is.inside (omega arith) (omega (arith, is.table)) agree
        (subst (λ a. AllPlaceable buf buf_size (segments n a m)) (sym first) is.placeable)
      ∙ ap (λ a. some (ok (with_segments m buf (segments n a m) (load_start m)))) first in
    let kept =
      ap (λ (h : Elf32Ehdr). h.e_entry)
        (ehdr_agrees buf buf_size
          (wrapped-Agree buf buf_size
            (with_segments-Agree m buf buf_size (segments_of m buf) (load_start m) is.placeable
              agree)
            is.inside)
          is.large) in
    let through = wrapped-Agree buf buf_size agree is.inside in
    let same_header = ehdr_agrees buf buf_size through is.large in
    let accepted = check_agrees buf buf_size through is.large ∙ is.accepted in
    rw (header, accepted, same_header, table, loop, ◌>>=◌)
      (ap some (finish buf (loaded_image m buf) eh.e_entry kept))

pub elf_load-refused :
    (buf buf_size : ℕ) (m : ℕ → ℕ)
    → 52 ≤ buf_size
    → elf_check_header (wrapped m) buf ≡ false
    → elf_load buf buf_size m ≡ some (failed m)
unfolding elf_load
elf_load-refused buf buf_size m large refused =
    let header : ltb buf_size 52 ≡ false = ground (arith, large) in rw (header, refused) refl
