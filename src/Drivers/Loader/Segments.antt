-- ===== src/Drivers/Loader/Segments.antt =====
-- The bytes that a segment stands for, and `load_segment` of drivers/loader.c.
use zythos.Base.{
  ap, ◌%◌, copy_bytes, fill_bytes, fill_bytes_lem, zero, suc, copy_bytes_lem, same_bytes,
  Bool-cases, inl, inr, refl, ◌∙◌, copy_bytes_lem, ℕ, ◌+◌, ◌-◌, ◌^◌, ◌≤◌, ◌<◌, ◌≡◌, refl, ◌∙◌, ◌⊎◌,
  inl, inr, Bool, true, false, not, ◌&&◌, List, [], ◌∷◌, arith, ltb, leb, ◌==◌, if◌then◌else◌,
  add32, Bool-cases,
}
use zythos.Drivers.Elf.{Elf32Phdr, read_phdr}
use zythos.Drivers.Loader.Agrees.{Agree, header_at_lem}
use zythos.Drivers.Loader.{Load, ok, place, load_segment, header_at, memcpy_loop, memset_loop}

-- `a` is among the `n` addresses from `start` on.
abbrev pub within : ℕ → ℕ → ℕ → Bool
within start n a = leb start a && ltb a (start + n)

-- The byte at `a` once the segment stands in memory, where `old` was before: a byte of the file, or 0
-- behind them. `m` holds the image at `buf`.
abbrev pub segment_byte : (ℕ → ℕ) → ℕ → Elf32Phdr → ℕ → ℕ → ℕ
segment_byte m buf ph a old =
    if within ph.p_vaddr ph.p_filesz a
    then m (buf + ph.p_offset + (a - ph.p_vaddr))
    else if within ph.p_vaddr ph.p_memsz a
    then 0
    else old

-- The state after a segment, if it is loaded.
abbrev pub with_segment : (ℕ → ℕ) → ℕ → Elf32Phdr → Load → Load
with_segment m buf ph s = if not (ph.p_type == 1) then s else record {
  memory = λ a. segment_byte m buf ph a (s.memory a);
  load_min = (if ltb ph.p_vaddr s.load_min then ph.p_vaddr else s.load_min);
  load_max =
      (if ltb s.load_max (ph.p_vaddr + ph.p_memsz) then ph.p_vaddr + ph.p_memsz else s.load_max);
  loaded_any = true;
}

abbrev pub with_segments : (ℕ → ℕ) → ℕ → List Elf32Phdr → Load → Load
with_segments m buf [] s = s
with_segments m buf (ph ∷ phs) s = with_segments m buf phs (with_segment m buf ph s)

-- A segment that lies in the file and is loaded beside the image, below 4 GiB.
pub record IsPlaceable (buf buf_size : ℕ) (ph : Elf32Phdr) : Type 0 where
  pub in_file : ph.p_offset + ph.p_filesz ≤ buf_size
  pub not_larger : ph.p_filesz ≤ ph.p_memsz
  pub below : ph.p_vaddr + ph.p_memsz < 2 ^ 32
  pub beside : (ph.p_vaddr + ph.p_memsz ≤ buf) ⊎ (buf + buf_size ≤ ph.p_vaddr)

copied_byte :
    (m k : ℕ → ℕ) (buf buf_size : ℕ) (ph : Elf32Phdr) (a : ℕ)
    → IsPlaceable buf buf_size ph
    → Agree buf buf_size m k
    → copy_bytes ph.p_filesz 0 ph.p_vaddr (buf + ph.p_offset) k a
      ≡ (if within ph.p_vaddr ph.p_filesz a then m (buf + ph.p_offset + (a - ph.p_vaddr)) else k a)
copied_byte m k buf buf_size ph a is same =
    let copied =
      copy_bytes_lem ph.p_filesz ph.p_vaddr (buf + ph.p_offset) k a
        (ground (arith, is.beside, is.in_file, is.not_larger)) in
    elim (Bool-cases (within ph.p_vaddr ph.p_filesz a)) [
      | inl inside ↦
          copied
          ∙ rw inside (
              same (buf + ph.p_offset + (a - ph.p_vaddr)) (omega arith)
                (ground (arith, is.in_file, inside)))
      | inr outside ↦ copied ∙ rw outside refl
    ]

-- The loops where no address wraps around.
memcpy_loop_lem :
    (n i dst src : ℕ) (m : ℕ → ℕ)
    → dst + i + n ≤ 2 ^ 32
    → src + i + n ≤ 2 ^ 32
    → memcpy_loop n i dst src m ≡ copy_bytes n i dst src m
unfolding memcpy_loop copy_bytes
memcpy_loop_lem zero i dst src m to from = refl
memcpy_loop_lem (suc n) i dst src m to from =
    ap (λ (a : ℕ × ℕ). memcpy_loop n (i + 1) dst src (λ x. if x == a.0 then m a.1 else m x))
      (ap (λ x. (x, (src + i) % 2 ^ 32))
          (let w : (dst + i) % 2 ^ 32 ≡ dst + i = omega (arith, to) in w)
        ∙ ap (λ x. (dst + i, x)) (let w : (src + i) % 2 ^ 32 ≡ src + i = omega (arith, from) in w))
    ∙ memcpy_loop_lem n (i + 1) dst src _ (omega (arith, to)) (omega (arith, from))

memset_loop_lem :
    (n i dst value : ℕ) (m : ℕ → ℕ)
    → dst + i + n ≤ 2 ^ 32
    → memset_loop n i dst value m ≡ fill_bytes n i dst value m
unfolding memset_loop fill_bytes
memset_loop_lem zero i dst value m to = refl
memset_loop_lem (suc n) i dst value m to =
    ap (λ a. memset_loop n (i + 1) dst value (λ x. if x == a then value else m x))
      (let w : (dst + i) % 2 ^ 32 ≡ dst + i = omega (arith, to) in w)
    ∙ memset_loop_lem n (i + 1) dst value _ (omega (arith, to))

-- The segment in memory, when its header is not read again.
abbrev put_segment : ℕ → Elf32Phdr → (ℕ → ℕ) → ℕ → ℕ
put_segment buf ph m =
    let copied = copy_bytes ph.p_filesz 0 ph.p_vaddr (buf + ph.p_offset) m in
    if ltb ph.p_filesz ph.p_memsz
    then fill_bytes (ph.p_memsz - ph.p_filesz) 0 (ph.p_vaddr + ph.p_filesz) 0 copied
    else copied

put_segment_byte :
    (m k : ℕ → ℕ) (buf buf_size : ℕ) (ph : Elf32Phdr) (a : ℕ)
    → IsPlaceable buf buf_size ph
    → Agree buf buf_size m k
    → put_segment buf ph k a ≡ segment_byte m buf ph a (k a)
put_segment_byte m k buf buf_size ph a is same =
    let copied = copied_byte m k buf buf_size ph a is same in
    let loaded = copy_bytes ph.p_filesz 0 ph.p_vaddr (buf + ph.p_offset) k in
    let filled =
      fill_bytes_lem (ph.p_memsz - ph.p_filesz) 0 (ph.p_vaddr + ph.p_filesz) 0 loaded a in
    elim (Bool-cases (ltb ph.p_filesz ph.p_memsz)) [
      | inl more ↦ rw more (ground (arith, copied, filled, more))
      | inr all ↦ rw all (ground (arith, copied, all, is.not_larger))
    ]

-- A program header of the image is not overwritten by the copy.
place_lem :
    (m k : ℕ → ℕ) (buf buf_size at : ℕ)
    → IsPlaceable buf buf_size (read_phdr m at)
    → Agree buf buf_size m k
    → buf + buf_size ≤ 2 ^ 32
    → buf ≤ at
    → at + 32 ≤ buf + buf_size
    → place buf at k ≡ (λ a. segment_byte m buf (read_phdr m at) a (k a))
unfolding place
place_lem m k buf buf_size at is same inside low high =
    let ph = read_phdr m at in
    let read : header_at at k ≡ ph = header_at_lem buf buf_size at same inside low high in
    let copied = copy_bytes ph.p_filesz 0 ph.p_vaddr (buf + ph.p_offset) k in
    let copies : memcpy_loop ph.p_filesz 0 ph.p_vaddr (buf + ph.p_offset) k ≡ copied =
      memcpy_loop_lem ph.p_filesz 0 ph.p_vaddr (buf + ph.p_offset) k
        (omega (arith, is.below, is.not_larger)) (omega (arith, is.in_file, inside)) in
    let still : Agree buf buf_size m copied = λ a from to.
      copied_byte m k buf buf_size ph a is same
      ∙ (let old = same a from to in ground (arith, old, from, to, is.beside, is.not_larger)) in
    let reread : header_at at copied ≡ ph = header_at_lem buf buf_size at still inside low high in
    let fills : memset_loop (ph.p_memsz - ph.p_filesz) 0 (ph.p_vaddr + ph.p_filesz) 0 copied
        ≡ fill_bytes (ph.p_memsz - ph.p_filesz) 0 (ph.p_vaddr + ph.p_filesz) 0 copied =
      memset_loop_lem (ph.p_memsz - ph.p_filesz) 0 (ph.p_vaddr + ph.p_filesz) 0 copied
        (omega (arith, is.below, is.not_larger)) in
    rw (place, read, copies, reread, fills)
      (same_bytes (λ a. put_segment_byte m k buf buf_size ph a is same))

-- A segment is placed if it is to be loaded.
pub load_segment_lem :
    (m : ℕ → ℕ) (buf buf_size at : ℕ) (s : Load)
    → ((read_phdr m at).p_type ≡ 1 → IsPlaceable buf buf_size (read_phdr m at))
    → buf_size < 2 ^ 32
    → buf + buf_size ≤ 2 ^ 32
    → buf ≤ at
    → at + 32 ≤ buf + buf_size
    → Agree buf buf_size m s.memory
    → load_segment buf buf_size at s ≡ ok (with_segment m buf (read_phdr m at) s)
unfolding load_segment
load_segment_lem m buf buf_size at s needed small inside low high same =
    let ph = read_phdr m at in
    let read : header_at at s.memory ≡ ph = header_at_lem buf buf_size at same inside low high in
    elim (Bool-cases (not (ph.p_type == 1))) [
      | inl other ↦ rw (load_segment, read, other) refl
      | inr load ↦
          let is = needed (ground (arith, load)) in
          let fits : ltb buf_size (add32 ph.p_offset ph.p_filesz) ≡ false =
            ground (arith, is.in_file, small) in
          let larger : ltb ph.p_memsz ph.p_filesz ≡ false = ground (arith, is.not_larger) in
          let seg_end : add32 ph.p_vaddr ph.p_memsz ≡ ph.p_vaddr + ph.p_memsz =
            omega (arith, is.below) in
          let after : ℕ → ℕ = λ a. segment_byte m buf ph a (s.memory a) in
          let placed : place buf at s.memory ≡ after =
            place_lem m s.memory buf buf_size at is same inside low high in
          let still : Agree buf buf_size m after = λ a from to.
            let old = same a from to in ground (arith, old, from, to, is.beside, is.not_larger) in
          let reread : header_at at after ≡ ph =
            header_at_lem buf buf_size at still inside low high in
          rw (load_segment, read, load, fits, larger, placed, reread, seg_end) refl
    ]

pub with_segment-Agree :
    (m : ℕ → ℕ) (buf buf_size : ℕ) (ph : Elf32Phdr) (s : Load)
    → (ph.p_type ≡ 1 → IsPlaceable buf buf_size ph)
    → Agree buf buf_size m s.memory
    → Agree buf buf_size m (with_segment m buf ph s).memory
with_segment-Agree m buf buf_size ph s needed same a low high =
    elim (Bool-cases (not (ph.p_type == 1))) [
      | inl other ↦ rw other (same a low high)
      | inr load ↦
          let is = needed (ground (arith, load)) in
          rw load (ground (arith, same a low high, is.beside, is.not_larger))
    ]
