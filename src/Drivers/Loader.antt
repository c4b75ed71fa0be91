-- ===== src/Drivers/Loader.antt =====
-- drivers/loader.c: an ELF image in memory is checked, and its segments are copied to their addresses.
-- A program header is read again after the copy and after the filling, as the code does, so a segment
-- that is copied over the image changes what is read later. A pointer is a sum that is taken modulo 2^32
-- where it is used. `klog` of this file prints nothing.
pub mod Total
pub mod Agrees
pub mod Segments
pub mod Image
pub mod Placed
use zythos.Base.{
  ℕ, zero, suc, ◌+◌, ◌-◌, ◌*◌, ◌%◌, ◌^◌, Bool, true, false, not, ◌||◌, Option, none, some, ltb,
  ◌==◌, if◌then◌else◌, add32, ◌>>=◌,
}
use zythos.Drivers.Elf.{read_ehdr, sizeof_ehdr, Elf32Phdr, read_phdr, sizeof_phdr, ElfLoadResult}

-- The bytes at pointers of 32 bits.
abbrev pub wrapped : (ℕ → ℕ) → ℕ → ℕ
wrapped m a = m (a % 2 ^ 32)

abbrev pub poke : ℕ → ℕ → (ℕ → ℕ) → ℕ → ℕ
poke address value m a = if a == address % 2 ^ 32 then value else m a

-- The loops of `loader_memcpy` and `loader_memset`, with the rounds left and `i`.
pub memcpy_loop : ℕ → ℕ → ℕ → ℕ → (ℕ → ℕ) → ℕ → ℕ
memcpy_loop zero i destination source m = m
memcpy_loop (suc n) i destination source m =
    memcpy_loop n (i + 1) destination source (poke (destination + i) (wrapped m (source + i)) m)

pub memset_loop : ℕ → ℕ → ℕ → ℕ → (ℕ → ℕ) → ℕ → ℕ
memset_loop zero i destination value m = m
memset_loop (suc n) i destination value m =
    memset_loop n (i + 1) destination value (poke (destination + i) value m)

abbrev pub loader_memcpy : ℕ → ℕ → ℕ → (ℕ → ℕ) → ℕ → ℕ
loader_memcpy destination source size m = memcpy_loop size 0 destination source m

abbrev pub loader_memset : ℕ → ℕ → ℕ → (ℕ → ℕ) → ℕ → ℕ
loader_memset destination value size m = memset_loop size 0 destination (value % 256) m

-- Whether the header is accepted, which is the result 0.
unfoldable pub elf_check_header : (ℕ → ℕ) → ℕ → Bool
elf_check_header m buf =
    let eh = read_ehdr m buf in
    if not (m buf == 0x7f)
      || not (m (buf + 1) == b'E')
      || not (m (buf + 2) == b'L')
      || not (m (buf + 3) == b'F')
    then false
    else if not (m (buf + 4) == 1)
    then false
    else if not (m (buf + 5) == 1)
    then false
    else if not (eh.e_machine == 3)
    then false
    else if not (eh.e_type == 2)
    then false
    else if (eh.e_phoff == 0) || (eh.e_phnum == 0)
    then false
    else true

-- The variables of the loop, and the memory.
pub record Load : Type 0 where
  pub memory : ℕ → ℕ
  pub load_min : ℕ
  pub load_max : ℕ
  pub loaded_any : Bool

-- How a step or the whole function ends: with -1, or with a value.
pub data Outcome {ℓ} (A : Type ℓ) : Type ℓ where
  failed : (ℕ → ℕ) → Outcome A
  ok : A → Outcome A

-- The program header at `at`, as it is now.
abbrev pub header_at : ℕ → (ℕ → ℕ) → Elf32Phdr
header_at at m = read_phdr (wrapped m) at

-- A `PT_LOAD` segment within the file is copied, and the rest of it in memory is set to 0.
pub place : ℕ → ℕ → (ℕ → ℕ) → ℕ → ℕ
place buf at m =
    let ph = header_at at m in
    let copied = loader_memcpy ph.p_vaddr (buf + ph.p_offset) ph.p_filesz m in
    let now = header_at at copied in
    if ltb now.p_filesz now.p_memsz
    then loader_memset (ph.p_vaddr + now.p_filesz) 0 (now.p_memsz - now.p_filesz) copied
    else copied

-- The body of the loop, for the program header at `at`.
pub load_segment : ℕ → ℕ → ℕ → Load → Outcome Load
load_segment buf buf_size at s =
    let ph = header_at at s.memory in
    let placed = place buf at s.memory in
    let now = header_at at placed in
    let seg_end = add32 now.p_vaddr now.p_memsz in
    if not (ph.p_type == 1)
    then ok s
    else if ltb buf_size (add32 ph.p_offset ph.p_filesz)
    then failed s.memory
    else if ltb ph.p_memsz ph.p_filesz
    then failed s.memory
    else ok (record {
      memory = placed;
      load_min = (if ltb now.p_vaddr s.load_min then now.p_vaddr else s.load_min);
      load_max = (if ltb s.load_max seg_end then seg_end else s.load_max);
      loaded_any = true;
    })

-- The loop, with the rounds left: `i` has 16 bits, and `e_phnum` is read in every round.
pub load_loop : ℕ → ℕ → ℕ → ℕ → ℕ → Load → Option (Outcome Load)
load_loop zero buf buf_size phdrs i s = none
load_loop (suc rounds) buf buf_size phdrs i s =
    let step = load_segment buf buf_size (phdrs + sizeof_phdr * i) s in
    if ltb i (read_ehdr (wrapped s.memory) buf).e_phnum
    then elim step [
      | failed m ↦ some (failed m)
      | ok t ↦ load_loop rounds buf buf_size phdrs ((i + 1) % 65536) t
    ]
    else some (ok s)

abbrev pub max_segments : ℕ
max_segments = 65536

-- The part behind the loop.
pub finish_load : ℕ → Load → Outcome (ElfLoadResult × (ℕ → ℕ))
finish_load buf s =
    if not s.loaded_any
    then failed s.memory
    else ok (
      record {
        entry = (read_ehdr (wrapped s.memory) buf).e_entry;
        load_min = s.load_min;
        load_max = s.load_max;
      },
      s.memory,
    )

abbrev pub load_start : (ℕ → ℕ) → Load
load_start m = record { memory = m; load_min = 0xffff_ffff; load_max = 0; loaded_any = false }

pub elf_load : ℕ → ℕ → (ℕ → ℕ) → Option (Outcome (ElfLoadResult × (ℕ → ℕ)))
elf_load buf buf_size m =
    let eh = read_ehdr (wrapped m) buf in
    if ltb buf_size sizeof_ehdr
    then some (failed m)
    else if not (elf_check_header (wrapped m) buf)
    then some (failed m)
    else if ltb buf_size (add32 eh.e_phoff (eh.e_phnum * eh.e_phentsize % 2 ^ 32))
    then some (failed m)
    else do
      loop ← load_loop max_segments buf buf_size (buf + eh.e_phoff) 0 (load_start m)
      elim loop [ failed k ↦ some (failed k) | ok s ↦ some (finish_load buf s) ]
