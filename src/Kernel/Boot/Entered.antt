-- ===== src/Kernel/Boot/Entered.antt =====
-- Which images are entered.
use zythos.Base.{
  ap, ℕ, ◌≤◌, ◌<◌, ◌≡◌, refl, ◌∙◌, ◌≢◌, true, false, not, ◌||◌, Option, some, List, arith, ltb,
  ◌==◌, ◌>>=◌, length, get_or,
}
use zythos.Base.{store_bytes}
use zythos.Drivers.Elf.{ElfLoadResult, read_ehdr}
use zythos.Drivers.Loader.{Outcome, ok, failed, elf_load, elf_check_header, wrapped}
use zythos.Drivers.Loader.Image.{IsImage, loaded_image, elf_load_lem, elf_load-refused}
use zythos.Kernel.Vfs.{VfsNode, VfsFile, no_node, Driver, vfs_open, vfs_read}
use zythos.Mm.Calls.{HeapCalls}
use zythos.Kernel.Boot.{
  init_path, init_maxsz, garbage, returns_false, jumps, World, act_on, read_init, boot_init,
  elf_load_buf_size, sys_exec,
}

-- The file of the first program is there and within the limit, its buffer is allocated, and it is read
-- whole.
pub record IsRead {H D : Type 0} (calls : HeapCalls H) (driver : Driver D) (nodes : List VfsNode)
    (w : World H D) (file : VfsFile) (buf : ℕ) (heap : H) (bytes : List ℕ) (d : D) : Type 0 where
  pub opens : (vfs_open init_path nodes).1 ≡ some file
  pub some_size : 0 < length bytes
  pub limit : length bytes ≤ 1048576
  pub size : (get_or nodes file.node no_node).size ≡ length bytes
  pub allocated : calls.kmalloc (length bytes) w.heap ≡ (buf, heap)
  pub placed : buf ≢ 0
  pub reads :
      (next : VfsFile) × (vfs_read driver (length bytes) file nodes w.device
        ≡ (some bytes, next, d))

-- The result of `elf_load` on an image with a segment to load.
abbrev loaded : (ℕ → ℕ) → ℕ → Outcome (ElfLoadResult × (ℕ → ℕ))
loaded m buf =
    let s = loaded_image m buf in
    ok (
      record { entry = (read_ehdr m buf).e_entry; load_min = s.load_min; load_max = s.load_max },
      s.memory,
    )

loads :
    (buf buf_size : ℕ) (m : ℕ → ℕ)
    → IsImage buf buf_size m
    → (loaded_image m buf).loaded_any ≡ true
    → elf_load buf buf_size m ≡ some (loaded m buf)
loads buf buf_size m image any = elf_load_lem buf buf_size m image ∙ rw any refl

module _ {H D : Type 0} (calls : HeapCalls H) (driver : Driver D) where
  read_init-steps :
      (buf size : ℕ) (file next : VfsFile) (nodes : List VfsNode) (w : World H D) (bytes : List ℕ)
      (d : D) (r : Outcome (ElfLoadResult × (ℕ → ℕ)))
      → vfs_read driver size file nodes w.device ≡ (some bytes, next, d)
      → length bytes ≡ size
      → elf_load buf size (store_bytes buf bytes w.memory) ≡ some r
      → read_init calls driver buf file nodes size w
        ≡ some (
            act_on calls driver buf
              (record w { device = d; memory = store_bytes buf bytes w.memory })
              r)
  unfolding read_init
  read_init-steps buf size file next nodes w bytes d r read all run =
      let whole : not (length bytes == size) ≡ false = ground (arith, all) in
      rw (read_init, ap (λ t. t.0) read, ap (λ t. t.2) read, whole, run, ◌>>=◌) refl

  boot_init-steps :
      (nodes : List VfsNode) (w : World H D) (file : VfsFile) (buf : ℕ) (heap : H) (bytes : List ℕ)
      (d : D) (r : Outcome (ElfLoadResult × (ℕ → ℕ)))
      → IsRead calls driver nodes w file buf heap bytes d
      → elf_load buf (length bytes) (store_bytes buf bytes w.memory) ≡ some r
      → boot_init calls driver nodes w
        ≡ some (
            act_on calls driver buf
              (record { heap = heap; device = d; memory = store_bytes buf bytes w.memory })
              r)
  unfolding boot_init
  boot_init-steps nodes w file buf heap bytes d r is run =
      let fits : ((length bytes == 0) || ltb init_maxsz (length bytes)) ≡ false =
        ground (arith, is.some_size, is.limit) in
      let placed : (buf == 0) ≡ false = ground (arith, is.placed) in
      rw (boot_init, is.opens, is.size, is.allocated, fits, placed)
        (read_init-steps buf (length bytes) file is.reads.0 nodes (record w { heap = heap }) bytes d
          r is.reads.1 refl run)

  -- A well-formed image with a segment to load is loaded, but then `boot_init` frees the buffer and
  -- returns false: it takes the 0 of `elf_load` for a refusal, and never enters the program.
  pub boot_init-image :
      (nodes : List VfsNode) (w : World H D) (file : VfsFile) (buf : ℕ) (heap : H) (bytes : List ℕ)
      (d : D)
      → IsRead calls driver nodes w file buf heap bytes d
      → let m = store_bytes buf bytes w.memory in
        IsImage buf (length bytes) m
        → (loaded_image m buf).loaded_any ≡ true
        → boot_init calls driver nodes w
          ≡ some (
            returns_false,
            record {
              heap = calls.kfree buf heap;
              device = d;
              memory = (loaded_image m buf).memory;
            },
          )
  boot_init-image nodes w file buf heap bytes d is image any =
      let m = store_bytes buf bytes w.memory in
      boot_init-steps nodes w file buf heap bytes d (loaded m buf) is
        (loads buf (length bytes) m image any)

  -- An image whose header is refused is not loaded, and `boot_init` jumps to the entry point in a
  -- variable that nothing has set.
  boot_init-refused :
      (nodes : List VfsNode) (w : World H D) (file : VfsFile) (buf : ℕ) (heap : H) (bytes : List ℕ)
      (d : D)
      → IsRead calls driver nodes w file buf heap bytes d
      → let m = store_bytes buf bytes w.memory in
        52 ≤ length bytes
        → elf_check_header (wrapped m) buf ≡ false
        → boot_init calls driver nodes w
          ≡ some (jumps garbage, record { heap = heap; device = d; memory = m })
  boot_init-refused nodes w file buf heap bytes d is large refused =
      let m = store_bytes buf bytes w.memory in
      boot_init-steps nodes w file buf heap bytes d (failed m) is
        (elf_load-refused buf (length bytes) m large refused)

-- `sys_exec` of a file whose bytes are a well-formed image with a segment to load loads it and enters it
-- at the entry point of its header.
pub sys_exec-image :
    (fat32_read_file : List ℕ → ℕ → Option (List ℕ)) (buf : ℕ) (path bytes : List ℕ) (m : ℕ → ℕ)
    → fat32_read_file path elf_load_buf_size ≡ some bytes
    → let filled = store_bytes buf bytes m in
      IsImage buf (length bytes) filled
      → (loaded_image filled buf).loaded_any ≡ true
      → sys_exec fat32_read_file buf path m
        ≡ some (some (read_ehdr filled buf).e_entry, (loaded_image filled buf).memory)
unfolding sys_exec
sys_exec-image fat32_read_file buf path bytes m read image any =
    let filled = store_bytes buf bytes m in
    let run = loads buf (length bytes) filled image any in
    let more : (length bytes == 0) ≡ false = ground (arith, image.large) in
    rw (sys_exec, read, more, run, ◌>>=◌) refl
