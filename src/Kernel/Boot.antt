-- ===== src/Kernel/Boot.antt =====
-- `boot_init` of kernel/main.c, and `sys_exec` of userland/syscall.c: an image is read into a buffer,
-- given to `elf_load`, and entered. The heap and the drivers are parameters; the log lines are left out.
pub mod Entered
mod Tests
use zythos.Base.{
  ℕ, zero, suc, ◌+◌, ◌-◌, ◌*◌, ◌/◌, ◌%◌, ◌^◌, ◌≤◌, ◌<◌, ◌≡◌, refl, sym, ap, ◌∙◌, ◌≢◌, ◌↔◌, ◌⊎◌, inl,
  inr, Bool, true, false, not, ◌&&◌, ◌||◌, Option, none, some, List, [], ◌∷◌, ◌++◌, map, arith, ltb,
  leb, ◌==◌, if◌then◌else◌, add32, ◌>>=◌, Bool-cases, Option-cases, ==_iff, ==-refl, length,
  get_elem?, get_or, set, take, drop, replicate, length-append, length-set, get_or-set_self,
  get_or-set_ne,
}
use zythos.Base.{store_bytes}
use zythos.Drivers.Elf.{ElfLoadResult}
use zythos.Drivers.Loader.{Outcome, ok, failed, elf_load}
use zythos.Mm.Calls.{HeapCalls}
use zythos.Kernel.Vfs.{VfsCode, vfs_ok, VfsNode, VfsFile, no_node, Driver, vfs_open, vfs_read}

-- "/init.elf"
abbrev pub init_path : List ℕ
init_path = b'/' ∷ b'i' ∷ b'n' ∷ b'i' ∷ b't' ∷ b'.' ∷ b'e' ∷ b'l' ∷ b'f' ∷ []

abbrev pub init_maxsz : ℕ
init_maxsz = 1 * 1024 * 1024

-- How the functions go on: they return, or they jump to an entry point. `garbage` is the value of a
-- variable that has not been set.
pub data Entry : Type 0 where
  entered : ℕ → Entry
  garbage : Entry

pub data BootResult : Type 0 where
  returns_false : BootResult
  jumps : Entry → BootResult

-- What `boot_init` changes.
pub record World (H D : Type 0) : Type 0 where
  pub heap : H
  pub device : D
  pub memory : ℕ → ℕ

module _ {H D : Type 0} (calls : HeapCalls H) (driver : Driver D) where
  -- From the result of `elf_load` on. The code takes the result 0 for a refusal.
  abbrev pub act_on : ℕ → World H D → Outcome (ElfLoadResult × (ℕ → ℕ)) → BootResult × World H D
  act_on buf w (ok (res, m)) =
      (returns_false, record w { heap = calls.kfree buf w.heap; memory = m })
  act_on buf w (failed m) = (jumps garbage, record w { memory = m })

  -- From the read of the file on.
  pub read_init : ℕ → VfsFile → List VfsNode → ℕ → World H D → Option (BootResult × World H D)
  read_init buf file nodes size w =
      let (got, _, d) = vfs_read driver size file nodes w.device in
      elim got [
        | none ↦ some (returns_false, record w { device = d; heap = calls.kfree buf w.heap })
        | some bytes ↦
            let after = record w { device = d; memory = store_bytes buf bytes w.memory } in
            let run = elf_load buf size after.memory in
            if not (length bytes == size)
            then some (returns_false, record after { heap = calls.kfree buf w.heap })
            else (run >>= λ r. some (act_on buf after r))
      ]

  pub boot_init : List VfsNode → World H D → Option (BootResult × World H D)
  boot_init nodes w = elim (vfs_open init_path nodes).1 [
    | none ↦ some (returns_false, w)
    | some file ↦
        let size = (get_or nodes file.node no_node).size in
        let (buf, heap) = calls.kmalloc size w.heap in
        let allocated = record w { heap = heap } in
        if (size == 0) || ltb init_maxsz size
        then some (returns_false, w)
        else if buf == 0
        then some (returns_false, allocated)
        else read_init buf file nodes size allocated
  ]

-- `sys_exec`: the buffer is the kernel's own, and `fat32_read_file` gives the bytes of the file, if any.
-- The result -1 is `none`.
abbrev pub elf_load_buf_size : ℕ
elf_load_buf_size = 256 * 1024

abbrev pub exec_result : Outcome (ElfLoadResult × (ℕ → ℕ)) → Option ℕ × (ℕ → ℕ)
exec_result (ok (res, m)) = (some res.entry, m)
exec_result (failed m) = (none, m)

pub sys_exec : (List ℕ → ℕ → Option (List ℕ)) → ℕ → List ℕ → (ℕ → ℕ) → Option (Option ℕ × (ℕ → ℕ))
sys_exec fat32_read_file g_elf_load_buf path m = elim (fat32_read_file path elf_load_buf_size) [
  | none ↦ some (none, m)
  | some bytes ↦
      let filled = store_bytes g_elf_load_buf bytes m in
      let run = elf_load g_elf_load_buf (length bytes) filled in
      if length bytes == 0 then some (none, m) else (run >>= λ r. some (exec_result r))
]
