-- ===== src/Kernel/Boot/Tests.antt =====
-- The theorems on `boot_init` and `sys_exec` with a file system of one file.
use zythos.Base.{str_cmp, ℕ, ◌+◌, refl, true, false, none, some, List, [], ◌∷◌, arith}
use zythos.Base.{str_cmp}
use zythos.Drivers.Tests.{file}
use zythos.Kernel.Vfs.{VfsNode, VfsFile, Driver, vfs_open, vfs_read, vfs_lookup}
use zythos.Mm.Calls.{HeapCalls}
use zythos.Kernel.Boot.{init_path, World}
use zythos.Kernel.Boot.Entered.{IsRead}

-- A heap that hands out the memory from its state on.
abbrev calls : HeapCalls ℕ
calls = record { kmalloc = λ size next. (next, next + size); kfree = λ p next. p }

-- A driver whose only file is `bytes`.
abbrev driver_of : List ℕ → Driver Unit
driver_of bytes = record {
  has_read = λ n. true;
  has_write = λ n. false;
  read = λ n offset size d. (some bytes, d);
  write = λ n offset b d. (none, d);
}

abbrev nodes_of : ℕ → List VfsNode
nodes_of size = record { name = init_path; size = size; flags = 1; inode_id = 1; ops = 1 } ∷ []

abbrev init_file : VfsFile
init_file = record { node = 0; offset = 0; flags = 0 }

abbrev start : World ℕ Unit
start = record { heap = 4096; device = tt; memory = λ _. 7 }

file-IsRead : IsRead calls (driver_of file) (nodes_of 88) start init_file 4096 4184 file tt
unfolding vfs_open vfs_lookup vfs_read str_cmp
file-IsRead = record {
  opens = refl;
  some_size = omega arith;
  limit = omega arith;
  size = refl;
  allocated = refl;
  placed = λ e. absurd (omega (arith, e));
  reads = (record { node = 0; offset = 88; flags = 0 }, refl);
}
