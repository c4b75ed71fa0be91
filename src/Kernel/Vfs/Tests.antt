-- ===== src/Kernel/Vfs/Tests.antt =====
-- The theorems on kernel/vfs.c at small tables.
use zythos.Base.{
  ℕ, zero, suc, ◌≤◌, ◌≡◌, refl, sym, ap, true, false, none, some, List, [], ◌∷◌, arith, length,
  replicate,
}
use mathlib.Core.Option.{some-injective}
use zythos.Base.{IsText}
use zythos.Kernel.Vfs.{VfsNode, VfsFile, Driver, vfs_read}
use zythos.Kernel.Vfs.Names.{IsTable}
use zythos.Kernel.Vfs.Io.{IsHonest, IsReadable, vfs_read_lem}

-- "/a", with 10 bytes.
abbrev node : VfsNode
node = record { name = b'/' ∷ b'a' ∷ []; size = 10; flags = 1; inode_id = 1; ops = 5 }

nodes-IsTable : IsTable (node ∷ [])
nodes-IsTable = record {
  room = omega arith;
  named = (
    (((λ e. absurd (omega (arith, e))), ((λ e. absurd (omega (arith, e))), tt)), omega arith),
    tt,
  );
}

abbrev other : List ℕ
other = b'/' ∷ b'b' ∷ []

other-IsText : IsText other
other-IsText = ((λ e. absurd (omega (arith, e))), ((λ e. absurd (omega (arith, e))), tt))

abbrev ones_of : ℕ → List ℕ
ones_of n = replicate n 1

-- A driver for a file of 1s.
abbrev ones : Driver Unit
ones = record {
  has_read = λ n. true;
  has_write = λ n. false;
  read = λ n offset size d. (some (ones_of size), d);
  write = λ n offset bytes d. (none, d);
}

length-replicate : (n : ℕ) → length (ones_of n) ≡ n
length-replicate zero = refl
length-replicate (suc n) = ap suc (length-replicate n)

ones-IsHonest : IsHonest ones
ones-IsHonest = record {
  bounded = λ n offset size d bytes e.
      rw (sym (some-injective _ _ e), length-replicate size) (omega arith);
}

-- The file "/a" after 4 bytes.
abbrev opened : VfsFile
opened = record { node = 0; offset = 4; flags = 0 }

vfs_read_lem_example :
    let after = (vfs_read ones 20 opened (node ∷ []) tt).1 in
    (6 ≤ 20) × (10 ≤ 10) × (after.offset ≡ 10) × IsReadable ones after (node ∷ [])
unfolding vfs_read
vfs_read_lem_example =
    vfs_read_lem ones 20 opened (node ∷ []) tt (ones_of 6) ones-IsHonest
      (record {
        ops = λ e. absurd (omega (arith, e));
        reads = refl;
        size = omega arith;
        offset = omega arith;
      })
      (omega arith) refl
