-- ===== src/Userland/Pkg/Tests.antt =====
-- The theorem on userland/pkg.c at a database of one package, "a".
use zythos.Base.{
  ℕ, ◌*◌, ◌/◌, ◌≡◌, refl, ap, true, some, List, [], ◌∷◌, ◌++◌, arith, length, get_or, set,
  replicate,
}
use zythos.Base.{str_eq, str_cmp}
use zythos.Kernel.Vfs.{VfsNode, Driver, vfs_lookup}
use zythos.Userland.Register.{unregister_command}
use zythos.Userland.Pkg.{pkg_db_path, pkg_remove, pkg_list}
use zythos.Userland.Pkg.Store.{IsStore}
use zythos.Userland.Pkg.Remove.{pkg_remove_lem}

-- A device that is the list of the entries.
abbrev store : Driver (List (List ℕ))
store = record {
  has_read = λ n. true;
  has_write = λ n. true;
  read = λ n offset size d. (some (get_or d (offset / 100) []), d);
  write = λ n offset bytes d. (some 100, set d (offset / 100) bytes);
}

abbrev db_node : VfsNode
db_node = record { name = pkg_db_path; size = 100; flags = 1; inode_id = 1; ops = 1 }

abbrev a_entry : List ℕ
a_entry = b'a' ∷ replicate 99 0

abbrev Same : List (List ℕ) → List (List ℕ) → Type 0
Same d es = d ≡ es

get_or-middle :
    (pre : List (List ℕ)) (e : List ℕ) (es : List (List ℕ))
    → get_or (pre ++ e ∷ es) (length pre) [] ≡ e
get_or-middle [] e es = refl
get_or-middle (p ∷ pre) e es = get_or-middle pre e es

set-middle :
    (pre : List (List ℕ)) (e f : List ℕ) (es : List (List ℕ))
    → set (pre ++ e ∷ es) (length pre) f ≡ pre ++ f ∷ es
set-middle [] e f es = refl
set-middle (p ∷ pre) e f es = ap (λ r. p ∷ r) (set-middle pre e f es)

store-IsStore : IsStore store db_node Same
store-IsStore = record {
  reads = λ pre e es d holds.
      let place : 100 * length pre / 100 ≡ length pre = omega arith in
      (d, rw (place, holds, get_or-middle pre e es) refl, holds);
  writes = λ pre e f es d whole holds.
      let place : 100 * length pre / 100 ≡ length pre = omega arith in
      (pre ++ f ∷ es, rw (place, holds, set-middle pre e f es) refl, refl);
}

pkg_remove_lem_example :
    (k : List (List ℕ)) × (pkg_remove store (b'a' ∷ []) (db_node ∷ []) [] (a_entry ∷ [])
      ≡ (true, db_node ∷ [], (unregister_command (b'a' ∷ []) []).1, k))
    × ((pkg_list store 64 (db_node ∷ []) k).0 ≡ a_entry ∷ [])
    × (length (pkg_list store 64 (db_node ∷ []) k).0 ≡ length (a_entry ∷ []))
unfolding vfs_lookup str_eq str_cmp
pkg_remove_lem_example =
    pkg_remove_lem store (db_node ∷ []) 0 Same (b'a' ∷ []) (a_entry ∷ []) [] 0 (a_entry ∷ []) refl
      (record {
        ops = λ e. absurd (omega (arith, e));
        has_read = refl;
        has_write = refl;
        size = omega arith;
        few = omega arith;
      })
      store-IsStore refl (refl, tt) refl
