-- ===== src/Userland/Pkg.antt =====
-- userland/pkg.c: the database of packages in a file of the table of kernel/vfs.c. An entry is the 100
-- bytes of its struct. The state is the nodes, the device behind them and the table of commands.
pub mod Store
pub mod Remove
mod Tests
use zythos.Base.{
  ℕ, zero, suc, ◌+◌, ◌-◌, ◌*◌, ◌/◌, ◌%◌, ◌^◌, ◌≤◌, ◌<◌, ◌≡◌, refl, sym, ap, ◌∙◌, ◌≢◌, ◌↔◌, ◌⊎◌, inl,
  inr, Bool, true, false, not, ◌&&◌, ◌||◌, Option, none, some, List, [], ◌∷◌, ◌++◌, map, arith, ltb,
  leb, ◌==◌, if◌then◌else◌, add32, ◌>>=◌, Bool-cases, Option-cases, ==_iff, ==-refl, length,
  get_elem?, get_or, set, take, drop, replicate, length-append, length-set, get_or-set_self,
  get_or-set_ne,
}
use zythos.Base.{str_eq}
use zythos.Kernel.Vfs.{VfsNode, VfsFile, Driver, vfs_exists, vfs_open, vfs_read, vfs_write}
use zythos.Userland.Register.{DynEntry, unregister_command}

abbrev pub pkg_max_entries : ℕ
pkg_max_entries = 64

-- `sizeof(pkg_entry_t)`: a name of 32 bytes, a path of 64 and a size of 4.
abbrev pub sizeof_entry : ℕ
sizeof_entry = 100

-- "/pkg/installed.db"
abbrev pub pkg_db_path : List ℕ
pkg_db_path =
    b'/' ∷ b'p' ∷ b'k' ∷ b'g' ∷ b'/' ∷ b'i' ∷ b'n' ∷ b's' ∷ b't' ∷ b'a' ∷ b'l' ∷ b'l' ∷ b'e' ∷ b'd'
    ∷ b'.' ∷ b'd' ∷ b'b' ∷ []

-- The string that starts an array.
abbrev pub c_string : List ℕ → List ℕ
c_string [] = []
c_string (c ∷ s) = if c == 0 then [] else c ∷ c_string s

-- The bytes of the entries, as they stand in the array.
abbrev pub joined : List (List ℕ) → List ℕ
joined [] = []
joined (e ∷ es) = e ++ joined es

-- The name of the first of the entries. A name of 32 bytes without a 0 is read on into the fields behind
-- it and the entries behind those; what stands behind the array is not modelled.
abbrev pub entry_name : List ℕ → List (List ℕ) → List ℕ
entry_name e es = c_string (joined (e ∷ es))

-- The index of the first entry of the name.
abbrev pub find_entry : List ℕ → List (List ℕ) → Option ℕ
find_entry name [] = none
find_entry name (e ∷ es) =
    let rest = find_entry name es in
    if str_eq (entry_name e es) name then some 0 else (rest >>= λ i. some (i + 1))

-- `for (i = found; i < count - 1; i++) entries[i] = entries[i + 1]; count--;`
abbrev pub remove_at : ℕ → List (List ℕ) → List (List ℕ)
remove_at i [] = []
remove_at zero (e ∷ es) = es
remove_at (suc i) (e ∷ es) = e ∷ remove_at i es

module _ {D : Type 0} (driver : Driver D) where
  -- The loop of `db_load`, with the rounds left.
  abbrev pub load_entries : ℕ → VfsFile → List VfsNode → D → List (List ℕ) × D
  load_entries zero file nodes d = ([], d)
  load_entries (suc n) file nodes d =
      let (got, next, e) = vfs_read driver sizeof_entry file nodes d in
      let rest = load_entries n next nodes e in
      elim got [
        | none ↦ ([], e)
        | some bytes ↦ if length bytes == sizeof_entry then (bytes ∷ rest.0, rest.1) else ([], e)
      ]

  pub db_load : ℕ → List VfsNode → D → List (List ℕ) × D
  db_load max nodes d =
      if not (vfs_exists pkg_db_path nodes) then ([], d) else elim (vfs_open pkg_db_path nodes).1 [
        | none ↦ ([], d)
        | some file ↦ load_entries max file nodes d
      ]

  -- The loop of `db_save`; `true` for 0.
  abbrev pub save_entries : List (List ℕ) → VfsFile → List VfsNode → D → Bool × List VfsNode × D
  save_entries [] file nodes d = (true, nodes, d)
  save_entries (e ∷ es) file nodes d =
      let (written, next, after, k) = vfs_write driver e file nodes d in
      let rest = save_entries es next after k in
      elim written [
        | none ↦ (false, after, k)
        | some n ↦ if n == sizeof_entry then rest else (false, after, k)
      ]

  pub db_save : List (List ℕ) → List VfsNode → D → Bool × List VfsNode × D
  db_save entries nodes d = elim (vfs_open pkg_db_path nodes).1 [
    | none ↦ (false, nodes, d)
    | some file ↦ save_entries entries file nodes d
  ]

  pub pkg_remove :
      List ℕ → List VfsNode → List DynEntry → D → Bool × List VfsNode × List DynEntry × D
  pkg_remove name nodes table d =
      let (entries, e) = db_load pkg_max_entries nodes d in
      elim (find_entry name entries) [
        | none ↦ (false, nodes, table, e)
        | some found ↦
            let (ret, after, k) = db_save (remove_at found entries) nodes e in
            (ret, after, (unregister_command name table).1, k)
      ]

  pub pkg_list : ℕ → List VfsNode → D → List (List ℕ) × D
  pkg_list max nodes d = db_load max nodes d
