-- ===== src/Userland/Pkg/Remove.antt =====
-- `pkg_remove` of userland/pkg.c.
use mathlib.Core.Path.{subst}
use mathlib.Core.Option.{some-injective}
use zythos.Base.{Bool, str_eq}
use zythos.Base.{
  str_eq, ℕ, zero, suc, ◌+◌, ◌-◌, ◌≤◌, ◌<◌, ◌≡◌, refl, sym, ap, ◌∙◌, inl, inr, Bool, true, some,
  List, [], ◌∷◌, ◌++◌, arith, ◌>>=◌, Bool-cases, Option-cases, length, get_or, drop, length-append,
}
use zythos.Kernel.Vfs.{VfsNode, no_node, Driver, vfs_exists, vfs_open, vfs_lookup}
use zythos.Userland.Register.{DynEntry, unregister_command}
use zythos.Userland.Pkg.{
  entry_name, pkg_db_path, entry_name, find_entry, remove_at, db_load, db_save, pkg_remove,
  pkg_list,
}
use zythos.Userland.Pkg.Store.{
  AllEntries, IsStore, IsFile, at_entry, load_entries_lem, save_entries_lem,
}

length-remove_at :
    (i : ℕ) (es : List (List ℕ)) → i < length es → length (remove_at i es) + 1 ≡ length es
length-remove_at i [] below = absurd (omega arith)
length-remove_at zero (e ∷ es) below = omega arith
length-remove_at (suc i) (e ∷ es) below = omega (arith, length-remove_at i es (omega arith))

find_entry-below :
    (name : List ℕ) (es : List (List ℕ)) (i : ℕ) → find_entry name es ≡ some i → i < length es
find_entry-below name [] i found = absurd (cc found)
find_entry-below name (e ∷ es) i found = elim (Bool-cases (str_eq (entry_name e es) name)) [
  | inl here ↦ omega (arith, some-injective _ _ (rw here at found))
  | inr away ↦ elim (Option-cases (find_entry name es)) [
    | inl nowhere ↦ absurd (cc (rw (away, nowhere, ◌>>=◌) at found))
    | inr (j, rest) ↦ omega (
      arith,
      some-injective _ _ (rw (away, rest, ◌>>=◌) at found),
      find_entry-below name es j rest,
    )
  ]
]

remove_at-AllEntries : (i : ℕ) (es : List (List ℕ)) → AllEntries es → AllEntries (remove_at i es)
remove_at-AllEntries i [] all = tt
remove_at-AllEntries zero (e ∷ es) all = all.1
remove_at-AllEntries (suc i) (e ∷ es) all = (all.0, remove_at-AllEntries i es all.1)

length-drop : (i : ℕ) (es : List (List ℕ)) → i ≤ length es → length (drop i es) + i ≡ length es
length-drop zero es below = omega arith
length-drop (suc i) [] below = absurd (omega arith)
length-drop (suc i) (e ∷ es) below = omega (arith, length-drop i es (omega arith))

drop-AllEntries : (i : ℕ) (es : List (List ℕ)) → AllEntries es → AllEntries (drop i es)
drop-AllEntries zero es all = all
drop-AllEntries (suc i) [] all = tt
drop-AllEntries (suc i) (e ∷ es) all = drop-AllEntries i es all.1

append-AllEntries : (es fs : List (List ℕ)) → AllEntries es → AllEntries fs → AllEntries (es ++ fs)
append-AllEntries [] fs all all' = all'
append-AllEntries (e ∷ es) fs (this, all) all' = (this, append-AllEntries es fs all all')

module _ {D : Type 0} (driver : Driver D) (nodes : List VfsNode) (index : ℕ)
    (Holds : D → List (List ℕ) → Type 0) where
  opens :
      vfs_lookup pkg_db_path nodes ≡ some index
      → (vfs_open pkg_db_path nodes).1 ≡ some (at_entry index 0)
  unfolding vfs_open
  opens found = rw (vfs_open, found) refl

  exists : vfs_lookup pkg_db_path nodes ≡ some index → vfs_exists pkg_db_path nodes ≡ true
  unfolding vfs_exists
  exists found = rw (vfs_exists, found) refl

  db_load_lem :
      (es : List (List ℕ)) (d : D)
      → vfs_lookup pkg_db_path nodes ≡ some index
      → IsFile driver nodes index (length es)
      → IsStore driver (get_or nodes index no_node) Holds
      → Holds d es
      → AllEntries es
      → (k : D) × (db_load driver 64 nodes d ≡ (es, k)) × Holds k es
  unfolding db_load
  db_load_lem es d found is store holds all =
      let (k, run, still) =
        load_entries_lem driver nodes index (length es) Holds is store 64 [] es d holds
          (omega arith) is.few all in
      (k, rw (db_load, exists found, opens found) run, still)

  db_save_lem :
      (es fs : List (List ℕ)) (d : D)
      → vfs_lookup pkg_db_path nodes ≡ some index
      → IsFile driver nodes index (length es)
      → IsStore driver (get_or nodes index no_node) Holds
      → Holds d es
      → AllEntries fs
      → length fs ≤ length es
      → (k : D) × (db_save driver fs nodes d ≡ (true, nodes, k))
        × Holds k (fs ++ drop (length fs) es)
  unfolding db_save
  db_save_lem es fs d found is store holds all room =
      let (k, run, now) =
        save_entries_lem driver nodes index (length es) Holds is store [] es fs d holds
          (omega arith) room all in
      (k, rw (db_save, opens found) run, now)

  remove-steps :
      (name : List ℕ) (es : List (List ℕ)) (table : List DynEntry) (i : ℕ) (d e k : D)
      → db_load driver 64 nodes d ≡ (es, e)
      → find_entry name es ≡ some i
      → db_save driver (remove_at i es) nodes e ≡ (true, nodes, k)
      → pkg_remove driver name nodes table d ≡ (true, nodes, (unregister_command name table).1, k)
  unfolding pkg_remove
  remove-steps name es table i d e k loaded found saved =
      let left = (unregister_command name table).1 in
      rw (pkg_remove, ap (λ t. t.0) loaded, found)
        (ap
            (λ (t : List (List ℕ) × D).
              let r = db_save driver (remove_at i t.0) nodes t.1 in (r.0, r.1, left, r.2))
            loaded
          ∙ ap (λ (r : Bool × List VfsNode × D). (r.0, r.1, left, r.2)) saved)

  -- On a device that keeps what is written, with a database of at most 64 whole entries: `pkg_remove` of
  -- a name that is in it returns 0, but the file keeps its size, so `pkg_list` afterwards gives the
  -- entries without the one removed and then the last entry of before a second time. There are as many
  -- as before, and the last package cannot be removed.
  pub pkg_remove_lem :
      (name : List ℕ) (es : List (List ℕ)) (table : List DynEntry) (i : ℕ) (d : D)
      → vfs_lookup pkg_db_path nodes ≡ some index
      → IsFile driver nodes index (length es)
      → IsStore driver (get_or nodes index no_node) Holds
      → Holds d es
      → AllEntries es
      → find_entry name es ≡ some i
      → (k : D) × (pkg_remove driver name nodes table d
          ≡ (true, nodes, (unregister_command name table).1, k))
        × ((pkg_list driver 64 nodes k).0 ≡ remove_at i es ++ drop (length es - 1) es)
        × (length (pkg_list driver 64 nodes k).0 ≡ length es)
  unfolding pkg_list
  pkg_remove_lem name es table i d found is store holds all hit =
      let fs = remove_at i es in
      let fewer = length-remove_at i es (find_entry-below name es i hit) in
      let left : length es - 1 ≡ length fs = omega (arith, fewer) in
      let (e, loaded, same) = db_load_lem es d found is store holds all in
      let (k, saved, now) =
        db_save_lem es fs e found is store same (remove_at-AllEntries i es all)
          (omega (arith, fewer)) in
      let after = fs ++ drop (length fs) es in
      let size : length es ≡ length after = omega (
        arith,
        length-append fs (drop (length fs) es),
        length-drop (length fs) es (omega (arith, fewer)),
      ) in
      let (_, listed, _) =
        db_load_lem after k found (subst (IsFile driver nodes index) size is) store now (
          append-AllEntries fs (drop (length fs) es) (remove_at-AllEntries i es all)
            (drop-AllEntries (length fs) es all)) in
      (
        k,
        remove-steps name es table i d e k loaded hit saved,
        ap (λ r. r.0) listed ∙ ap (λ n. fs ++ drop n es) (sym left),
        ap (λ (r : List (List ℕ) × D). length r.0) listed ∙ sym size,
      )
