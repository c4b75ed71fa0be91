-- ===== src/Userland/Pkg/Store.antt =====
-- The file of userland/pkg.c on a device that keeps what is written.
use mathlib.Core.Path.{subst}
use mathlib.Core.List.{append_assoc}
use zythos.Base.{
  ℕ, zero, suc, ◌+◌, ◌*◌, ◌≤◌, ◌<◌, ◌≡◌, refl, sym, ap, ◌∙◌, ◌≢◌, true, false, not, ◌||◌, Option,
  some, List, [], ◌∷◌, ◌++◌, arith, ltb, leb, ◌==◌, add32, length, get_or, drop, length-append,
}
use zythos.Kernel.Vfs.{VfsNode, VfsFile, no_node, Driver, vfs_read, vfs_write, clamp}
use zythos.Kernel.Vfs.Io.{IsReadable, read-steps, end-of-file}
use zythos.Userland.Pkg.{load_entries, save_entries}

abbrev pub AllEntries : List (List ℕ) → Type 0
AllEntries [] = Unit
AllEntries (e ∷ es) = (length e ≡ 100) × AllEntries es

-- A driver that reads and writes the entries of a file where they stand. `Holds d es` says that the
-- device has these entries in the file.
pub record IsStore {D : Type 0} (driver : Driver D) (node : VfsNode)
    (Holds : D → List (List ℕ) → Type 0) : Type 0 where
  pub reads :
      (pre : List (List ℕ)) (e : List ℕ) (es : List (List ℕ)) (d : D)
      → Holds d (pre ++ e ∷ es)
      → (k : D) × (driver.read node (100 * length pre) 100 d ≡ (some e, k))
        × Holds k (pre ++ e ∷ es)
  pub writes :
      (pre : List (List ℕ)) (e f : List ℕ) (es : List (List ℕ)) (d : D)
      → length f ≡ 100
      → Holds d (pre ++ e ∷ es)
      → (k : D) × (driver.write node (100 * length pre) f d ≡ (some 100, k))
        × Holds k (pre ++ f ∷ es)

-- The node of the file at an index, with its size.
pub record IsFile {D : Type 0} (driver : Driver D) (nodes : List VfsNode) (index n : ℕ)
    : Type 0 where
  pub ops : (get_or nodes index no_node).ops ≢ 0
  pub has_read : driver.has_read (get_or nodes index no_node) ≡ true
  pub has_write : driver.has_write (get_or nodes index no_node) ≡ true
  pub size : (get_or nodes index no_node).size ≡ 100 * n
  pub few : n ≤ 64

-- The open file at the entry behind `i` others.
abbrev pub at_entry : ℕ → ℕ → VfsFile
at_entry index i = record { node = index; offset = 100 * i; flags = 0 }

module _ {D : Type 0} (driver : Driver D) (nodes : List VfsNode) (index n : ℕ) where
  readable :
      IsFile driver nodes index n → (i : ℕ) → i ≤ n → IsReadable driver (at_entry index i) nodes
  readable is i below = record {
    ops = is.ops;
    reads = is.has_read;
    size = omega (arith, is.size, is.few);
    offset = omega (arith, is.size, below);
  }

  read-entry :
      (is : IsFile driver nodes index n) (i : ℕ) (e : List ℕ) (d k : D)
      → i < n
      → length e ≡ 100
      → driver.read (get_or nodes index no_node) (100 * i) 100 d ≡ (some e, k)
      → vfs_read driver 100 (at_entry index i) nodes d ≡ (some e, at_entry index (i + 1), k)
  read-entry is i e d k below whole got =
      let node = get_or nodes index no_node in
      let more : leb node.size (100 * i) ≡ false = ground (arith, is.size, below) in
      let asked : clamp driver (at_entry index i) node 100 ≡ 100 =
        ground (arith, is.size, is.few, below) in
      let next : add32 (100 * i) (length e) ≡ 100 * (i + 1) = omega (arith, whole, below, is.few) in
      read-steps driver 100 (at_entry index i) nodes d (readable is i (omega (arith, below))) more
      ∙ rw (asked, got, next) refl

  write-entry :
      (is : IsFile driver nodes index n) (i : ℕ) (f : List ℕ) (d k : D)
      → i < n
      → driver.write (get_or nodes index no_node) (100 * i) f d ≡ (some 100, k)
      → vfs_write driver f (at_entry index i) nodes d ≡ (some 100, at_entry index (i + 1), nodes, k)
  unfolding vfs_write
  write-entry is i f d k below put =
      let node = get_or nodes index no_node in
      let has : ((node.ops == 0) || not (driver.has_write node)) ≡ false =
        ground (arith, is.ops, is.has_write) in
      let next : add32 (100 * i) 100 ≡ 100 * (i + 1) = omega (arith, below, is.few) in
      let inside : ltb node.size (100 * (i + 1)) ≡ false = ground (arith, is.size, below) in
      rw (vfs_write, has, put, next, inside) refl

  -- The list with the entry moved to the front part.
  abbrev moved :
      (pre : List (List ℕ)) (e : List ℕ) (es : List (List ℕ))
      → (pre ++ e ∷ []) ++ es ≡ pre ++ e ∷ es
  moved pre e es = append_assoc pre (e ∷ []) es

  longer : (pre : List (List ℕ)) (e : List ℕ) → length (pre ++ e ∷ []) ≡ length pre + 1
  longer pre e = length-append pre (e ∷ []) ∙ refl

  load-step :
      (rounds : ℕ) (file next : VfsFile) (d k : D) (e : List ℕ)
      → vfs_read driver 100 file nodes d ≡ (some e, next, k)
      → length e ≡ 100
      → let rest = load_entries driver rounds next nodes k in
        load_entries driver (suc rounds) file nodes d ≡ (e ∷ rest.0, rest.1)
  load-step rounds file next d k e run whole =
      let size : (length e == 100) ≡ true = ground (arith, whole) in
      rw (load_entries, ap (λ t. t.0) run, size)
        (ap
          (λ (t : Option (List ℕ) × VfsFile × D).
            let rest = load_entries driver rounds t.1 nodes t.2 in (e ∷ rest.0, rest.1))
          run)

  save-step :
      (f : List ℕ) (fs : List (List ℕ)) (file next : VfsFile) (d k : D)
      → vfs_write driver f file nodes d ≡ (some 100, next, nodes, k)
      → save_entries driver (f ∷ fs) file nodes d ≡ save_entries driver fs next nodes k
  save-step f fs file next d k run =
      rw (save_entries, ap (λ t. t.0) run)
        (ap (λ (t : Option ℕ × VfsFile × List VfsNode × D). save_entries driver fs t.1 t.2 t.3) run)

  module _ (Holds : D → List (List ℕ) → Type 0) (is : IsFile driver nodes index n)
      (store : IsStore driver (get_or nodes index no_node) Holds) where
    pub load_entries_lem :
        (rounds : ℕ) (pre es : List (List ℕ)) (d : D)
        → Holds d (pre ++ es)
        → length pre + length es ≡ n
        → length es ≤ rounds
        → AllEntries es
        → (k : D) × (load_entries driver rounds (at_entry index (length pre)) nodes d ≡ (es, k))
          × Holds k (pre ++ es)
    load_entries_lem zero pre [] d holds count room all = (d, refl, holds)
    load_entries_lem zero pre (e ∷ es) d holds count room all = absurd (omega arith)
    load_entries_lem (suc rounds) pre [] d holds count room all =
        let over : leb (get_or nodes index no_node).size (100 * length pre) ≡ true =
          ground (arith, is.size, count) in
        let run =
          end-of-file driver 100 (at_entry index (length pre)) nodes d
            (readable is (length pre) (omega (arith, count))) over in
        (
          d,
          rw (load_entries, ap (λ t. t.0) run)
              (ap (λ (t : Option (List ℕ) × VfsFile × D). ([], t.2)) run),
          holds,
        )
    load_entries_lem (suc rounds) pre (e ∷ es) d holds count room (whole, all) =
        let (k, got, still) = store.reads pre e es d holds in
        let run = read-entry is (length pre) e d k (omega (arith, count)) whole got in
        let (after, rest, kept) =
          load_entries_lem rounds (pre ++ e ∷ []) es k
            (subst (Holds k) (sym (moved pre e es)) still) (omega (arith, count, longer pre e))
            (omega (arith, room)) all in
        let rest' : load_entries driver rounds (at_entry index (length pre + 1)) nodes k
            ≡ (es, after) =
          ap (λ i. load_entries driver rounds (at_entry index i) nodes k) (sym (longer pre e))
          ∙ rest in
        (
          after,
          load-step rounds (at_entry index (length pre)) (at_entry index (length pre + 1)) d k e run
                whole
              ∙ ap (λ (r : List (List ℕ) × D). (e ∷ r.0, r.1)) rest',
          subst (Holds after) (moved pre e es) kept,
        )

    pub save_entries_lem :
        (pre es fs : List (List ℕ)) (d : D)
        → Holds d (pre ++ es)
        → length pre + length es ≡ n
        → length fs ≤ length es
        → AllEntries fs
        → (k : D) × (save_entries driver fs (at_entry index (length pre)) nodes d
            ≡ (true, nodes, k))
          × Holds k (pre ++ (fs ++ drop (length fs) es))
    save_entries_lem pre es [] d holds count room all = (d, refl, holds)
    save_entries_lem pre [] (f ∷ fs) d holds count room all = absurd (omega arith)
    save_entries_lem pre (e ∷ es) (f ∷ fs) d holds count room (whole, all) =
        let (k, put, now) = store.writes pre e f es d whole holds in
        let run = write-entry is (length pre) f d k (omega (arith, count)) put in
        let (after, rest, kept) =
          save_entries_lem (pre ++ f ∷ []) es fs k (subst (Holds k) (sym (moved pre f es)) now)
            (omega (arith, count, longer pre f)) (omega (arith, room)) all in
        let rest' : save_entries driver fs (at_entry index (length pre + 1)) nodes k
            ≡ (true, nodes, after) =
          ap (λ i. save_entries driver fs (at_entry index i) nodes k) (sym (longer pre f)) ∙ rest in
        (
          after,
          save-step f fs (at_entry index (length pre)) (at_entry index (length pre + 1)) d k run
              ∙ rest',
          subst (Holds after) (moved pre f (fs ++ drop (length fs) es)) kept,
        )
