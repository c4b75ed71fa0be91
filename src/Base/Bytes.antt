-- ===== src/Base/Bytes.antt =====
-- Loops over the bytes of a memory, which is a function from addresses to bytes.
use Prim.Native.Nat.{ℕ, zero, suc, ◌+◌, ◌-◌, ◌≤◌, ◌<◌}
use mathlib.Core.Path.{◌≡◌, refl, sym, ap, ◌∙◌}
use mathlib.Core.Logic.{◌⊎◌, inl, inr}
use mathlib.Core.Bool.{◌&&◌}
use mathlib.Core.List.{List}
use native.Mathlib.Omega.{arith}
use zythos.Base.Lists.{length, get_or}
use zythos.Base.Tests.{Bool-cases, leb, ltb, ◌==◌, if◌then◌else◌}

-- `for (i = 0; i < n; i++) dst[i] = src[i];`, with the rounds left and `i`.
unfoldable pub copy_bytes : ℕ → ℕ → ℕ → ℕ → (ℕ → ℕ) → ℕ → ℕ
copy_bytes zero i dst src m = m
copy_bytes (suc n) i dst src m =
    copy_bytes n (i + 1) dst src (λ a. if a == dst + i then m (src + i) else m a)

pub copy_bytes-outside :
    (n i dst src : ℕ) (m : ℕ → ℕ) (a : ℕ)
    → (a < dst + i) ⊎ (dst + i + n ≤ a)
    → copy_bytes n i dst src m a ≡ m a
unfolding copy_bytes
copy_bytes-outside zero i dst src m a out = refl
copy_bytes-outside (suc n) i dst src m a out =
    ground (
      arith,
      copy_bytes-outside n (i + 1) dst src (λ x. if x == dst + i then m (src + i) else m x) a,
    )

-- The regions do not overlap.
abbrev pub Apart : ℕ → ℕ → ℕ → Type 0
Apart n dst src = (dst + n ≤ src) ⊎ (src + n ≤ dst)

pub copy_bytes-inside :
    (n i j dst src : ℕ) (m : ℕ → ℕ)
    → j < n
    → Apart (i + n) dst src
    → copy_bytes n i dst src m (dst + (i + j)) ≡ m (src + (i + j))
unfolding copy_bytes
copy_bytes-inside zero i j dst src m lt apart = absurd (omega arith)
copy_bytes-inside (suc n) i zero dst src m lt apart =
    let e : i + 0 ≡ i = omega arith in
    rw e (copy_bytes-outside n (i + 1) dst src _ (dst + i) (inl (omega arith)) ∙ ground arith)
copy_bytes-inside (suc n) i (suc j) dst src m lt apart =
    let e : i + suc j ≡ i + 1 + j = omega arith in
    rw e (copy_bytes-inside n (i + 1) j dst src _ (omega arith) (ground arith) ∙ ground arith)

-- `for (i = 0; i < n; i++) dst[i] = value;`
unfoldable pub fill_bytes : ℕ → ℕ → ℕ → ℕ → (ℕ → ℕ) → ℕ → ℕ
fill_bytes zero i dst value m = m
fill_bytes (suc n) i dst value m =
    fill_bytes n (i + 1) dst value (λ a. if a == dst + i then value else m a)

pub fill_bytes_lem :
    (n i dst value : ℕ) (m : ℕ → ℕ) (a : ℕ)
    → fill_bytes n i dst value m a ≡ (if leb (dst + i) a && ltb a (dst + i + n) then value else m a)
unfolding fill_bytes
fill_bytes_lem zero i dst value m a = ground arith
fill_bytes_lem (suc n) i dst value m a =
    ground (arith, fill_bytes_lem n (i + 1) dst value (λ x. if x == dst + i then value else m x) a)

-- The copied bytes are those of the source, if the regions do not overlap.
pub copy_bytes_lem :
    (n dst src : ℕ) (m : ℕ → ℕ) (a : ℕ)
    → Apart n dst src
    → copy_bytes n 0 dst src m a
      ≡ (if leb dst a && ltb a (dst + n) then m (src + (a - dst)) else m a)
copy_bytes_lem n dst src m a apart = elim (Bool-cases (leb dst a && ltb a (dst + n))) [
  | inl inside ↦
      let here : dst + (0 + (a - dst)) ≡ a = ground (arith, inside) in
      let there : src + (0 + (a - dst)) ≡ src + (a - dst) = omega arith in
      rw inside (
        ap (copy_bytes n 0 dst src m) (sym here)
        ∙ copy_bytes-inside n 0 (a - dst) dst src m (ground (arith, inside)) (ground arith)
        ∙ ap m there)
  | inr outside ↦ rw outside (copy_bytes-outside n 0 dst src m a (ground (arith, outside)))
]

-- Memories with the same bytes are the same.
pub same_bytes : {m k : ℕ → ℕ} → ((a : ℕ) → m a ≡ k a) → m ≡ k
same_bytes same i a = same a i

-- The bytes are written from `a` on.
abbrev pub store_bytes : ℕ → List ℕ → (ℕ → ℕ) → ℕ → ℕ
store_bytes a bytes m x =
    if leb a x && ltb x (a + length bytes) then get_or bytes (x - a) 0 else m x
