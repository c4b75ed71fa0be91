-- ===== src/Net/Tcp/Frames.antt =====
-- The bytes of a frame of net/tcp.c by their places.
use zythos.Base.{
  ℕ, zero, suc, ◌+◌, ◌*◌, ◌/◌, ◌%◌, ◌≤◌, ◌<◌, ◌≡◌, refl, sym, ap, ◌∙◌, List, [], ◌∷◌, ◌++◌, arith,
  length, get_or,
}
use zythos.Net.Tcp.{hton16, slice}

pub get_or-append :
    (a b : List ℕ) (i fallback : ℕ) → get_or (a ++ b) (length a + i) fallback ≡ get_or b i fallback
get_or-append [] b i fallback = ap (λ j. get_or b j fallback) (omega arith)
get_or-append (x ∷ a) b i fallback =
    let next : suc (length a) + i ≡ suc (length a + i) = omega arith in
    rw next (get_or-append a b i fallback)

pub get_or-outside : (a : List ℕ) (i fallback : ℕ) → length a ≤ i → get_or a i fallback ≡ fallback
get_or-outside [] i fallback out = refl
get_or-outside (x ∷ a) zero fallback out = absurd (omega arith)
get_or-outside (x ∷ a) (suc i) fallback out = get_or-outside a i fallback (omega arith)

pub slice_over :
    (p : List ℕ) (k : ℕ) (f stale : ℕ → ℕ)
    → ((i : ℕ) → f (k + i) ≡ get_or p i (stale i))
    → slice (length p) k f ≡ p
slice_over [] k f stale same = refl
slice_over (x ∷ p) k f stale same =
    let zero_add : k + 0 ≡ k = omega arith in
    let first : f k ≡ x = ap f (sym zero_add) ∙ same 0 in
    let next : (i : ℕ) → k + 1 + i ≡ k + suc i = λ i. omega arith in
    rw (first, slice_over p (k + 1) f (λ i. stale (suc i)) (λ i. rw (next i) (same (suc i)))) refl

pub length-slice : (n k : ℕ) (f : ℕ → ℕ) → length (slice n k f) ≡ n
length-slice zero k f = refl
length-slice (suc n) k f = ap suc (length-slice n (k + 1) f)

pub get_or-slice : (n k : ℕ) (f : ℕ → ℕ) (i : ℕ) → i < n → get_or (slice n k f) i 0 ≡ f (k + i)
get_or-slice zero k f i below = absurd (omega arith)
get_or-slice (suc n) k f zero below = ap f (omega arith)
get_or-slice (suc n) k f (suc i) below =
    get_or-slice n (k + 1) f i (omega arith) ∙ ap f (omega arith)

pub hton16_twice : (n : ℕ) → n < 65536 → hton16 (hton16 n) ≡ n
hton16_twice n small = omega arith

-- The length in a header, sent with its higher byte first.
pub sent_half :
    (n : ℕ)
    → n < 65536
    → hton16 (hton16 (n % 65536) % 256 + 256 * (hton16 (n % 65536) / 256 % 256)) ≡ n
sent_half n small =
    let h = hton16 (n % 65536) in
    let whole : h % 256 + 256 * (h / 256 % 256) ≡ h = omega arith in
    let same : n % 65536 ≡ n = omega arith in
    ap hton16 (whole ∙ ap hton16 same) ∙ hton16_twice n small
