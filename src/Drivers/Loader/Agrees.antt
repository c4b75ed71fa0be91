-- ===== src/Drivers/Loader/Agrees.antt =====
-- Memories that hold the same image, and what drivers/loader.c reads of it.
use zythos.Base.{ℕ, ◌+◌, ◌%◌, ◌^◌, ◌≤◌, ◌<◌, ◌≡◌, refl, ap, ◌∙◌, arith}
use zythos.Drivers.Elf.{read_half, read_word, read_ehdr, read_phdr}
use zythos.Drivers.Loader.{wrapped, header_at, elf_check_header}

-- The memory holds the image of `m`.
abbrev pub Agree : ℕ → ℕ → (ℕ → ℕ) → (ℕ → ℕ) → Type 0
Agree buf buf_size m k = (a : ℕ) → buf ≤ a → a < buf + buf_size → k a ≡ m a

half_agrees :
    (buf buf_size : ℕ) {m k : ℕ → ℕ} (a : ℕ)
    → Agree buf buf_size m k
    → buf ≤ a
    → a + 2 ≤ buf + buf_size
    → read_half k a ≡ read_half m a
half_agrees buf buf_size a same low high =
    rw (same a low (omega arith), same (a + 1) (omega arith) (omega arith)) refl

word_agrees :
    (buf buf_size : ℕ) {m k : ℕ → ℕ} (a : ℕ)
    → Agree buf buf_size m k
    → buf ≤ a
    → a + 4 ≤ buf + buf_size
    → read_word k a ≡ read_word m a
word_agrees buf buf_size a same low high =
    rw
      (
        same a low (omega arith),
        same (a + 1) (omega arith) (omega arith),
        same (a + 2) (omega arith) (omega arith),
        same (a + 3) (omega arith) (omega arith),
      )
      refl

pub ehdr_agrees :
    (buf buf_size : ℕ) {m k : ℕ → ℕ}
    → Agree buf buf_size m k
    → 52 ≤ buf_size
    → read_ehdr k buf ≡ read_ehdr m buf
unfolding read_ehdr
ehdr_agrees buf buf_size same large =
    rw
      (
        half_agrees buf buf_size (buf + 16) same (omega arith) (omega arith),
        half_agrees buf buf_size (buf + 18) same (omega arith) (omega arith),
        word_agrees buf buf_size (buf + 24) same (omega arith) (omega arith),
        word_agrees buf buf_size (buf + 28) same (omega arith) (omega arith),
        half_agrees buf buf_size (buf + 42) same (omega arith) (omega arith),
        half_agrees buf buf_size (buf + 44) same (omega arith) (omega arith),
      )
      refl

pub phdr_agrees :
    (buf buf_size : ℕ) {m k : ℕ → ℕ} (a : ℕ)
    → Agree buf buf_size m k
    → buf ≤ a
    → a + 32 ≤ buf + buf_size
    → read_phdr k a ≡ read_phdr m a
unfolding read_phdr
phdr_agrees buf buf_size a same low high =
    rw
      (
        word_agrees buf buf_size a same low (omega arith),
        word_agrees buf buf_size (a + 4) same (omega arith) (omega arith),
        word_agrees buf buf_size (a + 8) same (omega arith) (omega arith),
        word_agrees buf buf_size (a + 16) same (omega arith) (omega arith),
        word_agrees buf buf_size (a + 20) same (omega arith) (omega arith),
      )
      refl

-- An image below 4 GiB is the same through pointers of 32 bits.
pub wrapped-Agree :
    (buf buf_size : ℕ) {m k : ℕ → ℕ}
    → Agree buf buf_size m k
    → buf + buf_size ≤ 2 ^ 32
    → Agree buf buf_size m (wrapped k)
wrapped-Agree buf buf_size {m} {k} same inside x from to =
    let short : x % 2 ^ 32 ≡ x = omega (arith, inside, to) in ap k short ∙ same x from to

pub header_at_lem :
    (buf buf_size : ℕ) {m k : ℕ → ℕ} (a : ℕ)
    → Agree buf buf_size m k
    → buf + buf_size ≤ 2 ^ 32
    → buf ≤ a
    → a + 32 ≤ buf + buf_size
    → header_at a k ≡ read_phdr m a
header_at_lem buf buf_size a same inside low high =
    phdr_agrees buf buf_size a (wrapped-Agree buf buf_size same inside) low high

pub check_agrees :
    (buf buf_size : ℕ) {m k : ℕ → ℕ}
    → Agree buf buf_size m k
    → 52 ≤ buf_size
    → elf_check_header k buf ≡ elf_check_header m buf
unfolding elf_check_header
check_agrees buf buf_size {m} {k} same large =
    let eh = ehdr_agrees buf buf_size same large in
    rw
      (
        elf_check_header,
        eh,
        same buf (omega arith) (omega arith),
        same (buf + 1) (omega arith) (omega arith),
        same (buf + 2) (omega arith) (omega arith),
        same (buf + 3) (omega arith) (omega arith),
        same (buf + 4) (omega arith) (omega arith),
        same (buf + 5) (omega arith) (omega arith),
      )
      refl
