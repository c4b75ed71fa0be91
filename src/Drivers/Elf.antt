-- ===== src/Drivers/Elf.antt =====
-- drivers/elf.h: the headers of an ELF file, read from the bytes of a memory, lowest byte first.
use zythos.Base.{◌%◌, ◌^◌, ℕ, ◌+◌, ◌*◌}

abbrev pub read_half : (ℕ → ℕ) → ℕ → ℕ
read_half m a = (m a + 256 * m (a + 1)) % 2 ^ 16

abbrev pub read_word : (ℕ → ℕ) → ℕ → ℕ
read_word m a = (m a + 256 * m (a + 1) + 65536 * m (a + 2) + 16777216 * m (a + 3)) % 2 ^ 32

-- `e_ident` is in the memory still; the fields that the loader does not read are left out.
pub record Elf32Ehdr : Type 0 where
  pub e_type : ℕ
  pub e_machine : ℕ
  pub e_entry : ℕ
  pub e_phoff : ℕ
  pub e_phentsize : ℕ
  pub e_phnum : ℕ

abbrev pub sizeof_ehdr : ℕ
sizeof_ehdr = 52

unfoldable pub read_ehdr : (ℕ → ℕ) → ℕ → Elf32Ehdr
read_ehdr m eh = record {
  e_type = read_half m (eh + 16);
  e_machine = read_half m (eh + 18);
  e_entry = read_word m (eh + 24);
  e_phoff = read_word m (eh + 28);
  e_phentsize = read_half m (eh + 42);
  e_phnum = read_half m (eh + 44);
}

pub record Elf32Phdr : Type 0 where
  pub p_type : ℕ
  pub p_offset : ℕ
  pub p_vaddr : ℕ
  pub p_filesz : ℕ
  pub p_memsz : ℕ

abbrev pub sizeof_phdr : ℕ
sizeof_phdr = 32

unfoldable pub read_phdr : (ℕ → ℕ) → ℕ → Elf32Phdr
read_phdr m ph = record {
  p_type = read_word m ph;
  p_offset = read_word m (ph + 4);
  p_vaddr = read_word m (ph + 8);
  p_filesz = read_word m (ph + 16);
  p_memsz = read_word m (ph + 20);
}

pub record ElfLoadResult : Type 0 where
  pub entry : ℕ
  pub load_min : ℕ
  pub load_max : ℕ
