-- ===== src/Drivers/Tests.antt =====
-- The theorems on drivers/ at an image of 88 bytes with one segment.
use zythos.Base.{ℕ, ◌≤◌, ◌≡◌, refl, inr, some, List, [], ◌∷◌, arith, if◌then◌else◌}
use zythos.Base.{store_bytes}
use zythos.Drivers.Elf.{Elf32Phdr, read_ehdr, read_phdr, ElfLoadResult}
use zythos.Drivers.Loader.{Outcome, ok, failed, elf_check_header, elf_load}
use zythos.Drivers.Loader.Image.{IsImage, loaded_image, elf_load_lem}
use zythos.Drivers.Loader.Placed.{elf_load-segment}
use zythos.Drivers.Loader.Total.{elf_load-total}

-- The header, one program header, and four bytes of code, which go to 0x10000 and are followed by four
-- 0s there.
abbrev pub file : List ℕ
file =
    0x7f ∷ b'E' ∷ b'L' ∷ b'F' ∷ 1 ∷ 1 ∷ 1 ∷ 0 ∷ 0 ∷ 0 ∷ 0 ∷ 0 ∷ 0 ∷ 0 ∷ 0 ∷ 0 ∷ 2 ∷ 0 ∷ 3 ∷ 0 ∷ 1
    ∷ 0 ∷ 0 ∷ 0 ∷ 0 ∷ 0 ∷ 1 ∷ 0 ∷ 52 ∷ 0 ∷ 0 ∷ 0 ∷ 0 ∷ 0 ∷ 0 ∷ 0 ∷ 0 ∷ 0 ∷ 0 ∷ 0 ∷ 52 ∷ 0 ∷ 32 ∷ 0
    ∷ 1 ∷ 0 ∷ 0 ∷ 0 ∷ 0 ∷ 0 ∷ 0 ∷ 0 ∷ 1 ∷ 0 ∷ 0 ∷ 0 ∷ 84 ∷ 0 ∷ 0 ∷ 0 ∷ 0 ∷ 0 ∷ 1 ∷ 0 ∷ 0 ∷ 0 ∷ 1 ∷ 0
    ∷ 4 ∷ 0 ∷ 0 ∷ 0 ∷ 8 ∷ 0 ∷ 0 ∷ 0 ∷ 5 ∷ 0 ∷ 0 ∷ 0 ∷ 0 ∷ 16 ∷ 0 ∷ 0 ∷ 0x90 ∷ 0x90 ∷ 0xeb ∷ 0xfe
    ∷ []

abbrev code : Elf32Phdr
code = record { p_type = 1; p_offset = 84; p_vaddr = 0x10000; p_filesz = 4; p_memsz = 8 }

-- The file stands at 4096.
abbrev pub image : ℕ → ℕ
image = store_bytes 4096 file (λ _. 7)

pub image-IsImage : IsImage 4096 88 image
unfolding elf_check_header read_ehdr read_phdr
image-IsImage = record {
  large = omega arith;
  small = omega arith;
  inside = omega arith;
  accepted = refl;
  entsize = refl;
  table = omega arith;
  placeable = (
    (λ _. record {
      in_file = omega arith;
      not_larger = omega arith;
      below = omega arith;
      beside = inr (omega arith);
    }),
    tt,
  );
}

elf_load-segment_example :
    (r : ElfLoadResult) × (k : ℕ → ℕ) × (elf_load 4096 88 image ≡ some (ok (r, k)))
    × (r.entry ≡ 0x10000)
    × (k 0x10002 ≡ 0xeb)
    × (r.load_min ≤ 0x10000)
    × (0x10008 ≤ r.load_max)
unfolding read_ehdr read_phdr
elf_load-segment_example =
    elf_load-segment 4096 88 2 image [] code [] image-IsImage refl refl (omega arith) tt

elf_load_lem_example :
    let s = loaded_image image 4096 in
    elf_load 4096 88 image
    ≡ some (
        if s.loaded_any
        then ok (
          record {
            entry = (read_ehdr image 4096).e_entry;
            load_min = s.load_min;
            load_max = s.load_max;
          },
          s.memory,
        )
        else failed s.memory)
elf_load_lem_example = elf_load_lem 4096 88 image image-IsImage

elf_load-total_example : (r : Outcome (ElfLoadResult × (ℕ → ℕ))) × (elf_load 4096 88 image ≡ some r)
elf_load-total_example = elf_load-total 4096 88 image
