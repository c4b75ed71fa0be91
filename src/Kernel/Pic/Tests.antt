-- ===== src/Kernel/Pic/Tests.antt =====
-- The masks of kernel/pic.c on registers that read back what was written.
use zythos.Base.{◌≡◌, refl, true, not, ◌&&◌, ◌||◌, [], arith, ◌==◌}
use zythos.Ports.{Machine, last_written}
use zythos.Kernel.Pic.{pic_remap, pic_set_mask, pic_clear_mask}
use zythos.Kernel.Pic.Masks.{IsReadBack, is_masked, masks_lem}

abbrev registers : Machine
registers = λ port io. last_written 0xB8 port io

registers-IsReadBack : IsReadBack registers (λ port. 0xB8)
registers-IsReadBack = record { first = λ io. refl; second = λ io. refl }

masks_lem_example :
    (is_masked registers 12 (pic_set_mask registers 9 [])
      ≡ ((9 == 12) || is_masked registers 12 []))
    × (is_masked registers 12 (pic_clear_mask registers 9 [])
        ≡ (not (9 == 12) && is_masked registers 12 []))
    × (is_masked registers 12 (pic_remap registers []) ≡ is_masked registers 12 [])
masks_lem_example =
    masks_lem registers (λ port. 0xB8) registers-IsReadBack 9 12 [] (omega arith) (omega arith)

keyboard_masked : is_masked registers 1 (pic_set_mask registers 1 (pic_remap registers [])) ≡ true
unfolding pic_remap pic_set_mask
keyboard_masked = refl
