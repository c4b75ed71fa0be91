-- ===== src/Kernel/Pic.antt =====
-- kernel/pic.c: the set-up and the masks of the two interrupt controllers, on their ports. `pic_send_eoi`
-- is in Kernel.KeyboardIrq.
pub mod Masks
mod Tests
use zythos.Base.{
  ℕ, zero, suc, ◌+◌, ◌-◌, ◌*◌, ◌/◌, ◌%◌, ◌^◌, ◌≤◌, ◌<◌, ◌≡◌, refl, sym, ap, ◌∙◌, ◌≢◌, ◌↔◌, ◌⊎◌, inl,
  inr, Bool, true, false, not, ◌&&◌, ◌||◌, Option, none, some, List, [], ◌∷◌, ◌++◌, map, arith, ltb,
  leb, ◌==◌, if◌then◌else◌, add32, ◌>>=◌, Bool-cases, Option-cases, ==_iff, ==-refl, length,
  get_elem?, get_or, set, take, drop, replicate, length-append, length-set, get_or-set_self,
  get_or-set_ne,
}
use zythos.Ports.{Accesses, Machine, inb, outb}
use zythos.Input.Flags.{set_flag, clear_flag}

abbrev pub pic1_cmd : ℕ
pic1_cmd = 0x20

abbrev pub pic1_data : ℕ
pic1_data = 0x21

abbrev pub pic2_cmd : ℕ
pic2_cmd = 0xA0

abbrev pub pic2_data : ℕ
pic2_data = 0xA1

pub pic_remap : Machine → Accesses → Accesses
pic_remap machine io =
    let (mask1, read1) = inb machine pic1_data io in
    let (mask2, read2) = inb machine pic2_data read1 in
    outb pic2_data mask2 (
      outb pic1_data mask1 (
        outb pic2_data 0x01 (
          outb pic1_data 0x01 (
            outb pic2_data 0x02 (
              outb pic1_data 0x04 (
                outb pic2_data 0x28
                  (outb pic1_data 0x20 (outb pic2_cmd 0x11 (outb pic1_cmd 0x11 read2)))))))))

abbrev pub data_port : ℕ → ℕ
data_port irq = if ltb irq 8 then pic1_data else pic2_data

-- `1 << bit`, where `irq` is below 16
abbrev pub bit_flag : ℕ → ℕ
bit_flag irq = 2 ^ (if ltb irq 8 then irq else irq - 8)

pub pic_set_mask : Machine → ℕ → Accesses → Accesses
pic_set_mask machine irq io =
    let (value, read) = inb machine (data_port irq) io in
    outb (data_port irq) (set_flag (bit_flag irq) value) read

pub pic_clear_mask : Machine → ℕ → Accesses → Accesses
pic_clear_mask machine irq io =
    let (value, read) = inb machine (data_port irq) io in
    outb (data_port irq) (clear_flag (bit_flag irq) value) read
