-- ===== src/Fs.antt =====
-- fs/fat32/core.c with the boot sector of fat32.h, on devices that are a parameter.
pub mod Mount
mod Tests
use zythos.Base.{
  ℕ, zero, suc, ◌+◌, ◌-◌, ◌*◌, ◌/◌, ◌%◌, ◌^◌, ◌≤◌, ◌<◌, ◌≡◌, refl, sym, ap, ◌∙◌, ◌≢◌, ◌↔◌, ◌⊎◌, inl,
  inr, Bool, true, false, not, ◌&&◌, ◌||◌, Option, none, some, List, [], ◌∷◌, ◌++◌, map, arith, ltb,
  leb, ◌==◌, if◌then◌else◌, add32, ◌>>=◌, Bool-cases, Option-cases, ==_iff, ==-refl, length,
  get_elem?, get_or, set, take, drop, replicate, length-append, length-set, get_or-set_self,
  get_or-set_ne,
}

-- `read_sector` gives whether it returns 0, and the 512 bytes of the buffer afterwards.
pub record MediaDevice (D : Type 0) : Type 0 where
  pub has_read_sector : Bool
  pub read_sector : ℕ → D → Bool × List ℕ × D

pub record Fat32Ctx (M : Type 0) : Type 0 where
  pub dev : Option M
  pub bytes_per_sector : ℕ
  pub sectors_per_cluster : ℕ
  pub fat_begin_lba : ℕ
  pub cluster_begin_lba : ℕ
  pub root_dir_first_cluster : ℕ
  pub sectors_per_fat : ℕ
  pub fat_count : ℕ
  pub mounted : Bool

-- The variables of the file, and the devices.
pub record Fat32 (M D : Type 0) : Type 0 where
  pub g_ctx : Fat32Ctx M
  pub g_device : Option M
  pub g_sector_buf : List ℕ
  pub disks : D

-- The fields of the boot sector that are read, little endian at their offsets.
abbrev pub byte_at : ℕ → List ℕ → ℕ
byte_at off bytes = get_or bytes off 0

abbrev pub word_at : ℕ → List ℕ → ℕ
word_at off bytes = byte_at off bytes + 256 * byte_at (off + 1) bytes

abbrev pub dword_at : ℕ → List ℕ → ℕ
dword_at off bytes = word_at off bytes + 65536 * word_at (off + 2) bytes

pub record Fat32Bootsector : Type 0 where
  pub bytes_per_sector : ℕ
  pub sectors_per_cluster : ℕ
  pub reserved_sectors : ℕ
  pub fat_count : ℕ
  pub sectors_per_fat32 : ℕ
  pub root_cluster : ℕ

pub read_bootsector : List ℕ → Fat32Bootsector
read_bootsector bytes = record {
  bytes_per_sector = word_at 11 bytes;
  sectors_per_cluster = byte_at 13 bytes;
  reserved_sectors = word_at 14 bytes;
  fat_count = byte_at 16 bytes;
  sectors_per_fat32 = dword_at 36 bytes;
  root_cluster = dword_at 44 bytes;
}

pub fat32_set_device : {M D : Type 0} → Option M → Fat32 M D → Fat32 M D
fat32_set_device dev s = record s { g_device = dev }

pub data MountResult : Type 0 where
  mount_ok : MountResult
  no_device : MountResult
  read_failed : MountResult
  bad_sector_size : MountResult

-- What `fat32_mount` keeps of a boot sector.
pub fill_ctx : {M : Type 0} → M → Fat32Bootsector → Fat32Ctx M
fill_ctx dev bs = record {
  dev = some dev;
  bytes_per_sector = bs.bytes_per_sector;
  sectors_per_cluster = bs.sectors_per_cluster;
  fat_begin_lba = bs.reserved_sectors;
  cluster_begin_lba = add32 bs.reserved_sectors ((bs.fat_count * bs.sectors_per_fat32) % 2 ^ 32);
  root_dir_first_cluster = bs.root_cluster;
  sectors_per_fat = bs.sectors_per_fat32;
  fat_count = bs.fat_count;
  mounted = true;
}

module _ {M D : Type 0} (media : M → MediaDevice D) where
  -- The results are 0, -1, -2 and -3.
  pub fat32_mount : Fat32 M D → MountResult × Fat32 M D
  fat32_mount s = elim s.g_device [
    | none ↦ (no_device, s)
    | some dev ↦
        let (ok, bytes, disks) = (media dev).read_sector 0 s.disks in
        let read = record s { g_sector_buf = bytes; disks = disks } in
        let bs = read_bootsector bytes in
        if not (media dev).has_read_sector
        then (no_device, s)
        else if not ok
        then (read_failed, read)
        else if not (bs.bytes_per_sector == 512)
        then (bad_sector_size, read)
        else (mount_ok, record read { g_ctx = fill_ctx dev bs })
  ]

-- A null pointer is `none`.
pub fat32_get_ctx : {M D : Type 0} → Fat32 M D → Option (Fat32Ctx M)
fat32_get_ctx s = if s.g_ctx.mounted then some s.g_ctx else none
