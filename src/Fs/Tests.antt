-- ===== src/Fs/Tests.antt =====
-- Runs of fs/fat32/core.c on a disk with one boot sector.
use zythos.Base.{◌≢◌, ℕ, ◌+◌, ◌≡◌, refl, ◌⊎◌, true, false, none, some, [], ◌∷◌, ◌==◌}
use zythos.Fs.{
  no_device, bad_sector_size, MediaDevice, Fat32Ctx, Fat32, Fat32Bootsector, read_bootsector,
  fill_ctx, fat32_set_device, mount_ok, read_failed, fat32_mount, fat32_get_ctx,
}
use zythos.Fs.Mount.{Unset, format, fat32_mount_lem}

abbrev boot : Fat32Bootsector
boot = record {
  bytes_per_sector = 512;
  sectors_per_cluster = 8;
  reserved_sectors = 32;
  fat_count = 2;
  sectors_per_fat32 = 1009;
  root_cluster = 2;
}

-- Disk 0 has the boot sector, the others cannot be read.
abbrev disk : ℕ → MediaDevice ℕ
disk n = record {
  has_read_sector = true;
  read_sector = λ lba reads. (n == 0, format boot (0x55 ∷ 0xAA ∷ []), reads + 1);
}

abbrev no_ctx : Fat32Ctx ℕ
no_ctx = record {
  dev = none;
  bytes_per_sector = 0;
  sectors_per_cluster = 0;
  fat_begin_lba = 0;
  cluster_begin_lba = 0;
  root_dir_first_cluster = 0;
  sectors_per_fat = 0;
  fat_count = 0;
  mounted = false;
}

abbrev start : Fat32 ℕ ℕ
start = record { g_ctx = no_ctx; g_device = some 0; g_sector_buf = []; disks = 0 }

fat32_mount_lem_example :
    let (r, after) = fat32_mount disk start in
    ((dev : ℕ) × (start.g_device ≡ some dev)
      × ((disk dev).has_read_sector ≡ true)
      × (((disk dev).read_sector 0 start.disks).0 ≡ true)
      × ((read_bootsector ((disk dev).read_sector 0 start.disks).1).bytes_per_sector ≡ 512)
      × (r ≡ mount_ok)
      × (after.g_sector_buf ≡ ((disk dev).read_sector 0 start.disks).1)
      × (fat32_get_ctx after ≡ some (fill_ctx dev (read_bootsector after.g_sector_buf))))
    ⊎ (Unset disk start
        × (r ≡ no_device)
        × (after.disks ≡ 0)
        × (fat32_get_ctx after ≡ fat32_get_ctx start))
    ⊎ ((dev : ℕ) × (start.g_device ≡ some dev)
        × ((disk dev).has_read_sector ≡ true)
        × (((disk dev).read_sector 0 start.disks).0 ≡ false)
        × (r ≡ read_failed)
        × (fat32_get_ctx after ≡ fat32_get_ctx start))
    ⊎ ((dev : ℕ) × (start.g_device ≡ some dev)
        × ((disk dev).has_read_sector ≡ true)
        × (((disk dev).read_sector 0 start.disks).0 ≡ true)
        × ((read_bootsector ((disk dev).read_sector 0 start.disks).1).bytes_per_sector ≢ 512)
        × (r ≡ bad_sector_size)
        × (fat32_get_ctx after ≡ fat32_get_ctx start))
fat32_mount_lem_example = fat32_mount_lem disk start

-- After a failed mount of another disk the context is still that of the first.
abbrev mounted : Fat32 ℕ ℕ
mounted = (fat32_mount disk start).1

stale_ctx :
    let (r, after) = fat32_mount disk (fat32_set_device (some 1) mounted) in
    (r ≡ read_failed) × (fat32_get_ctx after ≡ fat32_get_ctx mounted)
unfolding fat32_mount fat32_get_ctx fat32_set_device read_bootsector fill_ctx
stale_ctx = (refl, refl)
