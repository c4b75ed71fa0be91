-- ===== src/Fs/Mount.antt =====
-- `fat32_mount` of fs/fat32/core.c.
use zythos.Base.{
  ◌≢◌, none, ℕ, ◌/◌, ◌%◌, ◌^◌, ◌<◌, ◌≡◌, refl, ◌⊎◌, inl, inr, true, false, some, List, [], ◌∷◌,
  ◌++◌, arith, ◌==◌, Bool-cases, Option-cases, ==_iff, replicate,
}
use zythos.Fs.{
  MediaDevice, Fat32, Fat32Bootsector, read_bootsector, fill_ctx, mount_ok, no_device, read_failed,
  bad_sector_size, fat32_mount, fat32_get_ctx,
}

-- The fields fit their bytes.
pub record IsBootsector (b : Fat32Bootsector) : Type 0 where
  pub bytes : b.bytes_per_sector < 2 ^ 16
  pub cluster : b.sectors_per_cluster < 2 ^ 8
  pub reserved : b.reserved_sectors < 2 ^ 16
  pub fats : b.fat_count < 2 ^ 8
  pub per_fat : b.sectors_per_fat32 < 2 ^ 32
  pub root : b.root_cluster < 2 ^ 32

-- A boot sector on a disk, with 0 in the fields that are not read; `tail` is what follows.
abbrev pub format : Fat32Bootsector → List ℕ → List ℕ
format b tail =
    let size = b.bytes_per_sector in
    let reserved = b.reserved_sectors in
    let fat = b.sectors_per_fat32 in
    let root = b.root_cluster in
    replicate 11 0
    ++ (size % 256
        ∷ size / 256
        ∷ b.sectors_per_cluster
        ∷ reserved % 256
        ∷ reserved / 256
        ∷ b.fat_count
        ∷ [])
    ++ replicate 19 0
    ++ (fat % 256 ∷ fat / 256 % 256 ∷ fat / 65536 % 256 ∷ fat / 16777216 ∷ 0 ∷ 0 ∷ 0 ∷ 0 ∷ [])
    ++ (root % 256 ∷ root / 256 % 256 ∷ root / 65536 % 256 ∷ root / 16777216 ∷ tail)

-- The context after a mount that succeeds.
mounted_ctx :
    {M D : Type 0} (media : M → MediaDevice D) (s : Fat32 M D) (dev : M)
    → s.g_device ≡ some dev
    → (media dev).has_read_sector ≡ true
    → ((media dev).read_sector 0 s.disks).0 ≡ true
    → ((read_bootsector ((media dev).read_sector 0 s.disks).1).bytes_per_sector == 512) ≡ true
    → let after = (fat32_mount media s).1 in
      fat32_get_ctx after ≡ some (fill_ctx dev (read_bootsector after.g_sector_buf))
unfolding fat32_mount fat32_get_ctx fill_ctx
mounted_ctx media s dev set_to there ok right = rw (fat32_mount, set_to, there, ok, right) refl

-- No device is set, or it cannot read sectors.
abbrev pub Unset : {M D : Type 0} → (M → MediaDevice D) → Fat32 M D → Type 0
Unset {M} media s =
    (s.g_device ≡ none)
    ⊎ ((dev : M) × (s.g_device ≡ some dev) × ((media dev).has_read_sector ≡ false))

-- The four ends of `fat32_mount`. With a device that reads sectors, whose first sector is read and says
-- 512 bytes a sector, it succeeds, and the context is that of the sector on that device. Without a
-- device, or with one that cannot read sectors, it returns -1 and uses no disk. If the read fails it
-- returns -2, and if the sector says another size -3. In these cases the context is what it was before, mounted or
-- not.
pub fat32_mount_lem :
    {M D : Type 0} (media : M → MediaDevice D) (s : Fat32 M D)
    → let (r, after) = fat32_mount media s in
      ((dev : M) × (s.g_device ≡ some dev)
        × ((media dev).has_read_sector ≡ true)
        × (((media dev).read_sector 0 s.disks).0 ≡ true)
        × ((read_bootsector ((media dev).read_sector 0 s.disks).1).bytes_per_sector ≡ 512)
        × (r ≡ mount_ok)
        × (after.g_sector_buf ≡ ((media dev).read_sector 0 s.disks).1)
        × (fat32_get_ctx after ≡ some (fill_ctx dev (read_bootsector after.g_sector_buf))))
      ⊎ (Unset media s
          × (r ≡ no_device)
          × (after.disks ≡ s.disks)
          × (fat32_get_ctx after ≡ fat32_get_ctx s))
      ⊎ ((dev : M) × (s.g_device ≡ some dev)
          × ((media dev).has_read_sector ≡ true)
          × (((media dev).read_sector 0 s.disks).0 ≡ false)
          × (r ≡ read_failed)
          × (fat32_get_ctx after ≡ fat32_get_ctx s))
      ⊎ ((dev : M) × (s.g_device ≡ some dev)
          × ((media dev).has_read_sector ≡ true)
          × (((media dev).read_sector 0 s.disks).0 ≡ true)
          × ((read_bootsector ((media dev).read_sector 0 s.disks).1).bytes_per_sector ≢ 512)
          × (r ≡ bad_sector_size)
          × (fat32_get_ctx after ≡ fat32_get_ctx s))
unfolding fat32_mount fat32_get_ctx
fat32_mount_lem media s = elim (Option-cases s.g_device) [
  | inl unset ↦ inr (
      inl (
        inl unset,
        rw (fat32_mount, unset) refl,
        rw (fat32_mount, unset) refl,
        rw (fat32_mount, unset) refl,
      ))
  | inr (dev, set_to) ↦ elim (Bool-cases (media dev).has_read_sector) [
    | inr mute ↦ inr (
        inl (
          inr (dev, set_to, mute),
          rw (fat32_mount, set_to, mute) refl,
          rw (fat32_mount, set_to, mute) refl,
          rw (fat32_mount, set_to, mute) refl,
        ))
    | inl there ↦ elim (Bool-cases ((media dev).read_sector 0 s.disks).0) [
      | inr failed ↦ inr (
          inr (
            inl (
              dev,
              set_to,
              there,
              failed,
              rw (fat32_mount, set_to, there, failed) refl,
              rw (fat32_mount, set_to, there, failed) refl,
            )))
      | inl ok ↦
          let size = (read_bootsector ((media dev).read_sector 0 s.disks).1).bytes_per_sector in
          elim (Bool-cases (size == 512)) [
            | inr other ↦ inr (
                inr (
                  inr (
                    dev,
                    set_to,
                    there,
                    ok,
                    ground (arith, other),
                    rw (fat32_mount, set_to, there, ok, other) refl,
                    rw (fat32_mount, set_to, there, ok, other) refl,
                  )))
            | inl right ↦ inl (
              dev,
              set_to,
              there,
              ok,
              (==_iff size 512).0 right,
              rw (fat32_mount, set_to, there, ok, right) refl,
              rw (fat32_mount, set_to, there, ok, right) refl,
              mounted_ctx media s dev set_to there ok right,
            )
          ]
    ]
  ]
]
