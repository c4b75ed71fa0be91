-- ===== src/Drivers.antt =====
-- drivers/: the ELF loader and the tree of kernel objects.
pub mod Elf
pub mod Loader
pub mod Hfs
pub mod Tests
