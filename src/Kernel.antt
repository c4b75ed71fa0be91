-- ===== src/Kernel.antt =====
-- kernel/: the keys for programs, the interrupt controllers, files, and the start of programs.
pub mod KbdBuffer
pub mod KeyboardIrq
pub mod Kill
pub mod Pic
pub mod Vfs
pub mod Boot
pub mod Tests
