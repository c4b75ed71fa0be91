-- ===== src/Userland.antt =====
-- userland/: the programs that run above the kernel.
pub mod Register
pub mod Zsh
pub mod Pkg
mod Tests
