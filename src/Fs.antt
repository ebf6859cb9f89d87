-- ===== src/Fs.antt =====
-- The upper layers of xv6-public/fs.c: path names and directories.
pub mod Path
pub mod Icache
pub mod Balloc
pub mod Dir
pub mod Content
mod Examples
