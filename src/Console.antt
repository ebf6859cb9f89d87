-- ===== src/Console.antt =====
-- The input of the console in xv6-public/console.c: a ring of characters with a read, a write and an edit
-- index, each a 32-bit number that wraps around. What `consputc` echoes is not modelled.
pub mod Input
pub mod Editing
mod Examples
