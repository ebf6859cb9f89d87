-- ===== src/Proc.antt =====
-- The process table of xv6-public/proc.c and proc.h: its data, and the functions that run under
-- `ptable.lock`, each as a function from the table to the table. A `struct proc *` is the index of
-- its slot. What other components do on the way (`kalloc`, `copyuvm`, the file table) comes in as
-- an argument.
pub mod Table
pub mod Life
pub mod Slots
pub mod Wait
pub mod Invariant
pub mod System
mod Examples
pub mod Kill
pub mod Effects
pub mod Lineage
