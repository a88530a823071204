-- ===== src/Ctl.antt =====
-- The control device of src/lbd_main.c (`/dev/lbd-control`) and the commands that src/lbdctl.c writes
-- to it.
pub mod Watcher
pub mod Command
pub mod Events
pub mod Miss
pub mod Read
