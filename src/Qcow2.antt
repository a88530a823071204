-- ===== src/Qcow2.antt =====
-- src/lbd_qcow2.c and src/lbd_qcow2.h, the qcow2-lz4 backing store. `State` has the structures and
-- the monad of the functions, and each further child models or proves one part.
pub mod State
pub mod Space
pub mod Cache
pub mod L2
pub mod Base
pub mod Cluster
pub mod Read
pub mod Store
pub mod Init
pub mod Swap
pub mod FreeList
pub mod OnDisk
