-- ===== src/Ctl/Miss.antt =====
-- `struct lbd_miss_handler` of src/lbd_main.c, less the lock and the wait queue.
use lbd.Prelude.{ℕ, Bool, Option}

-- `struct lbd_miss_handler`; `pending` is the thread whose `struct lbd_miss_pending` it points to.
pub record MissHandler : Type 0 where
  pub dev_index : ℕ
  pub pending : Option ℕ
  pub miss_cluster : ℕ
  pub has_event : Bool
