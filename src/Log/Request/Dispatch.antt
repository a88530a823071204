-- ===== src/Log/Request/Dispatch.antt =====
-- What the dispatch of requests promises.
use lbd.Prelude.{
  ℕ, suc, ◌*◌, ◌⊎◌, ◌≡◌, refl, ap, inl, inr, Bool, true, false, List, [], ◌∷◌, ◌++◌, Option, none,
  some, if◌then◌else◌, length,
}
use lbd.Kernel.{Kernel, Errno}
use lbd.Qcow2.State.{M, Outcome, ok, err, oops}
use lbd.Qcow2.Read.{MissAction}
use lbd.Log.{Log, IoStats, LbdDevice, LogKernel, set_world}
use lbd.Ctl.Watcher.{Watcher}
use lbd.Log.Segment.{rotate_segment}
use lbd.Log.Request.{
  Request, read_op, write_op, discard_op, flush_op, other_op, Reply, data_read, done, failed,
  crashed, do_read, do_write, do_discard, do_flush, punch_hole, punch_fails, store_segments,
  read_reply, reply, on_success, handle_request, work_fn, on_core, raw_read, raw_write_segments,
  count_write, count_trim, log_write, log_discard,
}
use lbd.Qcow2.Read.{qcow2_read}
use lbd.Qcow2.Store.{gather, qcow2_write, qcow2_discard}

-- An error code, or a crash.
abbrev pub Failed : Reply → Type 0
Failed (data_read bytes) = ⊥
Failed done = ⊥
Failed (failed e) = Unit {0}
Failed crashed = Unit {0}

abbrev pub IsRead : Request → Type 0
IsRead (read_op sector lengths) = Unit {0}
IsRead (write_op sector segments) = ⊥
IsRead (discard_op sector bytes) = ⊥
IsRead flush_op = ⊥
IsRead other_op = ⊥

module _ {k : Kernel} where
  -- The log with its buffer and its file, the counters and the watchers.
  abbrev pub beside : LbdDevice k → Log k × IoStats × List Watcher
  beside d = (d.log, d.io, d.watchers)

  if-beside :
      {A : Type 0} (d : LbdDevice k) (b : Bool) (x y : Outcome A × LbdDevice k)
      → beside x.1 ≡ beside d
      → beside y.1 ≡ beside d
      → beside (if b then x else y).1 ≡ beside d
  if-beside d true x y p q = p
  if-beside d false x y p q = q

  read_reply-beside :
      (d : LbdDevice k) (x : Outcome (List (List ℕ)) × LbdDevice k)
      → beside x.1 ≡ beside d
      → beside (read_reply x).1 ≡ beside d
  read_reply-beside d (ok a, r) h = h
  read_reply-beside d (err e, r) h = h
  read_reply-beside d (oops, r) h = h

  reply-on_success-beside :
      (f : LbdDevice k → LbdDevice k) (d : LbdDevice k) (x : Outcome (Unit {0}) × LbdDevice k)
      → beside x.1 ≡ beside d
      → Failed (reply (on_success f x)).0
      → beside (reply (on_success f x)).1 ≡ beside d
  reply-on_success-beside f d (ok a, r) h bad = absurd bad
  reply-on_success-beside f d (err e, r) h bad = h
  reply-on_success-beside f d (oops, r) h bad = h

module _ {k : Kernel} (lk : LogKernel k) (handle_miss : ℕ → M k MissAction) where
  do_read-beside :
      (sector : ℕ) (lengths : List ℕ) (d : LbdDevice k)
      → beside (do_read lk handle_miss sector lengths d).1 ≡ beside d
  unfolding do_read
  do_read-beside sector lengths d =
      if-beside d d.is_qcow2 (on_core (qcow2_read handle_miss sector lengths) d)
        (on_core (raw_read sector lengths) d) refl refl

  punch_hole-beside :
      (sector bytes : ℕ) (d : LbdDevice k) → beside (punch_hole lk sector bytes d).1 ≡ beside d
  unfolding punch_hole
  punch_hole-beside sector bytes d = go lk.fallocate
    where
      after :
          (ret : Option Errno) (w : k.World)
          → beside
              (elim ret as (λ x. Outcome (Unit {0}) × LbdDevice k) [
                | none ↦ (ok tt, set_world w d)
                | some e ↦ (if punch_fails e then err e else ok tt, set_world w d)
              ]).1
            ≡ beside d
      after none w = refl
      after (some e) w = refl

      go :
          (o : Option (k.File → ℕ → ℕ → k.World → Option Errno × k.World))
          → beside
              (elim o as (λ x. Outcome (Unit {0}) × LbdDevice k) [
                | none ↦ (ok tt, d)
                | some punch ↦
                    let r = punch d.core.backing_file (sector * 512) bytes d.core.world in
                    elim r.0 as (λ x. Outcome (Unit {0}) × LbdDevice k) [
                      | none ↦ (ok tt, set_world r.1 d)
                      | some e ↦ (if punch_fails e then err e else ok tt, set_world r.1 d)
                    ]
              ]).1
            ≡ beside d
      go none = refl
      go (some punch) =
          let r = punch d.core.backing_file (sector * 512) bytes d.core.world in after r.0 r.1

  do_flush-Failed :
      (d : LbdDevice k)
      → Failed (reply (do_flush lk d)).0
      → beside (reply (do_flush lk d)).1 ≡ beside d
  unfolding do_flush
  do_flush-Failed d = go (lk.vfs_fsync d.core.backing_file d.core.world)
    where
      go :
          (x : Option Errno × k.World)
          → let synced = set_world x.1 d in
            let r = elim x.0 as (λ x. Outcome (Unit {0}) × LbdDevice k) [
              | none ↦
                  (ok tt, if synced.log.log_has_entries then rotate_segment lk synced else synced)
              | some e ↦ (err e, synced)
            ] in
            Failed (reply r).0 → beside (reply r).1 ≡ beside d
      go (none, w) bad = absurd bad
      go (some e, w) bad = refl

  -- A request that fails, whatever its kind and wherever it fails, and a read in any case, leave the log,
  -- its buffer and its file, the counters of writes and trims, and the queues of the watchers as they
  -- were: nothing is logged that was not stored.
  pub handle_request-Failed :
      (rq : Request) (d : LbdDevice k)
      → Failed (handle_request lk handle_miss rq d).0 ⊎ IsRead rq
      → beside (handle_request lk handle_miss rq d).1 ≡ beside d
  unfolding handle_request do_write do_discard
  handle_request-Failed (read_op sector lengths) d h =
      read_reply-beside d (do_read lk handle_miss sector lengths d)
        (do_read-beside sector lengths d)
  handle_request-Failed (write_op sector segments) d (inl bad) =
      reply-on_success-beside
        (λ r. count_write (length (gather segments)) (log_write lk sector segments r)) d
        (store_segments sector segments d)
        (if-beside d d.is_qcow2 (on_core (qcow2_write sector segments) d)
          (on_core (raw_write_segments (sector * 512) segments) d) refl refl)
        bad
  handle_request-Failed (write_op sector segments) d (inr r) = absurd r
  handle_request-Failed (discard_op sector bytes) d (inl bad) =
      reply-on_success-beside (λ r. count_trim bytes (log_discard lk sector bytes r)) d
        (if d.is_qcow2
          then on_core (qcow2_discard sector bytes) d
          else punch_hole lk sector bytes d)
        (if-beside d d.is_qcow2 (on_core (qcow2_discard sector bytes) d)
          (punch_hole lk sector bytes d) refl (punch_hole-beside sector bytes d))
        bad
  handle_request-Failed (discard_op sector bytes) d (inr r) = absurd r
  handle_request-Failed flush_op d (inl bad) = do_flush-Failed d bad
  handle_request-Failed flush_op d (inr r) = absurd r
  handle_request-Failed other_op d h = refl

  -- Every command in the queue is answered, once and in order: what is queued later changes neither the
  -- replies to the earlier commands nor what they do, and is handled from the state they leave.
  pub work_fn_in_order :
      (rqs later : List Request) (d : LbdDevice k)
      → (length (work_fn lk handle_miss rqs d).0 ≡ length rqs)
        × (work_fn lk handle_miss (rqs ++ later) d ≡ (
          (work_fn lk handle_miss rqs d).0
              ++ (work_fn lk handle_miss later (work_fn lk handle_miss rqs d).1).0,
          (work_fn lk handle_miss later (work_fn lk handle_miss rqs d).1).1,
        ))
  unfolding work_fn
  work_fn_in_order [] later d = (refl, refl)
  work_fn_in_order (rq ∷ rqs) later d =
      let x = handle_request lk handle_miss rq d in
      let (n, e) = work_fn_in_order rqs later x.1 in
      (ap suc n, ap (λ (y : List Reply × LbdDevice k). (x.0 ∷ y.0, y.1)) e)
