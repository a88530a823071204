-- ===== src/Log/Request/Entries.antt =====
-- The records of writes and trims in the log: each is whole, and behind all that was logged before.
use lbd.Prelude.{
  ℕ, ◌+◌, ◌^◌, ◌≤◌, ◌<◌, ◌≡◌, ◌≢◌, refl, ap, sym, ◌∙◌, subst, ◌⊎◌, inl, inr, Bool, true, false,
  List, [], ◌∷◌, ◌++◌, append_assoc, append-nil, Option, none, some, arith, leb, if◌then◌else◌,
  length, length-append, Bool-cases, Option-cases,
}
use lbd.Kernel.{Kernel, Errno}
use lbd.Disk.{Disk}
use lbd.Ctl.Watcher.{Watcher}
use lbd.Ctl.Watcher.Queue.{AllRing}
use lbd.Log.{Log, IoStats, LbdDevice, LogKernel, not_opened, log_buf_size}
use lbd.Log.Buffer.{log_buf_append}
use lbd.Log.Buffer.Frame.{Same, log_buf_append-Same, log_buf_append-log_file}
use lbd.Log.Buffer.Stream.{LogDisk, file_bytes, stream, Refused, log_buf_append-stream}
use lbd.Log.Segment.{maybe_rotate_segment, rotate_segment, file_size}
use lbd.Log.Name.{log_name_tmp}
use lbd.Log.Segment.Rotate.{RenamedLast, rotate_segment-Rotated}
use lbd.Log.Request.{append_all, log_record, next_seq, mark_entries}

-- The bytes of the parts, one after the other.
abbrev pub joined : List (List ℕ) → List ℕ
joined [] = []
joined (part ∷ parts) = part ++ joined parts

abbrev pub AllSmall : List (List ℕ) → Type 0
AllSmall [] = Unit {0}
AllSmall (part ∷ parts) = (length part ≤ log_buf_size) × AllSmall parts

module _ {k : Kernel} (disk : Disk k) (lk : LogKernel k) where
  -- All parts are in the stream.
  record Grown (parts : List (List ℕ)) (d : LbdDevice k) (r : Bool × LbdDevice k) : Type 0 where
    all : r.0 ≡ true
    added : stream disk r.1 ≡ stream disk d ++ joined parts
    same : Same d r.1
    back : r.1.log.log_file ≡ none → (d.log.log_file ≡ none) × (r.1.core.world ≡ d.core.world)

  -- The segment had no file, and has none.
  record Unwritten (d : LbdDevice k) (r : Bool × LbdDevice k) : Type 0 where
    stopped : r.0 ≡ false
    refused : Refused lk d

module _ {k : Kernel} {disk : Disk k} {lk : LogKernel k} (ld : LogDisk disk lk) where
  none_before :
      (bytes : List ℕ) (d : LbdDevice k)
      → (log_buf_append lk bytes d).1.log.log_file ≡ none
      → d.log.log_file ≡ none
  none_before bytes d h = elim (Option-cases d.log.log_file) [
    | inl e ↦ e
    | inr (f, e) ↦ absurd (ground (arith, sym h ∙ log_buf_append-log_file lk bytes d f e))
  ]

  -- A call that fails on a device fails on another one with the same label and world.
  Refused-same :
      (d r : LbdDevice k)
      → d.log.log_file ≡ none
      → r.log.log_segment_label ≡ d.log.log_segment_label
      → r.core.world ≡ d.core.world
      → Refused lk r
      → Refused lk d
  Refused-same d r none_yet l w (h, e, p) = (
    none_yet,
    e,
    subst
        (λ (v : k.World).
          (lk.file_open_root (log_name_tmp d.log.log_segment_label) v).0 ≡ not_opened e)
        w
        (subst
          (λ (label : List ℕ).
            (lk.file_open_root (log_name_tmp label) r.core.world).0 ≡ not_opened e)
          l p),
  )

  Refused-before :
      (bytes : List ℕ) (d : LbdDevice k)
      → Same d (log_buf_append lk bytes d).1
      → (log_buf_append lk bytes d).1.core.world ≡ d.core.world
      → Refused lk (log_buf_append lk bytes d).1
      → Refused lk d
  Refused-before bytes d s w r =
      Refused-same d (log_buf_append lk bytes d).1 (none_before bytes d r.0)
        (ap (λ (p : Log k × IoStats × List Watcher). p.0.log_segment_label) s) w r

  append_all_step :
      (part : List ℕ) (parts : List (List ℕ)) (d : LbdDevice k)
      → (log_buf_append lk part d).0 ≡ none
      → append_all lk (part ∷ parts) d ≡ append_all lk parts (log_buf_append lk part d).1
  unfolding append_all
  append_all_step part parts d h =
      let r = (log_buf_append lk part d).1 in
      ap
        (λ (o : Option Errno). elim o as (λ x. Bool × LbdDevice k) [
          | none ↦ append_all lk parts r
          | some e ↦ (false, r)
        ])
        h

  append_all_stop :
      (part : List ℕ) (parts : List (List ℕ)) (d : LbdDevice k) (e : Errno)
      → (log_buf_append lk part d).0 ≡ some e
      → append_all lk (part ∷ parts) d ≡ (false, (log_buf_append lk part d).1)
  unfolding append_all
  append_all_stop part parts d e h =
      let r = (log_buf_append lk part d).1 in
      ap
        (λ (o : Option Errno). elim o as (λ x. Bool × LbdDevice k) [
          | none ↦ append_all lk parts r
          | some e ↦ (false, r)
        ])
        h

  append_all-Grown :
      (parts : List (List ℕ)) (d : LbdDevice k)
      → AllSmall parts
      → Grown disk lk parts d (append_all lk parts d) ⊎ Unwritten disk lk d (append_all lk parts d)
  unfolding append_all
  append_all-Grown [] d small = inl (record {
    all = refl;
    added = sym (append-nil (stream disk d));
    same = refl;
    back = λ h. (h, refl);
  })
  append_all-Grown (part ∷ parts) d (small, smalls) = elim (log_buf_append-stream ld part d small) [
    | inl first ↦
        let r = (log_buf_append lk part d).1 in
        subst (λ (x : Bool × LbdDevice k). Grown disk lk (part ∷ parts) d x ⊎ Unwritten disk lk d x)
          (sym (append_all_step part parts d first.ends))
          (elim (append_all-Grown parts r smalls) [
            | inl g ↦ inl (record {
              all = g.all;
              added =
                  g.added
                  ∙ ap (λ (l : List ℕ). l ++ joined parts) first.added
                  ∙ append_assoc (stream disk d) part (joined parts);
              same = g.same ∙ log_buf_append-Same lk part d;
              back = λ h. let (e, w) = g.back h in (none_before part d e, w ∙ first.idle e);
            })
            | inr u ↦ inr (record {
              stopped = u.stopped;
              refused =
                  Refused-before part d (log_buf_append-Same lk part d) (first.idle u.refused.0)
                    u.refused;
            })
          ])
    | inr lost ↦
        subst (λ (x : Bool × LbdDevice k). Grown disk lk (part ∷ parts) d x ⊎ Unwritten disk lk d x)
          (sym (append_all_stop part parts d lost.refused.1 lost.fails))
          (inr (record { stopped = refl; refused = lost.refused }))
  ]

  -- Where a record is: the last of the stream, or the last of a file that was closed and renamed
  -- meanwhile; or the segment had no file, and the call that creates it on the device as it is fails.
  abbrev pub Logged : List ℕ → LbdDevice k → LbdDevice k → Type 0
  Logged bytes d r =
      (stream disk r ≡ stream disk d ++ bytes)
      ⊎ ((f : k.File) × (file_bytes disk f r.core.world ≡ stream disk d ++ bytes)
          × RenamedLast disk lk f d.log.log_segment_label r.core.world)
      ⊎ Refused lk d

  -- What a rotation relies on.
  pub record Ready (d : LbdDevice k) : Type 0 where
    pub rings : AllRing d.watchers
    pub sized : d.log.size < 2 ^ 64
    pub path : length d.log.backing_path < 256

  maybe_rotate-Logged :
      (bytes : List ℕ) (d r : LbdDevice k)
      → r.log.log_has_entries ≡ true
      → 0 < length bytes
      → Ready r
      → (r.log.log_file ≡ none → (d.log.log_file ≡ none) × (r.core.world ≡ d.core.world))
      → r.log.log_segment_label ≡ d.log.log_segment_label
      → stream disk r ≡ stream disk d ++ bytes
      → Logged bytes d (maybe_rotate_segment lk r)
  unfolding maybe_rotate_segment
  maybe_rotate-Logged bytes d r entries some_bytes ready back label added =
      elim (Bool-cases (leb r.log.log_max_size (file_size lk r + length r.log.log_buf))) [
        | inr small ↦
            inl
              (ap (λ (b : Bool). stream disk (if b then rotate_segment lk r else r)) small ∙ added)
        | inl big ↦
            let something : stream disk r ≢ [] =
              λ e. omega (arith, ap length (sym added ∙ e), length-append (stream disk d) bytes) in
            let rotated =
              rotate_segment-Rotated ld r entries something ready.rings ready.sized ready.path in
            subst (λ (b : Bool). Logged bytes d (if b then rotate_segment lk r else r)) (sym big)
              (elim rotated.closed [
                | inl (f, is, e, named) ↦ inr (
                    inl (
                      f,
                      e ∙ added,
                      subst
                          (λ (l : List ℕ). RenamedLast disk lk f l (rotate_segment lk r).core.world)
                          label named,
                    ))
                | inr refused ↦
                    let (none_yet, w) = back refused.0 in
                    inr (inr (Refused-same d r none_yet label w refused))
              ])
      ]

  Ready-Same : (d r : LbdDevice k) → Same d r → Ready d → Ready r
  Ready-Same d r s ready = record {
    rings = subst (λ (p : Log k × IoStats × List Watcher). AllRing p.2) (sym s) ready.rings;
    sized = subst (λ (p : Log k × IoStats × List Watcher). p.0.size < 2 ^ 64) (sym s) ready.sized;
    path =
        subst (λ (p : Log k × IoStats × List Watcher). length p.0.backing_path < 256) (sym s)
          ready.path;
  }

  log_record_of :
      (bytes : List ℕ) (payload : List (List ℕ)) (d : LbdDevice k) (x : Bool × LbdDevice k)
      → 0 < length (joined (bytes ∷ payload))
      → Ready d
      → Grown disk lk (bytes ∷ payload) (next_seq d) x ⊎ Unwritten disk lk (next_seq d) x
      → Logged
          (joined (bytes ∷ payload))
          d
          (if x.0 then maybe_rotate_segment lk (mark_entries x.1) else x.1)
  log_record_of bytes payload d x some_bytes ready (inl g) =
      let marked = mark_entries x.1 in
      let ready_next : Ready (next_seq d) = record {
        rings = ready.rings;
        sized = ready.sized;
        path = ready.path;
      } in
      let ready_r = Ready-Same (next_seq d) x.1 g.same ready_next in
      subst
        (λ (b : Bool).
          Logged (joined (bytes ∷ payload)) d (if b then maybe_rotate_segment lk marked else x.1))
        (sym g.all)
        (maybe_rotate-Logged (joined (bytes ∷ payload)) d marked refl some_bytes
          (record { rings = ready_r.rings; sized = ready_r.sized; path = ready_r.path }) g.back
          (ap (λ (p : Log k × IoStats × List Watcher). p.0.log_segment_label) g.same) g.added)
  log_record_of bytes payload d x some_bytes ready (inr u) = inr (inr u.refused)

  -- A record that was encoded, with what follows it.
  pub log_record-Logged :
      (bytes : List ℕ) (payload : List (List ℕ)) (d : LbdDevice k)
      → AllSmall (bytes ∷ payload)
      → 0 < length bytes
      → Ready d
      → Logged (joined (bytes ∷ payload)) d (log_record lk (some bytes) payload d)
  unfolding log_record
  log_record-Logged bytes payload d small some_bytes ready =
      log_record_of bytes payload d (append_all lk (bytes ∷ payload) (next_seq d))
        (omega (arith, length-append bytes (joined payload))) ready
        (append_all-Grown (bytes ∷ payload) (next_seq d) small)
