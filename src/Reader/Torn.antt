-- ===== src/Reader/Torn.antt =====
-- The whole of a segment, as `lbdctl log` reads it: complete, or cut off within a record.
use lbd.Prelude.{
  ℕ, zero, suc, ◌-◌, ◌^◌, ◌≤◌, ◌<◌, ◌≡◌, refl, ap, ◌∙◌, inl, inr, List, [], ◌∷◌, ◌++◌, arith,
  length, take, map, length-take, length-append, append_assoc, lt_or_le,
}
use lbd.Cbor.Head.{head_bytes}
use lbd.Cbor.Items.Laws.{item_bytes, items_bytes}
use lbd.Log.Entry.{header_items}
use lbd.Reader.{Input, Res, ok, at_end, bad}
use lbd.Reader.Cbor.{cbor_read_head}
use lbd.Reader.Segment.{
  Shown, Stop, at_done, shown, read_entry, read_entries, behind_entry, behind_head, behind_header,
  log_of, SegmentHeader, with_entry, cmd_log_cbor,
}
use lbd.Reader.Laws.{Serves}
use lbd.Reader.Parses.{Failed, take-append_short, take-append_long}
use lbd.Reader.CborLaws.{cbor_read_head-Parses}
use lbd.Reader.Entries.{read_header-Parses}
use lbd.Reader.Records.{
  Record, record_bytes, record_bytes_body, body_bytes, fields_in, Sound, shown_of, room_after,
  read_entry-Parses, write_record, trim_record,
}
use lbd.Reader.EndOfFile.{NotEnd, cbor_read_head_at_end, cbor_read_head-NotEnd}

abbrev pub all_bytes : List Record → List ℕ
all_bytes [] = []
all_bytes (r ∷ rs) = record_bytes r ++ all_bytes rs

abbrev pub AllSound : Input → List Record → Type 0
AllSound input [] = Unit {0}
AllSound input (r ∷ rs) = Sound input r × AllSound input rs

module _ {input : Input} (s : Serves input) (depth : ℕ) where
  read_entries-head :
      (rounds room : ℕ) (w w' : input.World) (head : ℕ × ℕ)
      → cbor_read_head input w ≡ (ok head, w')
      → read_entries input depth (suc rounds) room w
        ≡ behind_entry input depth
            (λ room w. read_entries input depth rounds room w)
            (read_entry input depth room head w')
  unfolding read_entries
  read_entries-head rounds room w w' head e =
      ap (behind_head input depth (λ room w. read_entries input depth rounds room w) room) e

  -- A whole record in front is an entry in front.
  read_entries-record :
      (r : Record) (rounds room : ℕ) (w : input.World) (ys : List ℕ)
      → Sound input r
      → s.rest w ≡ record_bytes r ++ ys
      → (w' : input.World) × (read_entries input depth (suc rounds) room w
          ≡ with_entry input depth
              (shown_of r)
              (read_entries input depth rounds (room_after r room) w'))
        × (s.rest w' ≡ ys)
  unfolding item_bytes
  read_entries-record r rounds room w ys h e =
      let split : s.rest w ≡ head_bytes 5 (fields_in r) ++ (body_bytes r ++ ys) =
        e
        ∙ ap (λ l. l ++ ys) (record_bytes_body r)
        ∙ append_assoc (head_bytes 5 (fields_in r)) (body_bytes r) ys in
      let (w₁, p, t₁) =
        (cbor_read_head-Parses s 5 (fields_in r) (omega arith) (few r)).takes w (body_bytes r ++ ys)
          split in
      let (w₂, q, t₂) = (read_entry-Parses s depth r room h).takes w₁ ys t₁ in
      (
        w₂,
        read_entries-head rounds room w w₁ (5, fields_in r) p
            ∙ ap (behind_entry input depth (λ room w. read_entries input depth rounds room w)) q,
        t₂,
      )
    where
      few : (r : Record) → fields_in r < 2 ^ 64
      few (write_record ts seq block crc bytes comp) = omega arith
      few (trim_record ts seq block len) = omega arith

  behind_head_broken :
      (more : ℕ → input.World → (List Shown × Stop) × input.World) (room : ℕ)
      (r : Res (ℕ × ℕ) × input.World)
      → Failed r.0
      → NotEnd r.0
      → (behind_head input depth more room r).0 ≡ ([], at_done)
  behind_head_broken more room (ok a, w) f n = absurd f
  behind_head_broken more room (at_end, w) f n = absurd n
  behind_head_broken more room (bad, w) f n = refl

  behind_entry_broken :
      (more : ℕ → input.World → (List Shown × Stop) × input.World)
      (r : Res (Shown × ℕ) × input.World)
      → Failed r.0
      → (behind_entry input depth more r).0 ≡ ([], at_done)
  behind_entry_broken more (ok a, w) f = absurd f
  behind_entry_broken more (at_end, w) f = refl
  behind_entry_broken more (bad, w) f = refl

  read_entries-broken :
      (rounds room : ℕ) (w : input.World)
      → Failed (cbor_read_head input w).0
      → NotEnd (cbor_read_head input w).0
      → (read_entries input depth (suc rounds) room w).0 ≡ ([], at_done)
  unfolding read_entries
  read_entries-broken rounds room w f n =
      behind_head_broken (λ room w. read_entries input depth rounds room w) room
        (cbor_read_head input w) f n

  read_entries-nothing :
      (rounds room : ℕ) (w : input.World)
      → s.rest w ≡ []
      → (read_entries input depth (suc rounds) room w).0 ≡ ([], at_done)
  unfolding read_entries
  read_entries-nothing rounds room w e =
      ap
        (λ (r : Res (ℕ × ℕ)).
          (behind_head input depth (λ room w. read_entries input depth rounds room w) room
            (r, (cbor_read_head input w).1)).0)
        (cbor_read_head_at_end s w e)

  -- A record that is cut off stops the loop.
  read_entries-torn :
      (r : Record) (i rounds room : ℕ) (w : input.World)
      → Sound input r
      → 0 < i
      → i < length (record_bytes r)
      → s.rest w ≡ take i (record_bytes r)
      → (read_entries input depth (suc rounds) room w).0 ≡ ([], at_done)
  unfolding item_bytes
  read_entries-torn r i rounds room w h some_bytes within e =
      elim (lt_or_le i (length (head_bytes 5 (fields_in r)))) [
        | inl l ↦
            in_head
              (cut ∙ take-append_short i (head_bytes 5 (fields_in r)) (body_bytes r) (omega arith))
              l
        | inr l ↦ in_body l
      ]
    where
      cut : s.rest w ≡ take i (head_bytes 5 (fields_in r) ++ body_bytes r)
      cut = e ∙ ap (λ l. take i l) (record_bytes_body r)

      few : (r : Record) → fields_in r < 2 ^ 64
      few (write_record ts seq block crc bytes comp) = omega arith
      few (trim_record ts seq block len) = omega arith

      in_head :
          s.rest w ≡ take i (head_bytes 5 (fields_in r))
          → i < length (head_bytes 5 (fields_in r))
          → (read_entries input depth (suc rounds) room w).0 ≡ ([], at_done)
      in_head c l =
          read_entries-broken rounds room w
            ((cbor_read_head-Parses s 5 (fields_in r) (omega arith) (few r)).fails w i l c)
            (cbor_read_head-NotEnd s w (omega (arith, ap length e, length-take i (record_bytes r))))

      in_body :
          length (head_bytes 5 (fields_in r)) ≤ i
          → (read_entries input depth (suc rounds) room w).0 ≡ ([], at_done)
      in_body l =
          let (w₁, p, t₁) =
            (cbor_read_head-Parses s 5 (fields_in r) (omega arith) (few r)).takes w
              (take (i - length (head_bytes 5 (fields_in r))) (body_bytes r))
              (cut ∙ take-append_long i (head_bytes 5 (fields_in r)) (body_bytes r) l) in
          ap (λ p. p.0) (read_entries-head rounds room w w₁ (5, fields_in r) p)
          ∙ behind_entry_broken (λ room w. read_entries input depth rounds room w)
              (read_entry input depth room (5, fields_in r) w₁)
              ((read_entry-Parses s depth r room h).fails w₁
                (i - length (head_bytes 5 (fields_in r)))
                (omega (
                  arith,
                  ap length (record_bytes_body r),
                  length-append (head_bytes 5 (fields_in r)) (body_bytes r),
                ))
                t₁)

  with_entry_first :
      (e : Shown) (es : List Shown) (stop : Stop) (r : (List Shown × Stop) × input.World)
      → r.0 ≡ (es, stop)
      → (with_entry input depth e r).0 ≡ (e ∷ es, stop)
  with_entry_first e es stop ((es', stop'), w) h = ap (λ p. (e ∷ p.0, p.1)) h

  read_entries-cut :
      (rs : List Record) (r : Record) (i rounds room : ℕ) (w : input.World)
      → AllSound input rs
      → Sound input r
      → i < length (record_bytes r)
      → length rs < rounds
      → s.rest w ≡ all_bytes rs ++ take i (record_bytes r)
      → (read_entries input depth rounds room w).0 ≡ (map shown_of rs, at_done)
  read_entries-cut rs r i zero room w hs h l k e = absurd (omega arith)
  read_entries-cut [] r zero (suc rounds) room w hs h l k e = read_entries-nothing rounds room w e
  read_entries-cut [] r (suc i) (suc rounds) room w hs h l k e =
      read_entries-torn r (suc i) rounds room w h (omega arith) l e
  read_entries-cut (q ∷ rs) r i (suc rounds) room w (hq, hs) h l k e =
      let tail : List ℕ = take i (record_bytes r) in
      let (w', p, t) =
        read_entries-record q rounds room w (all_bytes rs ++ tail) hq
          (e ∙ append_assoc (record_bytes q) (all_bytes rs) tail) in
      ap (λ p. p.0) p
      ∙ with_entry_first (shown_of q) (map shown_of rs) at_done
          (read_entries input depth rounds (room_after q room) w')
          (read_entries-cut rs r i rounds (room_after q room) w' hs h l (omega arith) t)

  log_of_shown :
      (hdr : SegmentHeader) (es : List Shown) (stop : Stop) (r : (List Shown × Stop) × input.World)
      → r.0 ≡ (es, stop)
      → (log_of input depth hdr r).0 ≡ shown hdr es stop
  log_of_shown hdr es stop ((es', stop'), w) h = ap (λ p. shown hdr p.0 p.1) h

  -- Of a segment that the kernel module wrote, cut off `i` bytes into the record behind `rs` (none
  -- where it is complete), lbdctl shows the header and just the entries `rs` as they were written, data
  -- decompressed and checksums right, however few bytes each read returns: of a record that is cut off
  -- nothing is shown, and the listing ends as that of a complete segment does. It reads a working file
  -- with memory for its buffers. One round for each entry and one more are enough. The
  -- label has fewer than 32 bytes, the path fewer than 256, and the size is a u64.
  pub cmd_log_cbor-segment :
      (label : List ℕ) (size : ℕ) (path : List ℕ) (rs : List Record) (r : Record) (i rounds : ℕ)
      (w : input.World)
      → length label < 32
      → size < 2 ^ 64
      → length path < 256
      → AllSound input rs
      → Sound input r
      → i < length (record_bytes r)
      → length rs < rounds
      → s.rest w
        ≡ items_bytes (header_items label size path) ++ (all_bytes rs ++ take i (record_bytes r))
      → (cmd_log_cbor input depth rounds w).0
        ≡ shown
            (record {
              version = 2;
              block_size = 4096;
              segment_label = label;
              device_size = size;
              backing_path = path;
            })
            (map shown_of rs)
            at_done
  unfolding cmd_log_cbor
  cmd_log_cbor-segment label size path rs r i rounds w a b c hs h l k e =
      let (w', p, t) =
        (read_header-Parses s depth label size path a b c).takes w
          (all_bytes rs ++ take i (record_bytes r)) e in
      ap (λ r. (behind_header input depth rounds r).0) p
      ∙ log_of_shown _ (map shown_of rs) at_done (read_entries input depth rounds 0 w')
          (read_entries-cut rs r i rounds 0 w' hs h l k t)
