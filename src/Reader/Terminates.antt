-- ===== src/Reader/Terminates.antt =====
-- The loop of `cmd_log_cbor` (src/lbdctl.c) over the entries, counted by the bytes that are left.
use lbd.Prelude.{
  ℕ, zero, suc, ◌%◌, ◌^◌, ◌≤◌, ◌<◌, ◌≡◌, ◌≢◌, ◌⊎◌, inl, inr, true, not, ◌&&◌, List, Option, none,
  some, arith, length, ltb, ◌==◌,
}
use lbd.Reader.{Input, Res, ok, at_end, bad, Reader, pure, ◌>>=◌}
use lbd.Reader.Cbor.{cbor_read_head}
use lbd.Reader.Segment.{
  SegmentHeader, no_header, Fields, no_fields, Shown, Stop, out_of_rounds, shown, header_field,
  header_fields, read_header, grow, read_data, entry_field, entry_fields, decompressed, decompress,
  entry_of, read_entry, with_entry, behind_entry, behind_head, read_entries, log_of, behind_header,
  cmd_log_cbor,
}
use lbd.Reader.Laws.{Serves}
use lbd.Reader.Shrinks.{
  left, Shrinks, Shrinks-pure, Shrinks-fail, Shrinks-malloc, Shrinks-bind, Shrinks-if,
  cbor_read_head-taken, Shrinks-uint, Shrinks-map, Shrinks-bytes_hdr, Shrinks-some_bytes,
  Shrinks-text, Shrinks-skip,
}

module _ {input : Input} (s : Serves input) (depth : ℕ) where
  set-Shrinks :
      {A B : Type 0} {m : Reader input.World A} (set : A → B)
      → Shrinks s m
      → Shrinks s (m >>= λ v. pure (set v))
  set-Shrinks set p = Shrinks-bind s (λ v. pure (set v)) p (λ v. Shrinks-pure s (set v))

  header_field-Shrinks : (h : SegmentHeader) (key : ℕ) → Shrinks s (header_field input depth h key)
  unfolding header_field
  header_field-Shrinks h key = Shrinks-if s (key == 1) (set-Shrinks _ (Shrinks-uint s)) (
      Shrinks-if s (key == 2) (set-Shrinks _ (Shrinks-uint s)) (
        Shrinks-if s (key == 3) (set-Shrinks _ (Shrinks-text s 32)) (
          Shrinks-if s (key == 4) (set-Shrinks _ (Shrinks-uint s)) (
            Shrinks-if s (key == 5) (set-Shrinks _ (Shrinks-text s 256))
              (set-Shrinks (λ u. h) (Shrinks-skip s depth))))))

  header_fields-Shrinks : (n : ℕ) (h : SegmentHeader) → Shrinks s (header_fields input depth n h)
  unfolding header_fields
  header_fields-Shrinks zero h = Shrinks-pure s h
  header_fields-Shrinks (suc n) h =
      Shrinks-bind s _ (Shrinks-uint s)
        λ key. Shrinks-bind s _ (header_field-Shrinks h key) (λ h'. header_fields-Shrinks n h')

  read_header-Shrinks : Shrinks s (read_header input depth)
  unfolding read_header
  read_header-Shrinks = Shrinks-bind s _ (Shrinks-map s) (λ n. header_fields-Shrinks n no_header)

  grow-Shrinks : (room n : ℕ) → Shrinks s (grow input room n)
  unfolding grow
  grow-Shrinks room n = Shrinks-if s (ltb room n) (Shrinks-malloc s n) (Shrinks-pure s true)

  read_data-Shrinks : (f : Fields) (n : ℕ) → Shrinks s (read_data input f n)
  unfolding read_data
  read_data-Shrinks f n =
      Shrinks-bind s _ (grow-Shrinks f.data_cap n)
        λ given. Shrinks-if s (not given) (Shrinks-fail s) (set-Shrinks _ (Shrinks-some_bytes s n))

  entry_field-Shrinks : (f : Fields) (key : ℕ) → Shrinks s (entry_field input depth f key)
  unfolding entry_field
  entry_field-Shrinks f key = Shrinks-if s (key == 1) (set-Shrinks _ (Shrinks-text s 4)) (
      Shrinks-if s (key == 2) (set-Shrinks _ (Shrinks-uint s)) (
        Shrinks-if s (key == 3) (set-Shrinks _ (Shrinks-uint s)) (
          Shrinks-if s (key == 4) (set-Shrinks _ (Shrinks-uint s)) (
            Shrinks-if s (key == 5) (set-Shrinks _ (Shrinks-uint s)) (
              Shrinks-if s (key == 6) (set-Shrinks _ (Shrinks-uint s)) (
                Shrinks-if s (key == 7)
                  (Shrinks-bind s _ (Shrinks-bytes_hdr s) (read_data-Shrinks f))
                  (set-Shrinks (λ u. f) (Shrinks-skip s depth))))))))

  entry_fields-Shrinks : (n : ℕ) (f : Fields) → Shrinks s (entry_fields input depth n f)
  unfolding entry_fields
  entry_fields-Shrinks zero f = Shrinks-pure s f
  entry_fields-Shrinks (suc n) f =
      Shrinks-bind s _ (Shrinks-uint s)
        λ key. Shrinks-bind s _ (entry_field-Shrinks f key) (λ f'. entry_fields-Shrinks n f')

  decompressed-Shrinks : (f : Fields) (o : Option (List ℕ)) → Shrinks s (decompressed input f o)
  decompressed-Shrinks f none = Shrinks-fail s
  decompressed-Shrinks f (some bs) =
      Shrinks-bind s _ (grow-Shrinks f.data_cap f.length)
        λ given. Shrinks-if s (not given) (Shrinks-fail s) (Shrinks-pure s _)

  decompress-Shrinks : (f : Fields) → Shrinks s (decompress input f)
  unfolding decompress
  decompress-Shrinks f =
      Shrinks-if s (f.has_data && ltb 0 f.length && ltb 0 (length f.bytes))
        (Shrinks-bind s _ (Shrinks-malloc s f.length) λ given.
          Shrinks-if s (not given) (Shrinks-fail s) (
            decompressed-Shrinks f
              (input.lz4_decompress_safe f.bytes (length f.bytes % 2 ^ 32) f.length)))
        (Shrinks-pure s f)

  read_entry-Shrinks : (room : ℕ) (h : ℕ × ℕ) → Shrinks s (read_entry input depth room h)
  unfolding read_entry
  read_entry-Shrinks room (major, n) = Shrinks-if s (not (major == 5)) (Shrinks-fail s) (
      Shrinks-bind s _ (entry_fields-Shrinks n (no_fields room))
        λ f. set-Shrinks (λ g. (entry_of f g, g.data_cap)) (decompress-Shrinks f))

  -- The loop came to an end of its own.
  abbrev Ended : (List Shown × Stop) × input.World → Type 0
  Ended r = r.0.1 ≢ out_of_rounds

  with_entry-Ended :
      (e : Shown) (r : (List Shown × Stop) × input.World)
      → Ended r
      → Ended (with_entry input depth e r)
  with_entry-Ended e ((es, stop), w) h = h

  behind_entry-Ended :
      (more : ℕ → input.World → (List Shown × Stop) × input.World)
      (r : Res (Shown × ℕ) × input.World)
      → ((room : ℕ) → Ended (more room r.1))
      → Ended (behind_entry input depth more r)
  behind_entry-Ended more (ok (e, room), w) h = with_entry-Ended e (more room w) (h room)
  behind_entry-Ended more (at_end, w) h = λ p. absurd (cc)
  behind_entry-Ended more (bad, w) h = λ p. absurd (cc)

  behind_head-Ended :
      (more : ℕ → input.World → (List Shown × Stop) × input.World) (room bound : ℕ)
      (r : Res (ℕ × ℕ) × input.World)
      → (r.0 ≡ at_end) ⊎ (left s r.1 < bound)
      → ((room : ℕ) (w : input.World) → left s w < bound → Ended (more room w))
      → Ended (behind_head input depth more room r)
  behind_head-Ended more room bound (ok h, w) (inl e) k = absurd (cc)
  behind_head-Ended more room bound (ok h, w) (inr l) k =
      behind_entry-Ended more (read_entry input depth room h w) (λ room'.
        k room' (read_entry input depth room h w).1
          (omega (arith, l, (read_entry-Shrinks room h).shrinks w)))
  behind_head-Ended more room bound (at_end, w) h k = λ p. absurd (cc)
  behind_head-Ended more room bound (bad, w) h k = λ p. absurd (cc)

  read_entries-Ended :
      (rounds room : ℕ) (w : input.World)
      → left s w < rounds
      → Ended (read_entries input depth rounds room w)
  unfolding read_entries
  read_entries-Ended zero room w h = absurd (omega arith)
  read_entries-Ended (suc rounds) room w h =
      behind_head-Ended (λ room w. read_entries input depth rounds room w) room (left s w)
        (cbor_read_head input w) (cbor_read_head-taken s w)
        (λ room w' l. read_entries-Ended rounds room w' (omega (arith, l, h)))

  -- Whatever the file holds, more rounds than it has bytes are never used up: `lbdctl log` refuses
  -- the file, or shows entries up to a clean end or to something that is no entry.
  pub cmd_log_cbor_ends :
      (rounds : ℕ) (w : input.World) (h : SegmentHeader) (es : List Shown)
      → length (s.rest w) < rounds
      → (cmd_log_cbor input depth rounds w).0 ≢ shown h es out_of_rounds
  unfolding cmd_log_cbor
  cmd_log_cbor_ends rounds w h es l =
      behind (read_header input depth w) (read_header-Shrinks.shrinks w)
    where
      logged :
          (hdr : SegmentHeader) (r : (List Shown × Stop) × input.World)
          → Ended r
          → (log_of input depth hdr r).0 ≢ shown h es out_of_rounds
      logged hdr ((es', stop), w') k = λ p. k (cc)

      behind :
          (r : Res SegmentHeader × input.World)
          → left s r.1 ≤ left s w
          → (behind_header input depth rounds r).0 ≢ shown h es out_of_rounds
      behind (ok hdr, w') k =
          logged hdr (read_entries input depth rounds 0 w')
            (read_entries-Ended rounds 0 w' (omega (arith, k, l)))
      behind (at_end, w') k = λ p. absurd (cc)
      behind (bad, w') k = λ p. absurd (cc)
