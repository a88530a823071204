-- ===== src/Reader/Skip.antt =====
-- `cbor_skip` of src/lbdctl.c. Its recursion is bounded by `depth`.
use lbd.Prelude.{ℕ, zero, suc, ◌-◌, ◌*◌, ltb, ◌==◌, ◌||◌, if◌then◌else◌}
use lbd.Reader.{Input, Res, ok, at_end, bad, Reader, pure, fail, ◌>>=◌, ◌>>◌, next_bytes}
use lbd.Reader.Cbor.{cbor_read_head}

module _ (input : Input) where
  -- The loop over `val` bytes by 256; each round takes one at least.
  unfoldable pub skip_bytes : (rounds val : ℕ) → Reader input.World (Unit {0})
  unfolding next_bytes
  skip_bytes zero val = pure tt
  skip_bytes (suc rounds) val = if val == 0 then pure tt else (do
    let size = if ltb val 256 then val else 256
    bs ← next_bytes input size
    skip_bytes rounds (val - size))

  -- `if (cbor_skip(fd)) return -2;`
  abbrev pub inner : Res (Unit {0}) × input.World → Res (Unit {0}) × input.World
  inner (ok tt, w) = (ok tt, w)
  inner (at_end, w) = (bad, w)
  inner (bad, w) = (bad, w)

  abbrev pub nested : Reader input.World (Unit {0}) → Reader input.World (Unit {0})
  nested m w = inner (m w)

  unfoldable pub skip_items : Reader input.World (Unit {0}) → ℕ → Reader input.World (Unit {0})
  skip_items skip zero = pure tt
  skip_items skip (suc n) = do nested skip; skip_items skip n

  -- What follows the head; `skip` is the call for an item inside.
  unfoldable pub skip_body : Reader input.World (Unit {0}) → ℕ × ℕ → Reader input.World (Unit {0})
  unfolding skip_bytes skip_items
  skip_body skip (major, val) =
      if major == 0 || major == 1 || major == 7
      then pure tt
      else if major == 2 || major == 3
      then skip_bytes val val
      else if major == 4
      then skip_items skip val
      else if major == 5
      then skip_items skip (2 * val)
      else fail

  unfoldable pub cbor_skip : (depth : ℕ) → Reader input.World (Unit {0})
  unfolding cbor_read_head skip_body
  cbor_skip zero = fail
  cbor_skip (suc depth) = cbor_read_head input >>= skip_body (cbor_skip depth)
