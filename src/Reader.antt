-- ===== src/Reader.antt =====
-- How `lbdctl log` (src/lbdctl.c) reads a segment of the log: a stream of CBOR from a descriptor.
pub mod Crc
pub mod Cbor
pub mod Skip
pub mod Segment
pub mod Laws
pub mod Parses
pub mod CborLaws
pub mod Entries
pub mod Records
pub mod EndOfFile
pub mod Torn
pub mod Shrinks
pub mod Terminates
pub mod Depth
use lbd.Prelude.{ℕ, zero, suc, ◌-◌, Bool, List, [], ◌∷◌, ◌++◌, Option, length, ◌==◌, if◌then◌else◌}

-- What read(2) returns, but for a failure with EINTR: the bytes that arrived, or -1.
pub data Chunk : Type 0 where
  chunk : List ℕ → Chunk
  unreadable : Chunk

-- The calls that are not under src.
pub record Input : Type 1 where
  pub World : Type 0
  -- `read(fd, buf, n)`, called again as long as it fails with EINTR.
  pub read : ℕ → World → Chunk × World
  -- Whether `malloc(n)` gives memory.
  pub malloc : ℕ → World → Bool × World
  -- The bytes stored, or a negative result; both `int` arguments are given as bit patterns.
  pub lz4_decompress_safe : (src : List ℕ) (compressed_size capacity : ℕ) → Option (List ℕ)

-- `read_exact` returns 1 with the bytes, 0 at the end of the file, or -1.
pub data Exact : Type 0 where
  whole : List ℕ → Exact
  ended : Exact
  short : Exact

-- The CBOR readers return 0 with a value, -1 at the end of the file, or -2.
pub data Res {ℓ} (A : Type ℓ) : Type ℓ where
  ok : A → Res A
  at_end : Res A
  bad : Res A

-- A reader over the states `W` of the system.
abbrev pub Reader : Type 0 → Type 0 → Type 0
Reader W A = W → Res A × W

module _ {W : Type 0} where
  abbrev pub pure : {A : Type 0} → A → Reader W A
  pure a w = (ok a, w)

  abbrev pub fail : {A : Type 0} → Reader W A
  fail w = (bad, w)

  abbrev pub and_then : {A B : Type 0} → Res A × W → (A → Reader W B) → Res B × W
  and_then (ok a, w) f = f a w
  and_then (at_end, w) f = (at_end, w)
  and_then (bad, w) f = (bad, w)

  infixl 5 ◌>>=◌ ◌>>◌
  abbrev pub ◌>>=◌ : {A B : Type 0} → Reader W A → (A → Reader W B) → Reader W B
  ◌>>=◌ m f w = and_then (m w) f

  abbrev pub ◌>>◌ : {B : Type 0} → Reader W (Unit {0}) → Reader W B → Reader W B
  m >> n = m >>= λ _. n

  -- `if (ret == 0) return -1; if (ret < 0) return -2;`
  abbrev pub or_end : Exact × W → Res (List ℕ) × W
  or_end (whole bs, w) = (ok bs, w)
  or_end (ended, w) = (at_end, w)
  or_end (short, w) = (bad, w)

  -- `if (read_exact(...) <= 0) return -2;`
  abbrev pub or_bad : Exact × W → Res (List ℕ) × W
  or_bad (whole bs, w) = (ok bs, w)
  or_bad (ended, w) = (bad, w)
  or_bad (short, w) = (bad, w)

module _ (input : Input) where
  abbrev pub malloc : ℕ → Reader input.World Bool
  malloc n w = let (given, w') = input.malloc n w in (ok given, w')

  -- A round of the loop: `done` bytes are in the buffer, and `more` is the rest of the loop.
  unfoldable pub take_chunk :
      (List ℕ → input.World → Exact × input.World)
      → (done : ℕ) → Chunk × input.World
      → Exact × input.World
  take_chunk more done (unreadable, w) = (short, w)
  take_chunk more done (chunk [], w) = (if done == 0 then ended else short, w)
  take_chunk more done (chunk (b ∷ bs), w) = more (b ∷ bs) w

  -- `left` bytes are missing; each round takes one of them at least.
  unfoldable pub read_rest : (rounds : ℕ) → List ℕ → (left : ℕ) → input.World → Exact × input.World
  unfolding take_chunk
  read_rest zero bytes left w = (whole bytes, w)
  read_rest (suc rounds) bytes left w =
      if left == 0
      then (whole bytes, w)
      else take_chunk (λ bs. read_rest rounds (bytes ++ bs) (left - length bs)) (length bytes)
          (input.read left w)

  unfoldable pub read_exact : ℕ → input.World → Exact × input.World
  unfolding read_rest
  read_exact n w = read_rest n [] n w

  unfoldable pub first_bytes : ℕ → Reader input.World (List ℕ)
  unfolding read_exact
  first_bytes n w = or_end (read_exact n w)

  unfoldable pub next_bytes : ℕ → Reader input.World (List ℕ)
  unfolding read_exact
  next_bytes n w = or_bad (read_exact n w)
