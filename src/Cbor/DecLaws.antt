-- ===== src/Cbor/DecLaws.antt =====
-- Laws of the decoder on any input: it stays inside its buffer and moves forward.
use lbd.Prelude.{ℕ, ◌/◌, ◌%◌, ◌<◌, ◌≤◌, ◌≡◌, arith, some}
use lbd.Cbor.Dec.{CborDec, advance, peek, cbor_dec_arg, cbor_dec_head}

-- `e` is `d` moved forward, at most to the end.
pub record Forward (d e : CborDec) : Type 0 where
  pub same_buf : e.buf ≡ d.buf
  pub same_len : e.len ≡ d.len
  pub grows : d.pos ≤ e.pos
  pub inside : e.pos ≤ e.len

cbor_dec_arg-Forward :
    (d : CborDec) (major ai : ℕ) → d.pos ≤ d.len → Forward d (cbor_dec_arg d major ai).1
unfolding cbor_dec_arg
cbor_dec_arg-Forward d major ai h = ground arith

-- Whatever the bytes are, reading a head from a position inside the buffer moves forward within
-- the buffer.
pub cbor_dec_head-Forward : (d : CborDec) → d.pos ≤ d.len → Forward d (cbor_dec_head d).1
unfolding cbor_dec_head
cbor_dec_head-Forward d h =
    ground (arith, cbor_dec_arg-Forward (advance d 1) (peek d 0 / 32) (peek d 0 % 32))

-- From a position inside the buffer, a head that is read takes at least one byte.
pub cbor_dec_head_progress :
    (d : CborDec) (major val : ℕ)
    → d.pos ≤ d.len
    → (cbor_dec_head d).0 ≡ some (major, val)
    → d.pos < (cbor_dec_head d).1.pos
unfolding cbor_dec_head
cbor_dec_head_progress d major val h e =
    ground (arith, cbor_dec_arg-Forward (advance d 1) (peek d 0 / 32) (peek d 0 % 32))
