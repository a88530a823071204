-- ===== src/Cbor.antt =====
-- The CBOR codec: `Enc` is src/cbor_enc.h, `Dec` is src/cbor_dec.h, both of the kernel module, and
-- `Write` the encoder of src/lbdctl.c. `Head` describes the bytes of a head independently of the
-- three; the other children hold proofs.
pub mod Enc
pub mod Dec
pub mod Write
pub mod Head
pub mod EncLaws
pub mod Items
pub mod DecLaws
pub mod RoundTrip
pub mod Text
