-- ===== src/Tests.antt =====
-- The theorems at concrete inputs: a kernel whose only file is a memory disk that grows, and a device
-- on it. The memory disk also shows that what `Disk` asks of a kernel can be had.
pub mod Space
pub mod Tables
pub mod Codecs
pub mod Ring
pub mod Logs
pub mod Loops
pub mod Swap
pub mod Reader
pub mod Image
use lbd.Prelude.{
  ℕ, zero, suc, ◌+◌, ◌-◌, ◌≤◌, ◌<◌, ◌^◌, ◌≡◌, refl, sym, ◌∙◌, Bool, true, false, [], ◌∷◌, none,
  some, arith, leb, if◌then◌else◌, length, get_or, replicate,
}
use lbd.Kernel.{Kernel, got, wrote, malformed}
use lbd.Disk.{Disk, window, patch}
use lbd.Qcow2.State.{L2Entry, Device, ok}
use lbd.Qcow2.Space.{free_extent, alloc_space}
use lbd.Qcow2.FreeList.Model.{allocate}
use lbd.Qcow2.Space.Free.{HasFree, HeadOnDisk, free_extent-HasFree}
use lbd.Qcow2.Space.Alloc.{Agrees, alloc_space-allocate}
use lbd.Qcow2.Space.Safety.{Granted, alloc_space-Granted, free_then_alloc}
use lbd.Qcow2.Cache.{victim}
use lbd.Qcow2.Cache.Search.{IsVictim, victim-IsVictim}
use lbd.Qcow2.L2.{l2_at, l2_get}
use lbd.Qcow2.L2.Invariant.{L2Inv, Got}
use lbd.Cbor.Enc.{cbor_enc_head}
use lbd.Cbor.Dec.{cbor_dec_head}
use lbd.Cbor.Write.{cbor_write_head}
use lbd.Cbor.Head.{length-head_bytes}
use lbd.Cbor.EncLaws.{enc}
use lbd.Cbor.DecLaws.{Forward, cbor_dec_head-Forward, cbor_dec_head_progress}
use lbd.Cbor.RoundTrip.{
  dec, cbor_dec_head-enc_head, cbor_write_head-enc_head, cbor_enc_head_overflow,
}
use lbd.Format.Header.{
  virtual_size, l1_size, alloc_offset, field_get, field_set, field_get-set_self, field_get-set_ne,
}

-- Contents and size.
abbrev Memory : Type 0
Memory = (ℕ → ℕ) × ℕ

abbrev grown : ℕ → ℕ → ℕ
grown size end = if leb size end then end else size

-- Memory is always there, and nothing is compressed.
abbrev memory_kernel : Kernel
memory_kernel = record {
  World = Memory;
  File = Unit {0};
  kvmalloc = λ n w. (true, w);
  kernel_read = λ f n pos w. (if leb (pos + n) w.1 then got (window w.0 pos n) else got [], w);
  kernel_write = λ f bs pos w. (wrote (length bs), (patch w.0 pos bs, grown w.1 (pos + length bs)));
  crc32c = λ seed bs. 0;
  lz4_compress_bound = λ n. n;
  lz4_compress = λ bs n. [];
  lz4_decompress_safe = λ bs n. malformed [];
}

memory_disk : Disk memory_kernel
memory_disk = record {
  peek = λ w f. w.0;
  size = λ w f. w.1;
  read_whole = λ f n pos w h. ground arith;
  alloc_keeps = λ f n w. refl;
  alloc_size = λ f n w. refl;
  read_keeps = λ f n pos w. refl;
  read_size = λ f n pos w. refl;
  write_whole = λ f bs pos w. refl;
  write_puts = λ f bs pos w. refl;
  write_grows = λ f bs pos w. ground arith;
  write_holds = λ f bs pos w. ground arith;
}

abbrev an_entry : ℕ → Bool → ℕ → L2Entry
an_entry l1_index valid lru = record {
  l1_index = l1_index;
  valid = valid;
  dirty = false;
  lru = lru;
  table = [];
}

-- An image of 16 KiB with clusters of 4 KiB and no free extent.
abbrev a_device : Device memory_kernel
a_device = record {
  world = (λ a. 0, 16384);
  backing_file = tt;
  qcow2 = record {
    cluster_bits = 12;
    cluster_size = 4096;
    l2_entries = 511;
    virtual_size = 1048576;
    l1_table = 0 ∷ [];
    l1_size = 1;
    l1_offset = 4096;
    alloc_offset = 16384;
    free_list_head = 0;
    l2_cache = an_entry 0 true 3 ∷ an_entry 0 false 0 ∷ [];
    cl_cache = [];
    lru_tick = 4;
  };
  base = none;
  base_path = [];
  miss_handler = false;
  stats = record {
    reads = 0;
    read_bytes = 0;
    alloc_reused = 0;
    alloc_new = 0;
    alloc_freed = 0;
    compressed = 0;
    uncompressed = 0;
  };
}
