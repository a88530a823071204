-- ===== src/Tests/Swap.antt =====
-- The base layer at concrete inputs: a kernel in which every file reads as zeros, and whose state is
-- the number of open files.
use lbd.Prelude.{
  ℕ, ◌+◌, ◌-◌, ◌≡◌, refl, Bool, true, false, [], ◌∷◌, List, some, none, Option, arith, replicate,
}
use lbd.Kernel.{Kernel, got, wrote, malformed, opened}
use lbd.Qcow2.State.{Device}
use lbd.Qcow2.Swap.{BaseFiles, base_init, swap_base}
use lbd.Qcow2.Swap.Ends.{Counted}
use lbd.Qcow2.Swap.Attached.{Attached, base_init-Attached}
use lbd.Qcow2.Swap.Swapped.{Swapped, swap_base-Swapped}
use lbd.Qcow2.L2.{flush_all_l2}
use lbd.Qcow2.State.{read_all}
use lbd.Format.{get64, get32}
use lbd.Format.Header.{hdr_l1_size}
use lbd.Tests.{a_device}

abbrev zero_kernel : Kernel
zero_kernel = record {
  World = ℕ;
  File = Bool;
  kvmalloc = λ n w. (true, w);
  kernel_read = λ f n pos w. (got (replicate n 0), w);
  kernel_write = λ f bs pos w. (wrote (lbd.Prelude.length bs), w);
  crc32c = λ seed bs. 0;
  lz4_compress_bound = λ n. n;
  lz4_compress = λ bs n. [];
  lz4_decompress_safe = λ bs n. malformed [];
}

-- The primary is the file `false`; whatever is opened is a file of 1 MiB.
abbrev zero_files : BaseFiles zero_kernel
zero_files = record {
  filp_open = λ path w. (opened true, w + 1);
  fput = λ f w. w - 1;
  is_regular = λ f. true;
  i_size_read = λ f w. 1048576;
  kzalloc_base = λ w. (true, w);
  same_inode = λ f g. if_same f g;
}
  where
    if_same : Bool → Bool → Bool
    if_same true g = g
    if_same false g = false

zero_files_counted : Counted zero_files
zero_files_counted = record {
  open_files = λ w. w;
  opens = λ path w f h. omega arith;
  opens_not = λ path w e h. absurd (cc);
  closes = λ f w. refl;
  zallocs = λ w. refl;
  allocs = λ n w. refl;
  reads = λ f n pos w. refl;
  writes = λ f bs pos w. refl;
}

-- The device has a base already.
abbrev based_device : Device zero_kernel
based_device = record {
  world = 2;
  backing_file = false;
  qcow2 = a_device.qcow2;
  base = some (record {
    file = true;
    is_qcow2 = false;
    size = 1048576;
    cluster_bits = 0;
    cluster_size = 0;
    l2_entries = 0;
    l1_table = [];
    l1_size = 0;
    l1_offset = 0;
    l2_cache = [];
    lru_tick = 0;
  });
  base_path = 47 ∷ 97 ∷ [];
  miss_handler = false;
  stats = a_device.stats;
}

base_init-Attached_example :
    Attached zero_files_counted based_device (base_init zero_files (47 ∷ 98 ∷ []) based_device)
base_init-Attached_example = base_init-Attached zero_files_counted (47 ∷ 98 ∷ []) based_device

swap_base-Swapped_example :
    Swapped zero_files_counted
      (47 ∷ 98 ∷ [])
      based_device
      (swap_base zero_files (47 ∷ 98 ∷ []) based_device)
swap_base-Swapped_example = swap_base-Swapped zero_files_counted (47 ∷ 98 ∷ []) based_device

swapped_path : (swap_base zero_files (47 ∷ 98 ∷ []) based_device).1.base_path ≡ 47 ∷ 98 ∷ []
unfolding swap_base flush_all_l2 read_all get64 hdr_l1_size get32
swapped_path = refl
