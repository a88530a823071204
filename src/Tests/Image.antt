-- ===== src/Tests/Image.antt =====
-- `lbdctl create --size 64K --cluster-bits 12 p` on a system whose state is the content of the file.
use lbd.Prelude.{
  ℕ, ◌+◌, ◌-◌, ◌*◌, ◌≡◌, refl, true, List, [], ◌∷◌, ◌++◌, none, some, arith, length, replicate,
}
use lbd.Format.{header_size}
use lbd.Image.{Numbers, Layout, Output, size_option, cluster_bits_option, parse_args, cmd_create}
use lbd.Image.Header.{Describes}
use lbd.Image.Fresh.{Serves, cmd_create-Describes}

abbrev appending : Output
appending = record {
  World = List ℕ;
  open_trunc = λ path w. (true, []);
  write = λ bs w. (some (length bs), w ++ bs);
  calloc = λ n w. (true, w);
  ftruncate = λ n w. (true, w ++ replicate (n - length w) 0);
  close = λ w. w;
}

appending_serves : Serves appending
appending_serves = record {
  content = λ w. w;
  opens = λ path w. refl;
  empties = λ path w. refl;
  writes = λ bs w. refl;
  appends = λ bs w. refl;
  gives = λ n w. refl;
  keeps = λ n w. refl;
  extends_to = λ n w. refl;
  fills = λ n w h. refl;
  closes = λ w. refl;
}

-- Every number is 64, with a K behind it, or 12.
abbrev some_numbers : Numbers
some_numbers = record { strtoull = λ s. (64, 75); atoi = λ s. 12 }

abbrev some_argv : List (List ℕ)
some_argv =
    size_option ∷ (54 ∷ 52 ∷ 75 ∷ []) ∷ cluster_bits_option ∷ (49 ∷ 50 ∷ []) ∷ (112 ∷ []) ∷ []

said :
    parse_args some_numbers some_argv (record { path = none; virtual_size = 0; cluster_bits = 16 })
    ≡ some (record { path = some (112 ∷ []); virtual_size = 65536; cluster_bits = 12 })
unfolding parse_args
said = refl

cmd_create-Describes_example :
    (hdr : List ℕ) × (l : Layout) × Describes hdr 65536 12 l
    × ((cmd_create appending some_numbers some_argv []).0 ≡ 0)
    × (length hdr ≡ header_size)
    × (appending_serves.content (cmd_create appending some_numbers some_argv []).1
        ≡ (hdr ++ replicate (l.l1_size * 8) 0)
          ++ replicate (l.alloc_offset - (header_size + l.l1_size * 8)) 0)
cmd_create-Describes_example =
    cmd_create-Describes appending_serves some_numbers some_argv (112 ∷ []) 65536 12 [] said
      (omega arith) (omega arith) (omega arith) (omega arith) (omega arith)
