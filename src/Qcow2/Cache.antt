-- ===== src/Qcow2/Cache.antt =====
-- The two searches that the caches of src/lbd_qcow2.c share: the entry that holds an index, and the
-- entry to reuse, which is the first invalid one or the one least recently used.
pub mod Search
use lbd.Prelude.{
  ℕ, suc, ◌-◌, ◌^◌, Bool, not, ◌&&◌, List, [], ◌∷◌, Option, none, some, ltb, ◌==◌, if◌then◌else◌,
}

abbrev pub next_index : Option ℕ → Option ℕ
next_index none = none
next_index (some i) = some (suc i)

module _ {A : Type 0} (valid : A → Bool) where
  -- `index` is the key of an entry.
  unfoldable pub find_entry : (A → ℕ) → List A → ℕ → Option ℕ
  find_entry index [] key = none
  find_entry index (e ∷ es) key =
      if valid e && index e == key then some 0 else next_index (find_entry index es key)

  -- `i` is the index of the first entry of the list, `best` the best entry before it.
  unfoldable pub victim_from : (A → ℕ) → ℕ → Option ℕ → ℕ → List A → Option ℕ
  victim_from lru oldest best i [] = best
  victim_from lru oldest best i (e ∷ es) =
      let older = ltb (lru e) oldest in
      let rest =
        victim_from lru (if older then lru e else oldest) (if older then some i else best) (suc i)
          es in
      if not (valid e) then some i else rest

  unfoldable pub victim : (A → ℕ) → List A → Option ℕ
  unfolding victim_from
  victim lru es = victim_from lru (2 ^ 64 - 1) none 0 es
