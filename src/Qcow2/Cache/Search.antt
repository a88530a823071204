-- ===== src/Qcow2/Cache/Search.antt =====
-- What the two searches of a cache find.
use lbd.Prelude.{
  ℕ, zero, suc, ◌+◌, ◌-◌, ◌<◌, ◌≤◌, ◌^◌, ◌≡◌, ◌≢◌, refl, ap, ◌∙◌, ◌⊎◌, inl, inr, Bool, true, false,
  List, [], ◌∷◌, Option, none, some, arith, ltb, length, get_or, Bool-cases,
}
use lbd.Qcow2.Cache.{find_entry, victim_from, victim}

module _ {A : Type 0} (valid : A → Bool) (d : A) where
  -- An entry that is found is valid and has the key.
  pub find_entry-some :
      (index : A → ℕ) (es : List A) (key i : ℕ)
      → find_entry valid index es key ≡ some i
      → (i < length es) × (valid (get_or es i d) ≡ true) × (index (get_or es i d) ≡ key)
  unfolding find_entry
  find_entry-some index [] key i h = cc
  find_entry-some index (e ∷ es) key zero h = ground arith
  find_entry-some index (e ∷ es) key (suc i) h =
      let found : find_entry valid index es key ≡ some i = ground arith in
      ground (arith, find_entry-some index es key i found)

  -- Without a hit no valid entry has the key.
  pub find_entry-none :
      (index : A → ℕ) (es : List A) (key : ℕ)
      → find_entry valid index es key ≡ none
      → (i : ℕ) → i < length es
      → valid (get_or es i d) ≡ true
      → index (get_or es i d) ≢ key
  unfolding find_entry
  find_entry-none index [] key h i l v = elim l [ ]
  find_entry-none index (e ∷ es) key h zero l v = λ eq. ground arith
  find_entry-none index (e ∷ es) key h (suc i) l v =
      let rest : find_entry valid index es key ≡ none = ground arith in
      find_entry-none index es key rest i (omega arith) v

  -- The entry to reuse: the first invalid one, or else one that no other precedes in use.
  pub record IsVictim (lru : A → ℕ) (es : List A) (i : ℕ) : Type 0 where
    pub inside : i < length es
    pub choice :
        (valid (get_or es i d) ≡ false)
        ⊎ ((j : ℕ)
            → j < length es
            → (valid (get_or es j d) ≡ true) × (lru (get_or es i d) ≤ lru (get_or es j d)))

  -- What the loop over `es` makes of the best entry before it; `i` is the first index of `es`.
  data Chosen (lru : A → ℕ) (oldest : ℕ) (best : Option ℕ) (i : ℕ) (es : List A) (r : Option ℕ)
      : Type 0 where
    unused :
        (j : ℕ)
        → j < length es
        → r ≡ some (i + j)
        → valid (get_or es j d) ≡ false
        → Chosen lru oldest best i es r
    kept :
        r ≡ best
        → ((j : ℕ)
            → j < length es
            → (valid (get_or es j d) ≡ true) × (oldest ≤ lru (get_or es j d)))
        → Chosen lru oldest best i es r
    older :
        (j : ℕ)
        → j < length es
        → r ≡ some (i + j)
        → lru (get_or es j d) < oldest
        → ((m : ℕ)
            → m < length es
            → (valid (get_or es m d) ≡ true) × (lru (get_or es j d) ≤ lru (get_or es m d)))
        → Chosen lru oldest best i es r

  -- The step over one valid entry that is not older than the best before it, and over one that is.
  pass :
      (lru : A → ℕ) (oldest : ℕ) (best : Option ℕ) (i : ℕ) (e : A) (es : List A) (r : Option ℕ)
      → valid e ≡ true
      → oldest ≤ lru e
      → Chosen lru oldest best (suc i) es r
      → Chosen lru oldest best i (e ∷ es) r
  pass lru oldest best i e es r v h (unused j l q f) =
      unused (suc j) (omega arith) (q ∙ ap some (omega arith)) f
  pass lru oldest best i e es r v h (kept q all) = kept q all'
    where
      all' :
          (j : ℕ)
          → j < suc (length es)
          → (valid (get_or (e ∷ es) j d) ≡ true) × (oldest ≤ lru (get_or (e ∷ es) j d))
      all' zero l = (v, h)
      all' (suc j) l = all j (omega arith)
  pass lru oldest best i e es r v h (older j l q o all) =
      older (suc j) (omega arith) (q ∙ ap some (omega arith)) o all'
    where
      all' :
          (m : ℕ)
          → m < suc (length es)
          → (valid (get_or (e ∷ es) m d) ≡ true) × (lru (get_or es j d) ≤ lru (get_or (e ∷ es) m d))
      all' zero l = (v, omega arith)
      all' (suc m) l = all m (omega arith)

  take_over :
      (lru : A → ℕ) (oldest : ℕ) (best : Option ℕ) (i : ℕ) (e : A) (es : List A) (r : Option ℕ)
      → valid e ≡ true
      → lru e < oldest
      → Chosen lru (lru e) (some i) (suc i) es r
      → Chosen lru oldest best i (e ∷ es) r
  take_over lru oldest best i e es r v h (unused j l q f) =
      unused (suc j) (omega arith) (q ∙ ap some (omega arith)) f
  take_over lru oldest best i e es r v h (kept q all) =
      older 0 (omega arith) (q ∙ ap some (omega arith)) h all'
    where
      all' :
          (m : ℕ)
          → m < suc (length es)
          → (valid (get_or (e ∷ es) m d) ≡ true) × (lru e ≤ lru (get_or (e ∷ es) m d))
      all' zero l = (v, omega arith)
      all' (suc m) l = all m (omega arith)
  take_over lru oldest best i e es r v h (older j l q o all) =
      older (suc j) (omega arith) (q ∙ ap some (omega arith)) (omega arith) all'
    where
      all' :
          (m : ℕ)
          → m < suc (length es)
          → (valid (get_or (e ∷ es) m d) ≡ true) × (lru (get_or es j d) ≤ lru (get_or (e ∷ es) m d))
      all' zero l = (v, omega arith)
      all' (suc m) l = all m (omega arith)

  victim_from-Chosen :
      (lru : A → ℕ) (oldest : ℕ) (best : Option ℕ) (i : ℕ) (es : List A)
      → Chosen lru oldest best i es (victim_from valid lru oldest best i es)
  unfolding victim_from
  victim_from-Chosen lru oldest best i [] = kept refl (λ j l. elim l [ ])
  victim_from-Chosen lru oldest best i (e ∷ es) = elim (Bool-cases (valid e)) [
    | inr v ↦ rw v (unused 0 (omega arith) (ap some (omega arith)) v)
    | inl v ↦ elim (Bool-cases (ltb (lru e) oldest)) [
      | inl h ↦
          rw (v, h)
            (take_over lru oldest best i e es _ v (ground arith)
              (victim_from-Chosen lru (lru e) (some i) (suc i) es))
      | inr h ↦
          rw (v, h)
            (pass lru oldest best i e es _ v (ground arith)
              (victim_from-Chosen lru oldest best (suc i) es))
    ]
  ]

  -- In a cache with an entry, none of whose time stamps is the largest u64, the search finds an
  -- entry to reuse: an invalid one, or, where all are valid, one whose time stamp no other is
  -- below.
  pub victim-IsVictim :
      (lru : A → ℕ) (es : List A)
      → 0 < length es
      → ((j : ℕ) → j < length es → lru (get_or es j d) < 2 ^ 64 - 1)
      → (i : ℕ) × (victim valid lru es ≡ some i) × IsVictim lru es i
  unfolding victim
  victim-IsVictim lru es some_entry small =
      found (victim_from valid lru (2 ^ 64 - 1) none 0 es)
        (victim_from-Chosen lru (2 ^ 64 - 1) none 0 es)
    where
      found :
          (r : Option ℕ)
          → Chosen lru (2 ^ 64 - 1) none 0 es r
          → (i : ℕ) × (r ≡ some i) × IsVictim lru es i
      found r (unused j l q f) =
          (j, q ∙ ap some (omega arith), record { inside = l; choice = inl f })
      found r (kept q all) = absurd (omega (arith, small 0 some_entry, (all 0 some_entry).1))
      found r (older j l q o all) =
          (j, q ∙ ap some (omega arith), record { inside = l; choice = inr all })

module _ {A : Type 0} (valid : A → Bool) (d : A) where
  -- Where no valid entry has the key, there is no hit.
  pub find_entry_misses :
      (index : A → ℕ) (es : List A) (key : ℕ)
      → ((i : ℕ) → i < length es → valid (get_or es i d) ≡ true → index (get_or es i d) ≢ key)
      → find_entry valid index es key ≡ none
  unfolding find_entry
  find_entry_misses index [] key h = refl
  find_entry_misses index (e ∷ es) key h =
      let rest = find_entry_misses index es key (λ i l. h (suc i) (omega arith)) in
      ground (arith, h 0 (omega arith))
