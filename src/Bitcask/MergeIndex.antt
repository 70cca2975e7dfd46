-- ===== src/Bitcask/MergeIndex.antt =====
-- bitcask/main.go: Merge puts the pending updates of a file into the index.
use design_pocs.Common.{
  ◌≡◌, ◌≢◌, ◌⊎◌, inl, inr, refl, sym, ap, ◌∙◌, Bool, true, false, Bool-cases, Option, none, some,
  List, [], ◌∷◌, arith, All, Bytes, lookup, insert, lookup-insert, bytes_key, bytes_eq,
  bytes_eq_iff, if◌then◌else◌,
}
use design_pocs.Bitcask.Store.{KeyDirEntry}
use design_pocs.Bitcask.Merge.{MergeUpdate, is_current, apply_update, apply_updates}
use design_pocs.Bitcask.Moved.{entry_eq_refl, some-inj}

abbrev pub Index : Type 0
Index = List (Bytes × KeyDirEntry)

-- `New` is what holds of a replacement and its key.
module _ (New : Bytes → KeyDirEntry → Type 0) where
  abbrev pub AllNew : List (Bytes × MergeUpdate) → Type 0
  AllNew us = All (λ u. New u.0 u.1.replacement) us

  -- Each entry of `dir` is one of `old`, or new, and the keys are the same.
  pub record From (old dir : Index) : Type 0 where
    pub entries :
        (key : Bytes) (e : KeyDirEntry)
        → lookup key dir ≡ some e
        → (lookup key old ≡ some e) ⊎ New key e
    pub keys : (key : Bytes) → lookup key dir ≡ none → lookup key old ≡ none
    pub no_keys : (key : Bytes) → lookup key old ≡ none → lookup key dir ≡ none

  pub From-refl : (old : Index) → From old old
  From-refl old = record {
    entries = λ key e found. inl found;
    keys = λ key h. h;
    no_keys = λ key h. h;
  }

  insert-From :
      (old dir : Index) (key : Bytes) (r : KeyDirEntry)
      → lookup key dir ≢ none
      → New key r
      → From old dir
      → From old (insert key r dir)
  insert-From old dir key r there new h = record {
    entries = λ j e found. elim (Bool-cases (bytes_eq key j)) [
      | inl same ↦
          let key_is : key ≡ j = (bytes_eq_iff key j).0 same in
          let is_r : r ≡ e = some-inj r e (ground (arith, lookup-insert key j r dir)) in
          inr (rw (← key_is, ← is_r) new)
      | inr differs ↦ h.entries j e (ground (arith, lookup-insert key j r dir))
    ];
    keys = λ j gone. h.keys j (ground (arith, lookup-insert key j r dir));
    no_keys = λ j gone.
        let missing = h.no_keys j gone in
        elim (Bool-cases (bytes_eq key j)) [
          | inl same ↦
              let key_is : key ≡ j = (bytes_eq_iff key j).0 same in
              absurd (there (rw key_is missing))
          | inr differs ↦ ground (arith, lookup-insert key j r dir)
        ];
  }

  current-found :
      (o : Option KeyDirEntry) (original : KeyDirEntry) → is_current o original ≡ true → o ≢ none
  current-found none original h = λ e. cc
  current-found (some e) original h = λ nothing. cc

  apply_update-From :
      (old dir : Index) (key : Bytes) (u : MergeUpdate)
      → New key u.replacement
      → From old dir
      → From old (apply_update key u dir)
  apply_update-From old dir key u new h =
      elim (Bool-cases (is_current (lookup key dir) u.original)) [
        | inl current ↦ rw current (
            insert-From old dir key u.replacement
              (current-found (lookup key dir) u.original current) new h)
        | inr stale ↦ rw stale h
      ]

  pub apply_updates-From :
      (us : List (Bytes × MergeUpdate)) (old dir : Index)
      → AllNew us
      → From old dir
      → From old (apply_updates us dir)
  unfolding apply_updates
  apply_updates-From [] old dir new h = h
  apply_updates-From ((key, u) ∷ us) old dir (n, new) h =
      apply_updates-From us old (apply_update key u dir) new (apply_update-From old dir key u n h)

  -- The entry of a key is new, if it has one.
  abbrev Replaced : Index → Bytes → Type 0
  Replaced dir key = (e : KeyDirEntry) → lookup key dir ≡ some e → New key e

  insert-Replaced :
      (dir : Index) (j key : Bytes) (r : KeyDirEntry)
      → New j r
      → Replaced dir key
      → Replaced (insert j r dir) key
  insert-Replaced dir j key r new h e found = elim (Bool-cases (bytes_eq j key)) [
    | inl same ↦
        let key_is : j ≡ key = (bytes_eq_iff j key).0 same in
        let is_r : r ≡ e = some-inj r e (ground (arith, lookup-insert j key r dir)) in
        rw (← key_is, ← is_r) new
    | inr differs ↦ h e (ground (arith, lookup-insert j key r dir))
  ]

  self-Replaced :
      (dir : Index) (j key : Bytes) (r : KeyDirEntry)
      → bytes_eq j key ≡ true
      → New j r
      → Replaced (insert j r dir) key
  self-Replaced dir j key r same new e found =
      let key_is : j ≡ key = (bytes_eq_iff j key).0 same in
      let is_r : r ≡ e = some-inj r e (ground (arith, lookup-insert j key r dir)) in
      rw (← key_is, ← is_r) new

  original_current :
      (o : Option KeyDirEntry) (e original : KeyDirEntry)
      → o ≡ some e
      → original ≡ e
      → is_current o original ≡ true
  original_current o e original found same = rw found (
      entry_eq_refl e original (ap (λ x. x.file_path) (sym same))
        (ap (λ x. x.file_entry_offset) (sym same)) (ap (λ x. x.value_size) (sym same)))

  if-Replaced :
      (key : Bytes) (b : Bool) (x y : Index)
      → Replaced x key
      → Replaced y key
      → Replaced (if b then x else y) key
  if-Replaced key true x y h k = h
  if-Replaced key false x y h k = k

  apply_updates-Replaced :
      (us : List (Bytes × MergeUpdate)) (dir : Index) (key : Bytes)
      → AllNew us
      → Replaced dir key
      → Replaced (apply_updates us dir) key
  unfolding apply_updates
  apply_updates-Replaced [] dir key new h = h
  apply_updates-Replaced ((j, u) ∷ us) dir key (n, new) h =
      apply_updates-Replaced us (apply_update j u dir) key new (
        if-Replaced key (is_current (lookup j dir) u.original) (insert j u.replacement dir) dir
          (insert-Replaced dir j key u.replacement n h) h)

  -- Another key's entry stays.
  other_key :
      (dir : Index) (j key : Bytes) (u : MergeUpdate)
      → bytes_eq j key ≡ false
      → lookup key (apply_update j u dir) ≡ lookup key dir
  other_key dir j key u differs = elim (Bool-cases (is_current (lookup j dir) u.original)) [
    | inl current ↦ rw current (ground (arith, lookup-insert j key u.replacement dir))
    | inr stale ↦ rw stale refl
  ]

  -- An update whose original is in the index is made.
  pub covered-Replaced :
      (us : List (Bytes × MergeUpdate)) (dir : Index) (key : Bytes) (u : MergeUpdate)
      (e : KeyDirEntry)
      → AllNew us
      → lookup key us ≡ some u
      → lookup key dir ≡ some e
      → u.original ≡ e
      → (e' : KeyDirEntry) → lookup key (apply_updates us dir) ≡ some e'
      → New key e'
  unfolding apply_updates lookup
  covered-Replaced [] dir key u e new there found is_e = cc
  covered-Replaced ((j, w) ∷ us) dir key u e (n, new) there found is_e =
      elim (Bool-cases (bytes_eq j key)) [
        | inl same ↦
            let key_is : j ≡ key = (bytes_eq_iff j key).0 same in
            let w_is : w ≡ u = some-inj w u (ground (arith, there)) in
            let current : is_current (lookup j dir) w.original ≡ true =
              original_current (lookup j dir) e w.original (ap (λ x. lookup x dir) key_is ∙ found)
                (ap (λ x. x.original) w_is ∙ is_e) in
            rw current (
              apply_updates-Replaced us (insert j w.replacement dir) key new
                (self-Replaced dir j key w.replacement same n))
        | inr differs ↦
            covered-Replaced us (apply_update j w dir) key u e new (ground arith)
              (other_key dir j key w differs ∙ found) is_e
      ]
