-- ===== src/Bitcask/Invariant.antt =====
-- bitcask/main.go: what the index promises of the files, and that every operation keeps it.
use design_pocs.Common.{
  ℕ, ◌^◌, ◌<◌, ◌≡◌, ◌∙◌, sym, ap, Option, some, [], List, arith, Bool-cases, inl, inr, Bytes,
  bytes_eq, bytes_key, bytes_eq_iff, length, lookup, insert, remove, lookup-insert, lookup-remove,
  u32,
}
use design_pocs.Bitcask.Record.{encode_entry}
use design_pocs.Bitcask.Store.{
  FilePath, KeyDirEntry, BitCask, new, PutIo, PutError, path_key, put, delete,
}
use design_pocs.Bitcask.Kept.{Handles, Kept, put_flag-Keeps}
use design_pocs.Bitcask.Written.{Written, Written-Kept, PutTo, stopped, stored, put_flag-PutTo}

-- The entry of a key is a live record of that key in an open file, and will not be overwritten.
pub record Stored (s : BitCask) (key : Bytes) (e : KeyDirEntry) (v : Bytes) : Type 0 where
  pub timestamp : ℕ
  pub key_fits : length key < 2 ^ 32
  pub value_fits : length v < 2 ^ 32
  pub sized : e.value_size ≡ length v
  pub written : Written s e.file_path e.file_entry_offset (encode_entry timestamp key v 0)

-- What the index says of a key: the value that it stands for, or that the key is absent.
pub record Inv (s : BitCask) : Type 0 where
  pub handles : Handles s
  pub indexed :
      (key : Bytes) (e : KeyDirEntry)
      → lookup key s.key_dir ≡ some e
      → (v : Bytes) × Stored s key e v

pub Stored-Kept :
    {s t : BitCask} {key v : Bytes} {e : KeyDirEntry}
    → Kept s t
    → Stored s key e v
    → Stored t key e v
Stored-Kept k st = record {
  timestamp = st.timestamp;
  key_fits = st.key_fits;
  value_fits = st.value_fits;
  sized = st.sized;
  written = Written-Kept k st.written;
}

-- A new store satisfies it, whatever is in the directory.
pub new-Inv : (disk : List (FilePath × Bytes)) → Inv (new disk)
unfolding lookup
new-Inv disk = record { handles = record { named = λ p h e. cc }; indexed = λ key e found. cc }

pub u32_small : (n : ℕ) → n < 2 ^ 32 → u32 n ≡ n
u32_small n h = omega arith

-- The index entry that a put makes.
abbrev pub fresh_entry : Bytes → FilePath → ℕ → KeyDirEntry
fresh_entry value path offset = record {
  file_path = path;
  file_entry_offset = offset;
  value_size = u32 (length value);
}

module _ (key value : Bytes) (io : PutIo) where
  pub fresh_entry-Stored :
      (t : BitCask) (path : FilePath) (offset : ℕ)
      → length key < 2 ^ 32
      → length value < 2 ^ 32
      → Written t path offset (encode_entry io.now key value 0)
      → Stored t key (fresh_entry value path offset) value
  fresh_entry-Stored t path offset kf vf written = record {
    timestamp = io.now;
    key_fits = kf;
    value_fits = vf;
    sized = u32_small (length value) vf;
    written = written;
  }

  -- The index after a put: the new entry at its key, and the old one everywhere else.
  put-indexed :
      (s t : BitCask) {r : Option PutError}
      → length key < 2 ^ 32
      → length value < 2 ^ 32
      → Inv s
      → Kept s t
      → PutTo key value 0 io s t r
      → (j : Bytes) (e : KeyDirEntry) → lookup j t.key_dir ≡ some e
      → (v : Bytes) × Stored t j e v
  put-indexed s t kf vf inv kept (stopped same error) j e found =
      let (v, st) = inv.indexed j e (ap (lookup j) (sym same) ∙ found) in (v, Stored-Kept kept st)
  put-indexed s t kf vf inv kept (stored path offset dir written) j e found =
      let E = fresh_entry value path offset in
      let found' : lookup j (insert key E s.key_dir) ≡ some e = ap (lookup j) (sym dir) ∙ found in
      elim (Bool-cases (bytes_eq key j)) [
        | inl same ↦
            let same_key : key ≡ j = (bytes_eq_iff key j).0 same in
            let same_entry : E ≡ e = ground (arith, lookup-insert key j E s.key_dir) in
            (value, rw (← same_key, ← same_entry) (fresh_entry-Stored t path offset kf vf written))
        | inr other ↦
            let old : lookup j s.key_dir ≡ some e =
              ground (arith, lookup-insert key j E s.key_dir) in
            let (v, st) = inv.indexed j e old in (v, Stored-Kept kept st)
      ]

  delete-indexed :
      (s t : BitCask) {r : Option PutError}
      → Inv s
      → Kept s t
      → PutTo key value 1 io s t r
      → (j : Bytes) (e : KeyDirEntry) → lookup j t.key_dir ≡ some e
      → (v : Bytes) × Stored t j e v
  delete-indexed s t inv kept (stopped same error) j e found =
      let (v, st) = inv.indexed j e (ap (lookup j) (sym same) ∙ found) in (v, Stored-Kept kept st)
  delete-indexed s t inv kept (stored path offset dir written) j e found =
      let found' : lookup j (remove key s.key_dir) ≡ some e = ap (lookup j) (sym dir) ∙ found in
      let old : lookup j s.key_dir ≡ some e = ground (arith, lookup-remove key j s.key_dir) in
      let (v, st) = inv.indexed j e old in (v, Stored-Kept kept st)

-- Put of a key and a value shorter than 2 ^ 32 bytes keeps the invariant that every index entry points at
-- a live, intact and settled record of its key, whatever the system answers and whether or not Put
-- returns an error.
pub put-Inv :
    (key value : Bytes) (io : PutIo) (s : BitCask)
    → length key < 2 ^ 32
    → length value < 2 ^ 32
    → Inv s
    → Inv (put key value io s).0
put-Inv key value io s kf vf inv =
    let (kept, handles) = (put_flag-Keeps key value 0 io).at s inv.handles in
    record {
      handles = handles;
      indexed =
          put-indexed key value io s (put key value io s).0 kf vf inv kept
            (put_flag-PutTo key value 0 io s inv.handles);
    }

-- So does Delete.
pub delete-Inv : (key : Bytes) (io : PutIo) (s : BitCask) → Inv s → Inv (delete key io s).0
delete-Inv key io s inv =
    let (kept, handles) = (put_flag-Keeps key [] 1 io).at s inv.handles in
    record {
      handles = handles;
      indexed =
          delete-indexed key [] io s (delete key io s).0 inv kept
            (put_flag-PutTo key [] 1 io s inv.handles);
    }
