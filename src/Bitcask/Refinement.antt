-- ===== src/Bitcask/Refinement.antt =====
-- bitcask/main.go: Put, Delete and Get against a map from keys to values.
use design_pocs.Common.{
  ℕ, ◌^◌, ◌<◌, ◌≡◌, ◌≢◌, ◌⊎◌, inl, inr, sym, ap, ◌∙◌, Bool-cases, Option, Option-cases, none, some,
  [], Bytes, bytes_eq, bytes_key, bytes_eq_iff, length, lookup, insert, remove, lookup-insert,
  lookup-remove, if◌then◌else◌,
}
use design_pocs.Bitcask.Store.{
  FilePath, PutError, BitCask, PutIo, GetIo, reads_well, value, failure, key_not_found, get, put,
  delete,
}
use design_pocs.Bitcask.Kept.{Kept, put_flag-Keeps}
use design_pocs.Bitcask.Written.{PutTo, stopped, stored, put_flag-PutTo}
use design_pocs.Bitcask.Invariant.{Stored, Stored-Kept, Inv, fresh_entry, fresh_entry-Stored}
use design_pocs.Bitcask.Read.{read_entry-Stored}

pub get_unknown :
    (key : Bytes) (io : GetIo) (s : BitCask)
    → lookup key s.key_dir ≡ none
    → get key io s ≡ failure key_not_found
unfolding get
get_unknown key io s e = rw (e, get)

pub get_known :
    (key v : Bytes) (s : BitCask) {e : _}
    → lookup key s.key_dir ≡ some e
    → Stored s key e v
    → get key reads_well s ≡ value v
unfolding get
get_known key v s {e} found st = rw (found, get) (read_entry-Stored s key v e st)

-- A key with the same index entry before and after reads the same.
get_same :
    (j : Bytes) (s t : BitCask)
    → Inv s
    → Kept s t
    → lookup j t.key_dir ≡ lookup j s.key_dir
    → get j reads_well t ≡ get j reads_well s
get_same j s t inv kept same = elim (Option-cases (lookup j s.key_dir)) [
  | inl absent ↦
      get_unknown j reads_well t (same ∙ absent) ∙ sym (get_unknown j reads_well s absent)
  | inr (e, found) ↦
      let (v, st) = inv.indexed j e found in
      get_known j v t (same ∙ found) (Stored-Kept kept st) ∙ sym (get_known j v s found st)
]

-- What a client sees after a put, and after a delete.
abbrev pub AfterPut : Bytes → Bytes → BitCask → BitCask → Type 0
AfterPut key v s t =
    (j : Bytes) → get j reads_well t ≡ (if bytes_eq key j then value v else get j reads_well s)

abbrev pub AfterDelete : Bytes → BitCask → BitCask → Type 0
AfterDelete key s t =
    (j : Bytes)
    → get j reads_well t ≡ (if bytes_eq key j then failure key_not_found else get j reads_well s)

abbrev pub Unseen : BitCask → BitCask → Type 0
Unseen s t = (j : Bytes) → get j reads_well t ≡ get j reads_well s

module _ (key : Bytes) (s t : BitCask) (inv : Inv s) (kept : Kept s t) where
  insert-AfterPut :
      (v : Bytes) (path : FilePath) (offset : ℕ)
      → Stored t key (fresh_entry v path offset) v
      → t.key_dir ≡ insert key (fresh_entry v path offset) s.key_dir
      → AfterPut key v s t
  insert-AfterPut v path offset st dir j =
      let E = fresh_entry v path offset in
      let now_there : lookup j t.key_dir ≡ (if bytes_eq key j then some E else lookup j s.key_dir) =
        ap (lookup j) dir ∙ lookup-insert key j E s.key_dir in
      elim (Bool-cases (bytes_eq key j)) [
        | inl same ↦
            let same_key : key ≡ j = (bytes_eq_iff key j).0 same in
            rw same (get_known j v t {e = E} (now_there ∙ rw same) (rw (← same_key) st))
        | inr other ↦ rw other (get_same j s t inv kept (now_there ∙ rw other))
      ]

  remove-AfterDelete : t.key_dir ≡ remove key s.key_dir → AfterDelete key s t
  remove-AfterDelete dir j =
      let now_there : lookup j t.key_dir ≡ (if bytes_eq key j then none else lookup j s.key_dir) =
        ap (lookup j) dir ∙ lookup-remove key j s.key_dir in
      elim (Bool-cases (bytes_eq key j)) [
        | inl same ↦ rw same (get_unknown j reads_well t (now_there ∙ rw same))
        | inr other ↦ rw other (get_same j s t inv kept (now_there ∙ rw other))
      ]

  key_dir-Unseen : t.key_dir ≡ s.key_dir → Unseen s t
  key_dir-Unseen same j = get_same j s t inv kept (ap (lookup j) same)

put_cases :
    (key v : Bytes) (io : PutIo) (s t : BitCask) {r : Option PutError}
    → length key < 2 ^ 32
    → length v < 2 ^ 32
    → Inv s
    → Kept s t
    → PutTo key v 0 io s t r
    → (Unseen s t × (r ≢ none)) ⊎ AfterPut key v s t
put_cases key v io s t kf vf inv kept (stopped same error) =
    inl (key_dir-Unseen key s t inv kept same, error)
put_cases key v io s t kf vf inv kept (stored path offset dir written) = inr (
    insert-AfterPut key s t inv kept v path offset
      (fresh_entry-Stored key v io t path offset kf vf written) dir)

delete_cases :
    (key : Bytes) (io : PutIo) (s t : BitCask) {r : Option PutError}
    → Inv s
    → Kept s t
    → PutTo key [] 1 io s t r
    → (Unseen s t × (r ≢ none)) ⊎ AfterDelete key s t
delete_cases key io s t inv kept (stopped same error) =
    inl (key_dir-Unseen key s t inv kept same, error)
delete_cases key io s t inv kept (stored path offset dir written) =
    inr (remove-AfterDelete key s t inv kept dir)

-- From a store whose index is right, and with a key and a value shorter than 2 ^ 32 bytes, Put either
-- returns an error and no key reads differently, or the key reads as the new value and every other key as
-- before, whatever the system answers.
pub put_atomic :
    (key v : Bytes) (io : PutIo) (s : BitCask)
    → length key < 2 ^ 32
    → length v < 2 ^ 32
    → Inv s
    → (Unseen s (put key v io s).0 × ((put key v io s).1 ≢ none))
      ⊎ AfterPut key v s (put key v io s).0
put_atomic key v io s kf vf inv =
    put_cases key v io s (put key v io s).0 kf vf inv
      ((put_flag-Keeps key v 0 io).at s inv.handles).0 (put_flag-PutTo key v 0 io s inv.handles)

-- From a store whose index is right, Delete either returns an error and no key reads differently, or the
-- key is not found and every other key reads as before, whatever the system answers.
pub delete_atomic :
    (key : Bytes) (io : PutIo) (s : BitCask)
    → Inv s
    → (Unseen s (delete key io s).0 × ((delete key io s).1 ≢ none))
      ⊎ AfterDelete key s (delete key io s).0
delete_atomic key io s inv =
    delete_cases key io s (delete key io s).0 inv ((put_flag-Keeps key [] 1 io).at s inv.handles).0
      (put_flag-PutTo key [] 1 io s inv.handles)
