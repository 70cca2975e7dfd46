-- ===== src/Bitcask/Progress.antt =====
-- bitcask/main.go: when `put` succeeds, when it can never succeed again, and whole runs of the
-- store against a map.
use design_pocs.Common.{
  ℕ, ◌+◌, ◌≤◌, ◌≡◌, ◌≢◌, ◌⊎◌, inl, inr, refl, ◌∙◌, true, false, Bool-cases, Option, none, some,
  List, [], ◌∷◌, arith, Bytes, bytes_key, length, lookup, insert, lookup-insert_self, leb,
}
use design_pocs.Bitcask.Record.{header_size, encode_entry}
use design_pocs.Bitcask.Store.{
  FilePath, data_file, path_key, BitCask, PutIo, all_well, PutError, invalid_handle, Action, ◌>>◌,
  seq_ok, seq_error, active_path, write_file, put, put_flag, ensure_open, write_entry, land, wrote,
  open_failed, index_entry, rotate,
}
use design_pocs.Bitcask.Invariant.{fresh_entry}
use design_pocs.Bitcask.Written.{write_entry-nil, write_entry-found}

-- The active file is open.
abbrev pub IsOpen : BitCask → Type 0
IsOpen s = lookup (active_path s) s.file_ptrs ≡ some (active_path s)

-- No file is open yet, or the active one is.
abbrev pub IsReady : BitCask → Type 0
IsReady s = (length s.file_ptrs ≡ 0) ⊎ IsOpen s

abbrev Fine : BitCask × Option PutError → Type 0
Fine r = (r.1 ≡ none) × IsOpen r.0

Fine-seq :
    (m k : Action) (s : BitCask)
    → Fine (m s)
    → ((t : BitCask) → IsOpen t → Fine (k t))
    → Fine ((m >> k) s)
Fine-seq m k s (fine, opened) next = rw (fine, ◌>>◌) (next (m s).0 opened)

module _ (key v : Bytes) (flag now : ℕ) where
  ensure_open-Fine : (s : BitCask) → IsReady s → Fine (ensure_open (all_well now) s)
  unfolding ensure_open
  ensure_open-Fine s ready =
      ground (arith, lookup-insert_self (active_path s) (active_path s) s.file_ptrs)

  write_entry-Fine : (b : Bytes) (s : BitCask) → IsOpen s → Fine (write_entry b (all_well now) s)
  unfolding write_entry
  write_entry-Fine b s opened = rw (opened, write_entry) (refl, opened)

  index_entry-Fine : (s : BitCask) → IsOpen s → Fine (index_entry key v flag s)
  unfolding index_entry
  index_entry-Fine s opened = (refl, opened)

  rotate-Fine : (s : BitCask) → IsOpen s → Fine (rotate (all_well now) s)
  unfolding rotate
  rotate-Fine s opened = elim (Bool-cases (leb s.max_file_size_bytes s.curr_offset)) [
    | inl full ↦
        let next : FilePath = data_file (s.file_cnt + 1) in
        rw (full, rotate) (refl, lookup-insert_self next next s.file_ptrs)
    | inr room ↦ rw (room, rotate) (refl, opened)
  ]

  -- When the system answers every call, a store that is ready takes the entry without an error, and
  -- its active file is open afterwards.
  pub put_flag-succeeds :
      (s : BitCask)
      → IsReady s
      → ((put_flag key v flag (all_well now) s).1 ≡ none)
        × IsOpen (put_flag key v flag (all_well now) s).0
  unfolding put_flag
  put_flag-succeeds s ready =
      let buf = encode_entry now key v flag in
      let finish = rotate (all_well now) in
      let index = index_entry key v flag in
      let write = write_entry buf (all_well now) in
      Fine-seq (ensure_open (all_well now)) (write >> index >> finish) s (ensure_open-Fine s ready)
        (λ t opened.
          Fine-seq write (index >> finish) t (write_entry-Fine buf t opened)
            (λ u opened'. Fine-seq index finish u (index_entry-Fine u opened') rotate-Fine))

-- Some file is open, and the active one is not.
abbrev pub IsWedged : BitCask → Type 0
IsWedged s = (length s.file_ptrs ≢ 0) × (lookup (active_path s) s.file_ptrs ≡ none)

ensure_open-skips :
    (io : PutIo) (s : BitCask) → length s.file_ptrs ≢ 0 → ensure_open io s ≡ (s, none)
unfolding ensure_open
ensure_open-skips io s h = ground arith

-- A store in that state refuses every Put and Delete from then on, and stays as it is.
pub put_flag_wedged :
    (key v : Bytes) (flag : ℕ) (io : PutIo) (s : BitCask)
    → IsWedged s
    → put_flag key v flag io s ≡ (s, some invalid_handle)
unfolding put_flag
put_flag_wedged key v flag io s (some_open, missing) =
    let buf = encode_entry io.now key v flag in
    let rest = index_entry key v flag >> rotate io in
    seq_ok (ensure_open io) (write_entry buf io >> rest) s s (ensure_open-skips io s some_open)
    ∙ seq_error (write_entry buf io) rest s s invalid_handle (write_entry-nil buf io s missing)

-- The store after the entry is in the file and in the index.
abbrev pub indexed_state : Bytes → Bytes → PutIo → BitCask → BitCask
indexed_state key v io s =
    let w = write_file (active_path s) s.curr_offset (encode_entry io.now key v 0) s in
    record w {
      curr_offset = s.curr_offset + (header_size + length key + length v);
      key_dir = insert key (fresh_entry v (active_path s) s.curr_offset) s.key_dir;
    }

length-ne-zero :
    (k v : FilePath) (m : List (FilePath × FilePath)) → lookup k m ≡ some v → length m ≢ 0
unfolding lookup
length-ne-zero k v [] found = cc
length-ne-zero k v (x ∷ m) found = λ e. absurd (omega arith)

module _ (key v : Bytes) (io : PutIo) (s : BitCask) (opened : IsOpen s)
    (lands : io.write ≡ wrote) where
  write_entry-lands :
      (b : Bytes) → write_entry b io s ≡ (write_file (active_path s) s.curr_offset b s, none)
  write_entry-lands b =
      write_entry-found b io s (active_path s) opened ∙ rw lands (unfold land in refl)

  put-indexed_state : put key v io s ≡ rotate io (indexed_state key v io s)
  unfolding put_flag
  put-indexed_state =
      let buf = encode_entry io.now key v 0 in
      let w = write_file (active_path s) s.curr_offset buf s in
      let finish = rotate io in
      seq_ok (ensure_open io) (write_entry buf io >> index_entry key v 0 >> finish) s s
        (ensure_open-skips io s (length-ne-zero (active_path s) (active_path s) s.file_ptrs opened))
      ∙ seq_ok (write_entry buf io) (index_entry key v 0 >> finish) s w (write_entry-lands buf)
      ∙ seq_ok (index_entry key v 0) finish w (indexed_state key v io s)
          (unfold index_entry in refl)

  -- The open of the next file fails.
  rotate-fails :
      leb s.max_file_size_bytes (s.curr_offset + (header_size + length key + length v)) ≡ true
      → io.open_next ≡ false
      → put key v io s ≡ (
          let t = indexed_state key v io s in
          (record t { file_cnt = t.file_cnt + 1 }, some open_failed))
  rotate-fails full fails = put-indexed_state ∙ unfold rotate in rw full (rw fails)

-- When the entry fills the active file and the next file cannot be opened, Put returns an error although
-- the entry is in the index, and if no handle of the next file was there before, no later Put or
-- Delete ever succeeds.
pub put_wedges :
    (key v : Bytes) (io : PutIo) (s : BitCask)
    → IsOpen s
    → io.write ≡ wrote
    → s.max_file_size_bytes ≤ s.curr_offset + (header_size + length key + length v)
    → io.open_next ≡ false
    → lookup (data_file (s.file_cnt + 1)) s.file_ptrs ≡ none
    → ((put key v io s).1 ≡ some open_failed)
      × (lookup key (put key v io s).0.key_dir ≡ some (fresh_entry v (active_path s) s.curr_offset))
      × ((k w : Bytes) (flag : ℕ) (later : PutIo)
          → put_flag k w flag later (put key v io s).0 ≡ ((put key v io s).0, some invalid_handle))
put_wedges key v io s opened lands full fails missing =
    let t = indexed_state key v io s in
    let e : put key v io s ≡ (record t { file_cnt = t.file_cnt + 1 }, some open_failed) =
      rotate-fails key v io s opened lands (ground arith) fails in
    rw e (
      refl,
      lookup-insert_self key (fresh_entry v (active_path s) s.curr_offset) s.key_dir,
      λ k w flag later.
          put_flag_wedged k w flag later (record t { file_cnt = t.file_cnt + 1 })
            (length-ne-zero (active_path s) (active_path s) s.file_ptrs opened, missing),
    )
