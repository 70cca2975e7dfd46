-- ===== src/Bitcask/MergeTests.antt =====
-- A merge of a file with one entry, and the theorem about it.
use design_pocs.Common.{
  zero, suc, ◌+◌, ◌≡◌, ◌≢◌, ◌⊎◌, inl, inr, refl, sym, ap, ◌∙◌, arith, true, Bool-cases, none, some,
  [], ◌∷◌, Bytes, codes, length, take, lookup, insert, remove, bytes_key, bytes_eq, bytes_eq_iff,
  read_at, take_exact, write_at, get_u32,
}
use design_pocs.Bitcask.Checksum.{checksum}
use design_pocs.Bitcask.Record.{header_size, encode_entry, entry_body, stored_flag}
use design_pocs.Bitcask.Store.{
  FilePath, data_file, merge_data, merge_hint, path_eq, path_eq_iff, path_key, KeyDirEntry, BitCask,
  file_of, create,
}
use design_pocs.Bitcask.Invariant.{Stored}
use design_pocs.Bitcask.Refinement.{Unseen}
use design_pocs.Bitcask.Segment.{
  opens, MergeIo, open_merge_segment, ensure_merge_capacity, append_entry,
}
use design_pocs.Bitcask.Merge.{
  block_size, merged, panicked, merge, merge_immutable_files, merge_file, finish_file, scan_file,
  merge_header, move_entry, apply_updates, entry_eq,
}
use design_pocs.Bitcask.Moved.{some-inj}
use design_pocs.Bitcask.MergeFile.{Moves}
use design_pocs.Bitcask.Compaction.{Mergeable, merge-Unseen}

empty-Moves : (f : Bytes) → read_at f 0 header_size ≡ none → Moves f
empty-Moves f nothing zero o h same read moves_not =
    absurd (ground (arith, nothing, ap (λ x. read_at f x header_size) same ∙ read))
empty-Moves f nothing (suc k) o h (h', read', rest) read moves_not =
    absurd (ground (arith, nothing, read'))

single-Moves :
    (f h : Bytes)
    → read_at f 0 header_size ≡ some h
    → block_size h ≢ 0
    → read_at f (0 + block_size h) header_size ≡ none
    → Moves f
single-Moves f h first positive nothing zero o g same read =
    let is_h : h ≡ g = some-inj h g (sym first ∙ ap (λ x. read_at f x header_size) same ∙ read) in
    rw (← is_h) positive
single-Moves f h first positive nothing (suc zero) o g (h', read', same) read =
    let is_h : h' ≡ h = some-inj h' h (sym read' ∙ first) in
    let here : 0 + block_size h ≡ o = rw is_h at same in
    absurd (ground (arith, nothing, ap (λ x. read_at f x header_size) here ∙ read))
single-Moves f h first positive nothing (suc (suc k)) o g (h', read', (h'', read'', rest)) read =
    let is_h : h' ≡ h = some-inj h' h (sym read' ∙ first) in
    absurd (
      ground
        (arith, nothing, ap (λ x. read_at f (0 + block_size x) header_size) (sym is_h) ∙ read''))

abbrev record_bytes : Bytes
record_bytes = encode_entry 7 (codes "a") (codes "xy") 0

abbrev its_entry : KeyDirEntry
its_entry = record { file_path = data_file 1; file_entry_offset = 0; value_size = 2 }

abbrev two_files : BitCask
two_files = record {
  curr_offset = 0;
  file_ptrs = (data_file 2, data_file 2) ∷ (data_file 1, data_file 1) ∷ [];
  key_dir = (codes "a", its_entry) ∷ [];
  file_cnt = 2;
  max_file_size_bytes = 65536;
  merge_file_cnt = 1;
  merge_file_offset = 0;
  merge_hint_file_offset = 0;
  disk = (data_file 2, []) ∷ (data_file 1, record_bytes) ∷ [];
}

abbrev all_served : MergeIo
all_served = record {
  opening = λ n. opens;
  header_served = λ p o. true;
  entry_served = λ p o. true;
  data_written = λ p o. none;
  hint_written = λ p o. none;
  synced = λ p. true;
  rotation_synced = λ n. true;
  hint_closed = λ n. true;
  removed = λ p. true;
}

only_key :
    (key : Bytes) (e : KeyDirEntry)
    → lookup key two_files.key_dir ≡ some e
    → (codes "a" ≡ key) × (its_entry ≡ e)
unfolding lookup
only_key key e found = elim (Bool-cases (bytes_eq (codes "a") key)) [
  | inl same ↦
      ((bytes_eq_iff (codes "a") key).0 same, some-inj its_entry e (ground (arith, same, found)))
  | inr differs ↦ absurd (ground (arith, differs, found))
]

opened_file :
    (q h : FilePath)
    → lookup q two_files.file_ptrs ≡ some h
    → (h ≡ q) × ((data_file 2 ≡ q) ⊎ (data_file 1 ≡ q))
unfolding lookup
opened_file q h found = ground (arith, path_eq_iff (data_file 2) q, path_eq_iff (data_file 1) q)

its_entry-Stored : Stored two_files (codes "a") its_entry (codes "xy")
unfolding encode_entry entry_body read_at take_exact lookup path_eq
its_entry-Stored = record {
  timestamp = 7;
  key_fits = omega arith;
  value_fits = omega arith;
  sized = refl;
  written = record { opened = refl; content = refl; settled = inl (omega arith) };
}

file_Moves : Moves record_bytes
unfolding encode_entry entry_body read_at take_exact get_u32
file_Moves = single-Moves record_bytes (take 17 record_bytes) refl (omega arith) refl

empty_file : Moves (file_of (data_file 2) two_files.disk)
unfolding lookup path_eq read_at take_exact
empty_file = empty-Moves [] refl

full_file : Moves (file_of (data_file 1) two_files.disk)
unfolding lookup path_eq
full_file = file_Moves

files_move :
    (q h : FilePath) → lookup q two_files.file_ptrs ≡ some h → Moves (file_of q two_files.disk)
files_move q h filed = elim (opened_file q h filed).1 [
  | inl same ↦ rw (← same) empty_file
  | inr same ↦ rw (← same) full_file
]

two_files-Mergeable : Mergeable two_files
two_files-Mergeable = record {
  inv = record {
    handles = record { named = λ q h filed. (opened_file q h filed).0 };
    indexed = λ key e found.
        let (is_a, is_e) = only_key key e found in
        (codes "xy", rw (← is_a, ← is_e) its_entry-Stored);
  };
  fits = λ key v e found st.
      let (is_a, is_e) = only_key key e found in
      omega (arith, ap length is_a, ap (λ x. x.value_size) is_e, st.sized);
  in_data = λ q h filed. elim (opened_file q h filed).1 [
    | inl same ↦ rw (← same) refl
    | inr same ↦ rw (← same) refl
  ];
  numbered = λ n h filed. elim (opened_file (merge_data n) h filed).1 [
    | inl same ↦ absurd (ground (arith, same))
    | inr same ↦ absurd (ground (arith, same))
  ];
  moves = files_move;
  reached = λ key e found. (0, ap (λ x. x.file_entry_offset) (only_key key e found).1);
}

merge-Unseen_example :
    (t : BitCask) × ((merge all_served two_files ≡ merged t)
      ⊎ (merge all_served two_files ≡ panicked t))
    × Unseen two_files t
merge-Unseen_example = merge-Unseen all_served two_files two_files-Mergeable

abbrev codes_of_hint : Bytes
codes_of_hint = 1 ∷ 0 ∷ 0 ∷ 0 ∷ 2 ∷ 0 ∷ 0 ∷ 0 ∷ 0 ∷ 0 ∷ 0 ∷ 0 ∷ 0 ∷ 0 ∷ 0 ∷ 0 ∷ 97 ∷ []

-- The entry is in the merge segment, and its file is gone.
entry_moves :
    merge all_served two_files
    ≡ merged (record {
      curr_offset = 0;
      file_ptrs = (data_file 2, data_file 2) ∷ (merge_data 1, merge_data 1) ∷ [];
      key_dir =
          (codes "a", record { file_path = merge_data 1; file_entry_offset = 0; value_size = 2 })
          ∷ [];
      file_cnt = 2;
      max_file_size_bytes = 65536;
      merge_file_cnt = 1;
      merge_file_offset = 20;
      merge_hint_file_offset = 17;
      disk = (data_file 2, []) ∷ (merge_data 1, record_bytes) ∷ (merge_hint 1, codes_of_hint) ∷ [];
    })
unfolding merge open_merge_segment create merge_immutable_files merge_file finish_file scan_file
    merge_header move_entry apply_updates entry_eq ensure_merge_capacity append_entry path_eq
    bytes_eq lookup remove insert read_at write_at take_exact get_u32 checksum entry_body
    encode_entry stored_flag
entry_moves = refl
