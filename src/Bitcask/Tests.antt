-- ===== src/Bitcask/Tests.antt =====
-- Runs of the store, and each theorem at an input.
use design_pocs.Common.{
  true, false, bytes_key, ◌≢◌, ◌⊎◌, inl, ◌∷◌, arith, ℕ, ◌≡◌, refl, List, [], Bytes, codes, bytes_eq,
  lookup, remove, insert, read_at, write_at, get_u32, none, some,
}
use design_pocs.Bitcask.Invariant.{Inv, new-Inv, put-Inv, fresh_entry}
use design_pocs.Bitcask.Refinement.{Unseen, AfterPut, AfterDelete, put_atomic, delete_atomic}
use design_pocs.Bitcask.Progress.{IsOpen, put_flag-succeeds, put_wedges}
use design_pocs.Bitcask.Runs.{
  Call, put_call, delete_call, perform_all, reply_of, specified_all, store_refines_map,
}
use design_pocs.Bitcask.Checksum.{checksum}
use design_pocs.Bitcask.Record.{entry_body, encode_entry, stored_flag}
use design_pocs.Bitcask.Store.{
  path_key, BitCask, PutIo, wrote, failed, open_file, active_path, data_file, open_failed,
  invalid_handle, new, all_well, put, put_flag, delete, get, value, failure, key_not_found,
  reads_well, path_eq, create, ensure_open, write_entry, index_entry, rotate, read_entry, read_file,
  check_entry,
}

abbrev disk_full : PutIo
disk_full = record { now = 7; open_active = true; write = failed 9; open_next = true }

abbrev hello : BitCask
hello = (put (codes "Hello") (codes "World") (all_well 1700000000) (new [])).0

get-hello : get (codes "Hello") reads_well hello ≡ value (codes "World")
unfolding put_flag ensure_open write_entry index_entry rotate get read_entry read_file check_entry
    create path_eq bytes_eq lookup remove insert read_at write_at get_u32 checksum entry_body
    encode_entry stored_flag
get-hello = refl

get_deleted :
    get (codes "Hello") reads_well (delete (codes "Hello") (all_well 1700000001) hello).0
    ≡ failure key_not_found
unfolding put_flag ensure_open write_entry index_entry rotate get read_entry read_file check_entry
    create path_eq bytes_eq lookup remove insert read_at write_at get_u32 checksum entry_body
    encode_entry stored_flag
get_deleted = refl

abbrev calls : List Call
calls =
    put_call 1 (codes "a") (codes "1")
    ∷ put_call 2 (codes "b") (codes "2")
    ∷ delete_call 3 (codes "a")
    ∷ put_call 4 (codes "b") (codes "3")
    ∷ []

store_refines_map_example :
    get (codes "b") reads_well (perform_all calls (new []))
    ≡ reply_of (specified_all calls (λ _. none) (codes "b"))
store_refines_map_example = store_refines_map calls [] (omega arith) (codes "b")

put_atomic_example :
    (Unseen (new []) (put (codes "k") (codes "v") disk_full (new [])).0
      × ((put (codes "k") (codes "v") disk_full (new [])).1 ≢ none))
    ⊎ AfterPut (codes "k") (codes "v") (new []) (put (codes "k") (codes "v") disk_full (new [])).0
put_atomic_example =
    put_atomic (codes "k") (codes "v") disk_full (new []) (omega arith) (omega arith) (new-Inv [])

hello-Inv : Inv hello
hello-Inv =
    put-Inv (codes "Hello") (codes "World") (all_well 1700000000) (new []) (omega arith)
      (omega arith) (new-Inv [])

delete_atomic_example :
    (Unseen hello (delete (codes "Hello") (all_well 2) hello).0
      × ((delete (codes "Hello") (all_well 2) hello).1 ≢ none))
    ⊎ AfterDelete (codes "Hello") hello (delete (codes "Hello") (all_well 2) hello).0
delete_atomic_example = delete_atomic (codes "Hello") (all_well 2) hello hello-Inv

put-Inv_example : Inv (put (codes "k") (codes "v") disk_full hello).0
put-Inv_example =
    put-Inv (codes "k") (codes "v") disk_full hello (omega arith) (omega arith) hello-Inv

put_flag-succeeds_example :
    ((put_flag (codes "k") (codes "v") 0 (all_well 5) (new [])).1 ≡ none)
    × IsOpen (put_flag (codes "k") (codes "v") 0 (all_well 5) (new [])).0
put_flag-succeeds_example = put_flag-succeeds (codes "k") (codes "v") 0 5 (new []) (inl refl)

-- A store whose files are small, with its first file open.
abbrev small : BitCask
small = record (open_file (data_file 1) (new [])) { max_file_size_bytes = 19 }

abbrev next_open_fails : PutIo
next_open_fails = record { now = 7; open_active = true; write = wrote; open_next = false }

put_wedges_example :
    ((put (codes "k") (codes "v") next_open_fails small).1 ≡ some open_failed)
    × (lookup (codes "k") (put (codes "k") (codes "v") next_open_fails small).0.key_dir
        ≡ some (fresh_entry (codes "v") (active_path small) small.curr_offset))
    × ((k w : Bytes) (flag : ℕ) (later : PutIo)
        → put_flag k w flag later (put (codes "k") (codes "v") next_open_fails small).0
          ≡ ((put (codes "k") (codes "v") next_open_fails small).0, some invalid_handle))
unfolding lookup insert path_eq
put_wedges_example =
    put_wedges (codes "k") (codes "v") next_open_fails small refl refl (omega arith) refl refl
