-- ===== src/WordDictionary/Tests.antt =====
-- Runs of the dictionary, and each theorem at an input.
use design_pocs.Common.{
  ◌≡◌, ◌≢◌, refl, true, false, none, [], ◌∷◌, arith, Bytes, codes, bytes_eq, bytes_key, lookup,
  insert, read_at, List,
}
use design_pocs.WordDictionary.Entry.{encode_entry, text, panics, meaning_of, shown}
use design_pocs.WordDictionary.Dictionary.{
  WordDictionary, new_word_dictionary, wrote, failed, insert_word, write_result, get_meaning,
}
use design_pocs.WordDictionary.Inserts.{Inv}
use design_pocs.WordDictionary.Meanings.{IsInStep, insert_word_shows, failed_insert_keeps}
use design_pocs.WordDictionary.Refinement.{insert_all, learn_all, text_of, insert_all_refines}
use design_pocs.WordDictionary.Import.{
  imported, unchanged, import_change_log, merge_with, finish, replace_file, merge_files, merge_loop,
  merge_entry, copy_rest, append_temp, load, load_whole,
}
use design_pocs.WordDictionary.Loads.{encode_all}
use design_pocs.WordDictionary.Merges.{Merged}
use design_pocs.WordDictionary.Imports.{import_well, latest, import_merges}
use design_pocs.WordDictionary.Latest.{value_or, import_prefers_change_log}
use design_pocs.Common.Sort.{bytes_lt}

abbrev empty : WordDictionary
empty = new_word_dictionary []

abbrev fruit : Bytes
fruit = codes "A fruit"

empty-Inv : Inv empty
unfolding lookup
empty-Inv = (omega arith, λ j meta e. cc)

meaning_of_apple :
    get_meaning (codes "Apple") (
      insert_all
        ((codes "Apple", fruit) ∷ (codes "Cat", codes "A Cat") ∷ (codes "Apple", codes "x") ∷ [])
        empty)
    ≡ text fruit
unfolding get_meaning insert_all insert_word encode_entry meaning_of lookup insert bytes_eq read_at
meaning_of_apple = refl

insert_word_shows_example :
    let r = insert_word wrote (codes "Apple") fruit empty in
    (r.1 ≡ true)
    × (get_meaning (codes "Apple") r.0 ≡ text (shown (codes "Apple") fruit))
    × ((j : Bytes) → j ≢ codes "Apple" → get_meaning j r.0 ≡ get_meaning j empty)
    × IsInStep r.0
insert_word_shows_example =
    insert_word_shows (codes "Apple") fruit empty empty-Inv refl (unfold lookup in refl)

failed_insert_keeps_example :
    let r = insert_word (failed 3) (codes "Apple") fruit empty in
    (r.1 ≡ false) × ((j : Bytes) → get_meaning j r.0 ≡ get_meaning j empty)
failed_insert_keeps_example =
    failed_insert_keeps 3 (codes "Apple") fruit empty empty-Inv (unfold lookup in refl)

-- There the length of the meaning comes out as 262144.
ball_after_failure :
    get_meaning
      (codes "Ball")
      (insert_word wrote
        (codes "Ball")
        (codes "A Ball")
        (insert_word (failed 1) (codes "Apple") fruit empty).0).0
    ≡ panics
unfolding get_meaning insert_word write_result encode_entry meaning_of lookup insert bytes_eq
    read_at
ball_after_failure = refl

insert_all_refines_example :
    get_meaning (codes "Cat") (
      insert_all
        ((codes "Apple", fruit) ∷ (codes "Cat", codes "A Cat") ∷ [])
        (new_word_dictionary (codes "old")))
    ≡ text_of (
        learn_all
          ((codes "Apple", fruit) ∷ (codes "Cat", codes "A Cat") ∷ [])
          (λ _. none)
          (codes "Cat"))
insert_all_refines_example =
    insert_all_refines ((codes "Apple", fruit) ∷ (codes "Cat", codes "A Cat") ∷ []) (codes "old")
      (codes "Cat") ((omega arith, omega arith), ((omega arith, omega arith), tt))

abbrev entries : List (Bytes × Bytes)
entries = (codes "Apple", fruit) ∷ (codes "Cat", codes "A Cat") ∷ []

abbrev changes : List (Bytes × Bytes)
changes = (codes "Ball", codes "A Ball") ∷ (codes "Cat", codes "Pet") ∷ []

abbrev stored : WordDictionary
stored = new_word_dictionary (encode_all entries)

import_merges_example :
    (out : List (Bytes × Bytes)) × (w' : WordDictionary) × Merged entries changes out
    × (import_change_log (import_well changes 4) stored ≡ imported w')
    × (w'.file ≡ encode_all out)
    × IsInStep w'
    × ((j : Bytes) → get_meaning j w' ≡ text_of (latest out (λ _. none) j))
import_merges_example =
    import_merges entries changes 4 stored
      ((omega arith, omega arith), ((omega arith, omega arith), tt))
      ((omega arith, omega arith), ((omega arith, omega arith), tt)) (omega arith) refl refl

file_after_import :
    import_change_log (import_well changes 3) stored
    ≡ imported (record {
      word_meta_map =
          (codes "Apple", record { offset = 0; entry_size = 16 })
          ∷ (codes "Ball", record { offset = 16; entry_size = 14 })
          ∷ (codes "Cat", record { offset = 30; entry_size = 10 })
          ∷ [];
      current_offset = 40;
      file = encode_all (
          (codes "Apple", fruit)
          ∷ (codes "Ball", codes "A Ball")
          ∷ (codes "Cat", codes "Pet")
          ∷ []);
    })
unfolding import_change_log merge_with finish replace_file merge_files merge_loop merge_entry
    copy_rest append_temp load load_whole encode_entry lookup insert bytes_eq bytes_lt read_at
file_after_import = refl

-- The third write fails.
write_fails : import_change_log (import_well changes 2) stored ≡ unchanged
unfolding import_change_log merge_with finish replace_file merge_files merge_loop merge_entry
    copy_rest append_temp load load_whole encode_entry lookup insert bytes_eq bytes_lt read_at
write_fails = refl

import_prefers_change_log_example :
    (w' : WordDictionary) × (import_change_log (import_well changes 4) stored ≡ imported w')
    × ((j : Bytes) → get_meaning j w' ≡ text_of (value_or (value_or none j entries) j changes))
import_prefers_change_log_example =
    import_prefers_change_log entries changes 4 stored
      ((omega arith, omega arith), ((omega arith, omega arith), tt))
      ((omega arith, omega arith), ((omega arith, omega arith), tt))
      (unfold bytes_lt in ((refl, tt), (tt, tt))) (unfold bytes_lt in ((refl, tt), (tt, tt)))
      (omega arith) refl refl
