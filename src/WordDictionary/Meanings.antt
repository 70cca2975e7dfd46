-- ===== src/WordDictionary/Meanings.antt =====
-- word-dictionary/main.go: what GetMeaning returns behind Insert calls.
use design_pocs.Common.{
  ℕ, ◌+◌, ◌≡◌, ◌≢◌, refl, ap, sym, ◌∙◌, true, false, none, some, ◌++◌, Bytes, bytes_key, lookup,
  lookup-insert_self, lookup-insert_ne, read_at, length, length-append, take,
}
use mathlib.Core.Path.{subst}
use design_pocs.WordDictionary.Entry.{
  encode_entry, text, meaning_of, shown, meaning_of-encode_entry,
}
use design_pocs.WordDictionary.Appends.{read_at_end}
use design_pocs.WordDictionary.Dictionary.{
  WordDictionary, wrote, failed, write_result, entry_written, insert_word, get_meaning,
  get_meaning-read_at,
}
use design_pocs.WordDictionary.Inserts.{Inv, insert_word-new, get_meaning_grown}

-- New entries begin at the end of the file.
abbrev pub IsInStep : WordDictionary → Type 0
IsInStep w = w.current_offset ≡ length w.file

pub entry_at :
    (word entry bytes : Bytes) (w : WordDictionary)
    → read_at (w.file ++ entry) w.current_offset (length entry) ≡ some bytes
    → get_meaning word (entry_written word entry w) ≡ meaning_of bytes
entry_at word entry bytes w found =
    get_meaning-read_at word (entry_written word entry w)
      (record { offset = w.current_offset; entry_size = length entry }) bytes
      (lookup-insert_self word (record { offset = w.current_offset; entry_size = length entry })
        w.word_meta_map)
      found

pub written :
    (word meaning : Bytes) (w : WordDictionary)
    → lookup word w.word_meta_map ≡ none
    → insert_word wrote word meaning w ≡ (entry_written word (encode_entry word meaning) w, true)
unfolding write_result
written word meaning w new = insert_word-new wrote word meaning w new

not_written :
    (n : ℕ) (word meaning : Bytes) (w : WordDictionary)
    → lookup word w.word_meta_map ≡ none
    → insert_word (failed n) word meaning w
      ≡ (record w { file = w.file ++ take n (encode_entry word meaning) }, false)
unfolding write_result
not_written n word meaning w new = insert_word-new (failed n) word meaning w new

-- A new word that is written reads as the meaning that its entry shows, every other word as before,
-- and the next entry begins at the end of the file again.
pub insert_word_shows :
    (word meaning : Bytes) (w : WordDictionary)
    → Inv w
    → IsInStep w
    → lookup word w.word_meta_map ≡ none
    → let r = insert_word wrote word meaning w in
      (r.1 ≡ true)
      × (get_meaning word r.0 ≡ text (shown word meaning))
      × ((j : Bytes) → j ≢ word → get_meaning j r.0 ≡ get_meaning j w)
      × IsInStep r.0
insert_word_shows word meaning w inv step new =
    let entry = encode_entry word meaning in
    subst
      (λ r.
        (r.1 ≡ true)
        × (get_meaning word r.0 ≡ text (shown word meaning))
        × ((j : Bytes) → j ≢ word → get_meaning j r.0 ≡ get_meaning j w)
        × IsInStep r.0)
      (sym (written word meaning w new))
      (
        refl,
        entry_at word entry entry w
              (ap (λ o. read_at (w.file ++ entry) o (length entry)) step ∙ read_at_end w.file entry)
            ∙ meaning_of-encode_entry word meaning,
        (λ j other. get_meaning_grown j entry w (entry_written word entry w) inv refl (
            lookup-insert_ne word j
              (record { offset = w.current_offset; entry_size = length entry }) w.word_meta_map
              (λ e. other (sym e)))),
        ap (λ o. o + length entry) step ∙ sym (length-append w.file entry),
      )

-- When Write fails, Insert returns its error and every word reads as before, however much of the entry
-- is in the file.
pub failed_insert_keeps :
    (n : ℕ) (word meaning : Bytes) (w : WordDictionary)
    → Inv w
    → lookup word w.word_meta_map ≡ none
    → let r = insert_word (failed n) word meaning w in
      (r.1 ≡ false) × ((j : Bytes) → get_meaning j r.0 ≡ get_meaning j w)
failed_insert_keeps n word meaning w inv new =
    subst (λ r. (r.1 ≡ false) × ((j : Bytes) → get_meaning j r.0 ≡ get_meaning j w))
      (sym (not_written n word meaning w new))
      (
        refl,
        λ j.
            get_meaning_grown j (take n (encode_entry word meaning)) w
              (record w { file = w.file ++ take n (encode_entry word meaning) }) inv refl refl,
      )
