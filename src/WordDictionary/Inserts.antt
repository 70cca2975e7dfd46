-- ===== src/WordDictionary/Inserts.antt =====
-- word-dictionary/main.go: what a run of Insert calls does to GetMeaning.
use design_pocs.Common.{
  ◌≤◌, ◌≡◌, inl, inr, ap, sym, ◌∙◌, true, Bool-cases, Option-cases, none, some, ◌++◌, arith, Bytes,
  bytes_eq, bytes_key, lookup, lookup-insert, read_at, length, length-append, take,
}
use mathlib.Core.Path.{subst}
use design_pocs.WordDictionary.Entry.{encode_entry}
use design_pocs.WordDictionary.Appends.{read_at-append, read_at_within}
use design_pocs.WordDictionary.Dictionary.{
  DictionaryEntryMeta, WordDictionary, Write, wrote, failed, write_result, insert_word, get_meaning,
  get_meaning-missing, get_meaning-read_at,
}

pub insert_word-known :
    (io : Write) (word meaning : Bytes) (w : WordDictionary) (meta : DictionaryEntryMeta)
    → lookup word w.word_meta_map ≡ some meta
    → insert_word io word meaning w ≡ (w, true)
unfolding insert_word
insert_word-known io word meaning w meta e = rw (e, insert_word)

pub insert_word-new :
    (io : Write) (word meaning : Bytes) (w : WordDictionary)
    → lookup word w.word_meta_map ≡ none
    → insert_word io word meaning w ≡ write_result io word (encode_entry word meaning) w
unfolding insert_word
insert_word-new io word meaning w e = rw (e, insert_word)

-- Every entry of the map can be read, and new entries do not begin behind the end of the file.
abbrev pub Inv : WordDictionary → Type 0
Inv w =
    (w.current_offset ≤ length w.file)
    × ((j : Bytes) (meta : DictionaryEntryMeta)
        → lookup j w.word_meta_map ≡ some meta
        → (bytes : Bytes) × (read_at w.file meta.offset meta.entry_size ≡ some bytes))

pub write_result-Inv :
    (io : Write) (word entry : Bytes) (w : WordDictionary)
    → Inv w
    → Inv (write_result io word entry w).0
unfolding write_result
write_result-Inv wrote word entry w (low, readable) = (
  omega (arith, length-append w.file entry),
  λ j meta e. elim (Bool-cases (bytes_eq word j)) [
    | inl same ↦
        let here : record { offset = w.current_offset; entry_size = length entry } ≡ meta = ground (
          arith,
          lookup-insert word j (record { offset = w.current_offset; entry_size = length entry })
              w.word_meta_map,
        ) in
        subst
          (λ m. (bytes : Bytes) × (read_at (w.file ++ entry) m.offset m.entry_size ≡ some bytes))
          here
          (read_at_within (w.file ++ entry) w.current_offset (length entry)
            (omega (arith, length-append w.file entry)))
    | inr other ↦
        let before : lookup j w.word_meta_map ≡ some meta = ground (
          arith,
          lookup-insert word j (record { offset = w.current_offset; entry_size = length entry })
              w.word_meta_map,
        ) in
        let (bytes, found) = readable j meta before in
        (bytes, read_at-append w.file entry meta.offset meta.entry_size bytes found)
  ],
)
write_result-Inv (failed n) word entry w (low, readable) = (
  omega (arith, length-append w.file (take n entry)),
  λ j meta e.
      let (bytes, found) = readable j meta e in
      (bytes, read_at-append w.file (take n entry) meta.offset meta.entry_size bytes found),
)

-- Insert keeps that, whatever Write does.
pub insert_word-Inv :
    (io : Write) (word meaning : Bytes) (w : WordDictionary)
    → Inv w
    → Inv (insert_word io word meaning w).0
insert_word-Inv io word meaning w inv = elim (Option-cases (lookup word w.word_meta_map)) [
  | inl new ↦
      subst (λ r. Inv r.0) (sym (insert_word-new io word meaning w new))
        (write_result-Inv io word (encode_entry word meaning) w inv)
  | inr (meta, known) ↦
      subst (λ r. Inv r.0) (sym (insert_word-known io word meaning w meta known)) inv
]

-- The file grew by `g` and a word's entry stayed: GetMeaning gives the same answer.
pub get_meaning_grown :
    (j g : Bytes) (w w' : WordDictionary)
    → Inv w
    → w'.file ≡ w.file ++ g
    → lookup j w'.word_meta_map ≡ lookup j w.word_meta_map
    → get_meaning j w' ≡ get_meaning j w
get_meaning_grown j g w w' (low, readable) grown same =
    elim (Option-cases (lookup j w.word_meta_map)) [
      | inl missing ↦
          get_meaning-missing j w' (same ∙ missing) ∙ sym (get_meaning-missing j w missing)
      | inr (meta, known) ↦
          let (bytes, found) = readable j meta known in
          get_meaning-read_at j w' meta bytes (same ∙ known) (
            ap (λ f. read_at f meta.offset meta.entry_size) grown
            ∙ read_at-append w.file g meta.offset meta.entry_size bytes found)
          ∙ sym (get_meaning-read_at j w meta bytes known found)
    ]
