-- ===== src/WordDictionary/Dictionary.antt =====
-- word-dictionary/main.go: the dictionary, its file, Insert and GetMeaning.
use design_pocs.Common.{
  ℕ, ◌+◌, ◌≡◌, Bool, true, false, Option, none, some, List, [], ◌++◌, Bytes, bytes_key, lookup,
  insert, read_at, length, take,
}
use design_pocs.WordDictionary.Entry.{encode_entry, Answer, text, meaning_of}

pub record DictionaryEntryMeta : Type 0 where
  pub offset : ℕ
  pub entry_size : ℕ

-- The dictionary and the content of its file.
pub record WordDictionary : Type 0 where
  pub word_meta_map : List (Bytes × DictionaryEntryMeta)
  pub current_offset : ℕ
  pub file : Bytes

-- NewWordDictionary, when Stat answers.
abbrev pub new_word_dictionary : Bytes → WordDictionary
new_word_dictionary file = record { word_meta_map = []; current_offset = length file; file = file }

-- What Write does to a file opened with O_APPEND: everything is behind its end, or it fails with the
-- first `n` bytes there.
pub data Write : Type 0 where
  wrote : Write
  failed : ℕ → Write

abbrev pub entry_written : Bytes → Bytes → WordDictionary → WordDictionary
entry_written word entry w = record {
  word_meta_map =
      insert word (record { offset = w.current_offset; entry_size = length entry }) w.word_meta_map;
  current_offset = w.current_offset + length entry;
  file = w.file ++ entry;
}

-- file.Write, and what Insert does with its result. `true` is a nil error.
unfoldable pub write_result : Write → Bytes → Bytes → WordDictionary → WordDictionary × Bool
write_result wrote word entry w = (entry_written word entry w, true)
write_result (failed n) word entry w = (record w { file = w.file ++ take n entry }, false)

-- Insert
unfoldable pub insert_word : Write → Bytes → Bytes → WordDictionary → WordDictionary × Bool
unfolding write_result
insert_word io word meaning w = elim (lookup word w.word_meta_map) [
  | some _ ↦ (w, true)
  | none ↦ write_result io word (encode_entry word meaning) w
]

answer_from : Option Bytes → Answer
answer_from none = text []
answer_from (some bytes) = meaning_of bytes

entry_answer : Bytes → Option DictionaryEntryMeta → Answer
unfolding answer_from
entry_answer file none = text []
entry_answer file (some meta) = answer_from (read_at file meta.offset meta.entry_size)

-- GetMeaning, when the file can be read.
unfoldable pub get_meaning : Bytes → WordDictionary → Answer
unfolding entry_answer
get_meaning word w = entry_answer w.file (lookup word w.word_meta_map)

pub get_meaning-missing :
    (word : Bytes) (w : WordDictionary)
    → lookup word w.word_meta_map ≡ none
    → get_meaning word w ≡ text []
unfolding get_meaning entry_answer
get_meaning-missing word w e = rw e

pub get_meaning-read_at :
    (word : Bytes) (w : WordDictionary) (meta : DictionaryEntryMeta) (bytes : Bytes)
    → lookup word w.word_meta_map ≡ some meta
    → read_at w.file meta.offset meta.entry_size ≡ some bytes
    → get_meaning word w ≡ meaning_of bytes
unfolding get_meaning entry_answer answer_from
get_meaning-read_at word w meta bytes e r = rw e (rw r)
