-- ===== src/WordDictionary/Import.antt =====
-- word-dictionary/main.go: Import, the merge of the file with a change log into a new file.
use design_pocs.Common.{
  ℕ, zero, suc, ◌+◌, ◌-◌, ◌*◌, Bool, ◌&&◌, Option, none, some, List, [], ◌∷◌, ◌++◌, Bytes, bytes_eq,
  bytes_key, insert, read_at, length, take, drop, ltb, ◌==◌, if◌then◌else◌,
}
use design_pocs.Common.Sort.{bytes_lt}
use design_pocs.WordDictionary.Dictionary.{DictionaryEntryMeta, WordDictionary}

-- The bytes of an entry, and the word in it.
pub record Loaded : Type 0 where
  pub entry_bytes : Bytes
  pub entry_word : Bytes

abbrev pub word_len : Bytes → ℕ
word_len [] = 0
word_len (b ∷ _) = b

abbrev pub meaning_len : Bytes → ℕ
meaning_len (_ ∷ high ∷ middle ∷ low ∷ _) = high * 65536 + middle * 256 + low
meaning_len _ = 0

abbrev pub and_then {ℓ κ} : {A : Type ℓ} {B : Type κ} → Option A → (A → Option B) → Option B
and_then none f = none
and_then (some a) f = f a

-- The reads of an entry in the loop over both files: the lengths, then the rest.
unfoldable pub load : Bytes → ℕ → Option Loaded
load file offset = and_then (read_at file offset 4) (λ len_bytes.
    and_then (read_at file (offset + 4) (word_len len_bytes + meaning_len len_bytes)) (λ payload.
      some (record {
        entry_bytes = len_bytes ++ payload;
        entry_word = take (word_len len_bytes) payload;
      })))

-- The reads of an entry in the loops over one file: the lengths, then the whole.
unfoldable pub load_whole : Bytes → ℕ → Option Loaded
load_whole file offset = and_then (read_at file offset 4) (λ len_bytes.
    and_then (read_at file offset (4 + word_len len_bytes + meaning_len len_bytes)) (λ buf.
      some (record { entry_bytes = buf; entry_word = take (word_len len_bytes) (drop 4 buf) })))

-- The temporary file with its map, and how many more writes to it succeed.
pub record Temp : Type 0 where
  pub content : Bytes
  pub temp_meta_map : List (Bytes × DictionaryEntryMeta)
  pub writes : ℕ

abbrev pub temp_with : Loaded → Temp → Temp
temp_with e t = record t {
  content = t.content ++ e.entry_bytes;
  temp_meta_map =
      insert e.entry_word (record { offset = length t.content; entry_size = length e.entry_bytes })
        t.temp_meta_map;
}

-- tempFile.Write and the entry in the map. tempFileOffset is the length of the content.
unfoldable pub append_temp : Loaded → Temp → Option Temp
append_temp e t =
    if t.writes == 0 then none else some (temp_with e (record t { writes = t.writes - 1 }))

-- A loop over what is left of one file, from the offset to the end, on fuel.
unfoldable pub copy_rest : ℕ → Bytes → ℕ → ℕ → Temp → Option Temp
copy_rest zero file end offset t = if ltb offset end then none else some t
copy_rest (suc fuel) file end offset t =
    if ltb offset end
    then and_then (load_whole file offset) (λ e.
      and_then (append_temp e t) (λ t'. copy_rest fuel file end (offset + length e.entry_bytes) t'))
    else some t

-- Where the loop over both files stands.
pub record Merging : Type 0 where
  pub current_file_offset : ℕ
  pub change_log_file_offset : ℕ
  pub temp : Temp

-- The choice by strings.Compare: the entry that is written, and the offsets behind it.
unfoldable pub merge_entry : Loaded → Loaded → Merging → Option Merging
merge_entry cur ch s =
    let cur_end = s.current_file_offset + length cur.entry_bytes in
    let ch_end = s.change_log_file_offset + length ch.entry_bytes in
    if bytes_eq cur.entry_word ch.entry_word
    then and_then (append_temp ch s.temp) (λ t.
      some (record { current_file_offset = cur_end; change_log_file_offset = ch_end; temp = t }))
    else if bytes_lt cur.entry_word ch.entry_word
    then and_then (append_temp cur s.temp)
        (λ t. some (record s { current_file_offset = cur_end; temp = t }))
    else and_then (append_temp ch s.temp)
        (λ t. some (record s { change_log_file_offset = ch_end; temp = t }))

-- The loop over both files, on fuel.
unfoldable pub merge_loop : ℕ → Bytes → ℕ → Bytes → Merging → Option Merging
merge_loop zero file end log s =
    if ltb s.current_file_offset end && ltb s.change_log_file_offset (length log)
    then none
    else some s
merge_loop (suc fuel) file end log s =
    if ltb s.current_file_offset end && ltb s.change_log_file_offset (length log)
    then and_then (load file s.current_file_offset) (λ cur.
      and_then (load log s.change_log_file_offset)
        (λ ch. and_then (merge_entry cur ch s) (λ s'. merge_loop fuel file end log s')))
    else some s

-- The three loops. Each round goes over an entry, of four bytes at least, in one of the files.
unfoldable pub merge_files : Bytes → ℕ → Bytes → ℕ → Option Temp
merge_files file end log writes =
    let fuel = end + length log in
    and_then
      (merge_loop fuel file end log (record {
        current_file_offset = 0;
        change_log_file_offset = 0;
        temp = record { content = []; temp_meta_map = []; writes = writes };
      }))
      (λ s.
        and_then (copy_rest fuel file end s.current_file_offset s.temp)
          (λ t. copy_rest fuel log (length log) s.change_log_file_offset t))

-- What the system does for Import: the content of the change log if it opens and answers Stat, whether
-- the temporary file opens, how many writes to it succeed, and Rename and the open of the new file.
pub record ImportIo : Type 0 where
  pub change_log : Option Bytes
  pub opens_temp : Bool
  pub temp_writes : ℕ
  pub renames : Bool
  pub reopens : Bool

-- The dictionary on the new file; an error that changed nothing; or an error behind file.Close, with
-- the content of the file and the old map, after which no handle is open.
pub data ImportResult : Type 0 where
  imported : WordDictionary → ImportResult
  unchanged : ImportResult
  handle_closed : WordDictionary → ImportResult

unfoldable pub replace_file : ImportIo → Temp → WordDictionary → ImportResult
replace_file io t w =
    if io.renames
    then (if io.reopens
        then imported (record {
          word_meta_map = t.temp_meta_map;
          current_offset = length t.content;
          file = t.content;
        })
        else handle_closed (record w { file = t.content }))
    else handle_closed w

-- Import up to the end of the loops.
unfoldable pub merge_with : ImportIo → WordDictionary → Option Bytes → Option Temp
merge_with io w none = none
merge_with io w (some log) =
    if io.opens_temp then merge_files w.file w.current_offset log io.temp_writes else none

unfoldable pub finish : ImportIo → WordDictionary → Option Temp → ImportResult
finish io w none = unchanged
finish io w (some t) = replace_file io t w

-- Import
unfoldable pub import_change_log : ImportIo → WordDictionary → ImportResult
import_change_log io w = finish io w (merge_with io w io.change_log)
