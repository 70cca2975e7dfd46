-- ===== src/WordDictionary/Refinement.antt =====
-- word-dictionary/main.go: the dictionary as a map that keeps the first meaning of a word.
use design_pocs.Common.{
  ◌^◌, ◌<◌, ◌≡◌, ◌≢◌, inl, inr, refl, ap, sym, ◌∙◌, Bool-cases, Option, none, some, List, [], ◌∷◌,
  arith, All, Bytes, bytes_eq, bytes_eq_iff, bytes_key, lookup, lookup-insert, length,
  if◌then◌else◌,
}
use mathlib.Core.Path.{subst}
use design_pocs.WordDictionary.Entry.{encode_entry, Answer, text, shown_fits}
use design_pocs.WordDictionary.Dictionary.{
  DictionaryEntryMeta, WordDictionary, new_word_dictionary, wrote, insert_word, get_meaning,
  get_meaning-missing,
}
use design_pocs.WordDictionary.Inserts.{Inv, insert_word-known, insert_word-Inv}
use design_pocs.WordDictionary.Meanings.{IsInStep, written, insert_word_shows}

-- Insert calls whose writes all succeed.
unfoldable pub insert_all : List (Bytes × Bytes) → WordDictionary → WordDictionary
insert_all [] w = w
insert_all ((word, meaning) ∷ rest) w = insert_all rest (insert_word wrote word meaning w).0

abbrev pub Meanings : Type 0
Meanings = Bytes → Option Bytes

abbrev pub first_of : Option Bytes → Bytes → Bytes
first_of none meaning = meaning
first_of (some old) meaning = old

-- The specification: a word that has a meaning keeps it.
abbrev pub learn : Bytes → Bytes → Meanings → Meanings
learn word meaning ms j = if bytes_eq word j then some (first_of (ms j) meaning) else ms j

unfoldable pub learn_all : List (Bytes × Bytes) → Meanings → Meanings
learn_all [] ms = ms
learn_all ((word, meaning) ∷ rest) ms = learn_all rest (learn word meaning ms)

abbrev pub Fits : Bytes × Bytes → Type 0
Fits (word, meaning) = (length word < 256) × (length meaning < 2 ^ 24)

-- What the dictionary and the specification know of a word.
data Known (w : WordDictionary) (j : Bytes) (m : Option Bytes) : Type 0 where
  missing : lookup j w.word_meta_map ≡ none → m ≡ none → Known w j m
  present :
      (meta : DictionaryEntryMeta) (v : Bytes)
      → lookup j w.word_meta_map ≡ some meta
      → m ≡ some v
      → get_meaning j w ≡ text v
      → Known w j m

record Tracks (w : WordDictionary) (ms : Meanings) : Type 0 where
  inv : Inv w
  step : IsInStep w
  knows : (j : Bytes) → Known w j (ms j)

learn-known :
    (w : WordDictionary) (word meaning : Bytes) (ms : Meanings) (j : Bytes) (v : Bytes)
    → ms word ≡ some v
    → learn word meaning ms j ≡ ms j
learn-known w word meaning ms j v e = elim (Bool-cases (bytes_eq word j)) [
  | inl same ↦
      let here : ms j ≡ some v = ap ms (sym ((bytes_eq_iff word j).0 same)) ∙ e in rw same (rw here)
  | inr other ↦ rw other
]

insert_known-Tracks :
    (w : WordDictionary) (word meaning : Bytes) (ms : Meanings) (v : Bytes)
    → ms word ≡ some v
    → Tracks w ms
    → Tracks w (learn word meaning ms)
insert_known-Tracks w word meaning ms v e t = record {
  inv = t.inv;
  step = t.step;
  knows = λ j. subst (Known w j) (sym (learn-known w word meaning ms j v e)) (t.knows j);
}

lookup-written :
    (word meaning : Bytes) (w : WordDictionary) (j : Bytes)
    → lookup word w.word_meta_map ≡ none
    → lookup j (insert_word wrote word meaning w).0.word_meta_map ≡ (
        if bytes_eq word j
        then some
            (record { offset = w.current_offset; entry_size = length (encode_entry word meaning) })
        else lookup j w.word_meta_map)
lookup-written word meaning w j new =
    ap (λ r. lookup j r.0.word_meta_map) (written word meaning w new)
    ∙ lookup-insert word j
        (record { offset = w.current_offset; entry_size = length (encode_entry word meaning) })
        w.word_meta_map

insert_new-Tracks :
    (w : WordDictionary) (word meaning : Bytes) (ms : Meanings)
    → Fits (word, meaning)
    → lookup word w.word_meta_map ≡ none
    → ms word ≡ none
    → Tracks w ms
    → Tracks (insert_word wrote word meaning w).0 (learn word meaning ms)
insert_new-Tracks w word meaning ms (fits, fits') new none_yet t =
    let (_, here, there, step') = insert_word_shows word meaning w t.inv t.step new in
    record {
      inv = insert_word-Inv wrote word meaning w t.inv;
      step = step';
      knows = λ j. elim (Bool-cases (bytes_eq word j)) [
        | inl same ↦
            let key : word ≡ j = (bytes_eq_iff word j).0 same in
            let none_there : ms j ≡ none = ap ms (sym key) ∙ none_yet in
            present
              (record {
                offset = w.current_offset;
                entry_size = length (encode_entry word meaning);
              })
              meaning (lookup-written word meaning w j new ∙ rw same) (rw same (rw none_there))
              (ap (λ k. get_meaning k (insert_word wrote word meaning w).0) (sym key)
                ∙ here
                ∙ ap text (shown_fits word meaning fits fits'))
        | inr other ↦
            let differs : j ≢ word = ground (arith, bytes_eq_iff word j) in
            rw other (elim (t.knows j) [
              | missing e f ↦ missing (lookup-written word meaning w j new ∙ rw other e) f
              | present meta v e f g ↦
                  present meta v (lookup-written word meaning w j new ∙ rw other e) f
                    (there j differs ∙ g)
            ])
      ];
    }

insert_word-Tracks :
    (w : WordDictionary) (word meaning : Bytes) (ms : Meanings)
    → Fits (word, meaning)
    → Tracks w ms
    → Tracks (insert_word wrote word meaning w).0 (learn word meaning ms)
insert_word-Tracks w word meaning ms fits t = elim (t.knows word) [
  | missing e f ↦ insert_new-Tracks w word meaning ms fits e f t
  | present meta v e f g ↦
      subst (λ r. Tracks r.0 (learn word meaning ms))
        (sym (insert_word-known wrote word meaning w meta e))
        (insert_known-Tracks w word meaning ms v f t)
]

insert_all-Tracks :
    (ps : List (Bytes × Bytes)) (w : WordDictionary) (ms : Meanings)
    → All Fits ps
    → Tracks w ms
    → Tracks (insert_all ps w) (learn_all ps ms)
unfolding insert_all learn_all
insert_all-Tracks [] w ms fits t = t
insert_all-Tracks ((word, meaning) ∷ rest) w ms (fit, fits) t =
    insert_all-Tracks rest (insert_word wrote word meaning w).0 (learn word meaning ms) fits
      (insert_word-Tracks w word meaning ms fit t)

new-Tracks : (file : Bytes) → Tracks (new_word_dictionary file) (λ _. none)
unfolding lookup
new-Tracks file = record {
  inv = (omega arith, λ j meta e. cc);
  step = refl;
  knows = λ j. missing refl refl;
}

abbrev pub text_of : Option Bytes → Answer
text_of none = text []
text_of (some m) = text m

-- After any run of Insert calls on a new dictionary, whose writes succeed, with words shorter than 256
-- and meanings shorter than 2 ^ 24 bytes, GetMeaning returns the first meaning that was given to a word,
-- and the empty text for a word that was given none.
pub insert_all_refines :
    (ps : List (Bytes × Bytes)) (file j : Bytes)
    → All Fits ps
    → get_meaning j (insert_all ps (new_word_dictionary file))
      ≡ text_of (learn_all ps (λ _. none) j)
insert_all_refines ps file j fits =
    let t = insert_all-Tracks ps (new_word_dictionary file) (λ _. none) fits (new-Tracks file) in
    elim (t.knows j) [
      | missing e f ↦
          get_meaning-missing j (insert_all ps (new_word_dictionary file)) e ∙ ap text_of (sym f)
      | present meta v e f g ↦ g ∙ ap text_of (sym f)
    ]
