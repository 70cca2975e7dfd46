-- ===== src/WordDictionary/Latest.antt =====
-- word-dictionary/main.go, Import: the meanings after the merge of two sorted files.
use design_pocs.Common.{
  ℕ, ◌+◌, ◌≤◌, ◌≡◌, inl, inr, refl, ap, sym, ◌∙◌, true, false, Bool-cases, Option, none, some, List,
  [], ◌∷◌, arith, All, length, Bytes, bytes_eq, bytes_eq_iff, if◌then◌else◌,
}
use mathlib.Core.Bool.{false≢true}
use mathlib.Core.Path.{subst}
use design_pocs.Common.Sort.{bytes_lt}
use design_pocs.WordDictionary.Dictionary.{WordDictionary, get_meaning}
use design_pocs.WordDictionary.Meanings.{IsInStep}
use design_pocs.WordDictionary.Import.{import_change_log, imported}
use design_pocs.WordDictionary.Loads.{encode_all}
use design_pocs.WordDictionary.Refinement.{Fits, Meanings, text_of}
use design_pocs.WordDictionary.Merges.{
  Merged, log_left, file_left, same_word, file_first, log_first,
}
use design_pocs.WordDictionary.Imports.{latest, import_well, import_merges}

bytes_lt_irrefl : (a : Bytes) → bytes_lt a a ≡ false
unfolding bytes_lt
bytes_lt_irrefl [] = refl
bytes_lt_irrefl (x ∷ a) = ground (arith, bytes_lt_irrefl a)

bytes_lt_trans : (a b c : Bytes) → bytes_lt a b ≡ true → bytes_lt b c ≡ true → bytes_lt a c ≡ true
unfolding bytes_lt
bytes_lt_trans a b [] h k = cc
bytes_lt_trans a [] (z ∷ c) h k = cc
bytes_lt_trans [] (y ∷ b) (z ∷ c) h k = refl
bytes_lt_trans (x ∷ a) (y ∷ b) (z ∷ c) h k = ground (arith, bytes_lt_trans a b c)

bytes_lt_total : (a b : Bytes) → bytes_eq a b ≡ false → bytes_lt a b ≡ false → bytes_lt b a ≡ true
unfolding bytes_lt bytes_eq
bytes_lt_total [] [] e h = cc
bytes_lt_total [] (y ∷ b) e h = cc
bytes_lt_total (x ∷ a) [] e h = refl
bytes_lt_total (x ∷ a) (y ∷ b) e h = ground (arith, bytes_lt_total a b)

bytes_lt_ne : (a b : Bytes) → bytes_lt a b ≡ true → bytes_eq b a ≡ false
bytes_lt_ne a b h = elim (Bool-cases (bytes_eq b a)) [
  | inl same ↦
      let e = (bytes_eq_iff b a).0 same in
      absurd (false≢true (sym (bytes_lt_irrefl a) ∙ ap (bytes_lt a) (sym e) ∙ h))
  | inr other ↦ other
]

-- The words of the entries come behind this one.
abbrev Behind : Bytes → List (Bytes × Bytes) → Type 0
Behind word es = All (λ e. bytes_lt word e.0 ≡ true) es

abbrev pub IsSorted : List (Bytes × Bytes) → Type 0
IsSorted [] = Unit {0}
IsSorted (e ∷ es) = Behind e.0 es × IsSorted es

-- The meaning that the entries give to the word, or else this one.
abbrev pub value_or : Option Bytes → Bytes → List (Bytes × Bytes) → Option Bytes
value_or other j [] = other
value_or other j (e ∷ es) =
    let rest = value_or other j es in if bytes_eq e.0 j then some e.1 else rest

Behind-trans :
    (a b : Bytes) (es : List (Bytes × Bytes)) → bytes_lt a b ≡ true → Behind b es → Behind a es
Behind-trans a b [] h k = tt
Behind-trans a b (e ∷ es) h (k, ks) = (bytes_lt_trans a b e.0 h k, Behind-trans a b es h ks)

Behind-missing :
    (other : Option Bytes) (j : Bytes) (es : List (Bytes × Bytes))
    → Behind j es
    → value_or other j es ≡ other
Behind-missing other j [] h = refl
Behind-missing other j (e ∷ es) (h, hs) = rw (bytes_lt_ne j e.0 h) (Behind-missing other j es hs)

same_key :
    (j w : Bytes) (es : List (Bytes × Bytes)) → bytes_eq w j ≡ true → Behind w es → Behind j es
same_key j w es e h = subst (λ x. Behind x es) ((bytes_eq_iff w j).0 e) h

latest-value_or :
    (j : Bytes) (es : List (Bytes × Bytes)) (ms : Meanings)
    → IsSorted es
    → latest es ms j ≡ value_or (ms j) j es
latest-value_or j [] ms s = refl
latest-value_or j ((w, m) ∷ es) ms (h, s) = elim (Bool-cases (bytes_eq w j)) [
  | inl same ↦
      latest-value_or j es _ s ∙ rw same (Behind-missing (some m) j es (same_key j w es same h))
  | inr other ↦ latest-value_or j es _ s ∙ rw other
]

value_or_skip :
    (other : Option Bytes) (j : Bytes) (e : Bytes × Bytes) (es : List (Bytes × Bytes))
    → bytes_eq e.0 j ≡ false
    → value_or other j (e ∷ es) ≡ value_or other j es
value_or_skip other j e es h = rw h

value_or_learnt :
    (other : Option Bytes) (j : Bytes) (e : Bytes × Bytes) (es : List (Bytes × Bytes))
    → Behind e.0 es
    → value_or (if bytes_eq e.0 j then some e.1 else other) j es ≡ value_or other j (e ∷ es)
value_or_learnt other j e es h = elim (Bool-cases (bytes_eq e.0 j)) [
  | inl same ↦ rw same (Behind-missing (some e.1) j es (same_key j e.0 es same h))
  | inr differs ↦ rw differs
]

value_or_here :
    (other : Option Bytes) (j : Bytes) (e : Bytes × Bytes) (es : List (Bytes × Bytes))
    → bytes_eq e.0 j ≡ true
    → value_or other j (e ∷ es) ≡ some e.1
value_or_here other j e es h = rw h

learnt_here :
    (e : Bytes × Bytes) (j : Bytes) (other : Option Bytes)
    → bytes_eq e.0 j ≡ true
    → (if bytes_eq e.0 j then some e.1 else other) ≡ some e.1
learnt_here e j other h = rw h

learnt_there :
    (e : Bytes × Bytes) (j : Bytes) (other : Option Bytes)
    → bytes_eq e.0 j ≡ false
    → (if bytes_eq e.0 j then some e.1 else other) ≡ other
learnt_there e j other h = rw h

-- In the merge of sorted lists a word has the meaning of the change log, or else that of the file.
Merged-latest :
    {cs ls out : List (Bytes × Bytes)}
    → Merged cs ls out
    → IsSorted cs
    → IsSorted ls
    → (ms : Meanings) (j : Bytes) → latest out ms j ≡ value_or (value_or (ms j) j cs) j ls
Merged-latest {ls = ls} log_left sc sl ms j = latest-value_or j ls ms sl
Merged-latest {cs = cs} file_left sc sl ms j = latest-value_or j cs ms sc
Merged-latest (same_word {c = c} {l = l} {cs = cs} {ls = ls} e mg) (hc, sc) (hl, sl) ms j =
    Merged-latest mg sc sl _ j ∙ elim (Bool-cases (bytes_eq l.0 j)) [
      | inl same ↦
          let key = (bytes_eq_iff c.0 l.0).0 e in
          let here : bytes_eq c.0 j ≡ true = ap (λ k. bytes_eq k j) key ∙ same in
          ap (λ o. value_or (value_or o j cs) j ls) (learnt_here l j (ms j) same)
          ∙ ap (λ o. value_or o j ls) (Behind-missing (some l.1) j cs (same_key j c.0 cs here hc))
          ∙ Behind-missing (some l.1) j ls (same_key j l.0 ls same hl)
          ∙ sym (value_or_here (value_or (ms j) j (c ∷ cs)) j l ls same)
      | inr other ↦
          let key = (bytes_eq_iff c.0 l.0).0 e in
          let differs : bytes_eq c.0 j ≡ false = ap (λ k. bytes_eq k j) key ∙ other in
          ap (λ o. value_or (value_or o j cs) j ls) (learnt_there l j (ms j) other)
          ∙ ap (λ o. value_or o j ls) (sym (value_or_skip (ms j) j c cs differs))
          ∙ sym (value_or_skip (value_or (ms j) j (c ∷ cs)) j l ls other)
    ]
Merged-latest (file_first {c = c} {l = l} {cs = cs} {ls = ls} e less mg) (hc, sc) sl ms j =
    Merged-latest mg sc sl _ j ∙ ap (λ o. value_or o j (l ∷ ls)) (value_or_learnt (ms j) j c cs hc)
Merged-latest (log_first {c = c} {l = l} {cs = cs} {ls = ls} e more mg) (hc, sc) (hl, sl) ms j =
    Merged-latest mg (hc, sc) sl _ j ∙ elim (Bool-cases (bytes_eq l.0 j)) [
      | inl same ↦
          let up = bytes_lt_total c.0 l.0 e more in
          let behind = same_key j l.0 (c ∷ cs) same (up, Behind-trans l.0 c.0 cs up hc) in
          ap (λ o. value_or (value_or o j (c ∷ cs)) j ls) (learnt_here l j (ms j) same)
          ∙ ap (λ o. value_or o j ls) (Behind-missing (some l.1) j (c ∷ cs) behind)
          ∙ Behind-missing (some l.1) j ls (same_key j l.0 ls same hl)
          ∙ sym (value_or_here (value_or (ms j) j (c ∷ cs)) j l ls same)
      | inr other ↦
          ap (λ o. value_or (value_or o j (c ∷ cs)) j ls) (learnt_there l j (ms j) other)
          ∙ sym (value_or_skip (value_or (ms j) j (c ∷ cs)) j l ls other)
    ]

-- When the file and the change log hold entries in the order of their words, each word once, with lengths
-- that fit, and the system answers every call and takes a write for each entry, then after Import the
-- meaning of a word is the one in the change log, or else the one in the file, or else empty.
pub import_prefers_change_log :
    (cs ls : List (Bytes × Bytes)) (n : ℕ) (w : WordDictionary)
    → All Fits cs
    → All Fits ls
    → IsSorted cs
    → IsSorted ls
    → length cs + length ls ≤ n
    → w.file ≡ encode_all cs
    → IsInStep w
    → (w' : WordDictionary) × (import_change_log (import_well ls n) w ≡ imported w')
      × ((j : Bytes) → get_meaning j w' ≡ text_of (value_or (value_or none j cs) j ls))
import_prefers_change_log cs ls n w fc fl sc sl room file step =
    let (out, w', merged, done, _, _, reads) = import_merges cs ls n w fc fl room file step in
    (w', done, λ j. reads j ∙ ap text_of (Merged-latest merged sc sl (λ _. none) j))
