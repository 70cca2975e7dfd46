-- ===== src/ConsistentHashing/Slots.antt =====
-- consistent_hashing/main.go: the slots in a ring, whatever their order.
use design_pocs.Common.{
  ℕ, zero, suc, ◌≤◌, ◌≡◌, inl, inr, refl, ◌∙◌, Bool, true, false, Bool-cases, Option, Option-cases,
  none, some, List, [], ◌∷◌, ◌++◌, arith, All, lookup, remove, lookup-insert, lookup-remove,
  get_elem?, ltb, ◌==◌, if◌then◌else◌,
}
use design_pocs.Common.Sort.{sort, insert_sorted}
use design_pocs.ConsistentHashing.Search.{IsSorted}
use design_pocs.ConsistentHashing.Ring.{
  slot_key, StorageNode, ConsistentHashingRing, add_slots, remove_slots, kept_slots,
}

abbrev pub has : ℕ → List ℕ → Bool
has t [] = false
has t (x ∷ xs) = let rest = has t xs in if x == t then true else rest

abbrev pub has_node : Option StorageNode → Bool
has_node none = false
has_node (some n) = true

-- The slots of the list are the keys of the map.
abbrev pub Indexed : ConsistentHashingRing → Type 0
Indexed r = (t : ℕ) → has t r.nodes ≡ has_node (lookup t r.node_map)

pub has-place : (t : ℕ) (xs : List ℕ) → has t xs ≡ true → (l : ℕ) × (get_elem? xs l ≡ some t)
has-place t [] h = cc
has-place t (x ∷ xs) h = elim (Bool-cases (x == t)) [
  | inl here ↦ (0, ground arith)
  | inr later ↦ let (l, e) = has-place t xs (ground arith) in (suc l, e)
]

pub place-has : (t : ℕ) (xs : List ℕ) (l : ℕ) → get_elem? xs l ≡ some t → has t xs ≡ true
place-has t [] l h = cc
place-has t (x ∷ xs) zero h = ground arith
place-has t (x ∷ xs) (suc l) h = let later = place-has t xs l h in ground arith

has-insert_sorted :
    (t x : ℕ) (xs : List ℕ) → has t (insert_sorted ltb x xs) ≡ (if x == t then true else has t xs)
unfolding insert_sorted
has-insert_sorted t x [] = refl
has-insert_sorted t x (y ∷ ys) = ground (arith, has-insert_sorted t x ys)

pub has-sort : (t : ℕ) (xs : List ℕ) → has t (sort ltb xs) ≡ has t xs
unfolding sort
has-sort t [] = refl
has-sort t (x ∷ xs) = has-insert_sorted t x (sort ltb xs) ∙ rw (has-sort t xs)

All-le_trans : (x y : ℕ) (xs : List ℕ) → x ≤ y → All (λ z. y ≤ z) xs → All (λ z. x ≤ z) xs
All-le_trans x y [] h a = tt
All-le_trans x y (z ∷ xs) h (a, as') = (omega arith, All-le_trans x y xs h as')

All-insert_sorted :
    (w x : ℕ) (xs : List ℕ)
    → w ≤ x
    → All (λ z. w ≤ z) xs
    → All (λ z. w ≤ z) (insert_sorted ltb x xs)
unfolding insert_sorted
All-insert_sorted w x [] h a = (h, tt)
All-insert_sorted w x (y ∷ ys) h (a, as') = elim (Bool-cases (ltb y x)) [
  | inl before ↦ rw before (a, All-insert_sorted w x ys h as')
  | inr behind ↦ rw behind (h, (a, as'))
]

insert_sorted-IsSorted : (x : ℕ) (xs : List ℕ) → IsSorted xs → IsSorted (insert_sorted ltb x xs)
unfolding insert_sorted
insert_sorted-IsSorted x [] s = (tt, tt)
insert_sorted-IsSorted x (y ∷ ys) (s, ss) = elim (Bool-cases (ltb y x)) [
  | inl before ↦
      rw before (All-insert_sorted y x ys (ground arith) s, insert_sorted-IsSorted x ys ss)
  | inr behind ↦
      let low : x ≤ y = ground arith in rw behind ((low, All-le_trans x y ys low s), (s, ss))
]

pub sort-IsSorted : (xs : List ℕ) → IsSorted (sort ltb xs)
unfolding sort
sort-IsSorted [] = tt
sort-IsSorted (x ∷ xs) = insert_sorted-IsSorted x (sort ltb xs) (sort-IsSorted xs)

has-append : (t x : ℕ) (xs : List ℕ) → has t (xs ++ (x ∷ [])) ≡ (if x == t then true else has t xs)
has-append t x [] = refl
has-append t x (y ∷ ys) = ground (arith, has-append t x ys)

pub add_slots-Indexed :
    (ss : List ℕ) (n : StorageNode) (r : ConsistentHashingRing)
    → Indexed r
    → Indexed (add_slots ss n r)
unfolding add_slots
add_slots-Indexed [] n r h = h
add_slots-Indexed (s ∷ ss) n r h =
    add_slots-Indexed ss n _
      (λ t. ground (arith, has-append t s r.nodes, lookup-insert s t n r.node_map, h t))

pub lookup-add_slots :
    (ss : List ℕ) (n : StorageNode) (r : ConsistentHashingRing) (t : ℕ)
    → lookup t (add_slots ss n r).node_map ≡ (if has t ss then some n else lookup t r.node_map)
unfolding add_slots
lookup-add_slots [] n r t = refl
lookup-add_slots (s ∷ ss) n r t =
    lookup-add_slots ss n _ t ∙ ground (arith, lookup-insert s t n r.node_map)

pub lookup-remove_slots :
    (ss : List ℕ) (m : List (ℕ × StorageNode)) (t : ℕ)
    → lookup t (remove_slots ss m) ≡ (if has t ss then none else lookup t m)
unfolding remove_slots
lookup-remove_slots [] m t = refl
lookup-remove_slots (s ∷ ss) m t =
    lookup-remove_slots ss (remove s m) t ∙ ground (arith, lookup-remove s t m)

kept_slots-here :
    (m : List (ℕ × StorageNode)) (x : ℕ) (n : StorageNode) (xs : List ℕ)
    → lookup x m ≡ some n
    → kept_slots m (x ∷ xs) ≡ x ∷ kept_slots m xs
unfolding kept_slots
kept_slots-here m x n xs e = rw (e, kept_slots)

kept_slots-gone :
    (m : List (ℕ × StorageNode)) (x : ℕ) (xs : List ℕ)
    → lookup x m ≡ none
    → kept_slots m (x ∷ xs) ≡ kept_slots m xs
unfolding kept_slots
kept_slots-gone m x xs e = rw (e, kept_slots)

pub has-kept_slots :
    (m : List (ℕ × StorageNode)) (t : ℕ) (xs : List ℕ)
    → has t (kept_slots m xs) ≡ (if has t xs then has_node (lookup t m) else false)
has-kept_slots m t [] = unfold kept_slots in refl
has-kept_slots m t (x ∷ xs) = elim (Option-cases (lookup x m)) [
  | inl gone ↦ ground (arith, kept_slots-gone m x xs gone, has-kept_slots m t xs)
  | inr (n, here) ↦ ground (arith, kept_slots-here m x n xs here, has-kept_slots m t xs)
]

All-kept_slots :
    (m : List (ℕ × StorageNode)) (w : ℕ) (xs : List ℕ)
    → All (λ z. w ≤ z) xs
    → All (λ z. w ≤ z) (kept_slots m xs)
All-kept_slots m w [] a = unfold kept_slots in tt
All-kept_slots m w (x ∷ xs) (a, as') = elim (Option-cases (lookup x m)) [
  | inl gone ↦ rw (kept_slots-gone m x xs gone) (All-kept_slots m w xs as')
  | inr (n, here) ↦ rw (kept_slots-here m x n xs here) (a, All-kept_slots m w xs as')
]

pub kept_slots-IsSorted :
    (m : List (ℕ × StorageNode)) (xs : List ℕ) → IsSorted xs → IsSorted (kept_slots m xs)
kept_slots-IsSorted m [] s = unfold kept_slots in tt
kept_slots-IsSorted m (x ∷ xs) (s, ss) = elim (Option-cases (lookup x m)) [
  | inl gone ↦ rw (kept_slots-gone m x xs gone) (kept_slots-IsSorted m xs ss)
  | inr (n, here) ↦
      rw (kept_slots-here m x n xs here) (All-kept_slots m x xs s, kept_slots-IsSorted m xs ss)
]
