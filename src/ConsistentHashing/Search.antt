-- ===== src/ConsistentHashing/Search.antt =====
-- sort.Search over the sorted slots of a ring, and what it finds.
use design_pocs.Common.{
  ℕ, zero, suc, ◌+◌, ◌/◌, ◌≤◌, ◌<◌, ◌≡◌, inl, inr, refl, ◌∙◌, Bool, true, false, Bool-cases, Option,
  Option-cases, none, some, List, [], ◌∷◌, arith, All, length, get_elem?, ltb, leb, if◌then◌else◌,
}

-- c.nodes[i] >= hash; `none` is the panic on an index out of range.
unfoldable pub at_or_after : List ℕ → ℕ → ℕ → Option Bool
at_or_after nodes hash i = elim (get_elem? nodes i) [
  | none ↦ none
  | some slot ↦ some (leb hash slot)
]

-- The loop of sort.Search, on fuel. `none` is a panic of the test, or too little fuel.
unfoldable pub search_loop : ℕ → (ℕ → Option Bool) → ℕ → ℕ → Option ℕ
search_loop zero f i j = if ltb i j then none else some i
search_loop (suc fuel) f i j = elim (f ((i + j) / 2)) [
  | none ↦ if ltb i j then none else some i
  | some b ↦
      let rest =
        search_loop fuel f (if b then i else (i + j) / 2 + 1) (if b then (i + j) / 2 else j) in
      if ltb i j then rest else some i
]

-- The interval at least halves, so its length is fuel enough.
unfoldable pub search : List ℕ → ℕ → Option ℕ
search nodes hash = search_loop (length nodes) (at_or_after nodes hash) 0 (length nodes)

abbrev pub IsSorted : List ℕ → Type 0
IsSorted [] = Unit {0}
IsSorted (x ∷ xs) = All (λ y. x ≤ y) xs × IsSorted xs

-- The slots before place `i` are below the hash.
abbrev pub Below : List ℕ → ℕ → ℕ → Type 0
Below nodes hash i = (k x : ℕ) → k < i → get_elem? nodes k ≡ some x → x < hash

-- The slots from place `i` on are not.
abbrev pub AtLeast : List ℕ → ℕ → ℕ → Type 0
AtLeast nodes hash i = (k x : ℕ) → i ≤ k → get_elem? nodes k ≡ some x → hash ≤ x

All-elem : (x : ℕ) (xs : List ℕ) (k y : ℕ) → All (λ y. x ≤ y) xs → get_elem? xs k ≡ some y → x ≤ y
All-elem x [] k y h e = cc
All-elem x (z ∷ xs) zero y (h, hs) e = ground arith
All-elem x (z ∷ xs) (suc k) y (h, hs) e = All-elem x xs k y hs e

pub sorted_le :
    (xs : List ℕ) (k l x y : ℕ)
    → IsSorted xs
    → k ≤ l
    → get_elem? xs k ≡ some x
    → get_elem? xs l ≡ some y
    → x ≤ y
sorted_le [] k l x y s h e f = cc
sorted_le (z ∷ xs) zero zero x y s h e f = ground arith
sorted_le (z ∷ xs) zero (suc l) x y (s, ss) h e f = let low = All-elem z xs l y s f in ground arith
sorted_le (z ∷ xs) (suc k) zero x y s h e f = ground arith
sorted_le (z ∷ xs) (suc k) (suc l) x y (s, ss) h e f = sorted_le xs k l x y ss (omega arith) e f

pub elem_in_range : (xs : List ℕ) (k : ℕ) → k < length xs → (x : ℕ) × (get_elem? xs k ≡ some x)
elem_in_range [] k h = ground arith
elem_in_range (x ∷ xs) zero h = (x, refl)
elem_in_range (x ∷ xs) (suc k) h = elem_in_range xs k (omega arith)

pub elem_bound : (xs : List ℕ) (k x : ℕ) → get_elem? xs k ≡ some x → k < length xs
elem_bound [] k x e = cc
elem_bound (y ∷ xs) zero x e = omega arith
elem_bound (y ∷ xs) (suc k) x e = let low = elem_bound xs k x e in omega arith

-- Where the search ends: every slot before the place is below the hash, and none from it on.
abbrev pub Split : List ℕ → ℕ → ℕ → Type 0
Split nodes hash k = (k ≤ length nodes) × Below nodes hash k × AtLeast nodes hash k

search_loop_done :
    (fuel : ℕ) (f : ℕ → Option Bool) (i j : ℕ) → ltb i j ≡ false → search_loop fuel f i j ≡ some i
unfolding search_loop
search_loop_done zero f i j h = rw h refl
search_loop_done (suc fuel) f i j h = elim (Option-cases (f ((i + j) / 2))) [
  | inl stops ↦ rw (stops, search_loop) (rw h)
  | inr (b, goes) ↦ rw (goes, search_loop) (rw h)
]

search_loop_halves :
    (fuel : ℕ) (f : ℕ → Option Bool) (i j : ℕ) (b : Bool)
    → ltb i j ≡ true
    → f ((i + j) / 2) ≡ some b
    → search_loop (suc fuel) f i j
      ≡ search_loop fuel f (if b then i else (i + j) / 2 + 1) (if b then (i + j) / 2 else j)
unfolding search_loop
search_loop_halves fuel f i j b h e = rw (e, search_loop) (rw h)

at_or_after-elem :
    (nodes : List ℕ) (hash h x : ℕ) (b : Bool)
    → get_elem? nodes h ≡ some x
    → leb hash x ≡ b
    → at_or_after nodes hash h ≡ some b
unfolding at_or_after
at_or_after-elem nodes hash h x b e t = rw (e, at_or_after) (rw t)

search_loop-Split :
    (fuel : ℕ) (nodes : List ℕ) (hash i j : ℕ)
    → IsSorted nodes
    → i ≤ j
    → j ≤ length nodes
    → j ≤ i + fuel
    → Below nodes hash i
    → AtLeast nodes hash j
    → (k : ℕ) × (search_loop fuel (at_or_after nodes hash) i j ≡ some k) × Split nodes hash k
search_loop-Split zero nodes hash i j s ij jn enough below above = (
  i,
  search_loop_done 0 (at_or_after nodes hash) i j (ground arith),
  (omega arith, below, (λ k x h e. above k x (omega arith) e)),
)
search_loop-Split (suc fuel) nodes hash i j s ij jn enough below above =
    elim (Bool-cases (ltb i j)) [
      | inr done ↦ (
        i,
        search_loop_done (suc fuel) (at_or_after nodes hash) i j done,
        (omega arith, below, (λ k x h e. above k x (ground arith) e)),
      )
      | inl more ↦
          let h = (i + j) / 2 in
          let between : h < j = ground arith in
          let (x, found) = elem_in_range nodes h (omega arith) in
          elim (Bool-cases (leb hash x)) [
            | inl high ↦
                let (k, e, split) =
                  search_loop-Split fuel nodes hash i h s (omega arith) (omega arith) (omega arith)
                    below
                    (λ k y hk ey. let up = sorted_le nodes h k x y s hk found ey in ground arith) in
                (
                  k,
                  search_loop_halves fuel (at_or_after nodes hash) i j true more
                        (at_or_after-elem nodes hash h x true found high)
                      ∙ e,
                  split,
                )
            | inr low ↦
                let (k, e, split) =
                  search_loop-Split fuel nodes hash (h + 1) j s (omega arith) jn (omega arith)
                    (λ k y hk ey.
                      let up = sorted_le nodes k h y x s (omega arith) ey found in ground arith)
                    above in
                (
                  k,
                  search_loop_halves fuel (at_or_after nodes hash) i j false more
                        (at_or_after-elem nodes hash h x false found low)
                      ∙ e,
                  split,
                )
          ]
    ]

-- On sorted slots the search does not leave the list and ends at the place that splits it.
pub search-Split :
    (nodes : List ℕ) (hash : ℕ)
    → IsSorted nodes
    → (k : ℕ) × (search nodes hash ≡ some k) × Split nodes hash k
unfolding search
search-Split nodes hash s =
    search_loop-Split (length nodes) nodes hash 0 (length nodes) s (omega arith) (omega arith)
      (omega arith) (λ k x h e. omega arith)
      (λ k x h e. let low = elem_bound nodes k x e in omega arith)
