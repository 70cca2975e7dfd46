-- ===== src/ConsistentHashing/Clockwise.antt =====
-- consistent_hashing/main.go, getNode: the owner of a key is the first slot clockwise.
use design_pocs.Common.{
  ℕ, ◌≤◌, ◌<◌, ◌≡◌, ◌≢◌, ◌⊎◌, inl, inr, refl, ap, sym, ◌∙◌, true, false, Bool-cases, Option-cases,
  some, List, [], ◌∷◌, arith, Bytes, lookup, length, get_elem?, ltb, ◌==◌, if◌then◌else◌,
}
use mathlib.Core.Bool.{false≢true}
use design_pocs.ConsistentHashing.Search.{
  search-Split, Split, IsSorted, elem_in_range, elem_bound, sorted_le,
}
use design_pocs.ConsistentHashing.Ring.{
  slot_key, StorageNode, ConsistentHashingRing, found, get_node, get_node_at,
}
use design_pocs.ConsistentHashing.Slots.{has, has_node, Indexed, has-place, place-has}

-- Going up from the hash, and on from zero behind the greatest slot, `s` comes no later than `t`.
abbrev pub Ahead : ℕ → ℕ → ℕ → Type 0
Ahead h s t = ((h ≤ s) × ((s ≤ t) ⊎ (t < h))) ⊎ ((s < h) × (t < h) × (s ≤ t))

pub Ahead-antisym : (h s t : ℕ) → Ahead h s t → Ahead h t s → s ≡ t
Ahead-antisym h s t a b = ground arith

-- The slot of the list that comes first.
abbrev pub IsOwner : ℕ → List ℕ → ℕ → Type 0
IsOwner h nodes s = (has s nodes ≡ true) × ((t : ℕ) → has t nodes ≡ true → Ahead h s t)

abbrev pub Inv : ConsistentHashingRing → Type 0
Inv r = IsSorted r.nodes × Indexed r

Split-IsOwner :
    (nodes : List ℕ) (h k : ℕ)
    → IsSorted nodes
    → nodes ≢ []
    → Split nodes h k
    → (s : ℕ) × (get_elem? nodes (if k == length nodes then 0 else k) ≡ some s) × IsOwner h nodes s
Split-IsOwner [] h k sorted some_slot split = absurd (some_slot refl)
Split-IsOwner (x ∷ xs) h k sorted some_slot (range, below, above) =
    elim (Bool-cases (k == length (x ∷ xs))) [
      | inl end ↦ rw end (
        x,
        refl,
        (
          ground arith,
          λ t there.
              let (l, e) = has-place t (x ∷ xs) there in
              let bound = elem_bound (x ∷ xs) l t e in
              let low = below l t (ground arith) e in
              let x_low = below 0 x (ground arith) refl in
              let least = sorted_le (x ∷ xs) 0 l x t sorted (omega arith) refl e in
              inr (x_low, low, least),
        ),
      )
      | inr inside ↦
          let (s, es) = elem_in_range (x ∷ xs) k (ground arith) in
          rw inside (
            s,
            es,
            (
              place-has s (x ∷ xs) k es,
              λ t there.
                  let (l, e) = has-place t (x ∷ xs) there in
                  let high = above k s (omega arith) es in
                  elim (Bool-cases (ltb l k)) [
                    | inl before ↦ let low = below l t (ground arith) e in inl (high, inr low)
                    | inr behind ↦
                        let up = sorted_le (x ∷ xs) k l s t sorted (ground arith) es e in
                        inl (high, inl up)
                  ],
            ),
          )
    ]

length_pos : (nodes : List ℕ) → nodes ≢ [] → (length nodes == 0) ≡ false
length_pos [] h = absurd (h refl)
length_pos (x ∷ xs) h = ground arith

-- In a ring that is not empty, getNode answers with the node of the slot that comes first.
pub get_node-IsOwner :
    (hash : Bytes → ℕ) (key : Bytes) (r : ConsistentHashingRing)
    → Inv r
    → r.nodes ≢ []
    → (s : ℕ) × (n : StorageNode) × IsOwner (hash key) r.nodes s
      × (lookup s r.node_map ≡ some n)
      × (get_node hash key r ≡ found n)
get_node-IsOwner hash key r (sorted, indexed) some_slot =
    let (k, e, split) = search-Split r.nodes (hash key) sorted in
    let (s, at, owner) = Split-IsOwner r.nodes (hash key) k sorted some_slot split in
    elim (Option-cases (lookup s r.node_map)) [
      | inl missing ↦ absurd (false≢true (ap has_node (sym missing) ∙ sym (indexed s) ∙ owner.0))
      | inr (n, owned) ↦ (
        s,
        n,
        owner,
        owned,
        get_node_at hash key r k s n (length_pos r.nodes some_slot) e at owned,
      )
    ]
