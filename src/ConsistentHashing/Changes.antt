-- ===== src/ConsistentHashing/Changes.antt =====
-- consistent_hashing/main.go: what addNode and deleteNode do to the slots and the map.
use design_pocs.Common.{
  ℕ, zero, suc, ◌+◌, ◌≡◌, refl, ap, ◌∙◌, Bool, true, false, none, some, List, [], ◌∷◌, arith, Bytes,
  lookup, length, length-append, ltb, if◌then◌else◌,
}
use design_pocs.Common.Sort.{sort, insert_sorted}
use design_pocs.ConsistentHashing.Ring.{
  slot_key, virtual_nodes, StorageNode, ConsistentHashingRing, slots, slots_of, add_slots,
  remove_slots, add_node, remaining, delete_node,
}
use design_pocs.ConsistentHashing.Slots.{
  has, has-sort, sort-IsSorted, add_slots-Indexed, lookup-add_slots, lookup-remove_slots,
  has-kept_slots, kept_slots-IsSorted,
}
use design_pocs.ConsistentHashing.Clockwise.{Inv}

left_when : (b : Bool) (q r : ConsistentHashingRing) → (if b then none else some q) ≡ some r → q ≡ r
left_when true q r e = cc
left_when false q r e = cc

length-insert_sorted : (x : ℕ) (xs : List ℕ) → length (insert_sorted ltb x xs) ≡ suc (length xs)
unfolding insert_sorted
length-insert_sorted x [] = refl
length-insert_sorted x (y ∷ ys) = ground (arith, length-insert_sorted x ys)

length-sort : (xs : List ℕ) → length (sort ltb xs) ≡ length xs
unfolding sort
length-sort [] = refl
length-sort (x ∷ xs) = length-insert_sorted x (sort ltb xs) ∙ ap suc (length-sort xs)

length-add_slots :
    (ss : List ℕ) (n : StorageNode) (r : ConsistentHashingRing)
    → length (add_slots ss n r).nodes ≡ length r.nodes + length ss
unfolding add_slots
length-add_slots [] n r = omega arith
length-add_slots (s ∷ ss) n r =
    length-add_slots ss n _ ∙ omega (arith, length-append r.nodes (s ∷ []))

module _ (hash : Bytes → ℕ) where
  -- addNode keeps the slots sorted and the map on exactly them.
  pub add_node-Inv :
      (node : StorageNode) (r : ConsistentHashingRing) → Inv r → Inv (add_node hash node r)
  unfolding add_node
  add_node-Inv node r (sorted, indexed) =
      let r' = add_slots (slots_of hash node) node r in
      (
        sort-IsSorted r'.nodes,
        λ t. has-sort t r'.nodes ∙ add_slots-Indexed (slots_of hash node) node r indexed t,
      )

  pub lookup-add_node :
      (node : StorageNode) (r : ConsistentHashingRing) (t : ℕ)
      → lookup t (add_node hash node r).node_map
        ≡ (if has t (slots_of hash node) then some node else lookup t r.node_map)
  unfolding add_node
  lookup-add_node node r t = lookup-add_slots (slots_of hash node) node r t

  pub remaining-Inv :
      (node : StorageNode) (r : ConsistentHashingRing) → Inv r → Inv (remaining hash node r)
  unfolding remaining
  remaining-Inv node r (sorted, indexed) =
      let ss = slots_of hash node in
      let m = remove_slots ss r.node_map in
      (
        kept_slots-IsSorted m r.nodes sorted,
        λ t.
            ground
              (arith, has-kept_slots m t r.nodes, lookup-remove_slots ss r.node_map t, indexed t),
      )

  pub lookup-remaining :
      (node : StorageNode) (r : ConsistentHashingRing) (t : ℕ)
      → lookup t (remaining hash node r).node_map
        ≡ (if has t (slots_of hash node) then none else lookup t r.node_map)
  unfolding remaining
  lookup-remaining node r t = lookup-remove_slots (slots_of hash node) r.node_map t

  pub delete_node-remaining :
      (node : StorageNode) (r r' : ConsistentHashingRing)
      → delete_node hash node r ≡ some r'
      → remaining hash node r ≡ r'
  unfolding delete_node
  delete_node-remaining node r r' e = left_when _ _ r' e

  slots-length : (i k : ℕ) (host : Bytes) → length (slots hash i k host) ≡ k
  unfolding slots
  slots-length i zero host = refl
  slots-length i (suc k) host = ap suc (slots-length (i + 1) k host)

  pub length-add_node :
      (node : StorageNode) (r : ConsistentHashingRing)
      → length (add_node hash node r).nodes ≡ length r.nodes + virtual_nodes
  unfolding add_node
  length-add_node node r =
      length-sort (add_slots (slots_of hash node) node r).nodes
      ∙ length-add_slots (slots_of hash node) node r
      ∙ ap (λ k. length r.nodes + k) (slots-length 0 virtual_nodes node.host)
