-- ===== src/ConsistentHashing/Tests.antt =====
-- Rings of two nodes, and each theorem at an input.
use design_pocs.Common.{
  ℕ, ◌+◌, ◌≡◌, ◌≢◌, ◌∙◌, ◌⊎◌, refl, true, false, Option, some, List, [], ◌∷◌, arith, Bytes, codes,
  lookup, insert, length, ltb,
}
use design_pocs.ConsistentHashing.Hash.{compute_hash}
use design_pocs.ConsistentHashing.Search.{search, search_loop, at_or_after}
use design_pocs.Common.Sort.{sort, insert_sorted}
use design_pocs.ConsistentHashing.Ring.{
  slot_key, virtual_nodes, StorageNode, ConsistentHashingRing, new_ring, found, slots, slots_of,
  add_slots, add_node, remaining, delete_node, get_node,
}
use design_pocs.ConsistentHashing.Slots.{has}
use design_pocs.ConsistentHashing.Clockwise.{IsOwner, Inv, get_node-IsOwner}
use design_pocs.ConsistentHashing.Changes.{add_node-Inv, lookup-add_node, length-add_node}
use design_pocs.ConsistentHashing.Moves.{add_node_moves, delete_node_keeps, delete_node-add_node}

abbrev node_a : StorageNode
node_a = record { name = codes "A"; host = codes "127.0.0.1" }

abbrev node_b : StorageNode
node_b = record { name = codes "B"; host = codes "192.168.1.2" }

new_ring-Inv : Inv new_ring
unfolding lookup
new_ring-Inv = (tt, λ t. refl)

abbrev ring_a : ConsistentHashingRing
ring_a = add_node compute_hash node_a new_ring

ring_a-Inv : Inv ring_a
ring_a-Inv = add_node-Inv compute_hash node_a new_ring new_ring-Inv

filled : (xs : List ℕ) → length xs ≡ 0 + virtual_nodes → xs ≢ []
filled [] h = ground arith
filled (x ∷ xs) h = ground arith

get_node-IsOwner_example :
    (s : ℕ) × (n : StorageNode) × IsOwner (compute_hash (codes "user:1")) ring_a.nodes s
    × (lookup s ring_a.node_map ≡ some n)
    × (get_node compute_hash (codes "user:1") ring_a ≡ found n)
get_node-IsOwner_example =
    get_node-IsOwner compute_hash (codes "user:1") ring_a ring_a-Inv
      (filled ring_a.nodes (length-add_node compute_hash node_a new_ring))

add_node_moves_example :
    (get_node compute_hash (codes "user:1") (add_node compute_hash node_b ring_a)
      ≡ get_node compute_hash (codes "user:1") ring_a)
    ⊎ (get_node compute_hash (codes "user:1") (add_node compute_hash node_b ring_a) ≡ found node_b)
add_node_moves_example = add_node_moves compute_hash (codes "user:1") node_b ring_a ring_a-Inv

delete_node-add_node_example :
    (r' : ConsistentHashingRing) × (delete_node compute_hash node_a
        (add_node compute_hash node_a new_ring)
      ≡ some r')
    × ((key : Bytes) → get_node compute_hash key r' ≡ get_node compute_hash key new_ring)
delete_node-add_node_example =
    delete_node-add_node compute_hash node_a new_ring new_ring-Inv (λ t own. unfold lookup in refl)

abbrev ring_ba : ConsistentHashingRing
ring_ba = add_node compute_hash node_a (add_node compute_hash node_b new_ring)

before_deletion : get_node compute_hash (codes "user:1028") ring_ba ≡ found node_b
unfolding get_node search search_loop at_or_after compute_hash add_node add_slots slots sort
    insert_sorted lookup insert
before_deletion = refl

-- The slots of the node that was added last are its own.
last_added :
    (t : ℕ) (n : StorageNode)
    → has t (slots_of compute_hash node_a) ≡ true
    → lookup t ring_ba.node_map ≡ some n
    → n ≡ node_a
last_added t n own owned =
    same (lookup t ring_ba.node_map) owned
      (lookup-add_node compute_hash node_a (add_node compute_hash node_b new_ring) t ∙ rw own)
  where
    same : (o : Option StorageNode) → o ≡ some n → o ≡ some node_a → n ≡ node_a
    same o e f = cc

ring_ba_deleted :
    delete_node compute_hash node_a ring_ba ≡ some (remaining compute_hash node_a ring_ba)
unfolding delete_node
ring_ba_deleted =
    let many : ltb (length ring_ba.nodes) virtual_nodes ≡ false =
      ground (arith, length-add_node compute_hash node_a (add_node compute_hash node_b new_ring)) in
    rw many

delete_node_keeps_example :
    get_node compute_hash (codes "user:1028") (remaining compute_hash node_a ring_ba) ≡ found node_b
delete_node_keeps_example =
    delete_node_keeps compute_hash (codes "user:1028") node_a node_b ring_ba
      (remaining compute_hash node_a ring_ba)
      (add_node-Inv compute_hash node_a (add_node compute_hash node_b new_ring)
        (add_node-Inv compute_hash node_b new_ring new_ring-Inv))
      last_added ring_ba_deleted before_deletion (ground arith)
