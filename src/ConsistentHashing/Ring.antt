-- ===== src/ConsistentHashing/Ring.antt =====
-- consistent_hashing/main.go: the ring. A node stands for the pointer to it, so two nodes with the
-- same name and host are one. The lock is held by each method as a whole.
use design_pocs.Common.{
  ℕ, zero, suc, ◌+◌, ◌/◌, ◌%◌, ◌≡◌, ◌↔◌, ap, ◌∙◌, true, false, Option, none, some, List, [], ◌∷◌,
  ◌++◌, arith, Bytes, Eq, lookup, insert, remove, length, get_elem?, ltb, ◌==◌, if◌then◌else◌,
}
use design_pocs.Common.Sort.{sort}
use design_pocs.ConsistentHashing.Search.{search}

abbrev pub virtual_nodes : ℕ
virtual_nodes = 100

pub slot_eq_iff : (a b : ℕ) → ((a == b) ≡ true) ↔ (a ≡ b)
slot_eq_iff a b = ground arith

instance abbrev pub slot_key : Eq ℕ
slot_key = record { beq = λ a b. a == b; beq_iff = slot_eq_iff }

pub record StorageNode : Type 0 where
  pub name : Bytes
  pub host : Bytes

pub record ConsistentHashingRing : Type 0 where
  pub nodes : List ℕ
  pub node_map : List (ℕ × StorageNode)

abbrev pub new_ring : ConsistentHashingRing
new_ring = record { nodes = []; node_map = [] }

-- What getNode returns: nil, a node, or a panic on an index out of range.
pub data Answer : Type 0 where
  nil panics : Answer
  found : StorageNode → Answer

-- The verb %d on a number below 100.
abbrev decimal : ℕ → Bytes
decimal i = if ltb i 10 then (48 + i) ∷ [] else (48 + i / 10) ∷ (48 + i % 10) ∷ []

-- fmt.Sprintf("%s#%d", host, i)
abbrev pub virtual_node_key : Bytes → ℕ → Bytes
virtual_node_key host i = host ++ (35 ∷ decimal i)

-- The loop of addNode over the slots of the node.
unfoldable pub add_slots : List ℕ → StorageNode → ConsistentHashingRing → ConsistentHashingRing
add_slots [] node r = r
add_slots (slot ∷ rest) node r =
    add_slots rest node
      (record { nodes = r.nodes ++ (slot ∷ []); node_map = insert slot node r.node_map })

-- The loop of deleteNode over the slots of the node.
unfoldable pub remove_slots : List ℕ → List (ℕ × StorageNode) → List (ℕ × StorageNode)
remove_slots [] m = m
remove_slots (slot ∷ rest) m = remove_slots rest (remove slot m)

-- The slots that are still in the map.
unfoldable pub kept_slots : List (ℕ × StorageNode) → List ℕ → List ℕ
kept_slots m [] = []
kept_slots m (slot ∷ rest) = elim (lookup slot m) [
  | none ↦ kept_slots m rest
  | some node ↦ slot ∷ kept_slots m rest
]

abbrev answer_of : Option StorageNode → Answer
answer_of none = nil
answer_of (some node) = found node

node_at : ConsistentHashingRing → Option ℕ → Answer
node_at r none = panics
node_at r (some slot) = answer_of (lookup slot r.node_map)

-- The end of getNode, from what the search returns.
node_from : ConsistentHashingRing → Option ℕ → Answer
unfolding node_at
node_from r none = panics
node_from r (some idx) = node_at r (get_elem? r.nodes (if idx == length r.nodes then 0 else idx))

-- Any function in the place of computeHash.
module _ (hash : Bytes → ℕ) where
  -- The slots of a host from its virtual node `i` on, `k` of them.
  unfoldable pub slots : ℕ → ℕ → Bytes → List ℕ
  slots i zero host = []
  slots i (suc k) host = hash (virtual_node_key host i) ∷ slots (i + 1) k host

  abbrev pub slots_of : StorageNode → List ℕ
  slots_of node = slots 0 virtual_nodes node.host

  unfoldable pub add_node : StorageNode → ConsistentHashingRing → ConsistentHashingRing
  add_node node r =
      let r' = add_slots (slots_of node) node r in record r' { nodes = sort ltb r'.nodes }

  -- The ring that deleteNode leaves.
  unfoldable pub remaining : StorageNode → ConsistentHashingRing → ConsistentHashingRing
  remaining node r =
      let m = remove_slots (slots_of node) r.node_map in
      record { nodes = kept_slots m r.nodes; node_map = m }

  -- `none` is the panic of make on a capacity below zero.
  unfoldable pub delete_node : StorageNode → ConsistentHashingRing → Option ConsistentHashingRing
  unfolding remaining
  delete_node node r = if ltb (length r.nodes) virtual_nodes then none else some (remaining node r)

  unfoldable pub get_node : Bytes → ConsistentHashingRing → Answer
  unfolding node_from
  get_node key r = if length r.nodes == 0 then nil else node_from r (search r.nodes (hash key))

  pub get_node_at :
      (key : Bytes) (r : ConsistentHashingRing) (k s : ℕ) (n : StorageNode)
      → (length r.nodes == 0) ≡ false
      → search r.nodes (hash key) ≡ some k
      → get_elem? r.nodes (if k == length r.nodes then 0 else k) ≡ some s
      → lookup s r.node_map ≡ some n
      → get_node key r ≡ found n
  unfolding get_node node_from node_at
  get_node_at key r k s n filled e at owned =
      rw (filled, get_node) (ap (node_from r) e ∙ ap (node_at r) at ∙ ap answer_of owned)
