-- ===== src/ConsistentHashing/Moves.antt =====
-- consistent_hashing/main.go: what addNode and deleteNode do to the answers of getNode.
use design_pocs.Common.{
  ℕ, ◌≡◌, ◌≢◌, ◌⊎◌, inl, inr, refl, ap, sym, ◌∙◌, true, false, Bool-cases, Option, Option-cases,
  none, some, List, [], ◌∷◌, arith, Bytes, lookup, length, ltb,
}
use mathlib.Core.Bool.{false≢true}
use design_pocs.ConsistentHashing.Ring.{
  slot_key, virtual_nodes, StorageNode, ConsistentHashingRing, nil, found, slots_of, add_node,
  remaining, delete_node, get_node,
}
use design_pocs.ConsistentHashing.Slots.{has, has_node, Indexed}
use design_pocs.ConsistentHashing.Clockwise.{Ahead-antisym, IsOwner, Inv, get_node-IsOwner}
use design_pocs.ConsistentHashing.Changes.{
  add_node-Inv, lookup-add_node, remaining-Inv, lookup-remaining, delete_node-remaining,
  length-add_node,
}

none_left : (xs : List ℕ) → ((t : ℕ) → has t xs ≡ false) → xs ≡ []
none_left [] h = refl
none_left (x ∷ xs) h = let no = h x in ground arith

empty_or_not : (xs : List ℕ) → (xs ≡ []) ⊎ (xs ≢ [])
empty_or_not [] = inl refl
empty_or_not (x ∷ xs) = inr (ground arith)

nonempty : (t : ℕ) (xs : List ℕ) → has t xs ≡ true → xs ≢ []
nonempty t [] h = cc
nonempty t (x ∷ xs) h = ground arith

has-owned :
    (r : ConsistentHashingRing) (t : ℕ) (n : StorageNode)
    → Indexed r
    → lookup t r.node_map ≡ some n
    → has t r.nodes ≡ true
has-owned r t n indexed e = indexed t ∙ ap has_node e

owned-has :
    (r : ConsistentHashingRing) (t : ℕ)
    → Indexed r
    → has t r.nodes ≡ true
    → (n : StorageNode) × (lookup t r.node_map ≡ some n)
owned-has r t indexed h = elim (Option-cases (lookup t r.node_map)) [
  | inl missing ↦ absurd (false≢true (ap has_node (sym missing) ∙ sym (indexed t) ∙ h))
  | inr owned ↦ owned
]

same_node : (o : Option StorageNode) (m n : StorageNode) → o ≡ some m → o ≡ some n → m ≡ n
same_node o m n e f = cc

found_nil : (n : StorageNode) → found n ≢ nil
found_nil n = ground arith

found_inj : (m n : StorageNode) → found m ≡ found n → m ≡ n
found_inj m n e = cc

module _ (hash : Bytes → ℕ) where
  get_node-empty :
      (key : Bytes) (r : ConsistentHashingRing) → r.nodes ≡ [] → get_node hash key r ≡ nil
  unfolding get_node
  get_node-empty key r e = rw (e, get_node)

  get_node_of_owner :
      (key : Bytes) (r : ConsistentHashingRing) (s : ℕ) (n : StorageNode)
      → Inv r
      → IsOwner (hash key) r.nodes s
      → lookup s r.node_map ≡ some n
      → get_node hash key r ≡ found n
  get_node_of_owner key r s n inv (here, first) owned =
      let (s', n', (here', first'), owned', answer) =
        get_node-IsOwner hash key r inv (nonempty s r.nodes here) in
      let same : s' ≡ s = Ahead-antisym (hash key) s' s (first' s here) (first s' here') in
      let node : n' ≡ n =
        same_node (lookup s r.node_map) n' n (ap (λ t. lookup t r.node_map) (sym same) ∙ owned')
          owned in
      answer ∙ ap found node

  -- Where the owner in the larger of two rings is a slot of the smaller one, of the same node, both
  -- rings give the same answer.
  get_node_within :
      (key : Bytes) (r q : ConsistentHashingRing) (s : ℕ) (n : StorageNode)
      → Inv r
      → ((t : ℕ) → has t r.nodes ≡ true → has t q.nodes ≡ true)
      → IsOwner (hash key) q.nodes s
      → lookup s r.node_map ≡ some n
      → get_node hash key r ≡ found n
  get_node_within key r q s n inv within (here, first) owned =
      get_node_of_owner key r s n inv
        (has-owned r s n inv.1 owned, λ t there. first t (within t there)) owned

  -- After addNode every key is with the node that it was with, or with the new one.
  pub add_node_moves :
      (key : Bytes) (node : StorageNode) (r : ConsistentHashingRing)
      → Inv r
      → (get_node hash key (add_node hash node r) ≡ get_node hash key r)
        ⊎ (get_node hash key (add_node hash node r) ≡ found node)
  add_node_moves key node r inv =
      let q = add_node hash node r in
      let inv' = add_node-Inv hash node r inv in
      let within : (t : ℕ) → has t r.nodes ≡ true → has t q.nodes ≡ true = λ t there.
        let (m, e) = owned-has r t inv.1 there in
        ground (arith, inv'.1 t, lookup-add_node hash node r t, e) in
      elim (empty_or_not q.nodes) [
        | inl empty ↦
            let before : r.nodes ≡ [] = none_left r.nodes (λ t. elim (Bool-cases (has t r.nodes)) [
              | inl there ↦ absurd (nonempty t q.nodes (within t there) empty)
              | inr none_there ↦ none_there
            ]) in
            inl (get_node-empty key q empty ∙ sym (get_node-empty key r before))
        | inr some_slot ↦
            let (s, n, owner, owned, answer) = get_node-IsOwner hash key q inv' some_slot in
            elim (Bool-cases (has s (slots_of hash node))) [
              | inl new ↦ inr (
                  answer
                  ∙ ap found (
                      same_node (lookup s q.node_map) n node owned
                        (lookup-add_node hash node r s ∙ rw new)))
              | inr old ↦
                  let owned_before : lookup s r.node_map ≡ some n =
                    sym (lookup-add_node hash node r s ∙ rw old) ∙ owned in
                  inl (answer ∙ sym (get_node_within key r q s n inv within owner owned_before))
            ]
      ]

  -- A ring with the same slots and the same nodes at them gives the same answers.
  get_node_same :
      (key : Bytes) (r q : ConsistentHashingRing)
      → Inv r
      → Inv q
      → ((t : ℕ) → lookup t r.node_map ≡ lookup t q.node_map)
      → get_node hash key r ≡ get_node hash key q
  get_node_same key r q inv inv' same =
      let alike : (t : ℕ) → has t r.nodes ≡ has t q.nodes =
        λ t. inv.1 t ∙ ap has_node (same t) ∙ sym (inv'.1 t) in
      elim (empty_or_not q.nodes) [
        | inl empty ↦
            let before : r.nodes ≡ [] = none_left r.nodes (λ t. alike t ∙ rw empty) in
            get_node-empty key r before ∙ sym (get_node-empty key q empty)
        | inr some_slot ↦
            let (s, n, owner, owned, answer) = get_node-IsOwner hash key q inv' some_slot in
            get_node_within key r q s n inv (λ t there. sym (alike t) ∙ there) owner
              (same s ∙ owned)
            ∙ sym answer
      ]

  -- deleteNode leaves every key where it was that was with another node, if no slot of the deleted
  -- node's host is held by another node.
  pub delete_node_keeps :
      (key : Bytes) (node other : StorageNode) (r r' : ConsistentHashingRing)
      → Inv r
      → ((t : ℕ) (n : StorageNode)
          → has t (slots_of hash node) ≡ true
          → lookup t r.node_map ≡ some n
          → n ≡ node)
      → delete_node hash node r ≡ some r'
      → get_node hash key r ≡ found other
      → other ≢ node
      → get_node hash key r' ≡ found other
  delete_node_keeps key node other r r' inv alone deleted before differs =
      let q = remaining hash node r in
      let inv' = remaining-Inv hash node r inv in
      let within : (t : ℕ) → has t q.nodes ≡ true → has t r.nodes ≡ true =
        λ t there. ground (arith, inv.1 t, inv'.1 t, lookup-remaining hash node r t, there) in
      let kept : get_node hash key q ≡ found other = elim (empty_or_not r.nodes) [
        | inl empty ↦ absurd (found_nil other (sym before ∙ get_node-empty key r empty))
        | inr some_slot ↦
            let (s, n, owner, owned, answer) = get_node-IsOwner hash key r inv some_slot in
            let node_of_s : n ≡ other = found_inj n other (sym answer ∙ before) in
            elim (Bool-cases (has s (slots_of hash node))) [
              | inl own ↦ absurd (differs (sym node_of_s ∙ alone s n own owned))
              | inr not_own ↦
                  get_node_within key q r s n inv' within owner
                    (lookup-remaining hash node r s ∙ rw not_own owned)
                  ∙ ap found node_of_s
            ]
      ] in
      ap (λ x. get_node hash key x) (sym (delete_node-remaining hash node r r' deleted)) ∙ kept

  -- Deleting a node that was just added, none of whose slots was taken, does not panic, and every key
  -- is back with the node that it was with.
  pub delete_node-add_node :
      (node : StorageNode) (r : ConsistentHashingRing)
      → Inv r
      → ((t : ℕ) → has t (slots_of hash node) ≡ true → lookup t r.node_map ≡ none)
      → (r' : ConsistentHashingRing) × (delete_node hash node (add_node hash node r) ≡ some r')
        × ((key : Bytes) → get_node hash key r' ≡ get_node hash key r)
  delete_node-add_node node r inv fresh =
      let q = add_node hash node r in
      let many : ltb (length q.nodes) virtual_nodes ≡ false =
        ground (arith, length-add_node hash node r) in
      let same : (t : ℕ) → lookup t (remaining hash node q).node_map ≡ lookup t r.node_map = λ t.
        elim (Bool-cases (has t (slots_of hash node))) [
          | inl own ↦ lookup-remaining hash node q t ∙ rw own (sym (fresh t own))
          | inr not_own ↦
              lookup-remaining hash node q t
              ∙ rw not_own (lookup-add_node hash node r t ∙ rw not_own)
        ] in
      (
        remaining hash node q,
        unfold delete_node in rw many,
        λ key.
            get_node_same key (remaining hash node q) r
              (remaining-Inv hash node q (add_node-Inv hash node r inv)) inv same,
      )
