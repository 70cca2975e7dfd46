-- ===== src/LoadBalancer/LeastConnections.antt =====
-- load-balancer/least_connections.go
use design_pocs.Common.{
  ℕ, suc, ◌+◌, ◌≡◌, ◌≢◌, ◌⊎◌, inl, inr, refl, ap, ◌∙◌, true, false, Bool-cases, some, List, [], ◌∷◌,
  arith, length, get_elem?, All, ◌==◌, if◌then◌else◌,
}
use design_pocs.Common.Int.{ℤ, pos, ◌≤ℤ◌, ltb_ℤ}
use design_pocs.LoadBalancer.Servers.{
  Server, get_active_connections, Next, chosen, nil_server, failed,
}

abbrev pub max_int32 : ℤ
max_int32 = pos 2147483647

-- The loop over the servers: `i` is the place of the first that is left.
unfoldable pub least_loop : List Server → ℕ → ℤ → Next → Next
least_loop [] i min result = result
least_loop (s ∷ rest) i min result =
    let active = get_active_connections s in
    let smaller = ltb_ℤ active min in
    least_loop rest (i + 1) (if smaller then active else min) (if smaller then chosen i else result)

unfoldable pub least_connections_next : List Server → Next
least_connections_next servers =
    if length servers == 0 then failed else least_loop servers 0 max_int32 nil_server

-- The answer names a server of the list with no more connections than `bound` and than any other.
abbrev pub IsLeast : List Server → ℕ → Type 0
IsLeast servers i =
    (s : Server) × (get_elem? servers i ≡ some s)
    × All (λ t. get_active_connections s ≤ℤ get_active_connections t) servers

-- What the loop has found so far among the servers from place `i` on.
abbrev Found : List Server → ℕ → ℤ → Next → Next → Type 0
Found servers i min result answer =
    ((answer ≡ result) × All (λ t. min ≤ℤ get_active_connections t) servers)
    ⊎ ((j : ℕ) × (answer ≡ chosen (i + j))
        × (s : Server) × (get_elem? servers j ≡ some s)
        × (ltb_ℤ (get_active_connections s) min ≡ true)
        × All (λ t. get_active_connections s ≤ℤ get_active_connections t) servers)

lt→le_ℤ : (a b : ℤ) → ltb_ℤ a b ≡ true → a ≤ℤ b
lt→le_ℤ a b h = ground arith

not_lt→le_ℤ : (a b : ℤ) → ltb_ℤ a b ≡ false → b ≤ℤ a
not_lt→le_ℤ a b h = ground arith

lt_trans_ℤ : (a b c : ℤ) → ltb_ℤ a b ≡ true → ltb_ℤ b c ≡ true → ltb_ℤ a c ≡ true
lt_trans_ℤ a b c h k = ground arith

between_ℤ : (a b c : ℤ) → ltb_ℤ a c ≡ true → ltb_ℤ b c ≡ false → a ≤ℤ b
between_ℤ a b c h k = ground arith

le_refl_ℤ : (a : ℤ) → a ≤ℤ a
le_refl_ℤ a = omega arith

place_suc : (i j : ℕ) → i + 1 + j ≡ i + suc j
place_suc i j = omega arith

least_loop-Found :
    (servers : List Server) (i : ℕ) (min : ℤ) (result : Next)
    → Found servers i min result (least_loop servers i min result)
unfolding least_loop
least_loop-Found [] i min result = inl (refl, tt)
least_loop-Found (s ∷ rest) i min result =
    let a = get_active_connections s in
    elim (Bool-cases (ltb_ℤ a min)) [
      | inl smaller ↦
          rw (smaller, least_loop)
            (elim (least_loop-Found rest (i + 1) a (chosen i)) [
              | inl (e, least) ↦
                  inr (0, rw e (ap chosen (omega arith)), s, refl, smaller, (le_refl_ℤ a, least))
              | inr (j, e, t, found, lt, least) ↦ inr (
                suc j,
                rw e (ap chosen (place_suc i j)),
                t,
                found,
                lt_trans_ℤ (get_active_connections t) a min lt smaller,
                (lt→le_ℤ (get_active_connections t) a lt, least),
              )
            ])
      | inr not_smaller ↦
          rw (not_smaller, least_loop)
            (elim (least_loop-Found rest (i + 1) min result) [
              | inl (e, least) ↦ inl (e, (not_lt→le_ℤ a min not_smaller, least))
              | inr (j, e, t, found, lt, least) ↦ inr (
                suc j,
                rw e (ap chosen (place_suc i j)),
                t,
                found,
                lt,
                (between_ℤ (get_active_connections t) a min lt not_smaller, least),
              )
            ])
    ]

-- On a list that is not empty, getNext names a server with the fewest connections; or every server
-- counts 2147483647 of them, and it returns a nil server with no error.
pub least_connections_next_lem :
    (servers : List Server)
    → servers ≢ []
    → ((i : ℕ) × (least_connections_next servers ≡ chosen i) × IsLeast servers i)
      ⊎ ((least_connections_next servers ≡ nil_server)
          × All (λ t. max_int32 ≤ℤ get_active_connections t) servers)
unfolding least_connections_next
least_connections_next_lem [] h = absurd (h refl)
least_connections_next_lem (s ∷ rest) h =
    let some_server : (length (s ∷ rest) == 0) ≡ false = ground arith in
    rw (some_server, least_connections_next)
      (elim (least_loop-Found (s ∷ rest) 0 max_int32 nil_server) [
        | inl (e, full) ↦ inr (e, full)
        | inr (j, e, t, found, lt, least) ↦
            let plain : 0 + j ≡ j = omega arith in inl (j, e ∙ ap chosen plain, (t, found, least))
      ])
