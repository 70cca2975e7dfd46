-- ===== src/LoadBalancer/Tests.antt =====
-- Runs of the algorithms, and each theorem at an input.
use design_pocs.Common.{
  ℕ, ◌+◌, ◌%◌, ◌^◌, ◌≡◌, ◌≢◌, ◌⊎◌, refl, arith, true, some, List, [], ◌∷◌, All, length, get_elem?,
  codes,
}
use design_pocs.Common.Int.{pos, ◌+ℤ◌, ◌≤ℤ◌}
use design_pocs.LoadBalancer.Servers.{
  Server, new_backend_server, get_active_connections, chosen, nil_server, failed,
}
use design_pocs.LoadBalancer.RoundRobin.{round_robin_calls, places, round_robin_cycle}
use design_pocs.LoadBalancer.LeastConnections.{
  least_connections_next, IsLeast, max_int32, least_connections_next_lem,
}
use design_pocs.LoadBalancer.Forward.{
  answer, forward_request, forward_request_balanced, unanswered, unanswered_leak,
}
use design_pocs.LoadBalancer.Classic.{
  Weighted, ClassicWeightedRoundRobin, classic_next, find_server, classic_blocks,
}
use design_pocs.LoadBalancer.Smooth.{Entry, smooth_next, current_total, smooth_total}

abbrev first : Server
first = new_backend_server (codes "A") (codes "http://a") 81 82

abbrev second : Server
second = record (new_backend_server (codes "B") (codes "http://b") 83 84) {
  active_connections_count = 2;
}

abbrev two : List Server
two = first ∷ second ∷ []

two_some : two ≢ []
two_some = ground arith

round_robin_cycle_example : round_robin_calls (length two) two 0 ≡ (places 0 (length two), 0)
round_robin_cycle_example = round_robin_cycle two two_some

least_connections_next_lem_example :
    ((i : ℕ) × (least_connections_next two ≡ chosen i) × IsLeast two i)
    ⊎ ((least_connections_next two ≡ nil_server)
        × All (λ t. max_int32 ≤ℤ get_active_connections t) two)
least_connections_next_lem_example = least_connections_next_lem two two_some

forward_request_balanced_example : (forward_request (answer 200 true) 1 two).0 ≡ two
forward_request_balanced_example =
    forward_request_balanced (answer 200 true) 1 two (omega arith, (omega arith, tt)) (ground arith)

unanswered_leak_example :
    get_elem? (unanswered 3 1 two) 1
    ≡ some (record second { active_connections_count = (2 + 3) % 2 ^ 32 })
unanswered_leak_example = unanswered_leak 3 1 two second (omega arith) refl

abbrev weight_a : Weighted
weight_a = record { key = codes "A"; weight = 30 }

abbrev weight_b : Weighted
weight_b = record { key = codes "B"; weight = 70 }

abbrev rotation : ClassicWeightedRoundRobin
rotation = record { request_count = 41; servers_by_key = weight_a ∷ weight_b ∷ [] }

classic_blocks_example :
    classic_next two rotation
    ≡ (find_server two 0 (codes "B"), record rotation { request_count = 30 + 0 + 11 + 1 })
classic_blocks_example =
    classic_blocks (weight_a ∷ []) [] weight_b 11 two rotation two_some refl (omega arith)
      (omega arith) refl

abbrev entry_a : Entry
entry_a = record { key = codes "A"; fixed_weight = 30; current_weight = pos 0 }

abbrev entry_b : Entry
entry_b = record { key = codes "B"; fixed_weight = 70; current_weight = pos 0 }

smooth_total_example :
    let r = smooth_next two (entry_a ∷ entry_b ∷ []) in
    ((i : ℕ) × (r.0 ≡ chosen i) × (current_total r.1 ≡ current_total (entry_a ∷ entry_b ∷ [])))
    ⊎ ((r.0 ≡ failed) × (current_total r.1 ≡ current_total (entry_a ∷ entry_b ∷ []) +ℤ pos 100))
smooth_total_example = smooth_total two entry_a (entry_b ∷ []) two_some refl (unfold ◌+ℤ◌ in refl)
