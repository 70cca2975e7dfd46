-- ===== src/LoadBalancer/Classic.antt =====
-- load-balancer/classic_weighted_round_robin.go. The slice `keys` and the map `serverWeights` are one
-- list in the order of the keys. Weights are not negative here, an int in the source.
use design_pocs.Common.{
  ℕ, ◌+◌, ◌%◌, ◌≤◌, ◌<◌, ◌≡◌, ◌≢◌, refl, ◌∙◌, ap, true, false, Option, none, some, List, [], ◌∷◌,
  ◌++◌, arith, Bytes, bytes_eq, length, leb, ◌==◌, if◌then◌else◌,
}
use design_pocs.Common.Sort.{sort, bytes_lt}
use design_pocs.LoadBalancer.Servers.{Server, Next, chosen, failed}

pub record Weighted : Type 0 where
  pub key : Bytes
  pub weight : ℕ

abbrev pub weight_sum : List Weighted → ℕ
weight_sum [] = 0
weight_sum (w ∷ ws) = w.weight + weight_sum ws

pub record ClassicWeightedRoundRobin : Type 0 where
  pub request_count : ℕ
  pub servers_by_key : List Weighted

-- NewClassicWeightedRoundRobin; `none` is its error.
unfoldable pub new_classic : List Weighted → Option ClassicWeightedRoundRobin
new_classic weights =
    if length weights == 0
    then none
    else if weight_sum weights == 100
    then some
        (record { request_count = 0; servers_by_key = sort (λ a b. bytes_lt a.key b.key) weights })
    else none

-- The loop over the keys; the id stays "" when the loop ends.
unfoldable pub pick : List Weighted → ℕ → ℕ → Bytes
pick [] sum count = []
pick (w ∷ ws) sum count =
    let rest = pick ws (sum + w.weight) count in if leb count (sum + w.weight) then w.key else rest

-- The loop over lb.Config.Servers; `i` is the place of the first that is left.
unfoldable pub find_server : List Server → ℕ → Bytes → Next
find_server [] i id = failed
find_server (s ∷ rest) i id =
    let later = find_server rest (i + 1) id in if bytes_eq s.id id then chosen i else later

unfoldable pub classic_next :
    List Server → ClassicWeightedRoundRobin → Next × ClassicWeightedRoundRobin
classic_next servers w =
    let count = w.request_count % 100 + 1 in
    if length servers == 0
    then (failed, w)
    else (find_server servers 0 (pick w.servers_by_key 0 count), record w { request_count = count })

pick_past :
    (before after : List Weighted) (sum count : ℕ)
    → sum + weight_sum before < count
    → pick (before ++ after) sum count ≡ pick after (sum + weight_sum before) count
unfolding pick
pick_past [] after sum count h = let plain : sum + 0 ≡ sum = omega arith in rw plain
pick_past (w ∷ ws) after sum count h =
    let past : leb count (sum + w.weight) ≡ false = ground arith in
    let regroup : sum + w.weight + weight_sum ws ≡ sum + (w.weight + weight_sum ws) = omega arith in
    rw past (pick_past ws after (sum + w.weight) count (omega arith) ∙ rw regroup)

pick_here :
    (w : Weighted) (ws : List Weighted) (sum count : ℕ)
    → count ≤ sum + w.weight
    → pick (w ∷ ws) sum count ≡ w.key
unfolding pick
pick_here w ws sum count h = let here : leb count (sum + w.weight) ≡ true = ground arith in rw here

-- The requests of a cycle go to the servers in blocks, in the order of the keys, each block as long as
-- the weight of its server: the server of `w` gets the requests that are counted from one behind the
-- weights before it on.
pub classic_blocks :
    (before after : List Weighted) (w : Weighted) (n : ℕ) (servers : List Server)
    (rr : ClassicWeightedRoundRobin)
    → servers ≢ []
    → rr.servers_by_key ≡ before ++ (w ∷ after)
    → n < w.weight
    → weight_sum before + w.weight ≤ 100
    → rr.request_count % 100 ≡ weight_sum before + n
    → classic_next servers rr
      ≡ (find_server servers 0 w.key, record rr { request_count = weight_sum before + n + 1 })
unfolding classic_next
classic_blocks before after w n [] rr some_server keys h fits count = absurd (some_server refl)
classic_blocks before after w n (s ∷ rest) rr some_server keys h fits count =
    let c = weight_sum before + n + 1 in
    let listed : (length (s ∷ rest) == 0) ≡ false = ground arith in
    let picked : pick rr.servers_by_key 0 c ≡ w.key =
      ap (λ ws. pick ws 0 c) keys
      ∙ pick_past before (w ∷ after) 0 c (omega arith)
      ∙ pick_here w after (0 + weight_sum before) c (omega arith) in
    rw (listed, count) (rw picked)
