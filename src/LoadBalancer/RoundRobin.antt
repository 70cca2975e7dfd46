-- ===== src/LoadBalancer/RoundRobin.antt =====
-- load-balancer/round_robin.go
use design_pocs.Common.{
  ℕ, zero, suc, ◌+◌, ◌%◌, ◌≤◌, ◌<◌, ◌≡◌, ◌≢◌, refl, false, ◌∙◌, List, [], ◌∷◌, arith, length, ◌==◌,
  if◌then◌else◌,
}
use design_pocs.LoadBalancer.Servers.{Server, Next, chosen, failed}

-- One call of getNext on the counter: the answer and the new counter.
unfoldable pub round_robin_next : List Server → ℕ → Next × ℕ
round_robin_next servers counter =
    let n = length servers in
    if n == 0 then (failed, counter) else (chosen (counter % n), (counter + 1) % n)

-- The answers to a number of calls one after the other, and the counter behind them.
unfoldable pub round_robin_calls : ℕ → List Server → ℕ → List Next × ℕ
round_robin_calls zero servers counter = ([], counter)
round_robin_calls (suc k) servers counter =
    let (answer, counter') = round_robin_next servers counter in
    let (answers, counter'') = round_robin_calls k servers counter' in (answer ∷ answers, counter'')

-- The places from `i` on, `k` of them.
abbrev pub places : ℕ → ℕ → List Next
places i zero = []
places i (suc k) = chosen i ∷ places (i + 1) k

next_in_range :
    (i : ℕ) (servers : List Server)
    → i < length servers
    → round_robin_next servers i ≡ (chosen i, (i + 1) % length servers)
unfolding round_robin_next
next_in_range i servers h =
    let some_server : (length servers == 0) ≡ false = ground arith in
    let same : i % length servers ≡ i = grind arith in rw some_server (rw same)

small_mod : (x n : ℕ) → x < n → x % n ≡ x
small_mod x n h = grind arith

calls-step :
    (k i c : ℕ) (servers : List Server) (answer : Next) {answers : List Next} {c' : ℕ}
    → round_robin_next servers i ≡ (answer, c)
    → round_robin_calls k servers c ≡ (answers, c')
    → round_robin_calls (suc k) servers i ≡ (answer ∷ answers, c')
unfolding round_robin_calls
calls-step k i c servers answer e f = rw (e, round_robin_calls) (rw f)

calls_within :
    (k i : ℕ) (servers : List Server)
    → i < length servers
    → i + k ≤ length servers
    → round_robin_calls k servers i ≡ (places i k, (i + k) % length servers)
calls_within zero i servers h room =
    let same = small_mod (i + 0) (length servers) (omega arith) in
    let plain : i + 0 ≡ i = omega arith in unfold round_robin_calls in rw same (rw plain)
calls_within (suc zero) i servers h room =
    calls-step 0 i _ servers (chosen i) (next_in_range i servers h)
      (unfold round_robin_calls in refl)
calls_within (suc (suc k)) i servers h room =
    let same : (i + 1) % length servers ≡ i + 1 =
      small_mod (i + 1) (length servers) (omega arith) in
    let regroup : i + 1 + suc k ≡ i + suc (suc k) = omega arith in
    calls-step (suc k) i (i + 1) servers (chosen i) (next_in_range i servers h ∙ rw same)
      (calls_within (suc k) (i + 1) servers (omega arith) (omega arith) ∙ rw regroup)

-- From a counter of zero as many calls as there are servers give each server once, in the order of
-- the list, and the counter is zero again.
pub round_robin_cycle :
    (servers : List Server)
    → servers ≢ []
    → round_robin_calls (length servers) servers 0 ≡ (places 0 (length servers), 0)
round_robin_cycle [] h = absurd (h refl)
round_robin_cycle (s ∷ rest) h =
    let n = length (s ∷ rest) in
    let wraps : (0 + n) % n ≡ 0 = grind arith in
    calls_within n 0 (s ∷ rest) (omega arith) (omega arith) ∙ rw wraps
