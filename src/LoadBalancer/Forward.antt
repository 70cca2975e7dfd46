-- ===== src/LoadBalancer/Forward.antt =====
-- load-balancer/main.go: requestHandler and forwardRequest, as far as the connection counts and the
-- status of the reply go. Headers and bodies are passed through and are not modelled.
use design_pocs.Common.{
  ℕ, ◌+◌, ◌-◌, ◌%◌, ◌^◌, ◌<◌, ◌≡◌, ◌≢◌, zero, suc, refl, sym, ap, ◌∙◌, Bool, some, List, [], ◌∷◌,
  arith, All, get_elem?,
}
use design_pocs.LoadBalancer.Servers.{
  Server, increment_connections, decrement_connections, Next, chosen, nil_server, failed, update,
  update-update, get_elem?-update,
}

-- What the HTTP client does with the request to the backend: it cannot be built, it gets no answer,
-- or an answer with a status, whose body is copied or breaks off.
pub data Backend : Type 0 where
  no_request no_answer : Backend
  answer : (status : ℕ) → Bool → Backend

-- The handler replies with a status, or panics on a nil server.
pub data Reply : Type 0 where
  status : ℕ → Reply
  panics : Reply

unfoldable pub forward_request : Backend → ℕ → List Server → List Server × Reply
forward_request no_request i servers = (servers, status 500)
forward_request no_answer i servers = (update i increment_connections servers, status 502)
forward_request (answer code copied) i servers =
    (update i decrement_connections (update i increment_connections servers), status code)

-- `next` is the answer of the algorithm's getNext.
unfoldable pub request_handler : Next → Backend → List Server → List Server × Reply
unfolding forward_request
request_handler failed backend servers = (servers, status 500)
request_handler nil_server backend servers = (servers, panics)
request_handler (chosen i) backend servers = forward_request backend i servers

-- The counts are int32 bit patterns.
abbrev pub IsCount : Server → Type 0
IsCount s = s.active_connections_count < 2 ^ 32

count_restored : (c : ℕ) → c < 2 ^ 32 → ((c + 1) % 2 ^ 32 + 2 ^ 32 - 1) % 2 ^ 32 ≡ c
count_restored c h = omega arith

decrement-increment : (s : Server) → IsCount s → decrement_connections (increment_connections s) ≡ s
unfolding decrement_connections increment_connections
decrement-increment s h =
    ap (λ c. record s { active_connections_count = c })
      (count_restored s.active_connections_count h)

restored :
    (servers : List Server)
    → All IsCount servers
    → All (λ s. decrement_connections (increment_connections s) ≡ s) servers
restored [] h = tt
restored (s ∷ rest) (h, hs) = (decrement-increment s h, restored rest hs)

-- A request that the backend answers, or that is not sent, leaves every connection count as it was.
pub forward_request_balanced :
    (backend : Backend) (i : ℕ) (servers : List Server)
    → All IsCount servers
    → backend ≢ no_answer
    → (forward_request backend i servers).0 ≡ servers
unfolding forward_request
forward_request_balanced no_request i servers h sent = refl
forward_request_balanced no_answer i servers h sent = absurd (sent refl)
forward_request_balanced (answer code copied) i servers h sent =
    update-update i increment_connections decrement_connections servers (restored servers h)

-- Requests to one server, none of which is answered.
abbrev pub unanswered : ℕ → ℕ → List Server → List Server
unanswered zero i servers = servers
unanswered (suc n) i servers = unanswered n i (forward_request no_answer i servers).0

count_again : (c n : ℕ) → ((c + 1) % 2 ^ 32 + n) % 2 ^ 32 ≡ (c + suc n) % 2 ^ 32
count_again c n = omega arith

-- Requests that the backend does not answer each leave one connection more on the count of their
-- server, for good: n of them add n to it, modulo 2 ^ 32.
pub unanswered_leak :
    (n i : ℕ) (servers : List Server) (s : Server)
    → IsCount s
    → get_elem? servers i ≡ some s
    → get_elem? (unanswered n i servers) i
      ≡ some (record s { active_connections_count = (s.active_connections_count + n) % 2 ^ 32 })
unfolding forward_request increment_connections
unanswered_leak zero i servers s small e =
    let same : (s.active_connections_count + 0) % 2 ^ 32 ≡ s.active_connections_count =
      omega arith in
    e ∙ ap (λ c. some (record s { active_connections_count = c })) (sym same)
unanswered_leak (suc n) i servers s small e =
    let s' : Server = record s {
      active_connections_count = (s.active_connections_count + 1) % 2 ^ 32;
    } in
    unanswered_leak n i (update i increment_connections servers) s' (omega arith)
      (get_elem?-update i increment_connections servers s e)
    ∙ ap (λ c. some (record s { active_connections_count = c }))
        (count_again s.active_connections_count n)
