-- ===== src/LoadBalancer/Servers.antt =====
-- load-balancer/backend_server_properties.go: the servers, and what an algorithm answers.
use design_pocs.Common.{
  ℕ, zero, suc, ◌+◌, ◌-◌, ◌%◌, ◌^◌, ◌≡◌, refl, ap, Option, none, some, List, [], ◌∷◌, arith, Bytes,
  All, get_elem?, ltb, if◌then◌else◌,
}
use design_pocs.Common.Int.{ℤ, signed32}

-- `active_connections_count` is the bit pattern of the atomic int32.
pub record Server : Type 0 where
  pub id : Bytes
  pub base_url : Bytes
  pub api_port : ℕ
  pub health_check_port : ℕ
  pub active_connections_count : ℕ
  pub weight : ℕ

abbrev pub new_backend_server : Bytes → Bytes → ℕ → ℕ → Server
new_backend_server id url api_port health_check_port = record {
  id = id;
  base_url = url;
  api_port = api_port;
  health_check_port = health_check_port;
  active_connections_count = 0;
  weight = 0;
}

-- SetWeight; `none` is its error.
unfoldable pub set_weight : ℕ → Server → Option Server
set_weight w s = if ltb 100 w then none else some (record s { weight = w })

-- Add(1) and Add(-1) on an int32.
unfoldable pub increment_connections : Server → Server
increment_connections s = record s {
  active_connections_count = (s.active_connections_count + 1) % 2 ^ 32;
}

unfoldable pub decrement_connections : Server → Server
decrement_connections s = record s {
  active_connections_count = (s.active_connections_count + 2 ^ 32 - 1) % 2 ^ 32;
}

abbrev pub get_active_connections : Server → ℤ
get_active_connections s = signed32 s.active_connections_count

-- What getNext returns: the place of a server in the list, a nil server without an error, or an error.
pub data Next : Type 0 where
  chosen : ℕ → Next
  nil_server failed : Next

-- The list after a method of one of its servers.
unfoldable pub update : ℕ → (Server → Server) → List Server → List Server
update i f [] = []
update zero f (s ∷ rest) = f s ∷ rest
update (suc i) f (s ∷ rest) = s ∷ update i f rest

pub update-update :
    (i : ℕ) (f g : Server → Server) (servers : List Server)
    → All (λ s. g (f s) ≡ s) servers
    → update i g (update i f servers) ≡ servers
unfolding update
update-update i f g [] h = refl
update-update zero f g (s ∷ rest) (h, hs) = ap (λ t. t ∷ rest) h
update-update (suc i) f g (s ∷ rest) (h, hs) = ap (λ t. s ∷ t) (update-update i f g rest hs)

pub get_elem?-update :
    (i : ℕ) (f : Server → Server) (servers : List Server) (s : Server)
    → get_elem? servers i ≡ some s
    → get_elem? (update i f servers) i ≡ some (f s)
unfolding update
get_elem?-update i f [] s h = cc
get_elem?-update zero f (t ∷ rest) s h = ground arith
get_elem?-update (suc i) f (t ∷ rest) s h = get_elem?-update i f rest s h
