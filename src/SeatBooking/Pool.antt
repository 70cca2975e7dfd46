-- ===== src/SeatBooking/Pool.antt =====
-- relational-db/exclusive-locks/db/db.go: the connection pool, in the steps that goroutines interleave.
-- A connection is a number. The channel holds nil values only, so it is their number.
use design_pocs.Common.{ℕ, ◌+◌, ◌-◌, List, [], ◌∷◌, length, ltb, ◌==◌, if◌then◌else◌}

-- `conns` has its last element first. `getting` goroutines are in Get between the channel and the lock,
-- `putting` ones in Put between the lock and the channel, and `held` are the connections that are out.
pub record Pool : Type 0 where
  pub channel : ℕ
  pub conns : List ℕ
  pub max_conn : ℕ
  pub getting : ℕ
  pub putting : ℕ
  pub held : List ℕ

-- newPool
abbrev pub new_pool : List ℕ → Pool
new_pool ids = record {
  channel = length ids;
  conns = ids;
  max_conn = length ids;
  getting = 0;
  putting = 0;
  held = [];
}

-- The two halves of Get, and the two of Put.
pub data Event : Type 0 where
  receive pop send : Event
  push : ℕ → Event

pub data Step : Type 0 where
  next : Pool → Step
  blocked : Step
  panics : Step

abbrev pub give_back : ℕ → List ℕ → List ℕ
give_back c [] = []
give_back c (x ∷ xs) = let rest = give_back c xs in if x == c then xs else x ∷ rest

unfoldable pub pop_from : Pool → List ℕ → Step
pop_from p [] = panics
pop_from p (c ∷ rest) = next (record p { getting = p.getting - 1; conns = rest; held = c ∷ p.held })

-- A step that no goroutine can take now is blocked.
unfoldable pub step : Event → Pool → Step
unfolding pop_from
step receive p =
    if p.channel == 0
    then blocked
    else next (record p { channel = p.channel - 1; getting = p.getting + 1 })
step pop p = if p.getting == 0 then blocked else pop_from p p.conns
step (push c) p =
    next (record p { conns = c ∷ p.conns; held = give_back c p.held; putting = p.putting + 1 })
step send p =
    if p.putting == 0
    then blocked
    else if ltb p.channel p.max_conn
    then next (record p { channel = p.channel + 1; putting = p.putting - 1 })
    else blocked

-- A schedule of steps; a goroutine that is blocked waits.
unfoldable pub run : List Event → Pool → Step
run [] p = next p
run (e ∷ es) p = elim (step e p) [ next p' ↦ run es p' | blocked ↦ run es p | panics ↦ panics ]
