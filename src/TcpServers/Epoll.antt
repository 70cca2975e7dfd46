-- ===== src/TcpServers/Epoll.antt =====
-- tcp_servers/single_threaded_with_epoll.go: the event loop of ListeningForConnections behind its set-up, over
-- the answers of kevent, accept and read. Descriptors are numbers.
use design_pocs.Common.{
  ℕ, ◌≡◌, arith, Bool, true, false, List, [], ◌∷◌, ◌++◌, ◌==◌, if◌then◌else◌, Bytes,
}

-- The clients whose descriptors are open, and those that the queue watches.
pub record EventLoop : Type 0 where
  pub open_clients : List ℕ
  pub watched : List ℕ

abbrev pub no_clients : EventLoop
no_clients = record { open_clients = []; watched = [] }

-- A client that was accepted, and whether kqAddRead succeeds for it.
pub record Accepted : Type 0 where
  pub client : ℕ
  pub is_added : Bool

-- What Read answers: bytes, no bytes now, an error, or the end of the stream.
pub data ReadAnswer : Type 0 where
  got : Bytes → ReadAnswer
  would_block read_fails end_of_stream : ReadAnswer

-- An event of the listening socket with the clients that wait, and one of a client, with the flag EV_EOF
-- or with the answers to the reads.
pub data ReadyEvent : Type 0 where
  listening : List Accepted → ReadyEvent
  hung_up : ℕ → ReadyEvent
  readable : ℕ → List ReadAnswer → ReadyEvent

-- What kevent returns.
pub data Wakeup : Type 0 where
  ready : List ReadyEvent → Wakeup
  interrupted wait_fails : Wakeup

unfoldable pub has_fd : ℕ → List ℕ → Bool
has_fd f [] = false
has_fd f (x ∷ xs) = let rest = has_fd f xs in if x == f then true else rest

unfoldable pub without_fd : ℕ → List ℕ → List ℕ
without_fd f [] = []
without_fd f (x ∷ xs) = let rest = without_fd f xs in if x == f then rest else x ∷ rest

-- kqDelRead and Close
abbrev pub close_client : ℕ → EventLoop → EventLoop
close_client f s = record {
  open_clients = without_fd f s.open_clients;
  watched = without_fd f s.watched;
}

abbrev pub accept_client : Accepted → EventLoop → EventLoop
accept_client a s = record {
  open_clients = a.client ∷ s.open_clients;
  watched = if a.is_added then a.client ∷ s.watched else s.watched;
}

-- The loop over Accept, up to its first error.
abbrev pub accept_all : List Accepted → EventLoop → EventLoop
accept_all [] s = s
accept_all (a ∷ rest) s = accept_all rest (accept_client a s)

-- The loop over Read; what is written goes to the same client.
abbrev pub read_all : ℕ → List ReadAnswer → EventLoop → EventLoop × List (ℕ × Bytes)
read_all f [] s = (s, [])
read_all f (got b ∷ rest) s = let (s', sent) = read_all f rest s in (s', (f, b) ∷ sent)
read_all f (would_block ∷ rest) s = (s, [])
read_all f (read_fails ∷ rest) s = (close_client f s, [])
read_all f (end_of_stream ∷ rest) s = (close_client f s, [])

unfoldable pub handle_event : ReadyEvent → EventLoop → EventLoop × List (ℕ × Bytes)
unfolding without_fd
handle_event (listening clients) s = (accept_all clients s, [])
handle_event (hung_up f) s = (close_client f s, [])
handle_event (readable f answers) s = read_all f answers s

unfoldable pub handle_events : List ReadyEvent → EventLoop → EventLoop × List (ℕ × Bytes)
unfolding handle_event
handle_events [] s = (s, [])
handle_events (e ∷ es) s =
    let (s', sent) = handle_event e s in
    let (s'', more) = handle_events es s' in (s'', sent ++ more)

-- The server, wakeup by wakeup, until kevent fails.
unfoldable pub event_loop : List Wakeup → EventLoop → EventLoop × List (ℕ × Bytes)
unfolding handle_events
event_loop [] s = (s, [])
event_loop (ready es ∷ rest) s =
    let (s', sent) = handle_events es s in
    let (s'', more) = event_loop rest s' in (s'', sent ++ more)
event_loop (interrupted ∷ rest) s = event_loop rest s
event_loop (wait_fails ∷ rest) s = (s, [])

-- Every descriptor that is watched is open.
abbrev pub Inv : EventLoop → Type 0
Inv s = (f : ℕ) → has_fd f s.watched ≡ true → has_fd f s.open_clients ≡ true

has_fd-without_fd :
    (f g : ℕ) (xs : List ℕ) → has_fd f (without_fd g xs) ≡ (if g == f then false else has_fd f xs)
unfolding has_fd without_fd
has_fd-without_fd f g [] = ground arith
has_fd-without_fd f g (x ∷ xs) = ground (arith, has_fd-without_fd f g xs)

close_client-Inv : (g : ℕ) (s : EventLoop) → Inv s → Inv (close_client g s)
close_client-Inv g s inv f h =
    ground (arith, has_fd-without_fd f g s.watched, has_fd-without_fd f g s.open_clients, inv f)

accept_client-Inv : (a : Accepted) (s : EventLoop) → Inv s → Inv (accept_client a s)
unfolding has_fd
accept_client-Inv a s inv f h = ground (arith, inv f)

accept_all-Inv : (clients : List Accepted) (s : EventLoop) → Inv s → Inv (accept_all clients s)
accept_all-Inv [] s inv = inv
accept_all-Inv (a ∷ rest) s inv =
    accept_all-Inv rest (accept_client a s) (accept_client-Inv a s inv)

read_all-Inv :
    (f : ℕ) (answers : List ReadAnswer) (s : EventLoop) → Inv s → Inv (read_all f answers s).0
read_all-Inv f [] s inv = inv
read_all-Inv f (got b ∷ rest) s inv = read_all-Inv f rest s inv
read_all-Inv f (would_block ∷ rest) s inv = inv
read_all-Inv f (read_fails ∷ rest) s inv = close_client-Inv f s inv
read_all-Inv f (end_of_stream ∷ rest) s inv = close_client-Inv f s inv

handle_events-Inv : (es : List ReadyEvent) (s : EventLoop) → Inv s → Inv (handle_events es s).0
unfolding handle_events handle_event
handle_events-Inv [] s inv = inv
handle_events-Inv (listening clients ∷ es) s inv =
    handle_events-Inv es (accept_all clients s) (accept_all-Inv clients s inv)
handle_events-Inv (hung_up f ∷ es) s inv =
    handle_events-Inv es (close_client f s) (close_client-Inv f s inv)
handle_events-Inv (readable f answers ∷ es) s inv =
    handle_events-Inv es (read_all f answers s).0 (read_all-Inv f answers s inv)

-- In any run of the event loop every descriptor that the queue watches is open, if it was so before.
pub event_loop-Inv : (ws : List Wakeup) (s : EventLoop) → Inv s → Inv (event_loop ws s).0
unfolding event_loop
event_loop-Inv [] s inv = inv
event_loop-Inv (ready es ∷ rest) s inv =
    event_loop-Inv rest (handle_events es s).0 (handle_events-Inv es s inv)
event_loop-Inv (interrupted ∷ rest) s inv = event_loop-Inv rest s inv
event_loop-Inv (wait_fails ∷ rest) s inv = inv
