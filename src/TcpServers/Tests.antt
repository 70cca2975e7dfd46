-- ===== src/TcpServers/Tests.antt =====
-- Connections, and each theorem at an input.
use design_pocs.Common.{
  ℕ, ◌≡◌, refl, Bool, true, false, List, [], ◌∷◌, ◌++◌, Bytes, bytes_eq, codes, trim_space,
}
use design_pocs.TcpServers.Epoll.{
  Wakeup, ready, interrupted, listening, readable, got, end_of_stream, no_clients, event_loop,
  handle_events, handle_event, without_fd,
}
use design_pocs.TcpServers.Echo.{
  read_lines, echo_lines, reply_lines, unfinished, echoes_whole_lines,
}

abbrev chat : Bytes
chat = codes "hi" ++ 10 ∷ codes "you" ++ 10 ∷ codes "th"

abbrev all_sent : ℕ → Bool
all_sent n = true

replies : reply_lines (read_lines chat) ≡ codes "Echo: hi" ++ 10 ∷ codes "Echo: you" ++ 10 ∷ []
unfolding reply_lines read_lines trim_space bytes_eq
replies = refl

quits : reply_lines (read_lines (codes "QUIT" ++ 10 ∷ chat)) ≡ codes "Echo: QUIT" ++ 10 ∷ []
unfolding reply_lines read_lines trim_space bytes_eq
quits = refl

echoes_whole_lines_example : echo_lines all_sent 0 (read_lines chat) ++ unfinished chat ≡ chat
unfolding read_lines trim_space bytes_eq
echoes_whole_lines_example = echoes_whole_lines all_sent chat (λ k. refl) (refl, (refl, tt))

-- A client that the queue could not take on is open and not watched, and is closed only if it is watched.
abbrev one_day : List Wakeup
one_day =
    ready (
      listening
        (record { client = 7; is_added = true } ∷ record { client = 8; is_added = false } ∷ [])
      ∷ [])
    ∷ interrupted
    ∷ ready (readable 7 (got (codes "hi") ∷ end_of_stream ∷ []) ∷ [])
    ∷ []

leaks :
    event_loop one_day no_clients
    ≡ (record { open_clients = 8 ∷ []; watched = [] }, (7, codes "hi") ∷ [])
unfolding event_loop handle_events handle_event without_fd
leaks = refl
