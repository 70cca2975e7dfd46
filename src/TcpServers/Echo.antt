-- ===== src/TcpServers/Echo.antt =====
-- tcp_servers/multi_threaded.go and tcp_servers/single_threaded.go: what handleConnection writes on a
-- connection. The bytes that the client sends are given as a whole.
use design_pocs.Common.{
  ℕ, suc, ◌≡◌, refl, sym, inl, inr, ap, ◌∙◌, arith, Bool, true, false, Bool-cases, List, [], ◌∷◌,
  ◌++◌, All, ◌==◌, if◌then◌else◌, Bytes, bytes_eq, codes, trim_space,
}

abbrev pub onto_line : ℕ → List Bytes → List Bytes
onto_line c [] = []
onto_line c (line ∷ lines) = (c ∷ line) ∷ lines

-- What ReadString('\n') returns, call by call, up to its error at the end of the stream, where the bytes
-- behind the last newline are dropped.
unfoldable pub read_lines : Bytes → List Bytes
read_lines [] = []
read_lines (c ∷ s) =
    let lines = read_lines s in if c == 10 then (c ∷ []) ∷ lines else onto_line c lines

-- handleConnection of the server with a goroutine for each connection; `sent` tells which Writes succeed.
-- The bytes are those of the Writes that did.
unfoldable pub echo_lines : (ℕ → Bool) → ℕ → List Bytes → Bytes
unfolding trim_space bytes_eq
echo_lines sent n [] = []
echo_lines sent n (line ∷ lines) =
    let rest = echo_lines sent (suc n) lines in
    if bytes_eq (trim_space line) (codes "exit") then [] else if sent n then line ++ rest else []

-- handleConnection of the server with a single thread, which does not ask whether Write succeeds.
unfoldable pub reply_lines : List Bytes → Bytes
unfolding trim_space bytes_eq
reply_lines [] = []
reply_lines (line ∷ lines) =
    let message = trim_space line in
    let rest = reply_lines lines in
    codes "Echo: "
    ++ message
    ++ codes "\n"
    ++ (if bytes_eq message (codes "QUIT") then [] else rest)

-- The bytes of all the lines.
abbrev pub whole_lines : List Bytes → Bytes
whole_lines [] = []
whole_lines (line ∷ lines) = line ++ whole_lines lines

-- The bytes behind the last newline.
abbrev pub has_newline : Bytes → Bool
has_newline [] = false
has_newline (c ∷ s) = let later = has_newline s in if c == 10 then true else later

abbrev pub unfinished : Bytes → Bytes
unfinished [] = []
unfinished (c ∷ s) =
    let later = unfinished s in if has_newline s then later else if c == 10 then s else c ∷ s

append_assoc {ℓ} : {A : Type ℓ} (xs ys zs : List A) → (xs ++ ys) ++ zs ≡ xs ++ (ys ++ zs)
append_assoc [] ys zs = refl
append_assoc (x ∷ xs) ys zs = ap (λ l. x ∷ l) (append_assoc xs ys zs)

no_lines : (s : Bytes) → has_newline s ≡ false → read_lines s ≡ []
unfolding read_lines
no_lines [] h = refl
no_lines (c ∷ s) h = ground (arith, no_lines s)

some_lines :
    (s : Bytes)
    → has_newline s ≡ true
    → (line : Bytes) × (lines : List Bytes) × (read_lines s ≡ line ∷ lines)
unfolding read_lines
some_lines [] h = cc
some_lines (c ∷ s) h = elim (Bool-cases (c == 10)) [
  | inl newline ↦ (c ∷ [], read_lines s, rw newline refl)
  | inr other ↦
      let (line, lines, e) = some_lines s (ground arith) in
      (c ∷ line, lines, rw other (ap (onto_line c) e))
]

read_lines-whole : (s : Bytes) → whole_lines (read_lines s) ++ unfinished s ≡ s
unfolding read_lines
read_lines-whole [] = refl
read_lines-whole (c ∷ s) = elim (Bool-cases (has_newline s)) [
  | inl later ↦ elim (Bool-cases (c == 10)) [
    | inl newline ↦ rw (later, newline) (ap (λ x. c ∷ x) (read_lines-whole s))
    | inr other ↦
        let (line, lines, e) = some_lines s later in
        let rest : whole_lines (line ∷ lines) ++ unfinished s ≡ s =
          ap (λ x. whole_lines x ++ unfinished s) (sym e) ∙ read_lines-whole s in
        rw (later, other, e) (ap (λ x. c ∷ x) rest)
  ]
  | inr last ↦ elim (Bool-cases (c == 10)) [
    | inl newline ↦ rw (last, newline, no_lines s last) refl
    | inr other ↦ rw (last, other, no_lines s last) refl
  ]
]

-- A line that ends the connection.
abbrev pub is_exit : Bytes → Bool
is_exit line = bytes_eq (trim_space line) (codes "exit")

echo_lines-All :
    (sent : ℕ → Bool) (n : ℕ) (lines : List Bytes)
    → ((k : ℕ) → sent k ≡ true)
    → All (λ line. is_exit line ≡ false) lines
    → echo_lines sent n lines ≡ whole_lines lines
unfolding echo_lines
echo_lines-All sent n [] ok h = refl
echo_lines-All sent n (line ∷ lines) ok (stays, h) =
    rw (stays, ok n) (ap (λ x. line ++ x) (echo_lines-All sent (suc n) lines ok h))

echo_lines-first :
    (sent : ℕ → Bool) (n : ℕ) (lines : List Bytes)
    → (rest : Bytes) × (echo_lines sent n lines ++ rest ≡ whole_lines lines)
unfolding echo_lines
echo_lines-first sent n [] = ([], refl)
echo_lines-first sent n (line ∷ lines) =
    let (rest, e) = echo_lines-first sent (suc n) lines in
    elim (Bool-cases (is_exit line)) [
      | inl exits ↦ (line ++ whole_lines lines, rw exits refl)
      | inr stays ↦ elim (Bool-cases (sent n)) [
        | inl ok ↦ (
          rest,
          rw (stays, ok)
              (append_assoc line (echo_lines sent (suc n) lines) rest ∙ ap (λ x. line ++ x) e),
        )
        | inr lost ↦ (line ++ whole_lines lines, rw (stays, lost) refl)
      ]
    ]

-- When no line is exit and every Write succeeds, what the server writes is what the client has sent, up to
-- its last newline.
pub echoes_whole_lines :
    (sent : ℕ → Bool) (s : Bytes)
    → ((k : ℕ) → sent k ≡ true)
    → All (λ line. is_exit line ≡ false) (read_lines s)
    → echo_lines sent 0 (read_lines s) ++ unfinished s ≡ s
echoes_whole_lines sent s ok h =
    ap (λ x. x ++ unfinished s) (echo_lines-All sent 0 (read_lines s) ok h) ∙ read_lines-whole s

-- Whatever the client sends, and whichever Writes fail, the bytes of the Writes that succeed are the first
-- bytes that the client has sent.
pub echoes_in_order :
    (sent : ℕ → Bool) (s : Bytes) → (rest : Bytes) × (echo_lines sent 0 (read_lines s) ++ rest ≡ s)
echoes_in_order sent s =
    let (rest, e) = echo_lines-first sent 0 (read_lines s) in
    (
      rest ++ unfinished s,
      sym (append_assoc (echo_lines sent 0 (read_lines s)) rest (unfinished s))
          ∙ ap (λ x. x ++ unfinished s) e
          ∙ read_lines-whole s,
    )
