-- ===== src/Daemon/Clients.antt =====
-- The connections of the daemon's socket in native/agentseatd.c: one request of one line, and its answer.
use agent_seat.Prelude.{
  ℕ, zero, suc, ◌+◌, ◌*◌, ◌-◌, Bool, true, false, ◌&&◌, ◌||◌, Option, none, some, List, [], ◌∷◌,
  ◌++◌, if◌then◌else◌, ltb, ◌==◌, length, set, take, drop, replicate, add_size,
}

abbrev pub max_request : ℕ
max_request = 1024 * 1024

abbrev pub client_io_budget : ℕ
client_io_budget = 16384

abbrev pub client_timeout_ms : ℕ
client_timeout_ms = 1000

-- `struct rpc_client`. `request` holds the cells of the buffer, as many as `capacity`; NULL is none.
pub record Client : Type 0 where
  pub is_open : Bool
  pub request : List ℕ
  pub held : ℕ
  pub response : Option (List ℕ)
  pub written : ℕ
  pub deadline_msec : ℕ

-- `client_close`.
abbrev pub closed_client : Client
closed_client = record {
  is_open = false;
  request = [];
  held = 0;
  response = none;
  written = 0;
  deadline_msec = 0;
}

-- `memcpy` to an offset of the buffer; a write outside of it is `none`.
unfoldable pub copy_at : List ℕ → ℕ → List ℕ → Option (List ℕ)
copy_at cells i [] = some cells
copy_at cells i (b ∷ bs) =
    let rest = copy_at (set cells i b) (suc i) bs in if ltb i (length cells) then rest else none

-- The capacity that `realloc` is asked for.
abbrev pub new_capacity : ℕ → ℕ
new_capacity needed = if ltb (max_request + 1) (needed * 2) then max_request + 1 else needed * 2

-- The buffer with room for `needed` bytes. The cells that `realloc` adds are written before they are
-- read.
unfoldable pub grown : List ℕ → ℕ → List ℕ
grown cells needed =
    if ltb (length cells) needed
    then cells ++ replicate (new_capacity needed - length cells) 0
    else cells

abbrev pub line_after : ℕ → Option (List ℕ) → Option (List ℕ)
line_after b none = none
line_after b (some line) = some (b ∷ line)

-- The bytes before the first newline.
unfoldable pub first_line : List ℕ → Option (List ℕ)
first_line [] = none
first_line (b ∷ bs) = let rest = first_line bs in if b == 10 then some [] else line_after b rest

-- The test of the loop behind the document.
unfoldable pub all_blank : List ℕ → Bool
all_blank [] = true
all_blank (b ∷ bs) = ((b == 32) || (b == 9) || (b == 13)) && all_blank bs

-- What `recv` gives: an error that passes, another one or the end, or bytes.
pub data Received : Type 0 where
  later : Received
  ended : Received
  bytes : List ℕ → Received

-- What `send` gives; `sent` is the number of bytes that it took.
pub data Sent : Type 0 where
  later_again : Sent
  broken : Sent
  sent : ℕ → Sent

-- `parse` is `json_tokener_parse_ex`: the document, where it ends, and whether it was read without
-- an error. `serve` is `response_for` with the text of its answer, on the state of the daemon.
pub record Server : Type 1 where
  pub Document : Type 0
  pub State : Type 0
  pub parse : List ℕ → Option Document × ℕ × Bool
  pub serve : State → Option Document → State × List ℕ

abbrev pub answered : {A : Type 0} → A × List ℕ → ℕ → A × Client
answered (s, text) now = (
  s,
  record {
    is_open = true;
    request = [];
    held = 0;
    response = some (text ++ (10 ∷ []));
    written = 0;
    deadline_msec = add_size now client_timeout_ms;
  },
)

abbrev pub ended_text : ℕ → Option (List ℕ) → Option (List ℕ)
ended_text total none = none
ended_text total (some cells) = copy_at cells total (0 ∷ [])

-- The test of the main loop before it reads.
abbrev pub reads_on : Client → Bool
reads_on c = elim c.response [ none ↦ c.is_open | some response ↦ false ]

abbrev pub and_then :
    {A : Type 0} → Option (A × Client) → (A → Client → Option (A × Client)) → Option (A × Client)
and_then none f = none
and_then (some (s, c)) f = f s c

module _ (V : Server) where
  open V use {Document, State, parse, serve}

  -- The request in a line: a document that is not valid is NULL.
  abbrev pub request_in : List ℕ → Option Document
  request_in line =
      let (document, consumed, ok) = parse line in
      if ok && all_blank (drop consumed line) then document else none

  -- The end of `client_read`, on the line if there is one.
  abbrev pub with_line : State → Client → ℕ → Option (List ℕ) → State × Client
  with_line s c now none = (s, c)
  with_line s c now (some line) = answered (serve s (request_in line)) now

  -- The new bytes and a NUL stand in the buffer.
  abbrev pub with_cells : State → Client → ℕ → ℕ → Option (List ℕ) → Option (State × Client)
  with_cells s c total now none = none
  with_cells s c total now (some cells) =
      some (
        with_line s (record c { request = cells; held = total }) now
          (first_line (take total cells)))

  -- `client_read` at the time `now`; `none` is a write outside of the buffer.
  unfoldable pub client_read : State → Client → ℕ → Received → Option (State × Client)
  client_read s c now later = some (s, c)
  client_read s c now ended = some (s, closed_client)
  client_read s c now (bytes block) =
      let total = c.held + length block in
      if (length block == 0) || ltb max_request total
      then some (s, closed_client)
      else with_cells s c total now
          (ended_text total (copy_at (grown c.request (total + 1)) c.held block))

  -- The reads of the main loop, each with its time: it reads while the connection is open and has no
  -- answer.
  unfoldable pub read_blocks : State → Client → List (ℕ × List ℕ) → Option (State × Client)
  read_blocks s c [] = some (s, c)
  read_blocks s c ((now, block) ∷ blocks) =
      if reads_on c
      then and_then (client_read s c now (bytes block)) (λ s' c'. read_blocks s' c' blocks)
      else some (s, c)

-- A connection that was accepted.
abbrev pub accepted : ℕ → Client
accepted now = record closed_client {
  is_open = true;
  deadline_msec = add_size now client_timeout_ms;
}

-- The bytes that `client_write` offers to `send`.
abbrev pub offered_bytes : List ℕ → ℕ → List ℕ
offered_bytes response written = take client_io_budget (drop written response)

abbrev pub write_some : Client → List ℕ → Sent → Client × List ℕ
write_some c response later_again = (c, [])
write_some c response broken = (closed_client, [])
write_some c response (sent zero) = (closed_client, [])
write_some c response (sent (suc n)) =
    let written = c.written + suc n in
    (
      if written == length response then closed_client else record c { written = written },
      take (suc n) (offered_bytes response c.written),
    )

-- `client_write`, with the bytes that go out.
unfoldable pub client_write : Client → Sent → Client × List ℕ
client_write c r = elim c.response [ none ↦ (c, []) | some response ↦ write_some c response r ]
