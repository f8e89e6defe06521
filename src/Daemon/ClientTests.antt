-- ===== src/Daemon/ClientTests.antt =====
-- The connections of native/agentseatd.c on a few blocks, and the theorems about them there.
use agent_seat.Prelude.{ℕ, suc, ◌≡◌, ◌++◌, refl, true, arith, some, List, [], ◌∷◌, length}
use agent_seat.Daemon.Clients.{
  Client, Server, closed_client, accepted, Sent, sent, later_again, read_blocks, first_line,
  client_write,
}
use agent_seat.Daemon.Lines.{Reads, first_line_served, joined}
use agent_seat.Daemon.Answers.{write_all, answer_sent, Left}

-- A server that counts its requests and answers with `o`.
abbrev counter : Server
counter = record {
  Document = ℕ;
  State = ℕ;
  parse = λ line. (some (length line), length line, true);
  serve = λ s document. (suc s, 111 ∷ []);
}

-- `a`, then `b`, a newline and `c`, then `d`.
abbrev blocks : List (ℕ × List ℕ)
blocks = (5, 97 ∷ []) ∷ (6, 98 ∷ 10 ∷ 99 ∷ []) ∷ (7, 100 ∷ []) ∷ []

first_line_served_example :
    Reads counter 0
      (joined blocks)
      (first_line (joined blocks))
      (read_blocks counter 0 (accepted 1) blocks)
first_line_served_example =
    first_line_served counter 0 1 blocks (omega arith, (omega arith, (omega arith, tt)))
      (omega arith)

-- A connection that holds an answer of three bytes.
abbrev answering : Client
answering = record closed_client { is_open = true; response = some (1 ∷ 2 ∷ 10 ∷ []) }

abbrev sends : List Sent
sends = sent 2 ∷ later_again ∷ sent 1 ∷ []

answer_sent_example :
    (rest : List ℕ) × Left (write_all answering sends).0 (1 ∷ 2 ∷ 10 ∷ []) rest
    × ((write_all answering sends).1 ++ rest ≡ 1 ∷ 2 ∷ 10 ∷ [])
unfolding client_write
answer_sent_example =
    answer_sent answering (1 ∷ 2 ∷ 10 ∷ []) sends (refl, refl, refl) (omega arith)
      (omega arith, (tt, (omega arith, tt)))
