-- ===== src/Worker/Steps.antt =====
-- What happens to the worker of native/agentseat-semantic.c, as a relation between its states: the
-- calls of the daemon, and the functions that GIO calls back.
use agent_seat.Prelude.{ℕ, ◌+◌, ◌≡◌, Bool, true, false, Option, List, ◌∷◌, ◌++◌, CString}
use agent_seat.Prelude.Int.{ℤ}
use agent_seat.Json.{JsonC}
use agent_seat.Worker.Process.{Processes}
use agent_seat.Worker.State.{
  Libraries, Worker, Pending, connecting, writing, reading, opening, asking_bus, asking_target,
  acting,
}
use agent_seat.Worker.Prepare.{File}
use agent_seat.Worker.Callbacks.{
  Credentials, Bus, Reply, connected, written, read_ready, bus_ready, bus_identity_ready,
  target_pid_ready, action_replied,
}
use agent_seat.Worker.Calls.{
  as_semantic_start, as_semantic_submit, as_semantic_cancel, as_semantic_prepare_poll,
}

abbrev pub counted : Bool → ℕ
counted true = 1
counted false = 0

-- What a call ends with; where the function that it calls back looks at processes, with what /proc says
-- each time.
pub data Answer : Pending → Type 0 where
  connection : Option (Option Credentials) → Answer connecting
  wrote : Bool → Answer writing
  got_bytes : Option (List ℕ) → Answer reading
  opened : Processes → Bus → Answer opening
  bus_process : Processes → Option ℕ → Answer asking_bus
  target_process : Processes → Processes → Option ℕ → Answer asking_target
  reply : Reply → Answer acting

module _ {J : JsonC} where
  -- The function that GIO calls back.
  unfoldable pub handle : Libraries J → Worker J → {p : Pending} → Answer p → Worker J
  handle lib w (connection peer) = connected lib w peer
  handle lib w (wrote ok) = written w ok
  handle lib w (got_bytes bytes) = read_ready lib w bytes
  handle lib w (opened proc bus) = bus_ready lib proc w bus
  handle lib w (bus_process proc pid) = bus_identity_ready proc w pid
  handle lib w (target_process proc later pid) = target_pid_ready lib proc later w pid
  handle lib w (reply r) = action_replied w r

  -- GIO calls back for one of the calls that it holds, and holds it no longer.
  pub data CallsBack (w : Worker J) (p : Pending) : Worker J → Type 0 where
    calls_back :
        (before after : List Pending)
        → w.pending ≡ before ++ (p ∷ after)
        → CallsBack w p (record w { pending = before ++ after })

  -- A step, with the number of actions that it starts.
  pub data Step (lib : Libraries J) (w : Worker J) : ℕ → Worker J → Type 0 where
    starts :
        (proc : Processes) (method : CString) (params : J.Json) (file : Option File) (now : ℕ)
        → Step lib w
            (counted (as_semantic_start lib proc w method params file now).1)
            (as_semantic_start lib proc w method params file now).0
    submits : (proc : Processes) (now : ℕ) → Step lib w 0 (as_semantic_submit proc w now)
    cancels : Step lib w 0 (as_semantic_cancel w)
    polls :
        (now later : ℕ) (pending : Bool) (wait : ℤ) (queried : ℕ) (timeout : ℤ)
        → Step lib w 0 (as_semantic_prepare_poll w now later pending wait queried timeout).0
    comes_back :
        {p : Pending} {v : Worker J} (answer : Answer p)
        → CallsBack w p v
        → Step lib w 0 (handle lib v answer)

  -- Any number of steps, with the number of actions that they start.
  pub data Run (lib : Libraries J) (w : Worker J) : ℕ → Worker J → Type 0 where
    here : Run lib w 0 w
    next : {n k : ℕ} {v u : Worker J} → Run lib w n v → Step lib v k u → Run lib w (n + k) u
