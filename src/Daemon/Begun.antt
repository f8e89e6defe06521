-- ===== src/Daemon/Begun.antt =====
-- A semantic method of native/agentseatd.c with the worker of native/agentseat-semantic.c.
use agent_seat.Prelude.{
  ℕ, ◌≡◌, ◌∙◌, sym, ap, subst, Bool, true, false, Option, none, some, CString, arith, add_size,
}
use agent_seat.Json.{JsonC}
use agent_seat.Input.Platform.{Xkb, Doubles}
use agent_seat.Daemon.State.{Daemon, Operation}
use agent_seat.Daemon.Params.{Code, semantic_busy}
use agent_seat.Daemon.Control.{require_active}
use agent_seat.Daemon.Actions.{semantic_scope_complete}
use agent_seat.Daemon.Start.{worker_of, semantic_method}
use agent_seat.Daemon.Refusals.{
  InSlot, Refusal, Answered, refuses, finds_busy, begins, semantic_method-Answered,
}
use agent_seat.Worker.Process.{Processes}
use agent_seat.Worker.State.{Libraries, Worker}
use agent_seat.Worker.Prepare.{File}
use agent_seat.Worker.Calls.{as_semantic_start}
use agent_seat.Worker.Commits.{start-calls}
use agent_seat.Worker.Status.{semantic_worker}

module _ {J : JsonC} (lib : Libraries J) (proc : Processes) (file : Option File) where
  -- `as_semantic_start` on the request, at the time `started`.
  abbrev pub start_call : CString → J.Json → ℕ → Worker J → Worker J × Bool
  start_call method params started w = as_semantic_start lib proc w method params file started

  busy_after :
      (w w' : Worker J) (method : CString) (params : J.Json) (started : ℕ)
      → start_call method params started w ≡ (w', false)
      → (w.busy ≡ true) × (w' ≡ w)
  unfolding as_semantic_start
  busy_after w w' method params started e = ground (arith, e)

  idle_after :
      (w w' : Worker J) (method : CString) (params : J.Json) (started : ℕ)
      → start_call method params started w ≡ (w', true)
      → w.busy ≡ false
  unfolding as_semantic_start
  idle_after w w' method params started e = ground (arith, e)

module _ {X : Xkb} {D : Doubles} {J : JsonC} (lib : Libraries J) (proc : Processes)
    (file : Option File) where
  -- The answer to a semantic method, with `current` for the worker that there is or is made.
  pub data Settled (s : Daemon X D J (semantic_worker J)) (method : CString) (params : J.Json)
      (now started : ℕ) (current : Option (Worker J))
      : Daemon X D J (semantic_worker J) × Option Code → Type 0 where
    refused :
        (e : Code)
        → Refusal s params now current e
        → Settled s method params now started current (s, some e)
    still_busy :
        (w : Worker J)
        → current ≡ some w
        → w.busy ≡ true
        → Settled s method params now started current
            (record s { semantic = some w }, some semantic_busy)
    begun :
        (w w' : Worker J) (r : Daemon X D J (semantic_worker J)) (op : Operation)
        → current ≡ some w
        → w.busy ≡ false
        → w' ≡ (start_call lib proc file method params started w).0
        → w'.calls ≡ w.calls
        → require_active s now ≡ none
        → semantic_scope_complete s ≡ true
        → InSlot s method now r op
        → r.semantic ≡ some w'
        → (r.next_operation ≡ add_size s.next_operation 1) × (r.semantic_operation_id ≡ op.id)
        → (r.input ≡ s.input) × (r.writer ≡ s.writer) × (r.control_epoch ≡ s.control_epoch)
        → Settled s method params now started current (r, none)

  settled :
      (s : Daemon X D J (semantic_worker J)) (method : CString) (params : J.Json) (now started : ℕ)
      (current : Option (Worker J)) (r : Daemon X D J (semantic_worker J) × Option Code)
      → Answered s method params now (start_call lib proc file method params started) current r
      → Settled s method params now started current r
  settled s method params now started current r (refuses e why) = refused e why
  settled s method params now started current r (finds_busy w w' c e) =
      let (busy, same) = busy_after lib proc file w w' method params started e in
      subst
        (λ (v : Worker J).
          Settled s method params now started current
            (record s { semantic = some v }, some semantic_busy))
        (sym same) (still_busy w c busy)
  settled s method params now started current r
        (begins w w' r' op c e a scope slot kept names same) =
      let started_eq : (start_call lib proc file method params started w).0 ≡ w' =
        ap (λ b. b.0) e in
      begun w w' r' op c (idle_after lib proc file w w' method params started e) (sym started_eq)
        (ap (λ v. v.calls) (sym started_eq) ∙ start-calls lib proc w method params file started) a
        scope slot kept (names.0, names.1 ∙ sym slot.id_eq) same

  -- A semantic method is refused and changes nothing, because a test fails (`require_active`,
  -- `semantic_scope_complete`, node_ref or timeout_ms is not valid, or there is no worker and the
  -- compositor is not known); or it finds that the worker still waits for a reply, and leaves it, as it
  -- is or as it was made, and the rest as they are; or the session is active, the scope is complete and
  -- the worker is not busy. Then `as_semantic_start` has been called, no action has been sent to an
  -- application and no request to the compositor, and the slot of the next number is written with the
  -- operation in progress, which bears the name of that number and the present control epoch, is active
  -- and running with a deadline 15 s later, and has submitted nothing.
  pub semantic_method-Settled :
      (s : Daemon X D J (semantic_worker J)) (method : CString) (params : J.Json) (now started : ℕ)
      (fresh : Option (Worker J))
      → Settled s method params now started (worker_of s.semantic fresh) (
          semantic_method s method params now
            (start_call lib proc file method params started)
            fresh)
  semantic_method-Settled s method params now started fresh =
      settled s method params now started (worker_of s.semantic fresh) _ (
        semantic_method-Answered s method params now
          (start_call lib proc file method params started) fresh)
