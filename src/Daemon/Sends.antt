-- ===== src/Daemon/Sends.antt =====
-- The daemon (native/agentseatd.c) together with its semantic worker (native/agentseat-semantic.c): when an
-- action reaches an application.
use agent_seat.Prelude.{ℕ, ◌<◌, ◌≡◌, inl, inr, sym, ap, ◌∙◌, arith, some, length}
use mathlib.Core.Option.{some-injective}
use agent_seat.Json.{JsonC}
use agent_seat.Input.Platform.{Xkb, Doubles}
use agent_seat.Daemon.State.{Daemon}
use agent_seat.Daemon.Actions.{last_named, taken_at, advance_semantic}
use agent_seat.Daemon.Commit.{Committed, Advanced, advance_semantic-Advanced}
use agent_seat.Worker.Process.{Processes}
use agent_seat.Worker.State.{Worker}
use agent_seat.Worker.Calls.{as_semantic_cancel}
use agent_seat.Worker.Commits.{cancel-Spent}
use agent_seat.Worker.Status.{semantic_worker}

module _ {X : Xkb} {D : Doubles} {J : JsonC} where
  decided_for :
      (s r : Daemon X D J (semantic_worker J)) (w v : Worker J) (now later : ℕ) (m : Processes × ℕ)
      → Advanced s w now later m r
      → r.semantic ≡ some v
      → length w.calls < length v.calls
      → (i : ℕ) × (last_named s.operations s.semantic_operation_id ≡ some i)
        × Committed s (taken_at s i w) w now later
  decided_for s r w v now later m (inl (inl e)) f h =
      let same : w ≡ v = some-injective _ _ (sym e ∙ f) in
      absurd (omega (arith, ap (λ (u : Worker J). length u.calls) same))
  decided_for s r w v now later m (inl (inr e)) f h =
      let same : as_semantic_cancel w ≡ v = some-injective _ _ (sym e ∙ f) in
      absurd
        (omega (arith, ap (λ (u : Worker J). length u.calls) same, ap length (cancel-Spent w).1))
  decided_for s r w v now later m (inr (e, c)) f h = c

  -- The daemon's turn sends an action to an application only where everything that `advance_semantic` asks
  -- for holds: if its worker has sent more calls after `advance_semantic` than before, the operation that
  -- the action belongs to was in progress in the current control epoch, under a live write lease with every
  -- window of the scene leased, without a pause or an active human, and granted by the compositor.
  pub sent_when_allowed :
      (s : Daemon X D J (semantic_worker J)) (w v : Worker J) (now later : ℕ) (m : Processes × ℕ)
      → s.semantic ≡ some w
      → (advance_semantic s now later m).semantic ≡ some v
      → length w.calls < length v.calls
      → (i : ℕ) × (last_named s.operations s.semantic_operation_id ≡ some i)
        × Committed s (taken_at s i w) w now later
  sent_when_allowed s w v now later m e f h =
      decided_for s (advance_semantic s now later m) w v now later m
        (advance_semantic-Advanced s w now later m e) f h
