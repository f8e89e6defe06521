-- ===== src/Daemon/Fencing.antt =====
-- What holds in every state that the daemon reaches: a single operation, and an authority that is
-- lost for good.
use agent_seat.Prelude.{
  ℕ, ◌+◌, ◌^◌, ◌<◌, ◌≡◌, ◌≢◌, refl, arith, true, Option, none, some, CString, cstr, get_or, sym, ap,
  ◌∙◌,
}
use mathlib.Core.Option.{some-injective}
use agent_seat.Json.{JsonC}
use agent_seat.Prelude.Int.{pos_part}
use agent_seat.Input.Platform.{Xkb, Doubles}
use agent_seat.Daemon.State.{Daemon, Semantic, no_operation}
use agent_seat.Daemon.Control.{method_needs_writer, revoke_input, finish_typing, finish_if}
use agent_seat.Daemon.Authority.{authorize}
use agent_seat.Daemon.Moves.{
  Moves, Single, stays, chain, with_input, revoke_input-Moves, advance_typing-Moves,
}
use agent_seat.Daemon.Requests.{
  type_request-Moves, acquire_control-Moves, release_control-Moves, expire_writer-Moves,
  sync_control_state-Moves,
}
use agent_seat.Daemon.Granted.{authorize-Granted}
use agent_seat.Daemon.Steps.{
  Step, event, syncs, advances, expires, revokes, types, acquires, releases, Reach, here, next,
}

module _ {X : Xkb} {D : Doubles} {J : JsonC} {S : Semantic} where
  Step-Moves : {s r : Daemon X D J S} → Step s r → Moves s r
  Step-Moves {s} (event input) = with_input s s input (stays s)
  Step-Moves {s} (syncs now now_u32) = sync_control_state-Moves s now now_u32
  Step-Moves {s} (advances now later flushed small) = advance_typing-Moves s now later flushed small
  Step-Moves {s} (expires now small) = expire_writer-Moves s now small
  Step-Moves {s} (revokes small) = revoke_input-Moves s small
  Step-Moves {s} (types params now) = type_request-Moves s params now
  Step-Moves {s} (acquires params now renew) = acquire_control-Moves s params now renew
  Step-Moves {s} (releases params now small) = release_control-Moves s params now small

  Reach-Moves : {s r : Daemon X D J S} → Reach s r → Moves s r
  Reach-Moves {s} here = stays s
  Reach-Moves (next m step) = chain (Reach-Moves m) (Step-Moves step)

  -- In every state that the steps of Daemon.Steps reach from one with at most one operation in
  -- progress, two slots that are active are the same slot, and `typing` points at it.
  pub one_operation :
      (s r : Daemon X D J S)
      → Single s
      → Reach s r
      → (i j : ℕ) → (get_or r.operations i no_operation).active ≡ true
      → (get_or r.operations j no_operation).active ≡ true
      → (i ≡ j) × (r.typing ≡ some i)
  one_operation s r v m i j a b =
      let w = (Reach-Moves m).single v in
      (some-injective i j (sym (w.only i a) ∙ w.only j b), w.only i a)

  finish_if-epoch :
      (s : Daemon X D J S) (t : Option ℕ) (o : CString)
      → (finish_if s t o).control_epoch ≡ s.control_epoch
  finish_if-epoch s none o = refl
  finish_if-epoch s (some i) o = refl

  revoke_input-epoch :
      (s : Daemon X D J S)
      → s.control_epoch + 1 < 2 ^ 64
      → (revoke_input s).control_epoch ≡ s.control_epoch + 1
  unfolding revoke_input finish_typing
  revoke_input-epoch s small = finish_if-epoch _ s.typing (cstr "cancelled") ∙ omega arith

  -- Once the input is revoked, a request that was granted before it, for a method that needs the
  -- writer, is refused in every later state that the steps of Daemon.Steps reach: its control epoch
  -- is not the current one again, while the epoch stays below 2 ^ 64.
  pub revoked_for_good :
      (s lost r : Daemon X D J S) (method : CString) (params : J.Json) (now later : ℕ)
      → method_needs_writer method ≡ true
      → (authorize s method params now).1 ≡ none
      → Reach s lost
      → lost.control_epoch + 1 < 2 ^ 64
      → Reach (revoke_input lost) r
      → (authorize r method params later).1 ≢ none
  revoked_for_good s lost r method params now later needs ok m small m' ok' =
      let (v, e, n) = (authorize-Granted s method params now needs ok).epoch in
      let (v', e', n') = (authorize-Granted r method params later needs ok').epoch in
      let same = some-injective v v' (sym e ∙ e') in
      let epochs = ap pos_part (sym n ∙ ap J.get_int64 same ∙ n') in
      absurd (
        omega (
          arith,
          epochs,
          (Reach-Moves m).epoch,
          (Reach-Moves m').epoch,
          revoke_input-epoch lost small,
        ))
