-- ===== src/Daemon/Steps.antt =====
-- The turns of the main loop of native/agentseatd.c and the requests on the write lease and the
-- keyboard, as a relation between the states of the daemon.
use agent_seat.Prelude.{ℕ, ◌+◌, ◌<◌, ◌^◌, Bool, Option, none, some, cstr}
use agent_seat.Json.{JsonC}
use agent_seat.Input.Platform.{Xkb, Doubles}
use agent_seat.Input.State.{Input}
use agent_seat.Daemon.State.{Daemon, Semantic}
use agent_seat.Daemon.Params.{Code}
use agent_seat.Daemon.Control.{revoke_input}
use agent_seat.Daemon.Authority.{authorize, acquire_control, release_control, expire_writer}
use agent_seat.Daemon.Typing.{keyboard_type, advance_typing}
use agent_seat.Daemon.Sync.{sync_control_state}

module _ {X : Xkb} {D : Doubles} {J : JsonC} {S : Semantic} where
  abbrev pub dispatch_type :
      J.Json → ℕ → Daemon X D J S × Option Code → Daemon X D J S × Option Code
  dispatch_type params now (s, some e) = (s, some e)
  dispatch_type params now (s, none) = keyboard_type s params now

  -- A request keyboard.type that the ledger admits: the tests of `response_for`, then `dispatch`.
  unfoldable pub type_request : Daemon X D J S → J.Json → ℕ → Daemon X D J S × Option Code
  type_request s params now =
      dispatch_type params now (authorize s (cstr "keyboard.type") params now)

  -- What happens between two states: the compositor's events change the input connection in any
  -- way. The control epoch does not reach the end of its 64 bits.
  pub data Step (s : Daemon X D J S) : Daemon X D J S → Type 0 where
    event : (input : Input X D) → Step s (record s { input = input })
    syncs : (now now_u32 : ℕ) → Step s (sync_control_state s now now_u32)
    advances :
        (now later : ℕ) (flushed : ℕ → Bool)
        → s.control_epoch + 1 < 2 ^ 64
        → Step s (advance_typing s now later flushed)
    expires : (now : ℕ) → s.control_epoch + 1 < 2 ^ 64 → Step s (expire_writer s now)
    revokes : s.control_epoch + 1 < 2 ^ 64 → Step s (revoke_input s)
    types : (params : J.Json) (now : ℕ) → Step s ((type_request s params now).0)
    acquires :
        (params : J.Json) (now : ℕ) (renew : Bool) → Step s ((acquire_control s params now renew).0)
    releases :
        (params : J.Json) (now : ℕ)
        → s.control_epoch + 1 < 2 ^ 64
        → Step s ((release_control s params now).0)

  -- Any number of steps.
  pub data Reach (s : Daemon X D J S) : Daemon X D J S → Type 0 where
    here : Reach s s
    next : {s' s'' : Daemon X D J S} → Reach s s' → Step s' s'' → Reach s s''
