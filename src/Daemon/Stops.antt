-- ===== src/Daemon/Stops.antt =====
-- What seat.pause and seat.destroy leave behind.
use agent_seat.Prelude.{ℕ, ◌≡◌, ◌≢◌, refl, arith, true, Option, none, some, CString, cstr}
use agent_seat.Json.{JsonC}
use agent_seat.Input.Platform.{Xkb, Doubles}
use agent_seat.Input.State.{Input}
use agent_seat.Input.Seat.{Status, ok, failed}
use agent_seat.Input.Seat as Seat
use agent_seat.Daemon.State.{Daemon, Semantic}
use agent_seat.Daemon.Params.{Code, guarded}
use agent_seat.Daemon.Control.{
  finish_typing, finish_if, revoke_input, no_writer, require_created, require_active,
}
use agent_seat.Daemon.Methods.{after_switch, seat_pause}

module _ {X : Xkb} {D : Doubles} {J : JsonC} {S : Semantic} where
  -- No operation, no writer, and no request passes `require_active`.
  pub record Stopped (r : Daemon X D J S) (now : ℕ) : Type 0 where
    pub idle : r.typing ≡ none
    pub no_lease : r.writer ≡ no_writer
    pub refused : require_active r now ≢ none

  finish_if-typing :
      (s : Daemon X D J S) (t : Option ℕ) (o : CString)
      → s.typing ≡ t
      → (finish_if s t o).typing ≡ none
  finish_if-typing s none o e = e
  finish_if-typing s (some i) o e = refl

  finish_if-writer :
      (s : Daemon X D J S) (t : Option ℕ) (o : CString) → (finish_if s t o).writer ≡ s.writer
  finish_if-writer s none o = refl
  finish_if-writer s (some i) o = refl

  revoke_input-typing : (s : Daemon X D J S) → (revoke_input s).typing ≡ none
  unfolding revoke_input finish_typing
  revoke_input-typing s = finish_if-typing _ s.typing (cstr "cancelled") refl

  revoke_input-writer : (s : Daemon X D J S) → (revoke_input s).writer ≡ no_writer
  unfolding revoke_input finish_typing
  revoke_input-writer s = finish_if-writer _ s.typing (cstr "cancelled")

  paused-refused : (r : Daemon X D J S) (now : ℕ) → r.paused ≡ true → require_active r now ≢ none
  unfolding require_active require_created
  paused-refused r now p e = absurd (ground (arith, p, e))

  after_switch-Stopped :
      (s r : Daemon X D J S) (now : ℕ) (answer : Input X D × Status)
      → s.typing ≡ none
      → s.writer ≡ no_writer
      → (after_switch s true answer).1 ≡ none
      → Stopped (after_switch s true answer).0 now
  after_switch-Stopped s r now (input, ok) t w h = record {
    idle = t;
    no_lease = w;
    refused = paused-refused (record s { input = input; paused = true }) now refl;
  }
  after_switch-Stopped s r now (input, failed f) t w h = cc

  guarded-Stopped :
      (o : Option Code) (s : Daemon X D J S) (r : Daemon X D J S × Option Code) (now : ℕ)
      → (r.1 ≡ none → Stopped r.0 now)
      → (guarded o s r).1 ≡ none
      → Stopped (guarded o s r).0 now
  guarded-Stopped none s r now f h = f h
  guarded-Stopped (some e) s r now f h = cc

  -- When seat.pause succeeds, no operation is in progress and no controller holds the write lease
  -- any more, and no request passes `require_active`, at any time.
  pub seat_pause-Stopped :
      (s : Daemon X D J S) (now : ℕ) → (seat_pause s).1 ≡ none → Stopped (seat_pause s).0 now
  unfolding seat_pause
  seat_pause-Stopped s now =
      let s' = revoke_input s in
      guarded-Stopped (require_created s) s (after_switch s' true (Seat.pause s'.input)) now (
        after_switch-Stopped s' s' now (Seat.pause s'.input) (revoke_input-typing s)
          (revoke_input-writer s))
