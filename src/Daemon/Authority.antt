-- ===== src/Daemon/Authority.antt =====
-- What a request must show before native/agentseatd.c acts on it: the tests of `response_for` after
-- the ledger, and the methods control.acquire, control.renew and control.release.
use agent_seat.Prelude.{
  ℕ, ◌%◌, ◌^◌, Bool, true, false, not, ◌&&◌, ◌||◌, Option, none, some, CString, cstr, str_eq,
  if◌then◌else◌, ltb, leb, ◌==◌, length, take, add_size,
}
use agent_seat.Prelude.Int.{pos, pos_part, leb_ℤ}
use agent_seat.Json.{JsonC, is_int}
use agent_seat.Input.Platform.{Xkb, Doubles}
use agent_seat.Input.Commands.{arm, geometry, set_hold_timeout}
use agent_seat.Daemon.State.{Daemon, Semantic}
use agent_seat.Daemon.Params.{
  Code, Result, guarded, done, error, busy, stale_geometry, stale_control, write_lease_busy,
  string_param, bounded_param,
}
use agent_seat.Daemon.Names.{lease_name}
use agent_seat.Daemon.Control.{method_needs_writer, require_active, require_writer, revoke_input}

abbrev pub is_busy : Option ℕ → Bool
is_busy none = false
is_busy (some i) = true

module _ (J : JsonC) where
  -- The optional geometry_version of a request: absent, the scene's, or stale.
  abbrev pub stale_version : Option J.Json → ℕ → Bool
  stale_version none version = false
  stale_version (some v) version =
      not (is_int (J.type_of v))
      || leb_ℤ (J.get_int64 v) (pos 0)
      || not (pos_part (J.get_int64 v) == version)

  abbrev pub version_of : Option J.Json → ℕ
  version_of none = 0
  version_of (some v) = pos_part (J.get_int64 v) % 2 ^ 32

  abbrev pub current_epoch : Option J.Json → ℕ → Bool
  current_epoch none epoch = false
  current_epoch (some v) epoch =
      is_int (J.type_of v) && leb_ℤ (pos 0) (J.get_int64 v) && (pos_part (J.get_int64 v) == epoch)

module _ {X : Xkb} {D : Doubles} {J : JsonC} {S : Semantic} where
  abbrev pub after_hold : Daemon X D J S → Result ℕ → Daemon X D J S × Option Code
  after_hold s (error e) = (s, some e)
  after_hold s (done ms) =
      (record s { input = arm (set_hold_timeout s.input ms) (s.control_epoch % 2 ^ 32) }, none)

  -- The tests of `response_for` on a request that needs the writer, from the epoch on.
  unfoldable pub admit_input : Daemon X D J S → J.Json → Daemon X D J S × Option Code
  admit_input s params =
      if not (current_epoch J (J.object_get params (cstr "control_epoch")) s.control_epoch)
      then (s, some stale_control)
      else if is_busy s.typing
      then (s, some busy)
      else after_hold s (bounded_param J params (cstr "hold_ms") 2000 100 10000)

  abbrev pub after_writer : Daemon X D J S → J.Json → Option Code → Daemon X D J S × Option Code
  after_writer s params (some e) = (s, some e)
  after_writer s params none = admit_input s params

  -- The part of `response_for` between the ledger and `dispatch`.
  unfoldable pub authorize : Daemon X D J S → CString → J.Json → ℕ → Daemon X D J S × Option Code
  authorize s method params now =
      if not (method_needs_writer method)
      then (s, none)
      else (let version = J.object_get params (cstr "geometry_version") in
          if stale_version J version s.input.scene.version
          then (s, some stale_geometry)
          else (let s' = record s { input = geometry s.input (version_of J version) } in
              after_writer s' params (require_writer s' params now)))

  abbrev pub granted : Daemon X D J S → ℕ → CString → ℕ → Daemon X D J S
  granted s now owner ttl =
      if length s.writer.id == 0
      then (let n = add_size s.next_lease 1 in
          record s {
            writer = record {
              id = take 128 owner;
              lease = lease_name s.session_id n;
              deadline = add_size now ttl;
            };
            next_lease = n;
          })
      else record s { writer = record (s.writer) { deadline = add_size now ttl } }

  abbrev pub after_ttl :
      Daemon X D J S → J.Json → ℕ → Bool → CString → Result ℕ → Daemon X D J S × Option Code
  after_ttl s params now renew owner (error e) = (s, some e)
  after_ttl s params now renew owner (done ttl) =
      guarded (if renew then require_writer s params now else none) s (
        if not (length s.writer.id == 0) && not (str_eq s.writer.id owner)
        then (s, some write_lease_busy)
        else (granted s now owner ttl, none))

  abbrev pub after_owner :
      Daemon X D J S → J.Json → ℕ → Bool → Result CString → Daemon X D J S × Option Code
  after_owner s params now renew (error e) = (s, some e)
  after_owner s params now renew (done owner) =
      after_ttl s params now renew owner (bounded_param J params (cstr "ttl_ms") 10000 100 30000)

  -- control.acquire, and control.renew.
  unfoldable pub acquire_control : Daemon X D J S → J.Json → ℕ → Bool → Daemon X D J S × Option Code
  acquire_control s params now renew =
      guarded (require_active s now) s
        (after_owner s params now renew (string_param J params (cstr "controller_id") false))

  -- control.release.
  unfoldable pub release_control : Daemon X D J S → J.Json → ℕ → Daemon X D J S × Option Code
  release_control s params now = guarded (require_writer s params now) s (revoke_input s, none)

  -- The expiry of the write lease in the main loop.
  unfoldable pub expire_writer : Daemon X D J S → ℕ → Daemon X D J S
  expire_writer s now =
      if ltb 0 s.writer.deadline && leb s.writer.deadline now then revoke_input s else s
