-- ===== src/Daemon/Start.antt =====
-- The start of a semantic action in `dispatch` of native/agentseatd.c.
use agent_seat.Prelude.{
  ℕ, ◌-◌, ◌%◌, ◌^◌, Bool, true, false, Option, none, some, CString, cstr, if◌then◌else◌, ltb,
  length, take, add_size,
}
use agent_seat.Prelude.Int.{ℤ, pos, negsuc}
use agent_seat.Json.{JsonC}
use agent_seat.Input.Platform.{Xkb, Doubles}
use agent_seat.Daemon.State.{Daemon, Semantic, Operation, no_operation}
use agent_seat.Daemon.Params.{
  Code, Result, guarded, done, error, invalid_params, semantic_scope_incomplete,
  compositor_identity_unavailable, semantic_busy, string_param, bounded_param,
}
use agent_seat.Daemon.Names.{operation_name}
use agent_seat.Daemon.Control.{require_active}
use agent_seat.Daemon.Typing.{start_operation}
use agent_seat.Daemon.Actions.{semantic_scope_complete}

abbrev u32_of_long : ℤ → ℕ
u32_of_long (pos n) = n % 2 ^ 32
u32_of_long (negsuc n) = 2 ^ 32 - 1 - n % 2 ^ 32

abbrev geometry_of : (J : JsonC) → Option (J.Json) → ℕ
geometry_of J none = 0
geometry_of J (some v) = u32_of_long (J.get_int64 v)

-- The worker, which the first action makes; `fresh` is the one that is made, if the compositor's
-- process is known.
abbrev pub worker_of : {W : Type 0} → Option W → Option W → Option W
worker_of (some w) fresh = some w
worker_of none fresh = fresh

module _ {X : Xkb} {D : Doubles} {J : JsonC} {S : Semantic} where
  abbrev action_operation : Daemon X D J S → CString → J.Json → ℕ → Operation
  action_operation s method params now = record no_operation {
    semantic = true;
    count = 1;
    active = true;
    outcome = cstr "running";
    epoch = s.control_epoch;
    next_msec = add_size now 15000;
    deadline_msec = add_size now 15000;
    semantic_geometry = geometry_of J (J.object_get params (cstr "geometry_version"));
    semantic_kind = take 39 method;
    semantic_stage = cstr "preparing";
  }

  abbrev named : Daemon X D J S → Daemon X D J S
  named s = record s { semantic_operation_id = operation_name s.session_id s.next_operation }

  abbrev pub after_start :
      Daemon X D J S → CString → J.Json → ℕ → S.Worker × Bool → Daemon X D J S × Option Code
  after_start s method params now (w, false) = (record s { semantic = some w }, some semantic_busy)
  after_start s method params now (w, true) =
      let s' : Daemon X D J S = record s { semantic = some w } in
      (named (start_operation s' (action_operation s' method params now)), none)

  abbrev pub after_worker :
      Daemon X D J S
      → CString
      → J.Json
      → ℕ
      → (S.Worker → S.Worker × Bool)
      → Option (S.Worker)
      → Daemon X D J S × Option Code
  after_worker s method params now begin none = (s, some compositor_identity_unavailable)
  after_worker s method params now begin (some w) = after_start s method params now (begin w)

  abbrev pub after_timeout :
      Daemon X D J S
      → CString
      → J.Json
      → ℕ
      → (S.Worker → S.Worker × Bool)
      → Option (S.Worker)
      → Result ℕ
      → Daemon X D J S × Option Code
  after_timeout s method params now begin fresh (error e) = (s, some e)
  after_timeout s method params now begin fresh (done timeout) =
      after_worker s method params now begin (worker_of s.semantic fresh)

  abbrev pub after_ref :
      Daemon X D J S
      → CString
      → J.Json
      → ℕ
      → (S.Worker → S.Worker × Bool)
      → Option (S.Worker)
      → Result CString
      → Daemon X D J S × Option Code
  after_ref s method params now begin fresh (error e) = (s, some e)
  after_ref s method params now begin fresh (done ref) =
      if ltb 200 (length ref)
      then (s, some invalid_params)
      else after_timeout s method params now begin fresh
          (bounded_param J params (cstr "timeout_ms") 5000 100 10000)

  -- A semantic method in `dispatch`; `begin` is `as_semantic_start` on the request.
  unfoldable pub semantic_method :
      Daemon X D J S
      → CString
      → J.Json
      → ℕ
      → (S.Worker → S.Worker × Bool)
      → Option (S.Worker)
      → Daemon X D J S × Option Code
  semantic_method s method params now begin fresh = guarded (require_active s now) s (
      if semantic_scope_complete s
      then after_ref s method params now begin fresh (string_param J params (cstr "node_ref") false)
      else (s, some semantic_scope_incomplete))
