-- ===== src/Daemon/Requests.antt =====
-- The requests and the compositor's reports keep a single operation in progress and never lower the
-- control epoch.
use agent_seat.Prelude.{
  ℕ, ◌+◌, ◌%◌, ◌^◌, ◌<◌, ◌≡◌, refl, arith, Bool, true, false, not, ◌&&◌, Option, none, some, List,
  CString, cstr, if_cases, if◌then◌else◌, ltb, leb, ◌==◌, length, get_or, subst, ap, ◌∙◌, add_size,
  str_eq,
}
use agent_seat.Json.{JsonC}
use agent_seat.Input.Platform.{Xkb, Doubles}
use agent_seat.Input.Seat.{Status}
use agent_seat.Input.Commands.{prepare_text, geometry}
use agent_seat.Daemon.State.{
  Daemon, Semantic, Operation, no_operation, max_operations, max_type_bytes,
}
use agent_seat.Daemon.Params.{Code, Result, guarded, done, error, string_param, bounded_param}
use agent_seat.Daemon.Control.{
  finish_typing, revoke_input, no_writer, require_focus_lease, require_active, require_writer,
  method_needs_writer, method_sends_input, method_is_semantic, one_of, has_prefix,
}
use agent_seat.Daemon.Authority.{
  stale_version, version_of, current_epoch, is_busy, after_hold, admit_input, after_writer,
  authorize, granted, after_ttl, after_owner, acquire_control, release_control, expire_writer,
}
use agent_seat.Daemon.Typing.{
  start_operation, text_operation, after_prepare, after_interval, after_text, keyboard_type,
  over_budget, text_len,
}
use agent_seat.Daemon.Sync.{
  sync_epoch, sync_gate, sync_scene, sync_if, sync_action, sync_control_state, confirmed,
}
use agent_seat.Daemon.OneOperation.{IsSingle, set_started}
use agent_seat.Daemon.Moves.{
  Moves, stays, chain, finish_typing-Moves, finish-Moves, with_input, revoke_input-Moves,
}
use agent_seat.Daemon.Granted.{Granted, authorize-Granted}
use agent_seat.Daemon.Steps.{dispatch_type, type_request}

needs_writer : method_needs_writer (cstr "keyboard.type") ≡ true
unfolding method_needs_writer method_sends_input method_is_semantic one_of has_prefix str_eq
needs_writer = refl

module _ {X : Xkb} {D : Doubles} {J : JsonC} {S : Semantic} where
  -- For the answer of a request.
  abbrev pub MovesTo : Daemon X D J S → Daemon X D J S × Option Code → Type 0
  MovesTo s r = Moves s (r.0)

  guarded-Moves :
      (o : Option Code) (s : Daemon X D J S) (r : Daemon X D J S × Option Code)
      → MovesTo s r
      → MovesTo s (guarded o s r)
  guarded-Moves none s r m = m
  guarded-Moves (some e) s r m = stays s

  start_operation-Moves :
      (s : Daemon X D J S) (op : Operation)
      → s.typing ≡ none
      → op.active ≡ true
      → Moves s (start_operation s op)
  unfolding start_operation
  start_operation-Moves s op e a = record {
    single = λ v.
        set_started s.operations (add_size s.next_operation 1 % max_operations) _
          (subst (IsSingle s.operations) e v) (omega arith) a;
    epoch = omega arith;
  }

  after_prepare-Moves :
      (s : Daemon X D J S) (interval now : ℕ) (text : Option (List ℕ) × Status)
      → s.typing ≡ none
      → MovesTo s (after_prepare s interval now text)
  after_prepare-Moves s interval now (none, status) e = stays s
  after_prepare-Moves s interval now (some cs, status) e =
      let m = start_operation-Moves s (text_operation s cs interval now) e refl in
      if_cases (MovesTo s) (over_budget (length cs) interval) (λ _. stays s)
        (λ _.
          if_cases (Moves s) (length cs == 0)
            (λ _.
              finish-Moves s (start_operation s (text_operation s cs interval now))
                (cstr "finished") m)
            (λ _. m))

  after_interval-Moves :
      (s : Daemon X D J S) (text : CString) (now : ℕ) (interval : Result ℕ)
      → s.typing ≡ none
      → MovesTo s (after_interval s text now interval)
  after_interval-Moves s text now (error e) t = stays s
  after_interval-Moves s text now (done interval) t =
      after_prepare-Moves s interval now (prepare_text s.input text) t

  after_text-Moves :
      (s : Daemon X D J S) (params : J.Json) (now : ℕ) (text : Result CString)
      → s.typing ≡ none
      → MovesTo s (after_text s params now text)
  after_text-Moves s params now (error e) t = stays s
  after_text-Moves s params now (done text) t =
      if_cases (MovesTo s) (ltb max_type_bytes (length text)) (λ _. stays s)
        (λ _.
          if_cases (MovesTo s) (not (text_len J (J.object_get params (cstr "text")) == length text))
            (λ _. stays s)
            (λ _.
              after_interval-Moves s text now
                (bounded_param J params (cstr "interval_ms") 4 0 10000) t))

  keyboard_type-Moves :
      (s : Daemon X D J S) (params : J.Json) (now : ℕ)
      → s.typing ≡ none
      → MovesTo s (keyboard_type s params now)
  unfolding keyboard_type
  keyboard_type-Moves s params now t =
      guarded-Moves (require_focus_lease s now) s
        (after_text s params now (string_param J params (cstr "text") true))
        (after_text-Moves s params now (string_param J params (cstr "text") true) t)

  -- The epoch's and the human's report, and a new scene.
  sync_epoch-Moves : (s : Daemon X D J S) → Moves s (sync_epoch s)
  unfolding sync_epoch
  sync_epoch-Moves s =
      if_cases (Moves s) (ltb s.control_epoch s.input.control_epoch)
        (λ e.
          let s' = record s { control_epoch = s.input.control_epoch; writer = no_writer } in
          with_input s (finish_typing s' (cstr "cancelled")) _ (
            finish-Moves s s' (cstr "cancelled")
              (record { single = λ v. v; epoch = ground (arith, e) })))
        (λ _. stays s)

  sync_gate-Moves : (s : Daemon X D J S) (now now_u32 : ℕ) → Moves s (sync_gate s now now_u32)
  unfolding sync_gate
  sync_gate-Moves s now now_u32 = record { single = λ v. v; epoch = omega arith }

  sync_scene-Moves : (s : Daemon X D J S) → Moves s (sync_scene s)
  unfolding sync_scene
  sync_scene-Moves s =
      if_cases (Moves s) (s.input.scene.version == s.scene_version) (λ _. stays s)
        (λ _. record { single = λ v. v; epoch = omega arith })

  sync_if-Moves : (s : Daemon X D J S) (t : Option ℕ) → Moves s (sync_if s t)
  sync_if-Moves s none = stays s
  sync_if-Moves s (some i) =
      let op = get_or s.operations i no_operation in
      if_cases (Moves s)
        (ltb 0 op.window_action && (s.input.window_action_token == op.action_token))
        (λ _.
          if_cases (Moves s) (ltb 0 s.input.window_action_status)
            (λ _. finish_typing-Moves s (cstr "rejected"))
            (λ _.
              if_cases (Moves s) (confirmed s.input.scene op)
                (λ _. finish_typing-Moves s (cstr "finished")) (λ _. stays s)))
        (λ _. stays s)

  pub sync_control_state-Moves :
      (s : Daemon X D J S) (now now_u32 : ℕ) → Moves s (sync_control_state s now now_u32)
  unfolding sync_control_state sync_action
  sync_control_state-Moves s now now_u32 =
      let gated = sync_gate (sync_epoch s) now now_u32 in
      let m = chain (sync_epoch-Moves s) (sync_gate-Moves (sync_epoch s) now now_u32) in
      let m' = chain m (sync_scene-Moves gated) in
      chain m' (sync_if-Moves (sync_scene gated) (sync_scene gated).typing)

  -- The write lease.
  pub expire_writer-Moves :
      (s : Daemon X D J S) (now : ℕ) → s.control_epoch + 1 < 2 ^ 64 → Moves s (expire_writer s now)
  unfolding expire_writer
  expire_writer-Moves s now small =
      if_cases (Moves s) (ltb 0 s.writer.deadline && leb s.writer.deadline now)
        (λ _. revoke_input-Moves s small) (λ _. stays s)

  pub release_control-Moves :
      (s : Daemon X D J S) (params : J.Json) (now : ℕ)
      → s.control_epoch + 1 < 2 ^ 64
      → MovesTo s (release_control s params now)
  unfolding release_control
  release_control-Moves s params now small =
      guarded-Moves (require_writer s params now) s (revoke_input s, none)
        (revoke_input-Moves s small)

  after_ttl-Moves :
      (s : Daemon X D J S) (params : J.Json) (now : ℕ) (renew : Bool) (owner : CString)
      (ttl : Result ℕ)
      → MovesTo s (after_ttl s params now renew owner ttl)
  after_ttl-Moves s params now renew owner (error e) = stays s
  after_ttl-Moves s params now renew owner (done ttl) =
      guarded-Moves (if renew then require_writer s params now else none) s _ (
        if_cases (MovesTo s) (not (length s.writer.id == 0) && not (str_eq s.writer.id owner))
          (λ _. stays s)
          (λ _.
            if_cases (Moves s) (length s.writer.id == 0)
              (λ _. record { single = λ v. v; epoch = omega arith })
              (λ _. record { single = λ v. v; epoch = omega arith })))

  after_owner-Moves :
      (s : Daemon X D J S) (params : J.Json) (now : ℕ) (renew : Bool) (owner : Result CString)
      → MovesTo s (after_owner s params now renew owner)
  after_owner-Moves s params now renew (error e) = stays s
  after_owner-Moves s params now renew (done owner) =
      after_ttl-Moves s params now renew owner
        (bounded_param J params (cstr "ttl_ms") 10000 100 30000)

  pub acquire_control-Moves :
      (s : Daemon X D J S) (params : J.Json) (now : ℕ) (renew : Bool)
      → MovesTo s (acquire_control s params now renew)
  unfolding acquire_control
  acquire_control-Moves s params now renew =
      guarded-Moves (require_active s now) s
        (after_owner s params now renew (string_param J params (cstr "controller_id") false))
        (after_owner-Moves s params now renew (string_param J params (cstr "controller_id") false))

  dispatch_type-Moves :
      (s : Daemon X D J S) (params : J.Json) (now : ℕ) (r : Daemon X D J S × Option Code)
      → (r.1 ≡ none → Granted s params now (r.0))
      → MovesTo s r
      → MovesTo s (dispatch_type params now r)
  dispatch_type-Moves s params now (r, some e) granted m = m
  dispatch_type-Moves s params now (r, none) granted m =
      let g = granted refl in
      chain m (keyboard_type-Moves r params now (ap (λ t. t.typing) g.same ∙ g.idle))

  after_hold-Moves : (s : Daemon X D J S) (hold : Result ℕ) → MovesTo s (after_hold s hold)
  after_hold-Moves s (error e) = stays s
  after_hold-Moves s (done ms) = with_input s s _ (stays s)

  admit_input-Moves : (s : Daemon X D J S) (params : J.Json) → MovesTo s (admit_input s params)
  unfolding admit_input
  admit_input-Moves s params =
      if_cases (MovesTo s)
        (not (current_epoch J (J.object_get params (cstr "control_epoch")) s.control_epoch))
        (λ _. stays s)
        (λ _.
          if_cases (MovesTo s) (is_busy s.typing) (λ _. stays s)
            (λ _. after_hold-Moves s (bounded_param J params (cstr "hold_ms") 2000 100 10000)))

  after_writer-Moves :
      (s : Daemon X D J S) (params : J.Json) (check : Option Code)
      → MovesTo s (after_writer s params check)
  after_writer-Moves s params (some e) = stays s
  after_writer-Moves s params none = admit_input-Moves s params

  authorize-Moves :
      (s : Daemon X D J S) (method : CString) (params : J.Json) (now : ℕ)
      → MovesTo s (authorize s method params now)
  unfolding authorize
  authorize-Moves s method params now =
      let version = J.object_get params (cstr "geometry_version") in
      let s' = record s { input = geometry s.input (version_of J version) } in
      if_cases (MovesTo s) (not (method_needs_writer method)) (λ _. stays s)
        (λ _.
          if_cases (MovesTo s) (stale_version J version s.input.scene.version) (λ _. stays s)
            (λ _.
              chain (with_input s s (s'.input) (stays s))
                (after_writer-Moves s' params (require_writer s' params now))))

  pub type_request-Moves :
      (s : Daemon X D J S) (params : J.Json) (now : ℕ) → MovesTo s (type_request s params now)
  unfolding type_request
  type_request-Moves s params now =
      dispatch_type-Moves s params now (authorize s (cstr "keyboard.type") params now)
        (authorize-Granted s (cstr "keyboard.type") params now needs_writer)
        (authorize-Moves s (cstr "keyboard.type") params now)
