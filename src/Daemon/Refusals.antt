-- ===== src/Daemon/Refusals.antt =====
-- How a semantic method of native/agentseatd.c is answered, for any worker.
use agent_seat.Prelude.{
  ℕ, ◌<◌, arith, ◌≡◌, refl, Bool, true, false, Option, none, some, CString, cstr, if_cases, ltb,
  length, ◌%◌, add_size, set, take,
}
use agent_seat.Json.{JsonC}
use agent_seat.Input.Platform.{Xkb, Doubles}
use agent_seat.Daemon.State.{Daemon, Semantic, Operation, max_operations}
use agent_seat.Daemon.Params.{
  Code, Result, guarded, done, error, invalid_params, semantic_busy, semantic_scope_incomplete,
  compositor_identity_unavailable, string_param, bounded_param,
}
use agent_seat.Daemon.Control.{require_active}
use agent_seat.Daemon.Names.{operation_name}
use agent_seat.Daemon.Typing.{start_operation}
use agent_seat.Daemon.Actions.{semantic_scope_complete}
use agent_seat.Daemon.Start.{
  after_start, worker_of, after_worker, after_timeout, after_ref, semantic_method,
}

module _ {X : Xkb} {D : Doubles} {J : JsonC} {S : Semantic} where
  -- The operation of an action that has just begun, in the slot that its number gives.
  pub record InSlot (s : Daemon X D J S) (method : CString) (now : ℕ) (r : Daemon X D J S)
      (op : Operation) : Type 0 where
    pub slot_eq : r.operations ≡ set s.operations (r.next_operation % max_operations) op
    pub typing_eq : r.typing ≡ some (r.next_operation % max_operations)
    pub id_eq : op.id ≡ operation_name s.session_id r.next_operation
    pub active_eq : op.active ≡ true
    pub semantic_eq : op.semantic ≡ true
    pub epoch_eq : op.epoch ≡ s.control_epoch
    pub outcome_eq : op.outcome ≡ cstr "running"
    pub counts : (op.count ≡ 1) × (op.submitted ≡ 0)
    pub none_sent : (op.semantic_sent ≡ false) × (op.semantic_replied ≡ false)
    pub deadline_eq : op.deadline_msec ≡ add_size now 15000
    pub kind_eq : op.semantic_kind ≡ take 39 method

  -- Why a semantic method is refused with this code.
  pub data Refusal (s : Daemon X D J S) (params : J.Json) (now : ℕ) (current : Option (S.Worker))
      : Code → Type 0 where
    not_active : {e : Code} → require_active s now ≡ some e → Refusal s params now current e
    not_complete :
        semantic_scope_complete s ≡ false → Refusal s params now current semantic_scope_incomplete
    no_ref :
        {e : Code}
        → string_param J params (cstr "node_ref") false ≡ error e
        → Refusal s params now current e
    long_ref :
        {ref : CString}
        → string_param J params (cstr "node_ref") false ≡ done ref
        → 200 < length ref
        → Refusal s params now current invalid_params
    bad_timeout :
        {e : Code}
        → bounded_param J params (cstr "timeout_ms") 5000 100 10000 ≡ error e
        → Refusal s params now current e
    no_compositor : current ≡ none → Refusal s params now current compositor_identity_unavailable

  -- How a request is answered, with `current` for the worker that it would use: it is refused and changes
  -- nothing, it finds the worker busy, or the action begins.
  pub data Answered (s : Daemon X D J S) (method : CString) (params : J.Json) (now : ℕ)
      (begin : S.Worker → S.Worker × Bool) (current : Option (S.Worker))
      : Daemon X D J S × Option Code → Type 0 where
    refuses :
        (e : Code)
        → Refusal s params now current e
        → Answered s method params now begin current (s, some e)
    finds_busy :
        (w w' : S.Worker)
        → current ≡ some w
        → begin w ≡ (w', false)
        → Answered s method params now begin current
            (record s { semantic = some w' }, some semantic_busy)
    begins :
        (w w' : S.Worker) (r : Daemon X D J S) (op : Operation)
        → current ≡ some w
        → begin w ≡ (w', true)
        → require_active s now ≡ none
        → semantic_scope_complete s ≡ true
        → InSlot s method now r op
        → r.semantic ≡ some w'
        → (r.next_operation ≡ add_size s.next_operation 1)
          × (r.semantic_operation_id ≡ operation_name s.session_id r.next_operation)
        → (r.input ≡ s.input) × (r.writer ≡ s.writer) × (r.control_epoch ≡ s.control_epoch)
        → Answered s method params now begin current (r, none)

  start-Answered :
      (s : Daemon X D J S) (method : CString) (params : J.Json) (now : ℕ)
      (begin : S.Worker → S.Worker × Bool) (current : Option (S.Worker)) (w : S.Worker)
      (b : S.Worker × Bool)
      → require_active s now ≡ none
      → semantic_scope_complete s ≡ true
      → current ≡ some w
      → begin w ≡ b
      → Answered s method params now begin current (after_start s method params now b)
  unfolding start_operation
  start-Answered s method params now begin current w (w', false) a c e f = finds_busy w w' e f
  start-Answered s method params now begin current w (w', true) a c e f =
      begins w w' _ _ e f a c
        (record {
          slot_eq = refl;
          typing_eq = refl;
          id_eq = refl;
          active_eq = refl;
          semantic_eq = refl;
          epoch_eq = refl;
          outcome_eq = refl;
          counts = (refl, refl);
          none_sent = (refl, refl);
          deadline_eq = refl;
          kind_eq = refl;
        })
        refl (refl, refl) (refl, refl, refl)

  worker-Answered :
      (s : Daemon X D J S) (method : CString) (params : J.Json) (now : ℕ)
      (begin : S.Worker → S.Worker × Bool) (current : Option (S.Worker))
      → require_active s now ≡ none
      → semantic_scope_complete s ≡ true
      → Answered s method params now begin current (after_worker s method params now begin current)
  worker-Answered s method params now begin none a c =
      refuses compositor_identity_unavailable (no_compositor refl)
  worker-Answered s method params now begin (some w) a c =
      start-Answered s method params now begin (some w) w (begin w) a c refl refl

  timeout-Answered :
      (s : Daemon X D J S) (method : CString) (params : J.Json) (now : ℕ)
      (begin : S.Worker → S.Worker × Bool) (fresh : Option (S.Worker)) (r : Result ℕ)
      → bounded_param J params (cstr "timeout_ms") 5000 100 10000 ≡ r
      → require_active s now ≡ none
      → semantic_scope_complete s ≡ true
      → Answered s method params now begin
          (worker_of s.semantic fresh)
          (after_timeout s method params now begin fresh r)
  timeout-Answered s method params now begin fresh (error e) b a c = refuses e (bad_timeout b)
  timeout-Answered s method params now begin fresh (done t) b a c =
      worker-Answered s method params now begin (worker_of s.semantic fresh) a c

  ref-Answered :
      (s : Daemon X D J S) (method : CString) (params : J.Json) (now : ℕ)
      (begin : S.Worker → S.Worker × Bool) (fresh : Option (S.Worker)) (r : Result CString)
      → string_param J params (cstr "node_ref") false ≡ r
      → require_active s now ≡ none
      → semantic_scope_complete s ≡ true
      → Answered s method params now begin
          (worker_of s.semantic fresh)
          (after_ref s method params now begin fresh r)
  ref-Answered s method params now begin fresh (error e) b a c = refuses e (no_ref b)
  ref-Answered s method params now begin fresh (done ref) b a c =
      if_cases (Answered s method params now begin (worker_of s.semantic fresh))
        (ltb 200 (length ref)) (λ long. refuses invalid_params (long_ref b (ground (arith, long))))
        (λ _.
          timeout-Answered s method params now begin fresh
            (bounded_param J params (cstr "timeout_ms") 5000 100 10000) refl a c)

  guarded-Answered :
      (s : Daemon X D J S) (method : CString) (params : J.Json) (now : ℕ)
      (begin : S.Worker → S.Worker × Bool) (current : Option (S.Worker)) (check : Option Code)
      (r : Daemon X D J S × Option Code)
      → require_active s now ≡ check
      → (check ≡ none → Answered s method params now begin current r)
      → Answered s method params now begin current (guarded check s r)
  guarded-Answered s method params now begin current none r b h = h refl
  guarded-Answered s method params now begin current (some e) r b h = refuses e (not_active b)

  pub semantic_method-Answered :
      (s : Daemon X D J S) (method : CString) (params : J.Json) (now : ℕ)
      (begin : S.Worker → S.Worker × Bool) (fresh : Option (S.Worker))
      → Answered s method params now begin
          (worker_of s.semantic fresh)
          (semantic_method s method params now begin fresh)
  unfolding semantic_method
  semantic_method-Answered s method params now begin fresh =
      guarded-Answered s method params now begin (worker_of s.semantic fresh) (require_active s now)
        _ refl
        (λ a.
          if_cases (Answered s method params now begin (worker_of s.semantic fresh))
            (semantic_scope_complete s)
            (λ c.
              ref-Answered s method params now begin fresh
                (string_param J params (cstr "node_ref") false) refl a c)
            (λ gone. refuses semantic_scope_incomplete (not_complete gone)))
