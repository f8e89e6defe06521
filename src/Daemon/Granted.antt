-- ===== src/Daemon/Granted.antt =====
-- A request that needs the writer reaches `dispatch` of native/agentseatd.c only with the current
-- write lease, at the current control epoch and scene, and while no operation is in progress.
use agent_seat.Prelude.{
  ℕ, ◌%◌, ◌^◌, ◌<◌, ◌≡◌, ◌≢◌, refl, arith, true, false, not, Option, none, some, CString, cstr,
  if_cases, ◌==◌, length, str_eq→eq, inl, inr, ◌⊎◌, ap,
}
use agent_seat.Prelude.Int.{ℤ, pos, negsuc, pos_part, leb_ℤ}
use agent_seat.Json.{JsonC}
use agent_seat.Input.Platform.{Xkb, Doubles}
use agent_seat.Input.Commands.{arm, geometry}
use agent_seat.Daemon.State.{Daemon, Semantic, Writer}
use agent_seat.Daemon.Params.{Code, Result, done, error, string_param, bounded_param}
use agent_seat.Daemon.Control.{method_needs_writer, require_writer, writer_check, current_writer}
use agent_seat.Daemon.Authority.{
  stale_version, version_of, current_epoch, is_busy, after_hold, admit_input, after_writer,
  authorize,
}

module _ {X : Xkb} {D : Doubles} {J : JsonC} {S : Semantic} where
  -- What a granted request shows, and what it changes.
  pub record Granted (s : Daemon X D J S) (params : J.Json) (now : ℕ) (r : Daemon X D J S)
      : Type 0 where
    pub has_writer : length s.writer.id ≢ 0
    pub in_time : now < s.writer.deadline
    pub controller : string_param J params (cstr "controller_id") false ≡ done s.writer.id
    pub lease : string_param J params (cstr "lease_id") false ≡ done s.writer.lease
    pub epoch :
        (v : J.Json) × (J.object_get params (cstr "control_epoch") ≡ some v)
        × (J.get_int64 v ≡ pos s.control_epoch)
    pub idle : s.typing ≡ none
    pub scene :
        (J.object_get params (cstr "geometry_version") ≡ none)
        ⊎ ((v : J.Json) × (J.object_get params (cstr "geometry_version") ≡ some v)
            × (J.get_int64 v ≡ pos s.input.scene.version))
    pub armed : r.input.submit_epoch ≡ s.control_epoch % 2 ^ 32
    pub same : r ≡ record s { input = r.input }

int_pos : (z : ℤ) (n : ℕ) → leb_ℤ (pos 0) z ≡ true → (pos_part z == n) ≡ true → z ≡ pos n
int_pos (pos m) n p e = ap pos (ground arith)
int_pos (negsuc m) n p e = absurd (ground arith)

int_above : (z : ℤ) (n : ℕ) → leb_ℤ z (pos 0) ≡ false → not (pos_part z == n) ≡ false → z ≡ pos n
int_above (pos m) n p e = ap pos (ground arith)
int_above (negsuc m) n p e = absurd (ground arith)

current_writer-eq :
    (w : Writer) (now : ℕ) (c l : CString)
    → current_writer w now c l ≡ true
    → (length w.id ≢ 0) × (now < w.deadline) × (c ≡ w.id) × (l ≡ w.lease)
current_writer-eq w now c l h = (
  ground arith,
  ground arith,
  str_eq→eq c w.id (ground arith),
  str_eq→eq l w.lease (ground arith),
)

module _ (J : JsonC) where
  current_epoch-value :
      (o : Option J.Json) (n : ℕ)
      → current_epoch J o n ≡ true
      → (v : J.Json) × (o ≡ some v) × (J.get_int64 v ≡ pos n)
  current_epoch-value none n h = cc
  current_epoch-value (some v) n h =
      (v, refl, int_pos (J.get_int64 v) n (ground arith) (ground arith))

  stale_version-value :
      (o : Option J.Json) (n : ℕ)
      → stale_version J o n ≡ false
      → (o ≡ none) ⊎ ((v : J.Json) × (o ≡ some v) × (J.get_int64 v ≡ pos n))
  stale_version-value none n h = inl refl
  stale_version-value (some v) n h =
      inr (v, refl, int_above (J.get_int64 v) n (ground arith) (ground arith))

is_busy-none : (t : Option ℕ) → is_busy t ≡ false → t ≡ none
is_busy-none none h = refl
is_busy-none (some i) h = cc

module _ {X : Xkb} {D : Doubles} {J : JsonC} {S : Semantic} where
  writer_check-none :
      (s : Daemon X D J S) (now : ℕ) (c l : Result CString)
      → writer_check s now c l ≡ none
      → (length s.writer.id ≢ 0)
        × (now < s.writer.deadline)
        × (c ≡ done s.writer.id)
        × (l ≡ done s.writer.lease)
  writer_check-none s now (error e) l h = cc
  writer_check-none s now (done c) (error e) h = cc
  writer_check-none s now (done c) (done l) h =
      let (id, time, ec, el) = current_writer-eq s.writer now c l (ground (arith, h)) in
      (id, time, ap done ec, ap done el)

  record Admitted (s : Daemon X D J S) (params : J.Json) (r : Daemon X D J S) : Type 0 where
    epoch :
        (v : J.Json) × (J.object_get params (cstr "control_epoch") ≡ some v)
        × (J.get_int64 v ≡ pos s.control_epoch)
    idle : s.typing ≡ none
    armed : r.input.submit_epoch ≡ s.control_epoch % 2 ^ 32
    same : r ≡ record s { input = r.input }

  after_hold-Admitted :
      (s : Daemon X D J S) (params : J.Json) (hold : Result ℕ)
      → current_epoch J (J.object_get params (cstr "control_epoch")) s.control_epoch ≡ true
      → is_busy s.typing ≡ false
      → (after_hold s hold).1 ≡ none
      → Admitted s params (after_hold s hold).0
  unfolding arm
  after_hold-Admitted s params (error e) epoch idle h = cc
  after_hold-Admitted s params (done ms) epoch idle h = record {
    epoch =
        current_epoch-value J (J.object_get params (cstr "control_epoch")) s.control_epoch epoch;
    idle = is_busy-none s.typing idle;
    armed = refl;
    same = refl;
  }

  abbrev Passes : (Daemon X D J S → Type 0) → Daemon X D J S × Option Code → Type 0
  Passes P r = r.1 ≡ none → P r.0

  admit_input-Admitted :
      (s : Daemon X D J S) (params : J.Json)
      → (admit_input s params).1 ≡ none
      → Admitted s params (admit_input s params).0
  unfolding admit_input
  admit_input-Admitted s params =
      if_cases (Passes (Admitted s params))
        (not (current_epoch J (J.object_get params (cstr "control_epoch")) s.control_epoch))
        (λ _ h. cc)
        (λ epoch.
          if_cases (Passes (Admitted s params)) (is_busy s.typing) (λ _ h. cc)
            (λ idle.
              after_hold-Admitted s params (bounded_param J params (cstr "hold_ms") 2000 100 10000)
                (ground (arith, epoch)) idle))

  after_writer-Granted :
      (s : Daemon X D J S) (params : J.Json) (now : ℕ) (version : ℕ) (check : Option Code)
      → stale_version J (J.object_get params (cstr "geometry_version")) s.input.scene.version
        ≡ false
      → writer_check s now
          (string_param J params (cstr "controller_id") false)
          (string_param J params (cstr "lease_id") false)
        ≡ check
      → (after_writer (record s { input = geometry s.input version }) params check).1 ≡ none
      → Granted s params now
          (after_writer (record s { input = geometry s.input version }) params check).0
  after_writer-Granted s params now version (some e) fresh writer h = cc
  after_writer-Granted s params now version none fresh writer h =
      let a = admit_input-Admitted (record s { input = geometry s.input version }) params h in
      let (id, time, controller, lease) =
        writer_check-none s now (string_param J params (cstr "controller_id") false)
          (string_param J params (cstr "lease_id") false) writer in
      record {
        has_writer = id;
        in_time = time;
        controller = controller;
        lease = lease;
        epoch = a.epoch;
        idle = a.idle;
        scene =
            stale_version-value J (J.object_get params (cstr "geometry_version"))
              s.input.scene.version fresh;
        armed = a.armed;
        same = a.same;
      }

  -- A request for a method that needs the writer passes the tests of `response_for` only if a
  -- writer is set and its deadline lies ahead, the request names this writer and its lease, its
  -- control_epoch is the current one, no operation is in progress, and a geometry_version, where it
  -- has one, is that of the current scene; then the input connection is armed with the current
  -- epoch and nothing else of the daemon's state has changed.
  pub authorize-Granted :
      (s : Daemon X D J S) (method : CString) (params : J.Json) (now : ℕ)
      → method_needs_writer method ≡ true
      → (authorize s method params now).1 ≡ none
      → Granted s params now (authorize s method params now).0
  unfolding authorize require_writer
  authorize-Granted s method params now needs =
      if_cases (Passes (Granted s params now)) (not (method_needs_writer method))
        (λ e. absurd (ground (arith, e, needs)))
        (λ _.
          if_cases (Passes (Granted s params now))
            (stale_version J (J.object_get params (cstr "geometry_version")) s.input.scene.version)
            (λ _ h. cc)
            (λ fresh.
              after_writer-Granted s params now
                (version_of J (J.object_get params (cstr "geometry_version")))
                (writer_check s now (string_param J params (cstr "controller_id") false)
                  (string_param J params (cstr "lease_id") false))
                fresh refl))
