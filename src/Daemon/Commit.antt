-- ===== src/Daemon/Commit.antt =====
-- When native/agentseatd.c submits a semantic action to the application.
use agent_seat.Prelude.{
  ℕ, ◌<◌, ◌≡◌, ◌⊎◌, inl, inr, refl, sym, ap, subst, arith, Bool, true, false, not, ◌&&◌, Option,
  none, some, List, CString, if_cases, ltb, ◌==◌, length, set, Bool-cases,
}
use agent_seat.Json.{JsonC}
use agent_seat.Input.Platform.{Xkb, Doubles}
use agent_seat.Daemon.State.{Daemon, Semantic, Operation}
use agent_seat.Daemon.Control.{finish_typing, finish_if, cancel_if, human_remaining_ms}
use agent_seat.Daemon.Actions.{
  all_leased, semantic_scope_complete, withdrawn, ask_authority, refused_authority, commit,
  advance_ready, advance_action, taken_at, advance_named, advance_worker, advance_semantic,
  last_named,
}

cancel_if-cases :
    (S : Semantic) (b : Bool) (o : Option (S.Worker)) (w : S.Worker)
    → o ≡ some w
    → (cancel_if S b o ≡ some w) ⊎ (cancel_if S b o ≡ some (S.cancel w))
cancel_if-cases S false o w e = inl e
cancel_if-cases S true o w e = inr (ap (cancel_if S true) e)

geometry_lem : (g v : ℕ) → (ltb 0 g && not (g == v)) ≡ false → (g ≡ 0) ⊎ (g ≡ v)
geometry_lem g v h = elim (Bool-cases (ltb 0 g)) [
  | inl e ↦ inr (ground arith)
  | inr e ↦ inl (ground arith)
]

module _ {X : Xkb} {D : Doubles} {J : JsonC} {S : Semantic} where
  -- What holds where an operation is submitted.
  pub record Committed (s : Daemon X D J S) (op : Operation) (w : S.Worker) (now later : ℕ)
      : Type 0 where
    pub in_progress : (op.active ≡ true) × (op.epoch ≡ s.control_epoch)
    pub on_offer : ((S.status w).busy ≡ true) × ((S.status w).ready ≡ true)
    pub undisturbed :
        (s.paused ≡ false) × (human_remaining_ms s now ≡ 0) × (s.input.human_held ≡ false)
    pub writer_live : (0 < length s.writer.id) × (later < s.writer.deadline)
    pub in_scope :
        (s.input.scene.truncated ≡ false) × (all_leased s.leases s.input.scene.windows ≡ true)
    pub in_place : (op.semantic_geometry ≡ 0) ⊎ (op.semantic_geometry ≡ s.input.scene.version)
    pub granted_now :
        (s.input.authorization_allowed ≡ true)
        × (s.input.authorization_token ≡ op.action_token)
        × (s.input.authorization_epoch ≡ op.epoch)
        × (s.input.gate_allowed ≡ true)
        × (s.input.control_epoch ≡ op.epoch)

  -- The worker is left alone or cancelled.
  abbrev Unsubmitted : S.Worker → Daemon X D J S → Type 0
  Unsubmitted w r = (r.semantic ≡ some w) ⊎ (r.semantic ≡ some (S.cancel w))

  finish-Unsubmitted :
      (s : Daemon X D J S) (w : S.Worker) (i : Option ℕ) (o : CString)
      → s.semantic ≡ some w
      → Unsubmitted w (finish_if s i o)
  finish-Unsubmitted s w none o e = inl e
  finish-Unsubmitted s w (some i) o e = cancel_if-cases S _ s.semantic w e

  -- What `advance_semantic` does to the worker.
  abbrev Decided :
      Daemon X D J S → Operation → S.Worker → ℕ → ℕ → S.Moment → Daemon X D J S → Type 0
  Decided s op w now later m r =
      (Unsubmitted w r) ⊎ ((r.semantic ≡ some (S.submit w m)) × Committed s op w now later)

  authority_lem :
      (s : Daemon X D J S) (op : Operation)
      → refused_authority s.input op ≡ false
      → (s.input.authorization_allowed ≡ true)
        × (s.input.authorization_epoch ≡ op.epoch)
        × (s.input.gate_allowed ≡ true)
        × (s.input.human_held ≡ false)
        × (s.input.control_epoch ≡ op.epoch)
  unfolding refused_authority
  authority_lem s op h = (ground arith, ground arith, ground arith, ground arith, ground arith)

  withdrawn_lem :
      (s : Daemon X D J S) (op : Operation) (now later : ℕ)
      → withdrawn s op now later ≡ false
      → (s.paused ≡ false)
        × (human_remaining_ms s now ≡ 0)
        × (op.epoch ≡ s.control_epoch)
        × (0 < length s.writer.id)
        × (later < s.writer.deadline)
        × (s.input.scene.truncated ≡ false)
        × (all_leased s.leases s.input.scene.windows ≡ true)
  unfolding withdrawn semantic_scope_complete
  withdrawn_lem s op now later h = (
    ground arith,
    ground arith,
    ground arith,
    ground arith,
    ground arith,
    ground arith,
    ground arith,
  )

  ready-Decided :
      (s : Daemon X D J S) (i : ℕ) (op : Operation) (w : S.Worker) (now later : ℕ) (m : S.Moment)
      → s.semantic ≡ some w
      → op.active ≡ true
      → (S.status w).busy ≡ true
      → withdrawn s op now later ≡ false
      → (S.status w).ready ≡ true
      → Decided s op w now later m (advance_ready s i op w m)
  unfolding advance_ready ask_authority commit finish_typing
  ready-Decided s i op w now later m e a b d r =
      let P = Decided s op w now later m in
      let (paused, human, epoch, id, live, whole, leased) = withdrawn_lem s op now later d in
      if_cases P (ltb 0 op.semantic_geometry && not (op.semantic_geometry == s.input.scene.version))
        (λ _. inl (finish-Unsubmitted _ w s.typing _ e))
        (λ g.
          if_cases P (op.action_token == 0) (λ _. inl (inl e))
            (λ _.
              if_cases P (not (s.input.authorization_token == op.action_token)) (λ _. inl (inl e))
                (λ t.
                  if_cases P (refused_authority s.input op)
                    (λ _. inl (finish-Unsubmitted s w s.typing _ e))
                    (λ q.
                      let (allowed, at, gate, held, control) = authority_lem s op q in
                      inr (
                        refl,
                        record {
                          in_progress = (a, epoch);
                          on_offer = (b, r);
                          undisturbed = (paused, human, held);
                          writer_live = (id, live);
                          in_scope = (whole, leased);
                          in_place = geometry_lem op.semantic_geometry s.input.scene.version g;
                          granted_now = (allowed, ground arith, at, gate, control);
                        },
                      )))))

  action-Decided :
      (s : Daemon X D J S) (i : ℕ) (op : Operation) (w : S.Worker) (now later : ℕ) (m : S.Moment)
      → s.semantic ≡ some w
      → Decided s op w now later m (advance_action s i op w now later m)
  unfolding advance_action finish_typing
  action-Decided s i op w now later m e =
      let P = Decided s op w now later m in
      if_cases P (not op.active) (λ _. inl (inl e))
        (λ a.
          if_cases P (not (S.status w).busy) (λ _. inl (finish-Unsubmitted s w s.typing _ e))
            (λ b.
              if_cases P (withdrawn s op now later) (λ _. inl (finish-Unsubmitted s w s.typing _ e))
                (λ d.
                  if_cases P (not (S.status w).ready) (λ _. inl (inl e))
                    (λ r.
                      ready-Decided s i op w now later m e (ground arith) (ground arith) d
                        (ground arith)))))

  same_state :
      (s : Daemon X D J S) (ops : List Operation) (op : Operation) (w : S.Worker) (now later : ℕ)
      → Committed (record s { operations = ops }) op w now later
      → Committed s op w now later
  unfolding human_remaining_ms
  same_state s ops op w now later c = record {
    in_progress = c.in_progress;
    on_offer = c.on_offer;
    undisturbed = c.undisturbed;
    writer_live = c.writer_live;
    in_scope = c.in_scope;
    in_place = c.in_place;
    granted_now = c.granted_now;
  }

  -- What `advance_semantic` may do with a worker.
  abbrev pub Advanced : Daemon X D J S → S.Worker → ℕ → ℕ → S.Moment → Daemon X D J S → Type 0
  Advanced s w now later m r =
      ((r.semantic ≡ some w) ⊎ (r.semantic ≡ some (S.cancel w)))
      ⊎ ((r.semantic ≡ some (S.submit w m))
          × ((i : ℕ) × (last_named s.operations s.semantic_operation_id ≡ some i)
              × Committed s (taken_at s i w) w now later))

  named-Advanced :
      (s : Daemon X D J S) (o : Option ℕ) (w : S.Worker) (now later : ℕ) (m : S.Moment)
      → s.semantic ≡ some w
      → last_named s.operations s.semantic_operation_id ≡ o
      → Advanced s w now later m (advance_named s o w now later m)
  named-Advanced s none w now later m e f = inl (inl e)
  named-Advanced s (some i) w now later m e f =
      let ops = set s.operations i (taken_at s i w) in
      elim (action-Decided (record s { operations = ops }) i (taken_at s i w) w now later m e) [
        | inl u ↦ inl u
        | inr (h, c) ↦ inr (h, (i, f, same_state s ops (taken_at s i w) w now later c))
      ]

  -- `advance_semantic` leaves the worker alone, cancels its action, or submits it; and it submits it only
  -- for the operation that the action belongs to, in progress in the current control epoch, while the
  -- worker offers it, the session is not paused, the human is not active and holds nothing, the write
  -- lease is live, every window of the scene is leased, the geometry that the request names is current,
  -- and the compositor has granted this operation's question in this epoch and still does.
  pub advance_semantic-Advanced :
      (s : Daemon X D J S) (w : S.Worker) (now later : ℕ) (m : S.Moment)
      → s.semantic ≡ some w
      → Advanced s w now later m (advance_semantic s now later m)
  unfolding advance_semantic
  advance_semantic-Advanced s w now later m e =
      subst (λ o. Advanced s w now later m (advance_worker s o now later m)) (sym e)
        (if_cases (Advanced s w now later m) (length s.semantic_operation_id == 0)
          (λ _. inl (inl e))
          (λ _.
            named-Advanced s (last_named s.operations s.semantic_operation_id) w now later m e
              refl))
