-- ===== src/Worker/Requests.antt =====
-- Each call of the daemon takes the worker of native/agentseat-semantic.c from one phase to another.
use agent_seat.Prelude.{
  ℕ, ◌≡◌, refl, sym, ap, ◌∙◌, arith, Bool, true, false, ◌&&◌, not, Option, none, some, [], ◌∷◌,
  CString, cstr, if_cases, leb, ltb,
}
use agent_seat.Prelude.Int.{ℤ}
use agent_seat.Json.{JsonC}
use agent_seat.Worker.Process.{Processes, identity}
use agent_seat.Worker.State.{
  Libraries, Worker, Pending, connecting, writing, reading, opening, asking_bus, asking_target,
  acting, str, number, preparing,
}
use agent_seat.Worker.Prepare.{File}
use agent_seat.Worker.Callbacks.{accepts}
use agent_seat.Worker.Calls.{
  cleared, with_request, with_scope, as_semantic_start, can_submit, still_target,
  as_semantic_submit, is_prepared, as_semantic_cancel, expire, capped, semantic_poll_max,
}
use agent_seat.Worker.Phases.{
  Unspoiled, stage_of, Phase, at_rest, in_preparation, on_offer, sent_off, fail-Phase,
}

busy_lem : (b : Bool) → not b ≡ false → b ≡ true
busy_lem true h = refl
busy_lem false h = sym h

module _ {J : JsonC} where
  pub ready_lem : (w : Worker J) → can_submit w ≡ true → w.ready ≡ true
  unfolding can_submit
  ready_lem w c = ground arith

module _ {J : JsonC} {lib : Libraries J} where
  -- A start that is accepted.
  request-Phase :
      (w : Worker J) (bridge : ℤ) (scope : CString) (request : Option CString)
      → Unspoiled w
      → w.bus ≡ false
      → w.stage ≡ preparing
      → w.packet ≡ none
      → w.pending ≡ []
      → Phase lib (with_request w bridge scope request)
  unfolding accepts str
  request-Phase w bridge scope none u b s k p = fail-Phase _ _ u.2 p
  request-Phase w bridge scope (some request) u b s k p =
      in_preparation connecting refl
        (record {
          unspoiled = u;
          bus_eq = b;
          stage_eq = s;
          packet_eq = ap (accepts lib (some scope)) k;
        })
        (ap (◌∷◌ connecting) p)

  scope-Phase :
      (proc : Processes) (w : Worker J) (method : CString) (params : J.Json)
      (receipt : Option (J.Json)) (scope : Option CString)
      → Unspoiled w
      → w.bus ≡ false
      → w.stage ≡ preparing
      → w.packet ≡ none
      → w.pending ≡ []
      → Phase lib (with_scope lib proc w method params receipt scope)
  scope-Phase proc w method params receipt none u b s k p = fail-Phase w _ u.2 p
  scope-Phase proc w method params receipt (some scope) u b s k p =
      let bridge = number J receipt (cstr "bridge_pid") in
      if_cases (Phase lib)
        (identity proc bridge (str J receipt (cstr "bridge_start")) w.microhost_pid)
        (λ _.
          request-Phase w bridge scope (lib.request_text params method scope w.session_id) u b s k
            p)
        (λ _. fail-Phase w (cstr "A11Y_SCOPE_UNAVAILABLE") u.2 p)

  resting_pending : (w : Worker J) → Phase lib w → w.busy ≡ false → w.pending ≡ []
  resting_pending w (at_rest b r e k) h = e
  resting_pending w (in_preparation q n u e) h = absurd (ground (arith, u.unspoiled.0, h))
  resting_pending w (on_offer b r e s n c u o g k) h = e
  resting_pending w (sent_off b r e s n) h = absurd (ground (arith, b, h))

  pub start-Phase :
      (proc : Processes) (w : Worker J) (method : CString) (params : J.Json) (file : Option File)
      (now : ℕ)
      → Phase lib w
      → Phase lib (as_semantic_start lib proc w method params file now).0
  unfolding as_semantic_start cleared
  start-Phase proc w method params file now v =
      if_cases (λ (r : Worker J × Bool). Phase lib r.0) w.busy (λ _. v)
        (λ b.
          scope-Phase proc (cleared w now (number J (some params) (cstr "timeout_ms"))) method
            params _ _ (refl, refl, refl, refl, refl, refl, refl) refl refl refl
            (resting_pending w v b))

  -- An action on offer.
  pub offered :
      (w : Worker J)
      → Phase lib w
      → w.ready ≡ true
      → (w.busy ≡ true)
        × (w.pending ≡ [])
        × (w.sent ≡ false)
        × (w.replied ≡ false)
        × (w.succeeded ≡ false)
        × (accepts lib w.scope_id w.packet ≡ true)
  offered w (at_rest b r e k) h = absurd (ground (arith, r, h))
  offered w (in_preparation q n u e) h = absurd (ground (arith, u.unspoiled.1, h))
  offered w (on_offer b r e s n c u o g k) h = (b, e, s, n.0, n.1, k)
  offered w (sent_off b r e s n) h = absurd (ground (arith, r, h))

  pub submit-Phase :
      (proc : Processes) (w : Worker J) (now : ℕ)
      → Phase lib w
      → Phase lib (as_semantic_submit proc w now)
  unfolding as_semantic_submit
  submit-Phase proc w now v =
      if_cases (Phase lib) (can_submit w)
        (λ c.
          let o = offered w v (ready_lem w c) in
          if_cases (Phase lib) (still_target proc w)
            (λ _. sent_off o.0 refl (ap (◌∷◌ acting) o.1) refl (o.3, o.4))
            (λ _. fail-Phase w (cstr "TARGET_IDENTITY_CHANGED") o.2 o.1))
        (λ _. v)

  cancelled_in_flight :
      (w : Worker J)
      → Phase lib w
      → w.busy ≡ true
      → w.sent ≡ true
      → Phase lib (record w { cancelled = true })
  cancelled_in_flight w (at_rest b r e k) h s = absurd (ground (arith, b, h))
  cancelled_in_flight w (in_preparation q n u e) h s = absurd (ground (arith, u.unspoiled.2, s))
  cancelled_in_flight w (on_offer b r e s' n c u o g k) h s = absurd (ground (arith, s, s'))
  cancelled_in_flight w (sent_off b r e s' n) h s = sent_off b r e s' n

  prepared_pending :
      (w : Worker J)
      → Phase lib w
      → w.busy ≡ true
      → w.sent ≡ false
      → is_prepared w.stage ≡ true
      → w.pending ≡ []
  prepared_pending w (at_rest b r e k) h s p = e
  prepared_pending w (in_preparation q n u e) h s p =
      absurd (not_prepared q (ap is_prepared (sym u.stage_eq) ∙ p))
    where
      not_prepared : (q : Pending) → is_prepared (stage_of q) ≡ true → ⊥
      not_prepared connecting h = ground (arith, h)
      not_prepared writing h = ground (arith, h)
      not_prepared reading h = ground (arith, h)
      not_prepared opening h = ground (arith, h)
      not_prepared asking_bus h = ground (arith, h)
      not_prepared asking_target h = ground (arith, h)
      not_prepared acting h = ground (arith, h)
  prepared_pending w (on_offer b r e s' n c u o g k) h s p = e
  prepared_pending w (sent_off b r e s' n) h s p = absurd (ground (arith, s, s'))

  cancelled_preparation :
      (w : Worker J)
      → Phase lib w
      → w.busy ≡ true
      → w.sent ≡ false
      → is_prepared w.stage ≡ false
      → Phase lib (record w { cancelled = true; ready = false; cancel_called = true })
  cancelled_preparation w (at_rest b r e k) h s p = absurd (ground (arith, b, h))
  cancelled_preparation w (in_preparation q n u e) h s p =
      let f = u.unspoiled in
      in_preparation q n
        (record {
          unspoiled = (f.0, refl, f.2, f.3, f.4, f.5, f.6);
          bus_eq = u.bus_eq;
          stage_eq = u.stage_eq;
          packet_eq = u.packet_eq;
        })
        e
  cancelled_preparation w (on_offer b r e s' n c u o g k) h s p = absurd (ground (arith, g, p))
  cancelled_preparation w (sent_off b r e s' n) h s p = absurd (ground (arith, s, s'))

  pub cancel-Phase : (w : Worker J) → Phase lib w → Phase lib (as_semantic_cancel w)
  unfolding as_semantic_cancel
  cancel-Phase w v =
      let unsent : Worker J = record w { cancelled = true; ready = false } in
      if_cases (Phase lib) (not w.busy) (λ _. v)
        (λ b.
          let h = busy_lem w.busy b in
          if_cases (Phase lib) w.sent (λ s. cancelled_in_flight w v h s)
            (λ s.
              if_cases (Phase lib) (is_prepared w.stage)
                (λ p. fail-Phase unsent (cstr "OPERATION_CANCELLED") s (prepared_pending w v h s p))
                (λ p. cancelled_preparation w v h s p)))

  called_off :
      (w : Worker J) → Phase lib w → w.ready ≡ false → Phase lib (record w { cancel_called = true })
  called_off w (at_rest b r e k) h = at_rest b r e k
  called_off w (in_preparation q n u e) h =
      in_preparation q n
        (record {
          unspoiled = u.unspoiled;
          bus_eq = u.bus_eq;
          stage_eq = u.stage_eq;
          packet_eq = u.packet_eq;
        })
        e
  called_off w (on_offer b r e s n c u o g k) h = absurd (ground (arith, r, h))
  called_off w (sent_off b r e s n) h = sent_off b r e s n

  pub expire-Phase : (w : Worker J) (now : ℕ) → Phase lib w → Phase lib (expire w now)
  unfolding expire
  expire-Phase w now v =
      if_cases (Phase lib) (w.busy && not w.sent && leb w.deadline now)
        (λ _.
          if_cases (Phase lib) w.ready
            (λ r. let o = offered w v r in fail-Phase w (cstr "PREPARATION_EXPIRED") o.2 o.1)
            (λ r. called_off w v r))
        (λ _. v)

  pub capped-Phase : (w : Worker J) (queried : ℕ) → Phase lib w → Phase lib (capped w queried)
  unfolding capped
  capped-Phase w queried v =
      if_cases (Phase lib) (ltb semantic_poll_max queried) (λ _. cancel-Phase w v) (λ _. v)
