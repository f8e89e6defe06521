-- ===== src/Worker/Progress.antt =====
-- Each function that GIO calls back takes the worker of native/agentseat-semantic.c from one phase to
-- another, and sends no action.
use agent_seat.Prelude.{
  ℕ, ◌+◌, ◌≡◌, refl, sym, ap, subst, ◌∙◌, arith, Bool, true, false, ◌&&◌, ◌||◌, not, Option, none,
  some, List, [], ◌∷◌, ◌++◌, CString, cstr, if_cases, length, ltb, ◌==◌,
}
use agent_seat.Json.{JsonC}
use agent_seat.Prelude.Int.{eq_ℤ, int_of_u32}
use agent_seat.Worker.Process.{Processes, identity}
use agent_seat.Worker.State.{
  Libraries, Worker, Pending, connecting, writing, reading, opening, asking_bus, asking_target,
  connecting_bus, validating_bus, validating_target, str, number, fail, io_error,
}
use agent_seat.Worker.Prepare.{Method, method_of, with_method, with_kind, prepare_arguments}
use agent_seat.Worker.Callbacks.{
  Credentials, Bus, no_bus, not_unix, bus_of, Reply, failed, boolean, unit, other, connected,
  written, read_ready, with_failure, with_packet, bus_ready, bus_identity_ready, target_pid_ready,
  action_replied, accepts, call_later, peer_is, bus_peer, has_newline, target_ok, after_arguments,
  get_ready,
}
use agent_seat.Worker.Phases.{
  Preparing, Unspoiled, after_bus, after_packet, stage_of, Phase, is_acting, at_rest,
  in_preparation, on_offer, fail-Phase,
}

module _ {J : JsonC} (lib : Libraries J) where
  -- The worker is in a phase, and has sent and been told what another one has.
  pub record Progress (w v : Worker J) : Type 0 where
    pub phase : Phase lib v
    pub calls_eq : v.calls ≡ w.calls
    pub cancelled_eq : v.cancelled ≡ w.cancelled
    pub sent_eq : v.sent ≡ w.sent

module _ {J : JsonC} {lib : Libraries J} where
  -- `fail` of a worker that differs from another one in nothing of this.
  failed_before :
      (w v : Worker J) (e : CString)
      → w.sent ≡ false
      → v.pending ≡ []
      → v.calls ≡ w.calls
      → v.cancelled ≡ w.cancelled
      → v.sent ≡ w.sent
      → Progress lib w (fail v e)
  unfolding fail
  failed_before w v e s p c d q = record {
    phase = fail-Phase v e (q ∙ s) p;
    calls_eq = c;
    cancelled_eq = d;
    sent_eq = q;
  }

  -- Another call of the preparation is made.
  waits :
      (w v : Worker J) (p : Pending)
      → is_acting p ≡ false
      → Preparing lib v p
      → v.pending ≡ []
      → v.calls ≡ w.calls
      → v.cancelled ≡ w.cancelled
      → v.sent ≡ w.sent
      → Progress lib w (call_later p v)
  waits w v p a h e c d q = record {
    phase =
        in_preparation p a
          (record {
            unspoiled = h.unspoiled;
            bus_eq = h.bus_eq;
            stage_eq = h.stage_eq;
            packet_eq = h.packet_eq;
          })
          (ap (◌∷◌ p) e);
    calls_eq = c;
    cancelled_eq = d;
    sent_eq = q;
  }

  -- What is prepared does not depend on what else changes.
  prepared_for :
      (v : Worker J) (p : Pending)
      → Unspoiled v
      → v.bus ≡ after_bus p
      → v.stage ≡ stage_of p
      → accepts lib v.scope_id v.packet ≡ after_packet p
      → Preparing lib v p
  prepared_for v p u b s k = record { unspoiled = u; bus_eq = b; stage_eq = s; packet_eq = k }

  pub connected-Progress :
      (w : Worker J) (peer : Option (Option Credentials))
      → Preparing lib w connecting
      → w.pending ≡ []
      → Progress lib w (connected lib w peer)
  unfolding connected io_error
  connected-Progress w none h p =
      failed_before w (record w { socket = false }) _ h.unspoiled.2 p refl refl refl
  connected-Progress w (some peer) h p =
      let v : Worker J = record w { socket = true } in
      if_cases (Progress lib w) (peer_is lib.uid w.bridge_pid peer)
        (λ _.
          waits w v writing refl
            (prepared_for v writing h.unspoiled h.bus_eq h.stage_eq h.packet_eq) p refl refl refl)
        (λ _. failed_before w v (cstr "BRIDGE_PEER_MISMATCH") h.unspoiled.2 p refl refl refl)

  pub written-Progress :
      (w : Worker J) (ok : Bool)
      → Preparing lib w writing
      → w.pending ≡ []
      → Progress lib w (written w ok)
  unfolding written io_error
  written-Progress w true h p =
      waits w w reading refl (prepared_for w reading h.unspoiled h.bus_eq h.stage_eq h.packet_eq) p
        refl refl refl
  written-Progress w false h p = failed_before w w _ h.unspoiled.2 p refl refl refl

  -- A worker that failed, and whose socket is closed.
  closed_after :
      (w v : Worker J) (e : CString)
      → w.sent ≡ false
      → v.pending ≡ []
      → v.calls ≡ w.calls
      → v.cancelled ≡ w.cancelled
      → v.sent ≡ w.sent
      → Progress lib w (record (fail v e) { socket = false })
  unfolding fail
  closed_after w v e s p c d q = record {
    phase = at_rest refl refl p (ground (arith, q ∙ s));
    calls_eq = c;
    cancelled_eq = d;
    sent_eq = q;
  }

  packet-Progress :
      (w v : Worker J) (packet : Option (J.Json))
      → Unspoiled v
      → v.bus ≡ false
      → w.sent ≡ false
      → v.pending ≡ []
      → v.calls ≡ w.calls
      → v.cancelled ≡ w.cancelled
      → v.sent ≡ w.sent
      → Progress lib w (with_packet lib v packet)
  packet-Progress w v packet u b s p c d q =
      if_cases (Progress lib w) (accepts lib v.scope_id packet)
        (λ e.
          let received : Worker J = record v { packet = packet; socket = false } in
          let v' : Worker J = record received { stage = connecting_bus } in
          if_cases (Progress lib w) v.busy
            (λ _. waits w v' opening refl (prepared_for v' opening u b refl e) p c d q)
            (λ gone. absurd (ground (arith, u.0, gone))))
        (λ _. closed_after w v _ s p c d q)

  failure-Progress :
      (w v : Worker J) (response failure : Option (J.Json))
      → Unspoiled v
      → v.bus ≡ false
      → w.sent ≡ false
      → v.pending ≡ []
      → v.calls ≡ w.calls
      → v.cancelled ≡ w.cancelled
      → v.sent ≡ w.sent
      → Progress lib w (with_failure lib v response failure)
  failure-Progress w v response none u b s p c d q = packet-Progress w v _ u b s p c d q
  failure-Progress w v response (some failure) u b s p c d q = closed_after w v _ s p c d q

  pub read-Progress :
      (w : Worker J) (bytes : Option (List ℕ))
      → Preparing lib w reading
      → w.pending ≡ []
      → Progress lib w (read_ready lib w bytes)
  unfolding read_ready io_error
  read-Progress w none h p = failed_before w w _ h.unspoiled.2 p refl refl refl
  read-Progress w (some bytes) h p =
      let incoming = w.incoming ++ bytes in
      if_cases (Progress lib w)
        ((length bytes == 0) || ltb 65536 (length w.incoming + length bytes))
        (λ _. failed_before w w _ h.unspoiled.2 p refl refl refl)
        (λ _.
          if_cases (Progress lib w) (not (has_newline incoming))
            (λ _.
              let v : Worker J = record w { incoming = incoming } in
              waits w v reading refl
                (prepared_for v reading h.unspoiled h.bus_eq h.stage_eq h.packet_eq) p refl refl
                refl)
            (λ _.
              failure-Progress w (record w { incoming = incoming ++ (0 ∷ []) }) _ _ h.unspoiled
                h.bus_eq h.unspoiled.2 p refl refl refl))

  pub bus-Progress :
      (proc : Processes) (w : Worker J) (bus : Bus)
      → Preparing lib w opening
      → w.pending ≡ []
      → Progress lib w (bus_ready lib proc w bus)
  unfolding bus_ready io_error
  bus-Progress proc w no_bus h p =
      failed_before w (record w { bus = false }) _ h.unspoiled.2 p refl refl refl
  bus-Progress proc w not_unix h p =
      failed_before w (record w { bus = true }) _ h.unspoiled.2 p refl refl refl
  bus-Progress proc w (bus_of peer) h p =
      if_cases (Progress lib w) (not (bus_peer lib proc w peer))
        (λ _. failed_before w (record w { bus = true }) _ h.unspoiled.2 p refl refl refl)
        (λ _.
          if_cases (Progress lib w) w.cancelled
            (λ _. failed_before w (record w { bus = true }) _ h.unspoiled.2 p refl refl refl)
            (λ _.
              let v : Worker J = record w { bus = true; stage = validating_bus } in
              waits w v asking_bus refl
                (prepared_for v asking_bus h.unspoiled refl refl h.packet_eq) p refl refl refl))

  pub identity-Progress :
      (proc : Processes) (w : Worker J) (pid : Option ℕ)
      → Preparing lib w asking_bus
      → w.pending ≡ []
      → Progress lib w (bus_identity_ready proc w pid)
  unfolding bus_identity_ready io_error
  identity-Progress proc w none h p = failed_before w w _ h.unspoiled.2 p refl refl refl
  identity-Progress proc w (some pid) h p =
      if_cases (Progress lib w)
        (not (
          eq_ℤ (int_of_u32 pid) (number J w.packet (cstr "bus_pid"))
          && identity proc (int_of_u32 pid) (str J w.packet (cstr "bus_start")) w.bridge_pid))
        (λ _. failed_before w w _ h.unspoiled.2 p refl refl refl)
        (λ _.
          if_cases (Progress lib w) w.cancelled
            (λ _. failed_before w w _ h.unspoiled.2 p refl refl refl)
            (λ _.
              let v : Worker J = record w { stage = validating_target } in
              waits w v asking_target refl
                (prepared_for v asking_target h.unspoiled h.bus_eq refl h.packet_eq) p refl refl
                refl))

  method-Progress :
      (w : Worker J) (m : Option (Method J))
      → Preparing lib w asking_target
      → w.pending ≡ []
      → w.cancelled ≡ false
      → Progress lib w (after_arguments (with_method w m))
  unfolding fail
  method-Progress w none h p c =
      failed_before w (record w { interface = none }) (cstr "INVALID_PREPARED_ACTION") h.unspoiled.2
        p refl refl refl
  method-Progress w (some m) h p c =
      let u = h.unspoiled in
      record {
        phase = on_offer u.0 refl p u.2 (u.3, u.4) c h.bus_eq u.5 refl h.packet_eq;
        calls_eq = refl;
        cancelled_eq = refl;
        sent_eq = refl;
      }

  kind-Progress :
      (w : Worker J) (action : Option (J.Json)) (kind : Option CString)
      → Preparing lib w asking_target
      → w.pending ≡ []
      → w.cancelled ≡ false
      → Progress lib w (after_arguments (with_kind lib w action kind))
  unfolding fail
  kind-Progress w action none h p c =
      let e = cstr "INVALID_PREPARED_ACTION" in
      subst (λ i. Progress lib w (get_ready (fail w e) i)) (sym h.unspoiled.6)
        (failed_before w w e h.unspoiled.2 p refl refl refl)
  kind-Progress w action (some kind) h p c = method-Progress w (method_of lib action kind) h p c

  pub target-Progress :
      (proc later : Processes) (w : Worker J) (pid : Option ℕ)
      → Preparing lib w asking_target
      → w.pending ≡ []
      → Progress lib w (target_pid_ready lib proc later w pid)
  unfolding target_pid_ready io_error prepare_arguments
  target-Progress proc later w none h p = failed_before w w _ h.unspoiled.2 p refl refl refl
  target-Progress proc later w (some pid) h p =
      if_cases (Progress lib w) w.cancelled
        (λ _. failed_before w w _ h.unspoiled.2 p refl refl refl)
        (λ c.
          if_cases (Progress lib w) (not (target_ok proc later w (int_of_u32 pid)))
            (λ _. failed_before w w _ h.unspoiled.2 p refl refl refl)
            (λ _. kind-Progress w _ _ h p c))

  -- The reply ends the action.
  pub reply-Phase :
      (w : Worker J) (reply : Reply)
      → w.sent ≡ true
      → (w.replied ≡ false) × (w.succeeded ≡ false)
      → w.pending ≡ []
      → Phase lib (action_replied w reply)
  unfolding action_replied
  reply-Phase w (failed remote) s n p = at_rest refl refl p (ground (arith, s, n.1))
  reply-Phase w (boolean b) s n p = at_rest refl refl p (ground (arith, s))
  reply-Phase w unit s n p = at_rest refl refl p (ground (arith, s))
  reply-Phase w other s n p = at_rest refl refl p (ground (arith, s))

module _ {J : JsonC} where
  pub reply_keeps :
      (w : Worker J) (reply : Reply)
      → ((action_replied w reply).calls ≡ w.calls)
        × ((action_replied w reply).cancelled ≡ w.cancelled)
        × ((action_replied w reply).sent ≡ w.sent)
        × ((action_replied w reply).busy ≡ false)
  unfolding action_replied
  reply_keeps w (failed remote) = (refl, refl, refl, refl)
  reply_keeps w (boolean b) = (refl, refl, refl, refl)
  reply_keeps w unit = (refl, refl, refl, refl)
  reply_keeps w other = (refl, refl, refl, refl)
