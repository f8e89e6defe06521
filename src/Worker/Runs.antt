-- ===== src/Worker/Runs.antt =====
-- What holds of every run of the worker of native/agentseat-semantic.c: its phase, and how many actions
-- it has sent.
use agent_seat.Prelude.{
  ℕ, ◌+◌, ◌≤◌, ◌≡◌, refl, sym, ap, ◌∙◌, arith, Bool, true, false, ◌&&◌, not, Option, none, some, [],
  CString, cstr, if◌then◌else◌, if_cases, length, leb, ltb,
}
use agent_seat.Prelude.Int.{ℤ}
use agent_seat.Json.{JsonC}
use agent_seat.Worker.Process.{Processes, identity}
use agent_seat.Worker.State.{Libraries, Worker, Pending, acting, as_semantic_new, fail, str, number}
use agent_seat.Worker.Prepare.{File, receipt_file}
use agent_seat.Worker.Callbacks.{Reply, action_replied}
use agent_seat.Worker.Calls.{
  cleared, with_request, with_scope, as_semantic_start, can_submit, still_target,
  as_semantic_submit, is_prepared, as_semantic_cancel, expire, capped, as_semantic_prepare_poll,
  semantic_poll_max,
}
use agent_seat.Worker.Steps.{
  CallsBack, counted, Answer, connection, wrote, got_bytes, opened, bus_process, target_process,
  reply, handle, Step, starts, submits, cancels, polls, comes_back, Run, here, next,
}
use agent_seat.Worker.Phases.{Preparing, Phase, is_acting, at_rest, called_back, replied_back}
use agent_seat.Worker.Progress.{
  Progress, connected-Progress, written-Progress, read-Progress, bus-Progress, identity-Progress,
  target-Progress, reply-Phase, reply_keeps,
}
use agent_seat.Worker.Requests.{
  offered, ready_lem, start-Phase, submit-Phase, cancel-Phase, expire-Phase, capped-Phase,
}

-- The actions that the worker may still send.
abbrev pub open_actions : {J : JsonC} → Worker J → ℕ
open_actions w = if w.busy && not w.sent then 1 else 0

module _ {J : JsonC} where
  -- The actions that were sent, with those that may still be.
  abbrev pub total : Worker J → ℕ
  total w = length w.calls + open_actions w

  pub open_bound : (w : Worker J) → open_actions w ≤ 1
  open_bound w = if_cases (λ n. n ≤ 1) (w.busy && not w.sent) (λ _. omega arith) (λ _. omega arith)

  fail-total : (w : Worker J) (e : CString) → total (fail w e) ≤ total w
  unfolding fail
  fail-total w e = omega arith

  cancel-total : (w : Worker J) → total (as_semantic_cancel w) ≤ total w
  unfolding as_semantic_cancel fail
  cancel-total w =
      if_cases (λ (v : Worker J). total v ≤ total w) (not w.busy) (λ _. omega arith)
        (λ b.
          if_cases (λ (v : Worker J). total v ≤ total w) w.sent (λ s. omega arith)
            (λ s.
              if_cases (λ (v : Worker J). total v ≤ total w) (is_prepared w.stage)
                (λ p. omega arith) (λ p. omega arith)))

  expire-total : (w : Worker J) (now : ℕ) → total (expire w now) ≤ total w
  unfolding expire fail
  expire-total w now =
      if_cases (λ (v : Worker J). total v ≤ total w) (w.busy && not w.sent && leb w.deadline now)
        (λ _.
          if_cases (λ (v : Worker J). total v ≤ total w) w.ready (λ _. omega arith)
            (λ _. omega arith))
        (λ _. omega arith)

  capped-total : (w : Worker J) (queried : ℕ) → total (capped w queried) ≤ total w
  unfolding capped
  capped-total w queried =
      if_cases (λ (v : Worker J). total v ≤ total w) (ltb semantic_poll_max queried)
        (λ _. cancel-total w) (λ _. omega arith)

  pub request-calls :
      (w : Worker J) (bridge : ℤ) (scope : CString) (request : Option CString)
      → (with_request w bridge scope request).calls ≡ w.calls
  unfolding fail
  request-calls w bridge scope none = refl
  request-calls w bridge scope (some request) = refl

  pub scope-calls :
      (lib : Libraries J) (proc : Processes) (w : Worker J) (method : CString) (params : J.Json)
      (receipt : Option (J.Json)) (scope : Option CString)
      → (with_scope lib proc w method params receipt scope).calls ≡ w.calls
  unfolding fail
  scope-calls lib proc w method params receipt none = refl
  scope-calls lib proc w method params receipt (some scope) =
      let bridge = number J receipt (cstr "bridge_pid") in
      if_cases (λ (v : Worker J). v.calls ≡ w.calls)
        (identity proc bridge (str J receipt (cstr "bridge_start")) w.microhost_pid)
        (λ _. request-calls w bridge scope (lib.request_text params method scope w.session_id))
        (λ _. refl)

  start-total :
      (lib : Libraries J) (proc : Processes) (w : Worker J) (method : CString) (params : J.Json)
      (file : Option File) (now : ℕ)
      → let r = as_semantic_start lib proc w method params file now in
        total r.0 ≤ total w + counted r.1
  unfolding as_semantic_start cleared
  start-total lib proc w method params file now =
      if_cases (λ (r : Worker J × Bool). total r.0 ≤ total w + counted r.1) w.busy
        (λ _. omega arith)
        (λ b.
          let receipt = receipt_file lib file in
          let start = cleared w now (number J (some params) (cstr "timeout_ms")) in
          let v =
            with_scope lib proc start method params receipt (str J receipt (cstr "scope_id")) in
          omega (
            arith,
            open_bound v,
            ap length (
                scope-calls lib proc start method params receipt (str J receipt (cstr "scope_id"))),
          ))

module _ {J : JsonC} (lib : Libraries J) where
  -- What a call back does: no action is sent, and none is cancelled or made possible.
  pub record Back (w v : Worker J) : Type 0 where
    pub phase : Phase lib v
    pub calls_eq : v.calls ≡ w.calls
    pub cancelled_eq : v.cancelled ≡ w.cancelled
    pub sent_eq : v.sent ≡ w.sent
    pub was_busy : w.busy ≡ true
    pub open_le : open_actions v ≤ open_actions w

module _ {J : JsonC} {lib : Libraries J} where
  submit-total :
      (proc : Processes) (w : Worker J) (now : ℕ)
      → Phase lib w
      → total (as_semantic_submit proc w now) ≤ total w
  unfolding as_semantic_submit
  submit-total proc w now h =
      if_cases (λ (v : Worker J). total v ≤ total w) (can_submit w)
        (λ c.
          let o = offered w h (ready_lem w c) in
          if_cases (λ (v : Worker J). total v ≤ total w) (still_target proc w)
            (λ _. ground (arith, o.0, o.2)) (λ _. fail-total w (cstr "TARGET_IDENTITY_CHANGED")))
        (λ _. omega arith)

  back-Progress :
      (w : Worker J) (p : Pending) (answer : Answer p)
      → is_acting p ≡ false
      → Preparing lib w p
      → w.pending ≡ []
      → Progress lib w (handle lib w answer)
  unfolding handle
  back-Progress w p (connection peer) a h e = connected-Progress w peer h e
  back-Progress w p (wrote ok) a h e = written-Progress w ok h e
  back-Progress w p (got_bytes bytes) a h e = read-Progress w bytes h e
  back-Progress w p (opened proc bus) a h e = bus-Progress proc w bus h e
  back-Progress w p (bus_process proc pid) a h e = identity-Progress proc w pid h e
  back-Progress w p (target_process proc later pid) a h e = target-Progress proc later w pid h e
  back-Progress w p (reply r) a h e = absurd (ground (arith, a))

module _ {J : JsonC} {lib : Libraries J} where
  reply-Back :
      (w v : Worker J) (r : Reply)
      → Phase lib w
      → CallsBack w acting v
      → Back lib w (action_replied v r)
  reply-Back w v r h c =
      let (busy, e, sent, sent', replied, succeeded, calls, cancelled) = replied_back w v h c in
      let (calls', cancelled', same, ended) = reply_keeps v r in
      record {
        phase = reply-Phase v r sent (replied, succeeded) e;
        calls_eq = calls' ∙ calls;
        cancelled_eq = cancelled' ∙ cancelled;
        sent_eq = same ∙ (sent ∙ sym sent');
        was_busy = busy;
        open_le = ground (arith, ended);
      }

  preparation-Back :
      (w v : Worker J) (p : Pending) (answer : Answer p)
      → is_acting p ≡ false
      → Phase lib w
      → CallsBack w p v
      → Back lib w (handle lib v answer)
  preparation-Back w v p answer a h c =
      let (k, e, calls, cancelled, busy, sent) = called_back w v p a h c in
      let g = back-Progress v p answer a k e in
      record {
        phase = g.phase;
        calls_eq = g.calls_eq ∙ calls;
        cancelled_eq = g.cancelled_eq ∙ cancelled;
        sent_eq = g.sent_eq ∙ (k.unspoiled.2 ∙ sym sent);
        was_busy = busy;
        open_le = ground (arith, busy, sent, open_bound (handle lib v answer));
      }

  pub comes-Back :
      (w v : Worker J) (p : Pending) (answer : Answer p)
      → Phase lib w
      → CallsBack w p v
      → Back lib w (handle lib v answer)
  unfolding handle
  comes-Back w v p (connection peer) h c = preparation-Back w v p (connection peer) refl h c
  comes-Back w v p (wrote ok) h c = preparation-Back w v p (wrote ok) refl h c
  comes-Back w v p (got_bytes bytes) h c = preparation-Back w v p (got_bytes bytes) refl h c
  comes-Back w v p (opened proc bus) h c = preparation-Back w v p (opened proc bus) refl h c
  comes-Back w v p (bus_process proc pid) h c =
      preparation-Back w v p (bus_process proc pid) refl h c
  comes-Back w v p (target_process proc later pid) h c =
      preparation-Back w v p (target_process proc later pid) refl h c
  comes-Back w v p (reply r) h c = reply-Back w v r h c

  pub kept_in_order : (w v : Worker J) (k : ℕ) → Phase lib w → Step lib w k v → Phase lib v
  unfolding as_semantic_prepare_poll
  kept_in_order w v k h (starts proc method params file now) =
      start-Phase proc w method params file now h
  kept_in_order w v k h (submits proc now) = submit-Phase proc w now h
  kept_in_order w v k h cancels = cancel-Phase w h
  kept_in_order w v k h (polls now later pending wait queried timeout) =
      capped-Phase (expire w now) queried (expire-Phase w now h)
  kept_in_order w v k h (comes_back answer c) = (comes-Back w _ _ answer h c).phase

  pub tally_le : (w v : Worker J) (k : ℕ) → Phase lib w → Step lib w k v → total v ≤ total w + k
  unfolding as_semantic_prepare_poll
  tally_le w v k h (starts proc method params file now) =
      start-total lib proc w method params file now
  tally_le w v k h (submits proc now) = omega (arith, submit-total proc w now h)
  tally_le w v k h cancels = omega (arith, cancel-total w)
  tally_le w v k h (polls now later pending wait queried timeout) =
      omega (arith, expire-total w now, capped-total (expire w now) queried)
  tally_le w v k h (comes_back answer c) =
      let b = comes-Back w _ _ answer h c in omega (arith, b.open_le, ap length b.calls_eq)

  pub new-Phase :
      (session : CString) (microhost : ℤ) → Phase lib (as_semantic_new session microhost)
  unfolding as_semantic_new
  new-Phase session microhost = at_rest refl refl refl refl

  pub in_order : (w v : Worker J) (n : ℕ) → Phase lib w → Run lib w n v → Phase lib v
  in_order w v n h here = h
  in_order w v n h (next r s) = kept_in_order _ v _ (in_order w _ _ h r) s

  tally_le_all : (w v : Worker J) (n : ℕ) → Phase lib w → Run lib w n v → total v ≤ total w + n
  tally_le_all w v n h here = omega arith
  tally_le_all w v n h (next r s) =
      omega (arith, tally_le_all w _ _ h r, tally_le _ v _ (in_order w _ _ h r) s)

  -- In every run of the worker from `as_semantic_new` on, it has sent at most as many actions to
  -- applications as it has accepted, and one less while it may still send one.
  pub sent_at_most_once :
      (session : CString) (microhost : ℤ) (n : ℕ) (w : Worker J)
      → Run lib (as_semantic_new session microhost) n w
      → length w.calls + open_actions w ≤ n
  unfolding as_semantic_new
  sent_at_most_once session microhost n w r =
      omega (
        arith,
        tally_le_all (as_semantic_new session microhost) w n (new-Phase session microhost) r,
      )
