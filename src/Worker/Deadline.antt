-- ===== src/Worker/Deadline.antt =====
-- How long the daemon waits for the worker of native/agentseat-semantic.c.
use agent_seat.Prelude.{
  ℕ, ◌≤◌, ◌≡◌, sym, subst, ◌⊎◌, inl, inr, Bool-cases, arith, Bool, true, false, ◌&&◌, ◌||◌, not,
  if◌then◌else◌, if_cases, ltb,
}
use agent_seat.Prelude.Int.{ℤ, pos, negsuc, leb_ℤ, ltb_ℤ}
use agent_seat.Json.{JsonC}
use agent_seat.Worker.State.{Worker}
use agent_seat.Worker.Calls.{
  poll_wait, deadline_ms, as_semantic_prepare_poll, capped, expire, semantic_poll_max,
}

-- The timeout is a number of milliseconds up to a limit.
abbrev pub Within : ℕ → ℤ → Type 0
Within limit (pos n) = n ≤ limit
Within limit (negsuc n) = ⊥

clamped :
    (limit : ℕ) (granted : ℤ)
    → (f : ℕ) × (f ≤ limit)
      × ((if ltb_ℤ granted (pos 0) || ltb_ℤ (pos limit) granted then pos limit else granted)
          ≡ pos f)
clamped limit (pos n) = elim (Bool-cases (ltb limit n)) [
  | inl e ↦ (limit, omega arith, ground (arith, e))
  | inr e ↦ (n, ground (arith, e), ground (arith, e))
]
clamped limit (negsuc n) = (limit, omega arith, ground arith)

sooner :
    (limit f : ℕ) (timeout : ℤ)
    → f ≤ limit
    → Within limit (
        if leb_ℤ (pos 0) (pos f) && (ltb_ℤ timeout (pos 0) || ltb_ℤ (pos f) timeout)
        then pos f
        else timeout)
sooner limit f (pos n) h =
    if_cases (Within limit)
      (leb_ℤ (pos 0) (pos f) && (ltb_ℤ (pos n) (pos 0) || ltb_ℤ (pos f) (pos n))) {x = pos f}
      {y = pos n} (λ _. h) (λ e. ground (arith, e))
sooner limit f (negsuc n) h =
    if_cases (Within limit)
      (leb_ℤ (pos 0) (pos f) && (ltb_ℤ (negsuc n) (pos 0) || ltb_ℤ (pos f) (negsuc n))) {x = pos f}
      {y = negsuc n} (λ _. h) (λ e. ground (arith, e))

module _ {J : JsonC} where
  wait-Within :
      (w : Worker J) (later queried : ℕ) (pending : Bool) (wait timeout : ℤ)
      → (w.busy && not w.sent) ≡ true
      → let found = poll_wait w later queried pending wait in
        Within (deadline_ms w later) (
          if leb_ℤ (pos 0) found && (ltb_ℤ timeout (pos 0) || ltb_ℤ found timeout)
          then found
          else timeout)
  unfolding poll_wait
  wait-Within w later queried pending wait timeout h =
      let granted = if ltb semantic_poll_max queried || pending then pos 0 else wait in
      let (f, small, e) = clamped (deadline_ms w later) granted in
      let found : poll_wait w later queried pending wait ≡ pos f = ground (arith, h, e) in
      subst
        (λ (t : ℤ).
          Within (deadline_ms w later)
            (if leb_ℤ (pos 0) t && (ltb_ℤ timeout (pos 0) || ltb_ℤ t timeout) then t else timeout))
        (sym found) (sooner (deadline_ms w later) f timeout small)

  -- After `as_semantic_prepare_poll`, at most 16 descriptors are polled for the worker; and while an
  -- action is prepared or on offer, that is unless the worker is not busy or has sent the action, the
  -- daemon's poll ends by the action's deadline, whatever GLib and the daemon would have waited for.
  pub prepare_poll-Within :
      (w : Worker J) (now later : ℕ) (pending : Bool) (wait : ℤ) (queried : ℕ) (timeout : ℤ)
      → let r = as_semantic_prepare_poll w now later pending wait queried timeout in
        (r.1 ≤ semantic_poll_max)
        × (((r.0.busy && not r.0.sent) ≡ false) ⊎ Within (deadline_ms r.0 later) r.2)
  unfolding as_semantic_prepare_poll
  prepare_poll-Within w now later pending wait queried timeout =
      let after = capped (expire w now) queried in
      (
        ground arith,
        elim (Bool-cases (after.busy && not after.sent)) [
          | inl on_offer ↦ inr (wait-Within after later queried pending wait timeout on_offer)
          | inr none_left ↦ inl none_left
        ],
      )
