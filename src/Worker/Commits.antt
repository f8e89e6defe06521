-- ===== src/Worker/Commits.antt =====
-- Which actions the worker of native/agentseat-semantic.c sends, and when it sends none.
use agent_seat.Prelude.{
  ℕ, ◌≡◌, ◌⊎◌, inl, inr, refl, sym, ap, subst, ◌∙◌, arith, Bool, true, false, ◌&&◌, ◌||◌, not,
  Option, some, List, [], ◌∷◌, CString, cstr, if_cases, Bool-cases, length, leb, ltb,
}
use agent_seat.Prelude.Int.{ℤ}
use agent_seat.Json.{JsonC}
use agent_seat.Worker.Process.{Processes}
use agent_seat.Worker.State.{
  Libraries, Worker, Call, as_semantic_new, fail, str, number, in_flight, rejected,
}
use agent_seat.Worker.Prepare.{File, receipt_file}
use agent_seat.Worker.Callbacks.{accepts, text_passes, has_colon}
use agent_seat.Worker.Calls.{
  cleared, as_semantic_start, call_of, can_submit, still_target, as_semantic_submit, is_prepared,
  as_semantic_cancel, expire, capped, as_semantic_prepare_poll, semantic_poll_max,
}
use agent_seat.Worker.Steps.{Step, starts, submits, cancels, polls, comes_back, Run, here, next}
use agent_seat.Worker.Phases.{Phase, at_rest, in_preparation, on_offer, sent_off}
use agent_seat.Worker.Requests.{offered, ready_lem, cancel-Phase}
use agent_seat.Worker.Runs.{scope-calls, comes-Back, in_order, new-Phase}

module _ {J : JsonC} where
  -- No action is under way that may still be sent.
  abbrev pub Spent : Worker J → Type 0
  Spent w = (w.cancelled || w.sent || not w.busy) ≡ true

  -- A worker that sends no action, and none later.
  abbrev Stays : Worker J → Worker J → Type 0
  Stays w v = Spent v × (v.calls ≡ w.calls)

  uncancelled : (w : Worker J) → can_submit w ≡ true → (w.cancelled ≡ false) × (w.sent ≡ false)
  unfolding can_submit
  uncancelled w c = (ground arith, ground arith)

  pub cancel-Spent : (w : Worker J) → Stays w (as_semantic_cancel w)
  unfolding as_semantic_cancel fail
  cancel-Spent w =
      if_cases (Stays w) (not w.busy) (λ b. (ground (arith, b), refl))
        (λ b.
          if_cases (Stays w) w.sent (λ s. (ground arith, refl))
            (λ s.
              if_cases (Stays w) (is_prepared w.stage) (λ p. (ground arith, refl))
                (λ p. (ground arith, refl))))

  expire-Spent : (w : Worker J) (now : ℕ) → Spent w → Stays w (expire w now)
  unfolding expire fail
  expire-Spent w now h =
      if_cases (Stays w) (w.busy && not w.sent && leb w.deadline now)
        (λ _. if_cases (Stays w) w.ready (λ _. (ground arith, refl)) (λ _. (h, refl)))
        (λ _. (h, refl))

  capped-Spent : (w : Worker J) (queried : ℕ) → Spent w → Stays w (capped w queried)
  unfolding capped
  capped-Spent w queried h =
      if_cases (Stays w) (ltb semantic_poll_max queried) (λ _. cancel-Spent w) (λ _. (h, refl))

  start-Spent :
      (lib : Libraries J) (proc : Processes) (w : Worker J) (method : CString) (params : J.Json)
      (file : Option File) (now : ℕ)
      → (as_semantic_start lib proc w method params file now).1 ≡ false
      → (as_semantic_start lib proc w method params file now).0 ≡ w
  unfolding as_semantic_start
  start-Spent lib proc w method params file now = ground arith

  pub start-calls :
      (lib : Libraries J) (proc : Processes) (w : Worker J) (method : CString) (params : J.Json)
      (file : Option File) (now : ℕ)
      → (as_semantic_start lib proc w method params file now).0.calls ≡ w.calls
  unfolding as_semantic_start cleared
  start-calls lib proc w method params file now =
      if_cases (λ (r : Worker J × Bool). r.0.calls ≡ w.calls) w.busy (λ _. refl)
        (λ _.
          scope-calls lib proc (cleared w now (number J (some params) (cstr "timeout_ms"))) method
            params (receipt_file lib file) (str J (receipt_file lib file) (cstr "scope_id")))

  expire-calls : (w : Worker J) (now : ℕ) → (expire w now).calls ≡ w.calls
  unfolding expire fail
  expire-calls w now =
      if_cases (λ (v : Worker J). v.calls ≡ w.calls) (w.busy && not w.sent && leb w.deadline now)
        (λ _. if_cases (λ (v : Worker J). v.calls ≡ w.calls) w.ready (λ _. refl) (λ _. refl))
        (λ _. refl)

  capped-calls : (w : Worker J) (queried : ℕ) → (capped w queried).calls ≡ w.calls
  unfolding capped
  capped-calls w queried =
      if_cases (λ (v : Worker J). v.calls ≡ w.calls) (ltb semantic_poll_max queried)
        (λ _. (cancel-Spent w).1) (λ _. refl)

  submit-calls :
      (proc : Processes) (w : Worker J) (now : ℕ)
      → let v = as_semantic_submit proc w now in
        (v.calls ≡ w.calls) ⊎ ((v.calls ≡ call_of w ∷ w.calls) × (can_submit w ≡ true))
  unfolding as_semantic_submit fail
  submit-calls proc w now =
      let P = λ (v : Worker J).
        (v.calls ≡ w.calls) ⊎ ((v.calls ≡ call_of w ∷ w.calls) × (can_submit w ≡ true)) in
      if_cases P (can_submit w)
        (λ c. if_cases P (still_target proc w) (λ _. inr (refl, c)) (λ _. inl refl)) (λ _. inl refl)

module _ {J : JsonC} {lib : Libraries J} where
  submit-Spent :
      (proc : Processes) (w : Worker J) (now : ℕ)
      → Phase lib w
      → Spent w
      → Stays w (as_semantic_submit proc w now)
  unfolding as_semantic_submit can_submit
  submit-Spent proc w now h k =
      if_cases (Stays w) (can_submit w)
        (λ c. absurd (ground (arith, k, c, (offered w h (ready_lem w c)).0))) (λ _. (k, refl))

  no_more : (w v : Worker J) (k : ℕ) → Phase lib w → Spent w → Step lib w k v → k ≡ 0 → Stays w v
  unfolding as_semantic_prepare_poll
  no_more w v k h m (starts proc method params file now) e =
      let same = start-Spent lib proc w method params file now (ground (arith, e)) in
      subst (Stays w) (sym same) (m, refl)
  no_more w v k h m (submits proc now) e = submit-Spent proc w now h m
  no_more w v k h m cancels e = cancel-Spent w
  no_more w v k h m (polls now later pending wait queried timeout) e =
      let (m', c') = expire-Spent w now m in
      let (m'', c'') = capped-Spent (expire w now) queried m' in (m'', c'' ∙ c')
  no_more w v k h m (comes_back answer c) e =
      let b = comes-Back w _ _ answer h c in
      (ground (arith, m, b.cancelled_eq, b.sent_eq, b.was_busy), b.calls_eq)

  no_more_all : (w v : Worker J) (n : ℕ) → Phase lib w → Spent w → Run lib w n v → n ≡ 0 → Stays w v
  no_more_all w v n h m here e = (m, refl)
  no_more_all w v n h m (next {n = a} {k = k} {v = u} r s) e =
      let (m', c') = no_more_all w u a h m r (omega (arith, e)) in
      let (m'', c'') = no_more u v k (in_order w u a h r) m' s (omega (arith, e)) in (m'', c'' ∙ c')

  -- After `as_semantic_cancel`, in any state that the worker reaches, no action is sent before another
  -- one is accepted, whatever GIO still calls back and however often the daemon submits.
  pub cancelled_for_good :
      (session : CString) (microhost : ℤ) (n : ℕ) (w v : Worker J)
      → Run lib (as_semantic_new session microhost) n w
      → Run lib (as_semantic_cancel w) 0 v
      → v.calls ≡ w.calls
  cancelled_for_good session microhost n w v r q =
      let h = in_order (as_semantic_new session microhost) w n (new-Phase session microhost) r in
      (no_more_all (as_semantic_cancel w) v 0 (cancel-Phase w h) (cancel-Spent w).0 q refl).1
      ∙ (cancel-Spent w).1

module _ {J : JsonC} (lib : Libraries J) where
  -- The call names an owner on the bus and an object.
  abbrev pub addressed : Call J → Bool
  addressed c =
      text_passes (λ o. has_colon o && lib.is_unique_name o) c.owner
      && text_passes lib.is_object_path c.path

  abbrev pub all_addressed : List (Call J) → Bool
  all_addressed [] = true
  all_addressed (c ∷ cs) = addressed c && all_addressed cs

  call_of-addressed :
      (w : Worker J) → accepts lib w.scope_id w.packet ≡ true → addressed (call_of w) ≡ true
  unfolding accepts
  call_of-addressed w h = ground arith

module _ {J : JsonC} {lib : Libraries J} where
  -- A step sends nothing, or the action on offer.
  grows_by_offer :
      (w v : Worker J) (k : ℕ)
      → Phase lib w
      → Step lib w k v
      → (v.calls ≡ w.calls) ⊎ ((v.calls ≡ call_of w ∷ w.calls) × (can_submit w ≡ true))
  unfolding as_semantic_prepare_poll
  grows_by_offer w v k h (starts proc method params file now) =
      inl (start-calls lib proc w method params file now)
  grows_by_offer w v k h (submits proc now) = submit-calls proc w now
  grows_by_offer w v k h cancels = inl (cancel-Spent w).1
  grows_by_offer w v k h (polls now later pending wait queried timeout) =
      inl (capped-calls (expire w now) queried ∙ expire-calls w now)
  grows_by_offer w v k h (comes_back answer c) = inl (comes-Back w _ _ answer h c).calls_eq

  addressed_all :
      (w v : Worker J) (n : ℕ)
      → Phase lib w
      → all_addressed lib w.calls ≡ true
      → Run lib w n v
      → all_addressed lib v.calls ≡ true
  addressed_all w v n h a here = a
  addressed_all w v n h a (next {n = m} {k = k} {v = u} r s) =
      elim (grows_by_offer u v k (in_order w u m h r) s) [
        | inl e ↦ ap (all_addressed lib) e ∙ addressed_all w u m h a r
        | inr (e, c) ↦
            let o = offered u (in_order w u m h r) (ready_lem u c) in
            ap (all_addressed lib) e
            ∙ ground (arith, call_of-addressed lib u o.5, addressed_all w u m h a r)
      ]

  -- In every run from `as_semantic_new` on, each action that was sent is addressed to a unique name of
  -- the bus that begins with a colon, and to an object's path.
  pub sent_addressed :
      (session : CString) (microhost : ℤ) (n : ℕ) (w : Worker J)
      → Run lib (as_semantic_new session microhost) n w
      → all_addressed lib w.calls ≡ true
  unfolding as_semantic_new
  sent_addressed session microhost n w r =
      addressed_all (as_semantic_new session microhost) w n (new-Phase session microhost) refl r

  -- In every run from `as_semantic_new` on, the worker is in a phase: at rest with no call of GIO
  -- pending and a stage that fits what was sent and replied, in preparation with one call pending and
  -- the stage of that call, with an action on offer that no cancellation or error stands against, or with
  -- an action under way whose reply alone is pending.
  pub reached-Phase :
      (session : CString) (microhost : ℤ) (n : ℕ) (w : Worker J)
      → Run lib (as_semantic_new session microhost) n w
      → Phase lib w
  reached-Phase session microhost n w r =
      in_order (as_semantic_new session microhost) w n (new-Phase session microhost) r

  submittable : (w : Worker J) → Phase lib w → w.ready ≡ true → can_submit w ≡ true
  unfolding can_submit
  submittable w (at_rest b r e k) h = absurd (ground (arith, r, h))
  submittable w (in_preparation q n u e) h = absurd (ground (arith, u.unspoiled.1, h))
  submittable w (on_offer b r e s n c u o g k) h = ground (arith, r, s, c, u, ap (length {A = ℕ}) o)
  submittable w (sent_off b r e s n) h = absurd (ground (arith, r, h))

  -- An action that is ready is sent by `as_semantic_submit` if the process of its target is still the
  -- same, in every state that the worker reaches, and is then under way; otherwise it is rejected.
  pub ready-submit :
      (session : CString) (microhost : ℤ) (n : ℕ) (w : Worker J) (proc : Processes) (now : ℕ)
      → Run lib (as_semantic_new session microhost) n w
      → w.ready ≡ true
      → let v = as_semantic_submit proc w now in
        ((still_target proc w ≡ true)
          × (v.calls ≡ call_of w ∷ w.calls)
          × (v.sent ≡ true)
          × (v.stage ≡ in_flight))
        ⊎ ((still_target proc w ≡ false)
            × (v.calls ≡ w.calls)
            × (v.busy ≡ false)
            × (v.stage ≡ rejected))
  unfolding as_semantic_submit fail
  ready-submit session microhost n w proc now r h =
      let p = reached-Phase session microhost n w r in
      let o = submittable w p h in
      let (c, q) = uncancelled w o in
      elim (Bool-cases (still_target proc w)) [
        | inl t ↦ inl (t, ground (arith, o, t), ground (arith, o, t), ground (arith, o, t))
        | inr t ↦ inr (t, ground (arith, o, t), ground (arith, o, t), ground (arith, o, t, c, q))
      ]
