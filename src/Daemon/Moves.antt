-- ===== src/Daemon/Moves.antt =====
-- Every turn of the main loop keeps a single operation in progress and never lowers the control
-- epoch.
use agent_seat.Prelude.{
  ℕ, ◌+◌, ◌%◌, ◌^◌, ◌<◌, ◌≤◌, ◌≡◌, refl, arith, Bool, true, false, not, ◌||◌, Option, none, some,
  CString, cstr, if_cases, ltb, leb, ◌==◌, get_or, set, subst, sym, add_size,
}
use agent_seat.Json.{JsonC}
use agent_seat.Input.Platform.{Xkb, Doubles}
use agent_seat.Input.State.{Input}
use agent_seat.Input.Seat.{Status, ok, failed}
use agent_seat.Input.Commands.{arm, type_event}
use agent_seat.Daemon.State.{Daemon, Semantic, Operation, no_operation}
use agent_seat.Daemon.Control.{
  finish_typing, ended, worker_status, finish_if, revoke_input, human_remaining_ms,
}
use agent_seat.Daemon.Typing.{
  transfers_seen, after_keys, advance_paste, after_typed, advance_at, advance_if, advance_typing,
  send_keys, paste_keys,
}
use agent_seat.Daemon.OneOperation.{IsSingle, set_current, set_ended}

module _ {X : Xkb} {D : Doubles} {J : JsonC} {S : Semantic} where
  abbrev pub Single : Daemon X D J S → Type 0
  Single s = IsSingle s.operations s.typing

  pub record Moves (s r : Daemon X D J S) : Type 0 where
    pub single : Single s → Single r
    pub epoch : s.control_epoch ≤ r.control_epoch

  pub stays : (s : Daemon X D J S) → Moves s s
  stays s = record { single = λ v. v; epoch = omega arith }

  pub chain : {s r t : Daemon X D J S} → Moves s r → Moves r t → Moves s t
  chain a b = record {
    single = λ v. b.single (a.single v);
    epoch = omega (arith, a.epoch, b.epoch);
  }

  finish_if-Moves :
      (s : Daemon X D J S) (t : Option ℕ) (o : CString) → s.typing ≡ t → Moves s (finish_if s t o)
  unfolding ended
  finish_if-Moves s none o e = stays s
  finish_if-Moves s (some i) o e = record {
    single = λ v.
        set_ended s.operations i
          (ended (get_or s.operations i no_operation) (worker_status S s.semantic) o)
          (subst (IsSingle s.operations) e v) refl;
    epoch = omega arith;
  }

  pub finish_typing-Moves : (s : Daemon X D J S) (o : CString) → Moves s (finish_typing s o)
  unfolding finish_typing
  finish_typing-Moves s o = finish_if-Moves s s.typing o refl

  -- After a change of other fields, and before one.
  pub finish-Moves : (s r : Daemon X D J S) (o : CString) → Moves s r → Moves s (finish_typing r o)
  finish-Moves s r o m = chain m (finish_typing-Moves r o)

  pub with_input :
      (s r : Daemon X D J S) (input : Input X D) → Moves s r → Moves s (record r { input = input })
  with_input s r input m = record { single = m.single; epoch = m.epoch }

  pub revoke_input-Moves :
      (s : Daemon X D J S) → s.control_epoch + 1 < 2 ^ 64 → Moves s (revoke_input s)
  unfolding revoke_input
  revoke_input-Moves s small =
      with_input s _ _
        (finish-Moves s _ (cstr "cancelled") (record { single = λ v. v; epoch = omega arith }))

  -- The operation in progress, with other values.
  set-Moves :
      (s : Daemon X D J S) (i : ℕ) (op : Operation)
      → s.typing ≡ some i
      → (Single s → op.active ≡ true)
      → Moves s (record s { operations = set s.operations i op })
  set-Moves s i op e a = record {
    single = λ v.
        subst (IsSingle (set s.operations i op)) (sym e)
          (set_current s.operations i op (subst (IsSingle s.operations) e v) (a v));
    epoch = omega arith;
  }

  transfers_seen-Moves :
      (s : Daemon X D J S) (i : ℕ) (op : Operation)
      → s.typing ≡ some i
      → (Single s → op.active ≡ true)
      → Moves s (transfers_seen s i op)
  transfers_seen-Moves s i op e a =
      let seen = record op {
        paste_keys_sent = true;
        clipboard_transfers = s.input.clipboard_transfers;
        clipboard_bytes = s.input.clipboard_bytes;
      } in
      let m = set-Moves s i seen e a in
      if_cases (Moves s) (ltb 0 s.input.clipboard_transfers)
        (λ _.
          finish-Moves s (record s { operations = set s.operations i seen }) (cstr "finished") m)
        (λ _. m)

  after_keys-Moves :
      (s : Daemon X D J S) (i : ℕ) (op : Operation) (sent : Input X D × Bool)
      → s.typing ≡ some i
      → (Single s → op.active ≡ true)
      → s.control_epoch + 1 < 2 ^ 64
      → Moves s (after_keys s i op sent)
  after_keys-Moves s i op (input, true) e a small =
      chain (with_input s s input (stays s))
        (transfers_seen-Moves (record s { input = input }) i op e a)
  after_keys-Moves s i op (input, false) e a small =
      let sent = record op { paste_keys_sent = true } in
      let s' = record s { input = input; operations = set s.operations i sent } in
      chain {r = s'}
        (with_input s (record s { operations = set s.operations i sent }) input
          (set-Moves s i sent e a))
        (revoke_input-Moves s' small)

  advance_paste-Moves :
      (s : Daemon X D J S) (i : ℕ) (op : Operation) (flushed : ℕ → Bool)
      → s.typing ≡ some i
      → (Single s → op.active ≡ true)
      → s.control_epoch + 1 < 2 ^ 64
      → Moves s (advance_paste s i op flushed)
  unfolding advance_paste
  advance_paste-Moves s i op flushed e a small =
      if_cases (Moves s) (not (s.input.clipboard_token == op.action_token)) (λ _. stays s)
        (λ _.
          if_cases (Moves s) (ltb 0 s.input.clipboard_status)
            (λ _. finish_typing-Moves s (cstr "rejected"))
            (λ _.
              if_cases (Moves s) op.paste_keys_sent (λ _. transfers_seen-Moves s i op e a)
                (λ _.
                  after_keys-Moves s i op
                    (send_keys (arm s.input (op.epoch % 2 ^ 32)) paste_keys flushed) e a small)))

  after_typed-Moves :
      (s : Daemon X D J S) (i : ℕ) (op : Operation) (now : ℕ) (typed : Input X D × Status)
      → s.typing ≡ some i
      → (Single s → op.active ≡ true)
      → Moves s (after_typed s i op now typed)
  unfolding after_typed
  after_typed-Moves s i op now (input, failed f) e a =
      let m =
        finish-Moves s (record s { input = input }) (cstr "outcome_unknown")
          (with_input s s input (stays s)) in
      with_input s (finish_typing (record s { input = input }) (cstr "outcome_unknown")) _ m
  after_typed-Moves s i op now (input, ok) e a =
      let n = add_size op.submitted 1 in
      let last = record op { submitted = n } in
      let going = record op { submitted = n; next_msec = add_size now op.interval_ms } in
      if_cases (Moves s) (n == op.count)
        (λ _.
          finish-Moves s (record s { input = input; operations = set s.operations i last })
            (cstr "finished")
            (with_input s (record s { operations = set s.operations i last }) input
              (set-Moves s i last e a)))
        (λ _.
          with_input s (record s { operations = set s.operations i going }) input
            (set-Moves s i going e a))

  advance_at-Moves :
      (s : Daemon X D J S) (i : ℕ) (op : Operation) (now later : ℕ) (flushed : ℕ → Bool)
      → s.typing ≡ some i
      → (Single s → op.active ≡ true)
      → s.control_epoch + 1 < 2 ^ 64
      → Moves s (advance_at s i op now later flushed)
  unfolding advance_at
  advance_at-Moves s i op now later flushed e a small =
      if_cases (Moves s)
        (s.paused || ltb 0 (human_remaining_ms s now) || not (op.epoch == s.control_epoch))
        (λ _. finish_typing-Moves s (cstr "cancelled"))
        (λ _.
          if_cases (Moves s) (leb op.deadline_msec now)
            (λ _. finish_typing-Moves s (cstr "deadline_exceeded"))
            (λ _.
              if_cases (Moves s) op.clipboard (λ _. advance_paste-Moves s i op flushed e a small)
                (λ _.
                  if_cases (Moves s) (op.semantic || ltb 0 op.window_action || ltb now op.next_msec)
                    (λ _. stays s)
                    (λ _.
                      after_typed-Moves s i op later
                        (type_event (flushed 0) (arm s.input (op.epoch % 2 ^ 32))
                          (get_or op.codepoints op.submitted 0))
                        e a))))

  advance_if-Moves :
      (s : Daemon X D J S) (t : Option ℕ) (now later : ℕ) (flushed : ℕ → Bool)
      → s.typing ≡ t
      → s.control_epoch + 1 < 2 ^ 64
      → Moves s (advance_if s t now later flushed)
  advance_if-Moves s none now later flushed e small = stays s
  advance_if-Moves s (some i) now later flushed e small =
      advance_at-Moves s i (get_or s.operations i no_operation) now later flushed e
        (λ v. v.active i e) small

  pub advance_typing-Moves :
      (s : Daemon X D J S) (now later : ℕ) (flushed : ℕ → Bool)
      → s.control_epoch + 1 < 2 ^ 64
      → Moves s (advance_typing s now later flushed)
  unfolding advance_typing
  advance_typing-Moves s now later flushed small =
      advance_if-Moves s s.typing now later flushed refl small
