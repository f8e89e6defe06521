-- ===== src/Daemon/Turns.antt =====
-- One turn of the main loop on a text that keyboard.type has begun.
use agent_seat.Prelude.{
  ℕ, ◌+◌, ◌%◌, ◌^◌, ◌<◌, ◌≤◌, ◌≡◌, refl, arith, true, false, not, ◌||◌, Option, none, some, List,
  [], ◌∷◌, cstr, get_or, set, length, sym, ap, ◌∙◌, add_size, ltb, leb, ◌==◌, if_cases,
  get_or-set_self, length-set, subst,
}
use agent_seat.Json.{JsonC}
use agent_seat.Input.Platform.{Xkb, Doubles}
use agent_seat.Input.State.{Input}
use agent_seat.Input.Seat.{Status, ok, failed}
use agent_seat.Input.Commands.{arm, type_event}
use agent_seat.Daemon.State.{Daemon, Semantic, Operation, no_operation}
use agent_seat.Daemon.Control.{
  finish_typing, finish_if, ended, semantic_outcome, final_outcome, human_remaining_ms,
  worker_status,
}
use agent_seat.Daemon.Typing.{after_typed, advance_at, advance_if, advance_typing}

-- The turns of the main loop at which a codepoint is due: after the human's activity, before the
-- deadline, and each after the interval since the turn before. A turn is the time at its start and the
-- time that is read once the codepoint is typed.
pub data Timely (quiet deadline interval : ℕ) : ℕ → List (ℕ × ℕ) → Type 0 where
  no_turn : {due : ℕ} → Timely quiet deadline interval due []
  turn :
      {due t t' : ℕ} {ts : List (ℕ × ℕ)}
      → due ≤ t
      → quiet ≤ t
      → t < deadline
      → Timely quiet deadline interval (add_size t' interval) ts
      → Timely quiet deadline interval due ((t, t') ∷ ts)

-- The slot after a codepoint that is not the last one.
abbrev pub going : Operation → ℕ → Operation
going op now = record op {
  submitted = add_size op.submitted 1;
  next_msec = add_size now op.interval_ms;
}

module _ {X : Xkb} {D : Doubles} where
  abbrev pub after_one : (Input X D → Option (Input X D)) → Input X D × Status → Option (Input X D)
  after_one k (s, ok) = k s
  after_one k (s, failed f) = none

  -- Every codepoint, in order, by `agentseat_input_type_codepoint`; `none` if one fails.
  unfoldable pub type_all : List ℕ → ℕ → Input X D → Option (Input X D)
  type_all [] epoch s = some s
  type_all (c ∷ cs) epoch s =
      after_one (type_all cs epoch) (type_event true (arm s (epoch % 2 ^ 32)) c)

  pub one_cases :
      (k : Input X D → Option (Input X D)) (input : Input X D) (r : Input X D × Status)
      → after_one k r ≡ some input
      → (s : Input X D) × (r ≡ (s, ok)) × (k s ≡ some input)
  one_cases k input (s, ok) e = (s, refl, e)
  one_cases k input (s, failed f) e = cc

module _ {X : Xkb} {D : Doubles} {J : JsonC} {S : Semantic} where
  -- `advance_typing` at these times.
  unfoldable pub advance_all : Daemon X D J S → List (ℕ × ℕ) → Daemon X D J S
  advance_all s [] = s
  advance_all s ((t, t') ∷ ts) = advance_all (advance_typing s t t' (λ _. true)) ts

  abbrev pub slot : Daemon X D J S → ℕ → Operation
  slot s i = get_or s.operations i no_operation

  -- The operation in the slot `i` is in progress, a text with these codepoints left.
  pub record InProgress (s : Daemon X D J S) (i : ℕ) (cs : List ℕ) : Type 0 where
    pub typing : s.typing ≡ some i
    pub in_range : i < length s.operations
    pub not_paste : (slot s i).clipboard ≡ false
    pub not_semantic : (slot s i).semantic ≡ false
    pub not_action : (slot s i).window_action ≡ 0
    pub epoch : (slot s i).epoch ≡ s.control_epoch
    pub running : s.paused ≡ false
    pub not_held : s.human_held ≡ false
    pub left : (slot s i).submitted + length cs ≡ (slot s i).count
    pub small : (slot s i).count < 2 ^ 64
    pub codepoints :
        (j : ℕ) → get_or (slot s i).codepoints ((slot s i).submitted + j) 0 ≡ get_or cs j 0

  -- The text is typed.
  pub record Typed (s r : Daemon X D J S) (i : ℕ) (input : Input X D) : Type 0 where
    pub typed : r.input ≡ input
    pub ended : r.typing ≡ none
    pub inactive : (slot r i).active ≡ false
    pub outcome : (slot r i).outcome ≡ cstr "finished"
    pub submitted : (slot r i).submitted ≡ (slot s i).count

  human_quiet :
      (s : Daemon X D J S) (now : ℕ)
      → s.human_active_until_msec ≤ now
      → s.human_held ≡ false
      → human_remaining_ms s now ≡ 0
  unfolding human_remaining_ms
  human_quiet s now h e = ground (arith, h, e)

  -- A turn types the next codepoint.
  pub advance-typed :
      (s : Daemon X D J S) (i c : ℕ) (cs : List ℕ) (now later : ℕ)
      → InProgress s i (c ∷ cs)
      → s.human_active_until_msec ≤ now
      → now < (slot s i).deadline_msec
      → (slot s i).next_msec ≤ now
      → advance_typing s now later (λ _. true)
        ≡ after_typed s i
            (slot s i)
            later
            (type_event true (arm s.input ((slot s i).epoch % 2 ^ 32)) c)
  unfolding advance_typing advance_at
  advance-typed s i c cs now later v quiet early due =
      let op = slot s i in
      let goal = after_typed s i op later (type_event true (arm s.input (op.epoch % 2 ^ 32)) c) in
      ap (λ t. advance_if s t now later (λ _. true)) v.typing
      ∙ if_cases (λ r. r ≡ goal)
          (s.paused || ltb 0 (human_remaining_ms s now) || not (op.epoch == s.control_epoch))
          (λ e. absurd (ground (arith, e, v.running, v.epoch, human_quiet s now quiet v.not_held)))
          (λ _.
            if_cases (λ r. r ≡ goal) (leb op.deadline_msec now)
              (λ e. absurd (ground (arith, e, early)))
              (λ _.
                if_cases (λ r. r ≡ goal) op.clipboard (λ e. absurd (ground (arith, e, v.not_paste)))
                  (λ _.
                    if_cases (λ r. r ≡ goal)
                      (op.semantic || ltb 0 op.window_action || ltb now op.next_msec)
                      (λ e. absurd (ground (arith, e, v.not_semantic, v.not_action, due)))
                      (λ _.
                        ap
                          (λ d.
                            after_typed s i op later
                              (type_event true (arm s.input (op.epoch % 2 ^ 32)) d))
                          (ap (λ k. get_or op.codepoints k 0) (omega arith) ∙ v.codepoints 0)))))

  -- A text's operation ends with the outcome that it is given.
  ended-outcome :
      (op : Operation) (n : ℕ) (s : Daemon X D J S)
      → op.clipboard ≡ false
      → op.semantic ≡ false
      → op.window_action ≡ 0
      → (ended (record op { submitted = n }) (worker_status S s.semantic) (cstr "finished")).outcome
        ≡ cstr "finished"
  unfolding ended semantic_outcome final_outcome
  ended-outcome op n s a b c = rw (a, b, c) refl

  inactive_ended :
      (op : Operation) (s : Daemon X D J S)
      → (ended op (worker_status S s.semantic) (cstr "finished")).active ≡ false
  unfolding ended
  inactive_ended op s = refl

  ended-submitted :
      (op : Operation) (s : Daemon X D J S)
      → (ended op (worker_status S s.semantic) (cstr "finished")).submitted ≡ op.submitted
  unfolding ended
  ended-submitted op s = refl

  finished_at :
      (s : Daemon X D J S) (i c : ℕ) (input : Input X D)
      → InProgress s i (c ∷ [])
      → add_size (slot s i).submitted 1 ≡ (slot s i).count
      → Typed s
          (finish_if
            (record s {
              input = input;
              operations =
                  set s.operations i
                    (record (slot s i) { submitted = add_size (slot s i).submitted 1 });
            })
            (some i)
            (cstr "finished"))
          i
          input
  finished_at s i c input v e =
      let op = slot s i in
      let last = record op { submitted = add_size op.submitted 1 } in
      let ops = set s.operations i last in
      let in_last : get_or ops i no_operation ≡ last =
        get_or-set_self s.operations i last no_operation v.in_range in
      let done = ended (get_or ops i no_operation) (worker_status S s.semantic) (cstr "finished") in
      let in_done : get_or (set ops i done) i no_operation ≡ done =
        get_or-set_self ops i done no_operation
          (omega (arith, length-set s.operations i last, v.in_range)) in
      record {
        typed = refl;
        ended = refl;
        inactive = ap (λ o. o.active) in_done ∙ inactive_ended (get_or ops i no_operation) s;
        outcome =
            ap (λ o. o.outcome) in_done
            ∙ ap (λ o. (ended o (worker_status S s.semantic) (cstr "finished")).outcome) in_last
            ∙ ended-outcome op (add_size op.submitted 1) s v.not_paste v.not_semantic v.not_action;
        submitted =
            ap (λ o. o.submitted) in_done
            ∙ ended-submitted (get_or ops i no_operation) s
            ∙ ap (λ o. o.submitted) in_last
            ∙ e;
      }

  -- The last codepoint.
  pub last-Typed :
      (s : Daemon X D J S) (i c now : ℕ) (input : Input X D)
      → InProgress s i (c ∷ [])
      → Typed s (after_typed s i (slot s i) now (input, ok)) i input
  unfolding after_typed finish_typing
  last-Typed s i c now input v =
      let op = slot s i in
      let last = record op { submitted = add_size op.submitted 1 } in
      let s' = record s { input = input; operations = set s.operations i last } in
      if_cases (λ r. Typed s r i input) (add_size op.submitted 1 == op.count)
        (λ e.
          subst (λ t. Typed s (finish_if s' t (cstr "finished")) i input) (sym v.typing)
            (finished_at s i c input v (ground (arith, e))))
        (λ e. absurd (ground (arith, e, v.left, v.small)))
