-- ===== src/Daemon/Runs.antt =====
-- A text that keyboard.type has begun is typed to its end by the turns of the main loop.
use agent_seat.Prelude.{
  ℕ, suc, ◌+◌, ◌%◌, ◌^◌, ◌<◌, ◌≡◌, refl, arith, true, some, List, [], ◌∷◌, get_or, set, length, sym,
  ap, ◌∙◌, add_size, ◌==◌, if_cases, get_or-set_self, length-set, subst,
}
use mathlib.Core.Option.{some-injective}
use agent_seat.Json.{JsonC}
use agent_seat.Input.Platform.{Xkb, Doubles}
use agent_seat.Input.State.{Input}
use agent_seat.Input.Seat.{ok}
use agent_seat.Input.Commands.{arm, type_event}
use agent_seat.Daemon.State.{Daemon, Semantic, Operation, no_operation}
use agent_seat.Daemon.Typing.{after_typed, advance_typing}
use agent_seat.Daemon.Turns.{
  Timely, turn, type_all, one_cases, advance_all, slot, InProgress, Typed, going, advance-typed,
  last-Typed,
}

module _ {X : Xkb} {D : Doubles} {J : JsonC} {S : Semantic} where
  -- The state after it.
  abbrev gone : Daemon X D J S → ℕ → ℕ → Input X D → Daemon X D J S
  gone s i now input = record s {
    input = input;
    operations = set s.operations i (going (slot s i) now);
  }

  after_typed-gone :
      (s : Daemon X D J S) (i c d now : ℕ) (cs : List ℕ) (input : Input X D)
      → InProgress s i (c ∷ d ∷ cs)
      → after_typed s i (slot s i) now (input, ok) ≡ gone s i now input
  unfolding after_typed
  after_typed-gone s i c d now cs input v =
      if_cases (λ r. r ≡ gone s i now input) (add_size (slot s i).submitted 1 == (slot s i).count)
        (λ e. absurd (ground (arith, e, v.left, v.small))) (λ _. refl)

  slot-gone :
      (s : Daemon X D J S) (i now : ℕ) (input : Input X D)
      → i < length s.operations
      → slot (gone s i now input) i ≡ going (slot s i) now
  slot-gone s i now input p = get_or-set_self s.operations i (going (slot s i) now) no_operation p

  gone-InProgress :
      (s : Daemon X D J S) (i c now : ℕ) (cs : List ℕ) (input : Input X D)
      → InProgress s i (c ∷ cs)
      → InProgress (gone s i now input) i cs
  gone-InProgress s i c now cs input v =
      let e = slot-gone s i now input v.in_range in
      record {
        typing = v.typing;
        in_range = omega (arith, v.in_range, length-set s.operations i (going (slot s i) now));
        not_paste = ap (λ o. o.clipboard) e ∙ v.not_paste;
        not_semantic = ap (λ o. o.semantic) e ∙ v.not_semantic;
        not_action = ap (λ o. o.window_action) e ∙ v.not_action;
        epoch = ap (λ o. o.epoch) e ∙ v.epoch;
        running = v.running;
        not_held = v.not_held;
        left =
            ap (λ o. o.submitted + length cs) e
            ∙ omega (arith, v.left, v.small)
            ∙ sym (ap (λ o. o.count) e);
        small = subst (λ n. n < 2 ^ 64) (sym (ap (λ o. o.count) e)) v.small;
        codepoints = λ j.
            ap (λ o. get_or o.codepoints (o.submitted + j) 0) e
            ∙ ap (λ k. get_or (slot s i).codepoints k 0) (omega (arith, v.left, v.small))
            ∙ v.codepoints (suc j);
      }

  from_gone :
      (s r : Daemon X D J S) (i now : ℕ) (typed input : Input X D)
      → i < length s.operations
      → Typed (gone s i now typed) r i input
      → Typed s r i input
  from_gone s r i now typed input p t = record {
    typed = t.typed;
    ended = t.ended;
    inactive = t.inactive;
    outcome = t.outcome;
    submitted = t.submitted ∙ ap (λ o. o.count) (slot-gone s i now typed p);
  }

  -- A keyboard.type operation in progress, while the seat runs, the human is quiet, and the turns of
  -- the main loop come in time, each before the deadline and its interval after the time that was read
  -- when the codepoint before was typed: when the input
  -- connection types each codepoint that is left, one turn for each of them types them all, in their
  -- order, and then the operation has ended as "finished" with all of its codepoints submitted.
  pub advance_all-Typed :
      (s : Daemon X D J S) (i c : ℕ) (cs : List ℕ) (ts : List (ℕ × ℕ)) (input : Input X D)
      → InProgress s i (c ∷ cs)
      → length ts ≡ length (c ∷ cs)
      → Timely s.human_active_until_msec
          (slot s i).deadline_msec
          (slot s i).interval_ms
          (slot s i).next_msec
          ts
      → type_all (c ∷ cs) (slot s i).epoch s.input ≡ some input
      → Typed s (advance_all s ts) i input
  unfolding type_all advance_all advance_typing
  advance_all-Typed s i c cs [] input v n w e = absurd (omega arith)
  advance_all-Typed s i c [] (t ∷ u ∷ ts) input v n w e = absurd (omega arith)
  advance_all-Typed s i c [] ((t, t') ∷ []) input v n (turn due quiet early w) e =
      let (typed, e₁, e₂) =
        one_cases (type_all [] (slot s i).epoch) input
          (type_event true (arm s.input ((slot s i).epoch % 2 ^ 32)) c) e in
      subst (λ r. Typed s r i input)
        (sym
          (advance-typed s i c [] t t' v quiet early due ∙ ap (after_typed s i (slot s i) t') e₁))
        (subst (λ x. Typed s (after_typed s i (slot s i) t' (typed, ok)) i x)
          (some-injective typed input e₂) (last-Typed s i c t' typed v))
  advance_all-Typed s i c (d ∷ cs) ((t, t') ∷ ts) input v n (turn due quiet early w) e =
      let (typed, e₁, e₂) =
        one_cases (type_all (d ∷ cs) (slot s i).epoch) input
          (type_event true (arm s.input ((slot s i).epoch % 2 ^ 32)) c) e in
      let same = slot-gone s i t' typed v.in_range in
      let later =
        subst
          (λ (o : Operation).
            Timely s.human_active_until_msec o.deadline_msec o.interval_ms o.next_msec ts)
          (sym same) w in
      let left =
        subst (λ (o : Operation). type_all (d ∷ cs) o.epoch typed ≡ some input) (sym same) e₂ in
      subst (λ r. Typed s (advance_all r ts) i input)
        (sym (
          advance-typed s i c (d ∷ cs) t t' v quiet early due
          ∙ ap (after_typed s i (slot s i) t') e₁
          ∙ after_typed-gone s i c d t' cs typed v))
        (from_gone s (advance_all (gone s i t' typed) ts) i t' typed input v.in_range (
          advance_all-Typed (gone s i t' typed) i d cs ts input
            (gone-InProgress s i c t' (d ∷ cs) typed v) (omega (arith, n)) later left))
