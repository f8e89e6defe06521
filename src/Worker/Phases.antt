-- ===== src/Worker/Phases.antt =====
-- The phases of the worker of native/agentseat-semantic.c: how its flags, its stage and the calls that
-- GIO holds go together.
use agent_seat.Prelude.{
  ◌≡◌, refl, sym, subst, ◌∙◌, arith, Bool, true, false, ◌&&◌, not, none, List, [], ◌∷◌, ◌++◌,
  CString,
}
use agent_seat.Json.{JsonC}
use agent_seat.Worker.State.{
  Libraries, Worker, Pending, connecting, writing, reading, opening, asking_bus, asking_target,
  acting, Stage, idle, preparing, connecting_bus, validating_bus, validating_target, prepared,
  in_flight, finished, rejected, cancelled_stage, outcome_unknown, fail,
}
use agent_seat.Worker.Callbacks.{accepts}
use agent_seat.Worker.Steps.{CallsBack, calls_back}

abbrev pub stage_of : Pending → Stage
stage_of connecting = preparing
stage_of writing = preparing
stage_of reading = preparing
stage_of opening = connecting_bus
stage_of asking_bus = validating_bus
stage_of asking_target = validating_target
stage_of acting = in_flight

-- The calls after which the packet is there, and those after which the bus is.
abbrev pub after_packet : Pending → Bool
after_packet connecting = false
after_packet writing = false
after_packet reading = false
after_packet _ = true

abbrev pub after_bus : Pending → Bool
after_bus asking_bus = true
after_bus asking_target = true
after_bus acting = true
after_bus _ = false

abbrev pub is_acting : Pending → Bool
is_acting acting = true
is_acting _ = false

-- The stages at the end, by what was sent and what was replied: an action that was sent is not
-- reported as cancelled, one that was not sent neither as finished nor as of unknown outcome.
abbrev pub ends : Stage → Bool → Bool → Bool → Bool
ends idle sent replied succeeded = not sent
ends cancelled_stage sent replied succeeded = not sent
ends rejected true replied succeeded = replied && not succeeded
ends rejected false replied succeeded = true
ends finished sent replied succeeded = sent && replied && succeeded
ends outcome_unknown sent replied succeeded = sent && not replied
ends _ sent replied succeeded = false

-- Nothing has happened yet to the action in preparation.
abbrev pub Unspoiled : {J : JsonC} → Worker J → Type 0
Unspoiled w =
    (w.busy ≡ true)
    × (w.ready ≡ false)
    × (w.sent ≡ false)
    × (w.replied ≡ false)
    × (w.succeeded ≡ false)
    × (w.error ≡ [])
    × (w.interface ≡ none)

module _ {J : JsonC} (lib : Libraries J) where
  -- The worker prepares an action, and waits for a call.
  pub record Preparing (w : Worker J) (p : Pending) : Type 0 where
    pub unspoiled : Unspoiled w
    pub bus_eq : w.bus ≡ after_bus p
    pub stage_eq : w.stage ≡ stage_of p
    pub packet_eq : accepts lib w.scope_id w.packet ≡ after_packet p

  pub data Phase (w : Worker J) : Type 0 where
    at_rest :
        w.busy ≡ false
        → w.ready ≡ false
        → w.pending ≡ []
        → ends w.stage w.sent w.replied w.succeeded ≡ true
        → Phase w
    in_preparation :
        (p : Pending) → is_acting p ≡ false → Preparing w p → w.pending ≡ p ∷ [] → Phase w
    on_offer :
        w.busy ≡ true
        → w.ready ≡ true
        → w.pending ≡ []
        → w.sent ≡ false
        → (w.replied ≡ false) × (w.succeeded ≡ false)
        → w.cancelled ≡ false
        → w.bus ≡ true
        → w.error ≡ []
        → w.stage ≡ prepared
        → accepts lib w.scope_id w.packet ≡ true
        → Phase w
    sent_off :
        w.busy ≡ true
        → w.ready ≡ false
        → w.pending ≡ acting ∷ []
        → w.sent ≡ true
        → (w.replied ≡ false) × (w.succeeded ≡ false)
        → Phase w

only_one :
    (p q : Pending) (before after : List Pending)
    → q ∷ [] ≡ before ++ (p ∷ after)
    → (q ≡ p) × (before ++ after ≡ [])
only_one p q [] [] e = (ground (arith, e), refl)
only_one p q [] (r ∷ rs) e = absurd (ground (arith, e))
only_one p q (x ∷ []) after e = absurd (ground (arith, e))
only_one p q (x ∷ (y ∷ ys)) after e = absurd (ground (arith, e))

none_at_all : (p : Pending) (before after : List Pending) → [] ≡ before ++ (p ∷ after) → ⊥
none_at_all p [] after e = ground (arith, e)
none_at_all p (x ∷ xs) after e = ground (arith, e)

module _ {J : JsonC} {lib : Libraries J} where
  -- A call that prepares an action calls back only while the worker waits for it alone.
  pub called_back :
      (w v : Worker J) (p : Pending)
      → is_acting p ≡ false
      → Phase lib w
      → CallsBack w p v
      → Preparing lib v p
        × (v.pending ≡ [])
        × (v.calls ≡ w.calls)
        × (v.cancelled ≡ w.cancelled)
        × (w.busy ≡ true)
        × (w.sent ≡ false)
  called_back w v p a (at_rest b r e k) (calls_back before after f) =
      absurd (none_at_all p before after (sym e ∙ f))
  called_back w v p a (in_preparation q n h e) (calls_back before after f) =
      let (same, empty) = only_one p q before after (sym e ∙ f) in
      (
        subst (Preparing lib (record w { pending = before ++ after })) same
            (again w q (before ++ after) h),
        empty,
        refl,
        refl,
        h.unspoiled.0,
        h.unspoiled.2,
      )
    where
      again :
          (u : Worker J) (r : Pending) (ps : List Pending)
          → Preparing lib u r
          → Preparing lib (record u { pending = ps }) r
      again u r ps h = record {
        unspoiled = h.unspoiled;
        bus_eq = h.bus_eq;
        stage_eq = h.stage_eq;
        packet_eq = h.packet_eq;
      }
  called_back w v p a (on_offer b r e s n c u o g k) (calls_back before after f) =
      absurd (none_at_all p before after (sym e ∙ f))
  called_back w v p a (sent_off b r e s n) (calls_back before after f) =
      absurd (ground (arith, a, (only_one p acting before after (sym e ∙ f)).0))

  -- The reply comes only while the action is under way.
  pub replied_back :
      (w v : Worker J)
      → Phase lib w
      → CallsBack w acting v
      → (w.busy ≡ true)
        × (v.pending ≡ [])
        × (v.sent ≡ true)
        × (w.sent ≡ true)
        × (v.replied ≡ false)
        × (v.succeeded ≡ false)
        × (v.calls ≡ w.calls)
        × (v.cancelled ≡ w.cancelled)
  replied_back w v (at_rest b r e k) (calls_back before after f) =
      absurd (none_at_all acting before after (sym e ∙ f))
  replied_back w v (in_preparation q n h e) (calls_back before after f) =
      absurd (ground (arith, n, (only_one acting q before after (sym e ∙ f)).0))
  replied_back w v (on_offer b r e s n c u o g k) (calls_back before after f) =
      absurd (none_at_all acting before after (sym e ∙ f))
  replied_back w v (sent_off b r e s n) (calls_back before after f) =
      (b, (only_one acting acting before after (sym e ∙ f)).1, s, s, n.0, n.1, refl, refl)

  -- `fail` before the action is sent ends it.
  pub fail-Phase :
      (w : Worker J) (e : CString) → w.sent ≡ false → w.pending ≡ [] → Phase lib (fail w e)
  unfolding fail
  fail-Phase w e s p = at_rest refl refl p (ground (arith, s))
