-- ===== src/Input/Seat/Runs.antt =====
-- The daemon's calls on the seat, and the record of held keys and buttons through a run of them.
use agent_seat.Prelude.{
  ℕ, ◌<◌, ◌≡◌, refl, sym, ◌∙◌, Bool, true, false, not, ◌&&◌, ◌||◌, CString, leb, ◌==◌, take,
  bool_eq, get_or, arith, if_cases,
}
use agent_seat.Input.Platform.{Xkb, Doubles}
use agent_seat.Input.State.{Input, acquire_gate, max_tracked_keys, max_tracked_buttons}
use agent_seat.Input.Seat.{
  is_some, bind_target_seat, Made, create_devices, start_seat, create_checked, create_bound,
  create_seat, key_event, Status, ok, failed, require_input_active, flush, after_check, track_key,
  track_button,
}
use agent_seat.Input.Seat.Mirror.{
  Mirrors, NoKeys, NoButtons, track_key-Mirrors, track_button-Mirrors,
}
use agent_seat.Input.Seat.Held.{track_key-SameSeat, Absent}
use agent_seat.Input.Seat.Operations.{
  IsConsistent, destroy_seat-IsConsistent, Quiet, Quiet-Mirrors, Quiet-NoKeys, Quiet-NoButtons,
  Quiet-IsConsistent, acquire_gate-Quiet,
}

module _ {X : Xkb} {D : Doubles} where
  create_devices-Quiet : (s : Input X D) (made : Made) → Quiet s (create_devices s made)
  unfolding create_devices
  create_devices-Quiet s made = record {
    same_keys_sent = λ c. ground arith;
    same_buttons_sent = λ c. ground arith;
    same_keys = refl;
    same_buttons = refl;
  }

  start_seat-Quiet : (s : Input X D) → Quiet s (start_seat s)
  unfolding start_seat
  start_seat-Quiet s = record {
    same_keys_sent = λ c. refl;
    same_buttons_sent = λ c. refl;
    same_keys = refl;
    same_buttons = refl;
  }

  abbrev Nothing : Input X D → Type 0
  Nothing s = NoKeys s × NoButtons s

  NoKeys-Absent : (s : Input X D) → Nothing s → Absent s
  NoKeys-Absent s n = record { no_keyboard = λ _. n.0; no_pointer = λ _. n.1 }

  -- Of the state that an operation returns.
  abbrev pub Keeps : Input X D × Status → Type 0
  Keeps r = IsConsistent r.0

  create_checked-IsConsistent :
      (s : Input X D) (made : Made)
      → Mirrors s
      → Nothing s
      → s.keyboard ≡ made.keyboard
      → s.pointer ≡ made.pointer
      → IsConsistent (create_checked s made).0
  unfolding create_checked start_seat
  create_checked-IsConsistent s made m n ek ep =
      let gone = destroy_seat-IsConsistent s m (NoKeys-Absent s n) in
      let q = start_seat-Quiet s in
      if_cases Keeps (not (made.keyboard && made.pointer)) (λ _. gone)
        (λ e.
          if_cases Keeps made.keymap
            (λ _. record {
              mirrors = Quiet-Mirrors q m;
              absent = NoKeys-Absent (start_seat s) n;
              keyboard_made = ek ∙ ground arith;
              pointer_made = ep ∙ ground arith;
            })
            (λ _. gone))

  create_bound-IsConsistent :
      (s : Input X D) (made : Made) → Mirrors s → Nothing s → IsConsistent (create_bound s made).0
  unfolding create_bound
  create_bound-IsConsistent s made m n =
      let s₀ : Input X D = record s { submit_epoch = s.control_epoch } in
      let m₀ : Mirrors s₀ = record {
        keys = m.keys;
        buttons = m.buttons;
        key_slots = m.key_slots;
        button_slots = m.button_slots;
      } in
      let s₁ = acquire_gate X D s₀ in
      let q₁ = acquire_gate-Quiet s₀ in
      let q₂ = create_devices-Quiet s₁ made in
      if_cases Keeps (not s.seat) (λ _. destroy_seat-IsConsistent s m (NoKeys-Absent s n))
        (λ _.
          create_checked-IsConsistent (create_devices s₁ made) made
            (Quiet-Mirrors q₂ (Quiet-Mirrors q₁ m₀))
            (Quiet-NoKeys q₂ (Quiet-NoKeys q₁ n.0), Quiet-NoButtons q₂ (Quiet-NoButtons q₁ n.1))
            (unfold create_devices in refl) (unfold create_devices in refl))

  bind_target_seat-Quiet : (s : Input X D) → Quiet s (bind_target_seat s)
  unfolding bind_target_seat
  bind_target_seat-Quiet s =
      if_cases (Quiet s) ((s.target_global == 0) || s.seat) (λ _. same) (λ _. same')
    where
      same : Quiet s s
      same = record {
        same_keys_sent = λ c. refl;
        same_buttons_sent = λ c. refl;
        same_keys = refl;
        same_buttons = refl;
      }

      same' : Quiet s (record s { seat = true })
      same' = record {
        same_keys_sent = λ c. refl;
        same_buttons_sent = λ c. refl;
        same_keys = refl;
        same_buttons = refl;
      }

  pub create_seat-IsConsistent :
      (s : Input X D) (made : Made) (id name : CString)
      → IsConsistent s
      → IsConsistent (create_seat s made id name).0
  unfolding create_seat
  create_seat-IsConsistent s made id name v =
      let s' : Input X D = record s { seat_id = take 255 id; seat_name = take 255 name } in
      let q = bind_target_seat-Quiet s' in
      let m : Mirrors s' = record {
        keys = v.mirrors.keys;
        buttons = v.mirrors.buttons;
        key_slots = v.mirrors.key_slots;
        button_slots = v.mirrors.button_slots;
      } in
      if_cases Keeps s.created (λ _. v)
        (λ idle.
          if_cases Keeps
            (not s.keyboard_manager || not (is_some s.pointer_manager) || (s.target_global == 0))
            (λ _. v)
            (λ _. create_bound-IsConsistent (bind_target_seat s') made (Quiet-Mirrors q m) (
              Quiet-NoKeys q (v.absent.no_keyboard (v.keyboard_made ∙ idle)),
              Quiet-NoButtons q (v.absent.no_pointer (v.pointer_made ∙ idle)),
            )))

  pub after_check-IsConsistent :
      (s : Input X D) (check : Status) (r : Input X D × Status)
      → IsConsistent s
      → (check ≡ ok → Keeps r)
      → Keeps (after_check s check r)
  after_check-IsConsistent s ok r v w = w refl
  after_check-IsConsistent s (failed f) r v w = v

  pub flush-IsConsistent :
      (flushed : Bool) (s : Input X D) → IsConsistent s → Keeps (flush flushed s)
  flush-IsConsistent true s v = v
  flush-IsConsistent false s v = v

  pub gate-IsConsistent : (s : Input X D) → IsConsistent s → IsConsistent (acquire_gate X D s)
  unfolding acquire_gate
  gate-IsConsistent s v = Quiet-IsConsistent (acquire_gate-Quiet s) refl refl refl v

  pub created-acquire_gate : (s : Input X D) → (acquire_gate X D s).created ≡ s.created
  unfolding acquire_gate
  created-acquire_gate s = refl

  pub require_input_active-ok :
      (s : Input X D) → require_input_active s ≡ ok → (s.created ≡ true) × (s.paused ≡ false)
  unfolding require_input_active
  require_input_active-ok s e = ground arith

  -- Under a seat, a key or a button may be tracked.
  track_key-IsConsistent :
      (s : Input X D) (code : ℕ) (pressed : Bool)
      → code < max_tracked_keys
      → s.created ≡ true
      → IsConsistent s
      → IsConsistent (track_key s code pressed)
  track_key-IsConsistent s code pressed h e v =
      let (same, buttons_same) = track_key-SameSeat s code pressed in
      record {
        mirrors = track_key-Mirrors s code pressed h v.mirrors;
        absent = record {
          no_keyboard = λ f. absurd (ground (arith, same, v.keyboard_made));
          no_pointer = λ f. absurd (ground (arith, same, v.pointer_made));
        };
        keyboard_made = same.same_keyboard ∙ v.keyboard_made ∙ sym same.same_created;
        pointer_made = same.same_pointer ∙ v.pointer_made ∙ sym same.same_created;
      }

  pub track_button-IsConsistent :
      (s : Input X D) (code : ℕ) (pressed : Bool)
      → code < max_tracked_buttons
      → s.created ≡ true
      → IsConsistent s
      → IsConsistent (track_button s code pressed)
  track_button-IsConsistent s code pressed h e v = record {
    mirrors = track_button-Mirrors s code pressed h v.mirrors;
    absent = record {
      no_keyboard = λ f. absurd (unfold track_button in ground (arith, v.keyboard_made));
      no_pointer = λ f. absurd (unfold track_button in ground (arith, v.pointer_made));
    };
    keyboard_made = unfold track_button in v.keyboard_made;
    pointer_made = unfold track_button in v.pointer_made;
  }

  pub key_event-IsConsistent :
      (flushed : Bool) (s : Input X D) (code : ℕ) (pressed : Bool)
      → IsConsistent s
      → Keeps (key_event flushed s code pressed)
  unfolding key_event
  key_event-IsConsistent flushed s code pressed v =
      let s' = acquire_gate X D s in
      let v' = gate-IsConsistent s v in
      after_check-IsConsistent s (require_input_active s) _ v λ active.
        let made = created-acquire_gate s ∙ (require_input_active-ok s active).0 in
        if_cases Keeps (leb max_tracked_keys code) (λ _. v)
          λ small. flush-IsConsistent flushed _ (
            if_cases IsConsistent (bool_eq (get_or s'.pressed_keys code false) pressed) (λ _. v')
              (λ _. track_key-IsConsistent s' code pressed (ground arith) made v'))
