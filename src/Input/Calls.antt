-- ===== src/Input/Calls.antt =====
-- The calls that the daemon makes of native/agentseat-input.c, as steps, and what holds in every
-- state that they reach.
use agent_seat.Prelude.{
  ℕ, ◌≡◌, refl, sym, ◌∙◌, Bool, false, ◌&&◌, CString, leb, bool_eq, get_or, arith, if_cases,
}
use agent_seat.Prelude.Int.{ℤ}
use agent_seat.Input.Platform.{Xkb, Doubles}
use agent_seat.Input.State.{Input, acquire_gate, max_tracked_buttons}
use agent_seat.Input.Seat.{
  release_all, destroy_seat, Made, create_seat, pause, resume, move_absolute, button_event,
  key_event, require_input_active, normalized,
}
use agent_seat.Input.Seat.Mirror.{sent_key_down, sent_button_down, NoKeys}
use agent_seat.Input.Seat.Held.{release_all-Mirrors, release_all-Released}
use agent_seat.Input.Seat.Operations.{IsConsistent, Quiet-IsConsistent}
use agent_seat.Input.Seat.Runs.{
  Keeps, after_check-IsConsistent, flush-IsConsistent, gate-IsConsistent, created-acquire_gate,
  require_input_active-ok, track_button-IsConsistent,
}
use agent_seat.Input.Commands.{
  scroll, type_event, arm, geometry, set_hold_timeout, revoke_seat, request_window_action,
  check_authority, authority_done, paste_offer,
}

module _ {X : Xkb} {D : Doubles} where
  -- A call, or the compositor's answer to `wl_display_sync`. Text is typed only while no key is
  -- held; the removal of the compositor's seat is not among the steps.
  pub data Step (s : Input X D) : Input X D → Type 0 where
    creates : (made : Made) (id name : CString) → Step s (create_seat s made id name).0
    destroys : Step s (destroy_seat s)
    pauses : Step s (pause s).0
    resumes : Step s (resume s).0
    moves : (flushed : Bool) (x y : D.Double) → Step s (move_absolute flushed s x y).0
    presses_button :
        (flushed : Bool) (code : ℕ) (pressed : Bool)
        → Step s (button_event flushed s code pressed).0
    presses_key :
        (flushed : Bool) (code : ℕ) (pressed : Bool) → Step s (key_event flushed s code pressed).0
    scrolls :
        (flushed horizontal : Bool) (value120 : ℤ) → Step s (scroll flushed s horizontal value120).0
    types : (flushed : Bool) (c : ℕ) → NoKeys s → Step s (type_event flushed s c).0
    releases : Step s (release_all s)
    arms : (epoch : ℕ) → Step s (arm s epoch)
    sets_geometry : (version : ℕ) → Step s (geometry s version)
    sets_hold : (ms : ℕ) → Step s (set_hold_timeout s ms)
    revokes : Step s (revoke_seat s)
    acts :
        (token window action : ℕ) (a b : ℤ)
        → Step s (request_window_action s token window action a b)
    asks : (token : ℕ) → Step s (check_authority s token)
    answers : Step s (authority_done s)
    pastes :
        (sealed : Bool) (token : ℕ) (text : CString) → Step s (paste_offer sealed s token text).0

  -- The log grows by requests that are no keys and buttons, and the seat stays.
  pub still :
      {s r : Input X D}
      → IsConsistent s
      → ((c : ℕ) → sent_key_down r.log c ≡ sent_key_down s.log c)
      → ((c : ℕ) → sent_button_down r.log c ≡ sent_button_down s.log c)
      → r.pressed_keys ≡ s.pressed_keys
      → r.pressed_buttons ≡ s.pressed_buttons
      → r.keyboard ≡ s.keyboard
      → r.pointer ≡ s.pointer
      → r.created ≡ s.created
      → IsConsistent r
  still v hk hb k b ek ep ec =
      Quiet-IsConsistent
        (record { same_keys_sent = hk; same_buttons_sent = hb; same_keys = k; same_buttons = b }) ek
        ep ec v

  pub release_all-IsConsistent : (s : Input X D) → IsConsistent s → IsConsistent (release_all s)
  release_all-IsConsistent s v =
      let r = release_all-Released s v.absent in
      record {
        mirrors = release_all-Mirrors s v.mirrors;
        absent = record { no_keyboard = λ _. r.no_keys; no_pointer = λ _. r.no_buttons };
        keyboard_made = r.same.same_keyboard ∙ v.keyboard_made ∙ sym r.same.same_created;
        pointer_made = r.same.same_pointer ∙ v.pointer_made ∙ sym r.same.same_created;
      }

  pub pause-IsConsistent : (s : Input X D) → IsConsistent s → Keeps (pause s)
  unfolding pause
  pause-IsConsistent s v =
      if_cases Keeps s.created
        (λ _. still (release_all-IsConsistent s v) (λ c. refl) (λ c. refl) refl refl refl refl refl)
        (λ _. v)

  pub resume-IsConsistent : (s : Input X D) → IsConsistent s → Keeps (resume s)
  unfolding resume
  resume-IsConsistent s v =
      if_cases Keeps s.created (λ _. still v (λ c. refl) (λ c. refl) refl refl refl refl refl)
        (λ _. v)

  pub move-IsConsistent :
      (flushed : Bool) (s : Input X D) (x y : D.Double)
      → IsConsistent s
      → Keeps (move_absolute flushed s x y)
  unfolding move_absolute
  move-IsConsistent flushed s x y v =
      let v' = gate-IsConsistent s v in
      after_check-IsConsistent s (require_input_active s) _ v λ active.
        if_cases Keeps (normalized D x && normalized D y)
          (λ _.
            flush-IsConsistent flushed _
              (still v' (λ c. refl) (λ c. refl) refl refl refl refl refl))
          (λ _. v)

  pub button-IsConsistent :
      (flushed : Bool) (s : Input X D) (code : ℕ) (pressed : Bool)
      → IsConsistent s
      → Keeps (button_event flushed s code pressed)
  unfolding button_event
  button-IsConsistent flushed s code pressed v =
      let s' = acquire_gate X D s in
      let v' = gate-IsConsistent s v in
      after_check-IsConsistent s (require_input_active s) _ v λ active.
        let made = created-acquire_gate s ∙ (require_input_active-ok s active).0 in
        if_cases Keeps (leb max_tracked_buttons code) (λ _. v)
          λ small. flush-IsConsistent flushed _ (
            still
              (if_cases IsConsistent (bool_eq (get_or s'.pressed_buttons code false) pressed)
                (λ _. v') (λ _. track_button-IsConsistent s' code pressed (ground arith) made v'))
              (λ c. refl) (λ c. refl) refl refl refl refl refl)

  pub scroll-IsConsistent :
      (flushed horizontal : Bool) (s : Input X D) (v120 : ℤ)
      → IsConsistent s
      → Keeps (scroll flushed s horizontal v120)
  unfolding scroll
  scroll-IsConsistent flushed horizontal s v120 v =
      after_check-IsConsistent s (require_input_active s) _ v λ active.
        flush-IsConsistent flushed _
          (still (gate-IsConsistent s v) (λ c. refl) (λ c. refl) refl refl refl refl refl)
