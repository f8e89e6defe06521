-- ===== src/Input/Reach.antt =====
-- What holds in every state of the connection that the daemon's calls reach.
use agent_seat.Prelude.{
  ℕ, ◌≡◌, refl, subst, ap, ◌∙◌, Bool, false, not, Option, none, some, List, ◌++◌, CString, ltb,
  get_or, arith, if_cases, ◌⊎◌, inl, inr, Bool-cases,
}
use mathlib.Core.Option.{some-injective}
use agent_seat.Input.Platform.{Xkb, Doubles, Wire}
use agent_seat.Input.State.{Input, acquire_gate}
use agent_seat.Input.Keymap.{type_codepoint, typed, Place}
use agent_seat.Input.Keymap.Symbols.{type_codepoint-typed}
use agent_seat.Input.Seat.{
  release_all, is_some, destroy_seat, clear_seat, pause, Status, require_input_active,
}
use agent_seat.Input.Seat.Mirror.{sent_key_down, sent_button_down, NoKeys}
use agent_seat.Input.Seat.Held.{release_all-Released}
use agent_seat.Input.Seat.Operations.{IsConsistent, destroy_seat-IsConsistent}
use agent_seat.Input.Seat.Runs.{
  Keeps, create_seat-IsConsistent, after_check-IsConsistent, flush-IsConsistent, gate-IsConsistent,
  key_event-IsConsistent,
}
use agent_seat.Input.Commands.{
  type_event, arm, geometry, set_hold_timeout, revoke_seat, request_window_action, check_authority,
  authority_done, paste_offer, typed_on, typed_in, after_typing, after_typed, any_held,
  control_version, is_text,
}
use agent_seat.Input.Calls.{
  Step, creates, destroys, pauses, resumes, moves, presses_button, presses_key, scrolls, types,
  releases, arms, sets_geometry, sets_hold, revokes, acts, asks, answers, pastes, still,
  release_all-IsConsistent, pause-IsConsistent, resume-IsConsistent, move-IsConsistent,
  button-IsConsistent, scroll-IsConsistent,
}

module _ {X : Xkb} {D : Doubles} where
  -- A character goes down and up again.
  typed-still :
      (s : Input X D) (sent : List Wire) (st st' : X.State) (p : Place)
      → NoKeys s
      → IsConsistent s
      → (sent, st') ≡ typed X st p
      → IsConsistent (record s { xkb_state = some st'; log = sent ++ s.log })
  typed-still s sent st st' p n v e =
      let sent_eq : sent ≡ (typed X st p).0 = ap (λ r. r.0) e in
      still v (λ c. rw sent_eq (ground (arith, v.mirrors.keys c, n c))) (λ c. rw sent_eq refl) refl
        refl refl refl refl

  NoKeys-acquire_gate : (s : Input X D) → NoKeys s → NoKeys (acquire_gate X D s)
  unfolding acquire_gate
  NoKeys-acquire_gate s n = n

  after_typing-IsConsistent :
      (s r : Input X D) (c : ℕ) (st : X.State) (o : Option (List Wire × X.State))
      → NoKeys s
      → IsConsistent s
      → type_codepoint X st c ≡ o
      → after_typing s o ≡ some r
      → IsConsistent r
  after_typing-IsConsistent s r c st none n v e f = cc
  after_typing-IsConsistent s r c st (some (sent, st')) n v e f =
      let (p, eq) = type_codepoint-typed X st c (sent, st') e in
      subst IsConsistent (some-injective _ _ f) (typed-still s sent st st' p n v eq)

  typed_in-IsConsistent :
      (s r : Input X D) (c : ℕ) (o : Option X.State)
      → NoKeys s
      → IsConsistent s
      → typed_in s c o ≡ some r
      → IsConsistent r
  typed_in-IsConsistent s r c none n v e = cc
  typed_in-IsConsistent s r c (some st) n v e =
      after_typing-IsConsistent s r c st (type_codepoint X st c) n v refl e

  after_typed-IsConsistent :
      (flushed : Bool) (s : Input X D) (o : Option (Input X D))
      → IsConsistent s
      → ((r : Input X D) → o ≡ some r → IsConsistent r)
      → Keeps (after_typed flushed s o)
  after_typed-IsConsistent flushed s none v w = v
  after_typed-IsConsistent flushed s (some r) v w = flush-IsConsistent flushed r (w r refl)

  type-IsConsistent :
      (flushed : Bool) (s : Input X D) (c : ℕ)
      → NoKeys s
      → IsConsistent s
      → Keeps (type_event flushed s c)
  unfolding type_event typed_on
  type-IsConsistent flushed s c n v =
      let s' = acquire_gate X D s in
      let v' = gate-IsConsistent s v in
      after_check-IsConsistent s (require_input_active s) _ v λ active.
        after_typed-IsConsistent flushed s' (typed_on s' c) v'
          λ r e. typed_in-IsConsistent s' r c s'.xkb_state (NoKeys-acquire_gate s n) v' e

  revoke-IsConsistent : (s : Input X D) → IsConsistent s → IsConsistent (revoke_seat s)
  unfolding revoke_seat
  revoke-IsConsistent s v =
      if_cases IsConsistent (is_some s.control)
        (λ _. release_all-IsConsistent _ (still v (λ c. refl) (λ c. refl) refl refl refl refl refl))
        (λ _. v)

  paste-IsConsistent :
      (sealed : Bool) (s : Input X D) (token : ℕ) (text : CString)
      → IsConsistent s
      → Keeps (paste_offer sealed s token text)
  unfolding paste_offer acquire_gate
  paste-IsConsistent sealed s token text v =
      after_check-IsConsistent s (require_input_active s) _ v λ active.
        if_cases Keeps (any_held s.pressed_keys) (λ _. v)
          λ _.
            if_cases Keeps (ltb (control_version s) 3) (λ _. v)
              λ _.
                if_cases Keeps (not (is_text text)) (λ _. v)
                  λ _.
                    if_cases Keeps (not sealed) (λ _. v)
                      λ _. still v (λ c. ground arith) (λ c. ground arith) refl refl refl refl refl

  Step-IsConsistent : {s r : Input X D} → Step s r → IsConsistent s → IsConsistent r
  unfolding arm geometry set_hold_timeout request_window_action check_authority authority_done
  Step-IsConsistent {s} (creates made id name) v = create_seat-IsConsistent s made id name v
  Step-IsConsistent {s} destroys v = destroy_seat-IsConsistent s v.mirrors v.absent
  Step-IsConsistent {s} pauses v = pause-IsConsistent s v
  Step-IsConsistent {s} resumes v = resume-IsConsistent s v
  Step-IsConsistent {s} (moves flushed x y) v = move-IsConsistent flushed s x y v
  Step-IsConsistent {s} (presses_button flushed code p) v = button-IsConsistent flushed s code p v
  Step-IsConsistent {s} (presses_key flushed code p) v = key_event-IsConsistent flushed s code p v
  Step-IsConsistent {s} (scrolls flushed h v120) v = scroll-IsConsistent flushed h s v120 v
  Step-IsConsistent {s} (types flushed c n) v = type-IsConsistent flushed s c n v
  Step-IsConsistent {s} releases v = release_all-IsConsistent s v
  Step-IsConsistent (arms epoch) v = still v (λ c. refl) (λ c. refl) refl refl refl refl refl
  Step-IsConsistent (sets_geometry n) v = still v (λ c. refl) (λ c. refl) refl refl refl refl refl
  Step-IsConsistent {s} (sets_hold ms) v =
      if_cases IsConsistent (is_some s.control)
        (λ _. still v (λ c. refl) (λ c. refl) refl refl refl refl refl) (λ _. v)
  Step-IsConsistent {s} revokes v = revoke-IsConsistent s v
  Step-IsConsistent {s} (acts token window action a b) v =
      still (gate-IsConsistent s v) (λ c. refl) (λ c. refl) refl refl refl refl refl
  Step-IsConsistent {s} (asks token) v =
      let asked = still v (λ c. refl) (λ c. refl) refl refl refl refl refl in
      still (gate-IsConsistent (record s { authorization_requested = token }) asked) (λ c. refl)
        (λ c. refl) refl refl refl refl refl
  Step-IsConsistent answers v = still v (λ c. refl) (λ c. refl) refl refl refl refl refl
  Step-IsConsistent {s} (pastes sealed token text) v = paste-IsConsistent sealed s token text v

  pub data Reach (s : Input X D) : Input X D → Type 0 where
    here : Reach s s
    next : {t r : Input X D} → Reach s t → Step t r → Reach s r

  Reach-IsConsistent : {s r : Input X D} → IsConsistent s → Reach s r → IsConsistent r
  Reach-IsConsistent v here = v
  Reach-IsConsistent v (next path step) = Step-IsConsistent step (Reach-IsConsistent v path)

  -- The keys and buttons that `pressed_keys` and `pressed_buttons` mark are exactly those for which the
  -- last request that the connection sent, since the device was last destroyed, is a press. This holds
  -- in every state that the daemon's calls reach from a consistent one (IsConsistent: it holds there,
  -- the two arrays have their sizes, the devices exist exactly while the seat does, and without a
  -- device no entry is marked), if a character is typed only while no key is marked. It is about the
  -- requests that are sent: the compositor drops some of them, and may release keys by itself.
  pub sent_down-pressed :
      {s r : Input X D}
      → IsConsistent s
      → Reach s r
      → ((c : ℕ) → sent_key_down r.log c ≡ get_or r.pressed_keys c false)
        × ((c : ℕ) → sent_button_down r.log c ≡ get_or r.pressed_buttons c false)
  sent_down-pressed v path =
      let w = Reach-IsConsistent v path in (w.mirrors.keys, w.mirrors.buttons)

  -- For this key and this button, the last request that was sent is no press.
  abbrev pub Lifted : ℕ → Input X D → Type 0
  Lifted c s = (sent_key_down s.log c ≡ false) × (sent_button_down s.log c ≡ false)

  release_all-Lifted : (s : Input X D) (c : ℕ) → IsConsistent s → Lifted c (release_all s)
  release_all-Lifted s c v =
      let r = release_all-Released s v.absent in
      let m = (release_all-IsConsistent s v).mirrors in
      (m.keys c ∙ r.no_keys c, m.buttons c ∙ r.no_buttons c)

  -- A seat that does not exist has no devices.
  uncreated-Lifted : (s : Input X D) (c : ℕ) → s.created ≡ false → IsConsistent s → Lifted c s
  uncreated-Lifted s c gone v = (
    v.mirrors.keys c ∙ v.absent.no_keyboard (v.keyboard_made ∙ gone) c,
    v.mirrors.buttons c ∙ v.absent.no_pointer (v.pointer_made ∙ gone) c,
  )

  destroy_seat-Lifted : (s : Input X D) (c : ℕ) → IsConsistent s → Lifted c (destroy_seat s)
  unfolding destroy_seat clear_seat
  destroy_seat-Lifted s c v =
      let w = destroy_seat-IsConsistent s v.mirrors v.absent in
      (
        w.mirrors.keys c ∙ w.absent.no_keyboard refl c,
        w.mirrors.buttons c ∙ w.absent.no_pointer refl c,
      )

  -- After `agentseat_input_pause` and after `destroy_seat`, no key and no button is left for which the
  -- last request that was sent is a press, and none after `agentseat_input_revoke`, unless the
  -- connection has no control gate. This holds in every state that the daemon's calls reach from a
  -- consistent one (IsConsistent: `pressed_keys` and `pressed_buttons` mark what was last sent as a
  -- press and have their sizes, the devices exist exactly while the seat does, and without a device no
  -- entry is marked), if a character is typed only while no key is marked. It is about the requests
  -- that are sent, not about what the compositor makes of them.
  pub nothing_sent_down :
      {s r : Input X D} (c : ℕ)
      → IsConsistent s
      → Reach s r
      → Lifted c (pause r).0
        × Lifted c (destroy_seat r)
        × ((is_some r.control ≡ false) ⊎ Lifted c (revoke_seat r))
  unfolding pause revoke_seat
  nothing_sent_down {r = r} c v path =
      let w = Reach-IsConsistent v path in
      (
        if_cases (λ (q : Input X D × Status). Lifted c q.0) r.created
            (λ _. release_all-Lifted r c w) (λ gone. uncreated-Lifted r c gone w),
        destroy_seat-Lifted r c w,
        elim (Bool-cases (is_some r.control)) [
          | inl gate ↦ inr (
              if_cases (Lifted c) (is_some r.control)
                (λ _.
                  release_all-Lifted _ c (still w (λ c. refl) (λ c. refl) refl refl refl refl refl))
                (λ gone. absurd (ground (arith, gate))))
          | inr gone ↦ inl gone
        ],
      )
