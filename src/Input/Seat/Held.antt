-- ===== src/Input/Seat/Held.antt =====
-- The daemon's entries for held keys and buttons agree with the compositor through every operation
-- on the seat.
use agent_seat.Prelude.{ℕ, ◌+◌, ◌≡◌, sym, ◌∙◌, Bool, true, false, List, [], ◌∷◌, arith, if_cases}
use agent_seat.Input.Platform.{Xkb, Doubles}
use agent_seat.Input.State.{Input}
use agent_seat.Input.Seat.{
  send_raw_key, track_key, track_button, release_keys, release_buttons, release_pointer,
  release_all,
}
use agent_seat.Input.Seat.Mirror.{
  Mirrors, NoKeys, NoButtons, release_keys-Mirrors, release_buttons-Mirrors, release_keys-NoKeys,
  release_buttons-NoButtons,
}

module _ {X : Xkb} {D : Doubles} where
  -- What the release loops leave alone.
  pub record SameSeat (s r : Input X D) : Type 0 where
    pub same_keyboard : r.keyboard ≡ s.keyboard
    pub same_pointer : r.pointer ≡ s.pointer
    pub same_created : r.created ≡ s.created
    pub same_seat : r.seat ≡ s.seat

  SameSeat-trans : {s t r : Input X D} → SameSeat s t → SameSeat t r → SameSeat s r
  SameSeat-trans p q = record {
    same_keyboard = q.same_keyboard ∙ p.same_keyboard;
    same_pointer = q.same_pointer ∙ p.same_pointer;
    same_created = q.same_created ∙ p.same_created;
    same_seat = q.same_seat ∙ p.same_seat;
  }

  pub track_key-SameSeat :
      (s : Input X D) (code : ℕ) (pressed : Bool)
      → SameSeat s (track_key s code pressed)
        × ((track_key s code pressed).pressed_buttons ≡ s.pressed_buttons)
  unfolding track_key send_raw_key
  track_key-SameSeat s code pressed = ground arith

  release_keys-SameSeat :
      (code : ℕ) (rest : List Bool) (s : Input X D)
      → SameSeat s (release_keys code rest s)
        × ((release_keys code rest s).pressed_buttons ≡ s.pressed_buttons)
  unfolding release_keys
  release_keys-SameSeat code [] s = ground arith
  release_keys-SameSeat code (true ∷ rest) s = ground (
    arith,
    track_key-SameSeat s code false,
    release_keys-SameSeat (code + 1) rest (track_key s code false),
  )
  release_keys-SameSeat code (false ∷ rest) s =
      ground (arith, release_keys-SameSeat (code + 1) rest s)

  release_buttons-SameSeat :
      (code : ℕ) (rest : List Bool) (s : Input X D)
      → SameSeat s (release_buttons code rest s)
        × ((release_buttons code rest s).pressed_keys ≡ s.pressed_keys)
  unfolding release_buttons track_button
  release_buttons-SameSeat code [] s = ground arith
  release_buttons-SameSeat code (true ∷ rest) s =
      ground (arith, release_buttons-SameSeat (code + 1) rest (track_button s code false))
  release_buttons-SameSeat code (false ∷ rest) s =
      ground (arith, release_buttons-SameSeat (code + 1) rest s)

  release_pointer-Mirrors : (s : Input X D) → Mirrors s → Mirrors (release_pointer s)
  unfolding release_pointer
  release_pointer-Mirrors s m =
      let m' = release_buttons-Mirrors 0 s.pressed_buttons s (omega (arith, m.button_slots)) m in
      if_cases Mirrors s.pointer
        (λ _. record {
          keys = m'.keys;
          buttons = m'.buttons;
          key_slots = m'.key_slots;
          button_slots = m'.button_slots;
        })
        (λ _. m)

  pub release_all-Mirrors : (s : Input X D) → Mirrors s → Mirrors (release_all s)
  unfolding release_all
  release_all-Mirrors s m =
      if_cases {A = Input X D} (λ r. Mirrors (release_pointer r)) s.keyboard
        (λ _.
          release_pointer-Mirrors _
            (release_keys-Mirrors 0 s.pressed_keys s (omega (arith, m.key_slots)) m))
        (λ _. release_pointer-Mirrors s m)

  -- A device that does not exist holds nothing.
  pub record Absent (s : Input X D) : Type 0 where
    pub no_keyboard : s.keyboard ≡ false → NoKeys s
    pub no_pointer : s.pointer ≡ false → NoButtons s

  pub record Released (s r : Input X D) : Type 0 where
    pub no_keys : NoKeys r
    pub no_buttons : NoButtons r
    pub same : SameSeat s r

  release_pointer-Released :
      (s : Input X D)
      → (s.pointer ≡ false → NoButtons s)
      → NoKeys s
      → Released s (release_pointer s)
  unfolding release_pointer
  release_pointer-Released s absent none_held =
      let (same, keys_same) = release_buttons-SameSeat 0 s.pressed_buttons s in
      if_cases (Released s) s.pointer
        (λ _. record {
          no_keys = λ c. rw keys_same (none_held c);
          no_buttons = release_buttons-NoButtons s;
          same = record {
            same_keyboard = same.same_keyboard;
            same_pointer = same.same_pointer;
            same_created = same.same_created;
            same_seat = same.same_seat;
          };
        })
        (λ e. record { no_keys = none_held; no_buttons = absent e; same = ground arith })

  pub release_all-Released : (s : Input X D) → Absent s → Released s (release_all s)
  unfolding release_all
  release_all-Released s a =
      if_cases {A = Input X D} (λ r. Released s (release_pointer r)) s.keyboard
        (λ _.
          let r = release_keys 0 s.pressed_keys s in
          let (same, buttons_same) = release_keys-SameSeat 0 s.pressed_keys s in
          let no_pointer : r.pointer ≡ false → NoButtons r =
            λ e c. rw buttons_same (a.no_pointer (sym same.same_pointer ∙ e) c) in
          let released = release_pointer-Released r no_pointer (release_keys-NoKeys s) in
          record {
            no_keys = released.no_keys;
            no_buttons = released.no_buttons;
            same = SameSeat-trans same released.same;
          })
        (λ e. release_pointer-Released s a.no_pointer (a.no_keyboard e))
