-- ===== src/Input/Seat/Mirror.antt =====
-- The entries `pressed_keys` and `pressed_buttons` against the requests that the connection has sent.
use agent_seat.Prelude.{
  ℕ, zero, suc, ◌+◌, ◌≤◌, ◌<◌, ◌≡◌, refl, ap, Bool, true, false, ◌&&◌, ◌||◌, List, [], ◌∷◌,
  if◌then◌else◌, ◌==◌, length, get_or, set, arith, length-set, get_or-set,
}
use agent_seat.Input.Platform
use agent_seat.Input.Platform.{Xkb, Doubles, Wire}
use agent_seat.Input.State.{Input, max_tracked_keys, max_tracked_buttons}
use agent_seat.Input.Seat.{send_raw_key, track_key, track_button, release_keys, release_buttons}

-- Whether the last request for this key that was sent to the virtual keyboard, since it was last
-- destroyed, presses the key. It is a reading of what the client has sent, not what the compositor
-- holds: the compositor drops input without a grant, and releases what is held by itself, when the
-- hold expires, the human takes over or control is revoked.
abbrev pub sent_key_down : List Wire → ℕ → Bool
sent_key_down [] c = false
sent_key_down (Platform.key j pressed ∷ w) c = if j == c then pressed else sent_key_down w c
sent_key_down (Platform.destroy_keyboard ∷ w) c = false
sent_key_down (_ ∷ w) c = sent_key_down w c

-- The same for the buttons of the virtual pointer.
abbrev pub sent_button_down : List Wire → ℕ → Bool
sent_button_down [] c = false
sent_button_down (Platform.button j pressed ∷ w) c =
    if j == c then pressed else sent_button_down w c
sent_button_down (Platform.destroy_pointer ∷ w) c = false
sent_button_down (_ ∷ w) c = sent_button_down w c

-- The entry of `c` in a list of entries from `code` on.
entry_from : ℕ → List Bool → ℕ → Bool
entry_from code [] c = false
entry_from code (held ∷ rest) c = (code == c) && held || entry_from (code + 1) rest c

entry_from-below : (xs : List Bool) (code c : ℕ) → c < code → entry_from code xs c ≡ false
unfolding entry_from
entry_from-below [] code c h = refl
entry_from-below (x ∷ xs) code c h = ground (arith, entry_from-below xs (code + 1) c)

entry_from-get_or :
    (xs : List Bool) (code i : ℕ) → entry_from code xs (code + i) ≡ get_or xs i false
unfolding entry_from
entry_from-get_or [] code i = refl
entry_from-get_or (x ∷ xs) code zero =
    ground (arith, entry_from-below xs (code + 1) (code + 0) (omega arith))
entry_from-get_or (x ∷ xs) code (suc i) =
    let next : code + suc i ≡ code + 1 + i = omega arith in
    ground (arith, entry_from-get_or xs (code + 1) i, ap (entry_from (code + 1) xs) next)

module _ {X : Xkb} {D : Doubles} where
  abbrev pub KeysMirror : Input X D → Type 0
  KeysMirror s = (c : ℕ) → sent_key_down s.log c ≡ get_or s.pressed_keys c false

  abbrev pub ButtonsMirror : Input X D → Type 0
  ButtonsMirror s = (c : ℕ) → sent_button_down s.log c ≡ get_or s.pressed_buttons c false

  -- The entries say what was last sent for each key and button.
  pub record Mirrors (s : Input X D) : Type 0 where
    pub keys : KeysMirror s
    pub buttons : ButtonsMirror s
    pub key_slots : length s.pressed_keys ≡ max_tracked_keys
    pub button_slots : length s.pressed_buttons ≡ max_tracked_buttons

  pub track_key-Mirrors :
      (s : Input X D) (code : ℕ) (pressed : Bool)
      → code < max_tracked_keys
      → Mirrors s
      → Mirrors (track_key s code pressed)
  unfolding track_key send_raw_key
  track_key-Mirrors s code pressed h m = record {
    keys = λ c. ground (
      arith,
      m.keys c,
      get_or-set s.pressed_keys code c pressed false (omega (arith, m.key_slots)),
    );
    buttons = λ c. ground (arith, m.buttons c);
    key_slots = ground (arith, m.key_slots, length-set s.pressed_keys code pressed);
    button_slots = ground (arith, m.button_slots);
  }

  pub track_button-Mirrors :
      (s : Input X D) (code : ℕ) (pressed : Bool)
      → code < max_tracked_buttons
      → Mirrors s
      → Mirrors (track_button s code pressed)
  unfolding track_button
  track_button-Mirrors s code pressed h m = record {
    keys = m.keys;
    buttons = λ c. ground (
      arith,
      m.buttons c,
      get_or-set s.pressed_buttons code c pressed false (omega (arith, m.button_slots)),
    );
    key_slots = m.key_slots;
    button_slots = omega (arith, m.button_slots, length-set s.pressed_buttons code pressed);
  }

  -- Nothing is held, by the entries.
  abbrev pub NoKeys : Input X D → Type 0
  NoKeys s = (c : ℕ) → get_or s.pressed_keys c false ≡ false

  abbrev pub NoButtons : Input X D → Type 0
  NoButtons s = (c : ℕ) → get_or s.pressed_buttons c false ≡ false

  pub release_keys-Mirrors :
      (code : ℕ) (rest : List Bool) (s : Input X D)
      → code + length rest ≤ max_tracked_keys
      → Mirrors s
      → Mirrors (release_keys code rest s)
  unfolding release_keys
  release_keys-Mirrors code [] s h m = m
  release_keys-Mirrors code (true ∷ rest) s h m =
      release_keys-Mirrors (code + 1) rest (track_key s code false) (omega arith)
        (track_key-Mirrors s code false (omega arith) m)
  release_keys-Mirrors code (false ∷ rest) s h m =
      release_keys-Mirrors (code + 1) rest s (omega arith) m

  pub release_buttons-Mirrors :
      (code : ℕ) (rest : List Bool) (s : Input X D)
      → code + length rest ≤ max_tracked_buttons
      → Mirrors s
      → Mirrors (release_buttons code rest s)
  unfolding release_buttons
  release_buttons-Mirrors code [] s h m = m
  release_buttons-Mirrors code (true ∷ rest) s h m =
      release_buttons-Mirrors (code + 1) rest (track_button s code false) (omega arith)
        (track_button-Mirrors s code false (omega arith) m)
  release_buttons-Mirrors code (false ∷ rest) s h m =
      release_buttons-Mirrors (code + 1) rest s (omega arith) m

  pressed_keys-track_key :
      (s : Input X D) (code : ℕ) (pressed : Bool)
      → (track_key s code pressed).pressed_keys ≡ set s.pressed_keys code pressed
  unfolding track_key send_raw_key
  pressed_keys-track_key s code pressed = ground arith

  release_keys-entry :
      (code : ℕ) (rest : List Bool) (s : Input X D) (c : ℕ)
      → code + length rest ≤ length s.pressed_keys
      → get_or (release_keys code rest s).pressed_keys c false
        ≡ (if entry_from code rest c then false else get_or s.pressed_keys c false)
  unfolding release_keys entry_from
  release_keys-entry code [] s c h = refl
  release_keys-entry code (true ∷ rest) s c h =
      let e = pressed_keys-track_key s code false in
      ground (
        arith,
        release_keys-entry (code + 1) rest (track_key s code false) c
            (omega (arith, ap length e, length-set s.pressed_keys code false)),
        ap (λ xs. get_or xs c false) e,
        get_or-set s.pressed_keys code c false false (omega arith),
      )
  release_keys-entry code (false ∷ rest) s c h =
      ground (arith, release_keys-entry (code + 1) rest s c (omega arith))

  release_buttons-entry :
      (code : ℕ) (rest : List Bool) (s : Input X D) (c : ℕ)
      → code + length rest ≤ length s.pressed_buttons
      → get_or (release_buttons code rest s).pressed_buttons c false
        ≡ (if entry_from code rest c then false else get_or s.pressed_buttons c false)
  unfolding release_buttons entry_from track_button
  release_buttons-entry code [] s c h = refl
  release_buttons-entry code (true ∷ rest) s c h = ground (
    arith,
    release_buttons-entry (code + 1) rest (track_button s code false) c
        (omega (arith, length-set s.pressed_buttons code false)),
    get_or-set s.pressed_buttons code c false false (omega arith),
  )
  release_buttons-entry code (false ∷ rest) s c h =
      ground (arith, release_buttons-entry (code + 1) rest s c (omega arith))

  pub release_keys-NoKeys : (s : Input X D) → NoKeys (release_keys 0 s.pressed_keys s)
  release_keys-NoKeys s c =
      let zero_add : 0 + c ≡ c = omega arith in
      ground (
        arith,
        release_keys-entry 0 s.pressed_keys s c (omega arith),
        entry_from-get_or s.pressed_keys 0 c,
        ap (entry_from 0 s.pressed_keys) zero_add,
      )

  pub release_buttons-NoButtons :
      (s : Input X D) → NoButtons (release_buttons 0 s.pressed_buttons s)
  release_buttons-NoButtons s c =
      let zero_add : 0 + c ≡ c = omega arith in
      ground (
        arith,
        release_buttons-entry 0 s.pressed_buttons s c (omega arith),
        entry_from-get_or s.pressed_buttons 0 c,
        ap (entry_from 0 s.pressed_buttons) zero_add,
      )
