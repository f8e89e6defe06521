-- ===== src/Input/Seat.antt =====
-- The virtual seat of native/agentseat-input.c: its creation and destruction, and the keys and
-- buttons that the agent holds on it. `flushed` is whether `wl_display_flush` succeeds.
pub mod Mirror
pub mod Held
pub mod Operations
pub mod Runs
use agent_seat.Prelude.{
  ℕ, zero, suc, ◌+◌, ◌-◌, ◌/◌, ◌%◌, Bool, true, false, not, ◌&&◌, ◌||◌, Option, none, some, List,
  [], ◌∷◌, ◌++◌, CString, if◌then◌else◌, ltb, leb, ◌==◌, length, get_or, set, replicate, take,
  bool_eq,
}
use agent_seat.Prelude.Int.{ℤ, pos, negsuc, leb_ℤ, ltb_ℤ}
use agent_seat.Input.Platform
use agent_seat.Input.Platform.{
  Xkb, Doubles, Wire, revoke, hold_timeout, window_action, clipboard_offer, sync, create_keyboard,
  create_pointer, create_pointer_with_output, destroy_keyboard, destroy_pointer, release_seat,
  keymap, modifiers, button, motion_absolute, axis_source, axis_discrete, frame,
}
use agent_seat.Input.State.{Input, send, acquire_gate, max_tracked_keys, max_tracked_buttons}
use agent_seat.Input.Keymap.{save_mods, type_codepoint, prepare}
use agent_seat.Input.Utf8.{decode}

abbrev pub abs_extent : ℕ
abs_extent = 1_000_000

-- Why an operation on the seat fails.
pub data Fault : Type 0 where
  not_created seat_paused exists globals_missing not_bound not_made no_keymap not_normalized
        out_of_range unsupported_text key_unavailable keys_held no_clipboard not_utf8 no_payload
        flush_failed :
      Fault

pub data Status : Type 0 where
  ok : Status
  failed : Fault → Status

abbrev pub if_seat : Bool → Wire → List Wire → List Wire
if_seat true w log = w ∷ log
if_seat false w log = log

abbrev pub is_some : Option ℕ → Bool
is_some none = false
is_some (some n) = true

-- What the connection makes of the requests of `create_seat`.
pub record Made : Type 0 where
  pub keyboard : Bool
  pub pointer : Bool
  pub keymap : Bool

-- The test on a pointer coordinate.
pub normalized : (D : Doubles) → D.Double → Bool
normalized D v = D.isfinite v && D.le D.zero v && D.le v D.one

module _ {X : Xkb} {D : Doubles} where
  -- `update_xkb_key` and the request of `send_raw_key`: the modifiers and the key.
  pub send_raw_key : Input X D → ℕ → Bool → Input X D
  send_raw_key s code pressed = elim s.xkb_state [
    | none ↦ send X D s (Platform.key code pressed)
    | some st ↦
        let st' = X.update_key st (code + 8) pressed in
        record s {
          xkb_state = some st';
          log = Platform.key code pressed ∷ modifiers (save_mods X st') ∷ s.log;
        }
  ]

  -- A key or a button is sent, and its entry follows.
  pub track_key : Input X D → ℕ → Bool → Input X D
  track_key s code pressed =
      let s' = send_raw_key s code pressed in
      record s' { pressed_keys = set s'.pressed_keys code pressed }

  pub track_button : Input X D → ℕ → Bool → Input X D
  track_button s code pressed = record s {
    log = button code pressed ∷ s.log;
    pressed_buttons = set s.pressed_buttons code pressed;
  }

  -- The loop of `release_all` over the keys, with those from `code` on left.
  pub release_keys : ℕ → List Bool → Input X D → Input X D
  release_keys code [] s = s
  release_keys code (held ∷ rest) s =
      release_keys (code + 1) rest (if held then track_key s code false else s)

  pub release_buttons : ℕ → List Bool → Input X D → Input X D
  release_buttons code [] s = s
  release_buttons code (held ∷ rest) s =
      release_buttons (code + 1) rest (if held then track_button s code false else s)

  pub release_pointer : Input X D → Input X D
  release_pointer s =
      if s.pointer then send X D (release_buttons 0 s.pressed_buttons s) frame else s

  -- `release_all`.
  unfoldable pub release_all : Input X D → Input X D
  release_all s = release_pointer (if s.keyboard then release_keys 0 s.pressed_keys s else s)

  abbrev pub revoke_if : Bool → Input X D → Input X D
  revoke_if true s = send X D s revoke
  revoke_if false s = s

  -- The requests of `destroy_seat` on the proxies that are set, and the cleared state.
  unfoldable pub clear_seat : Input X D → Input X D
  clear_seat s = record s {
    log =
        if_seat s.seat release_seat
          (if_seat s.keyboard destroy_keyboard (if_seat s.pointer destroy_pointer s.log));
    pointer = false;
    keyboard = false;
    seat = false;
    created = false;
    paused = true;
    pressed_keys = replicate max_tracked_keys false;
    pressed_buttons = replicate max_tracked_buttons false;
    xkb_state = none;
  }

  -- `destroy_seat`.
  unfoldable pub destroy_seat : Input X D → Input X D
  destroy_seat s = clear_seat (release_all (revoke_if (is_some s.control && s.created) s))

  -- `bind_target_seat`; a registry bind does not fail here.
  pub bind_target_seat : Input X D → Input X D
  bind_target_seat s = if (s.target_global == 0) || s.seat then s else record s { seat = true }

  abbrev makes_on_output : Input X D → Bool
  makes_on_output s = elim s.output [
    | none ↦ false
    | some o ↦ elim s.pointer_manager [ none ↦ false | some v ↦ leb 2 v ]
  ]

  -- The proxies of `create_seat`.
  pub create_devices : Input X D → Made → Input X D
  create_devices s made = record s {
    log =
        (if makes_on_output s then create_pointer_with_output else create_pointer)
        ∷ create_keyboard
        ∷ s.log;
    keyboard = made.keyboard;
    pointer = made.pointer;
  }

  -- `init_keyboard` where the keymap compiles, and the end of `create_seat`.
  pub start_seat : Input X D → Input X D
  start_seat s = record s {
    xkb_state = some X.state_new;
    log = modifiers (save_mods X X.state_new) ∷ keymap ∷ s.log;
    pointer_x = D.half;
    pointer_y = D.half;
    paused = false;
    created = true;
  }

  -- `create_seat` from its requests for the devices on.
  pub create_checked : Input X D → Made → Input X D × Status
  create_checked s made =
      if not (made.keyboard && made.pointer)
      then (destroy_seat s, failed not_made)
      else if made.keymap
      then (start_seat s, ok)
      else (destroy_seat s, failed no_keymap)

  -- `create_seat` from the binding of the seat on.
  pub create_bound : Input X D → Made → Input X D × Status
  create_bound s made =
      if not s.seat
      then (destroy_seat s, failed not_bound)
      else create_checked
          (create_devices (acquire_gate X D (record s { submit_epoch = s.control_epoch })) made)
          made

  -- `create_seat`; the names are cut to their buffers.
  unfoldable pub create_seat : Input X D → Made → CString → CString → Input X D × Status
  create_seat s made seat_id name =
      if s.created
      then (s, failed exists)
      else if not s.keyboard_manager || not (is_some s.pointer_manager) || (s.target_global == 0)
      then (s, failed globals_missing)
      else create_bound
          (bind_target_seat (record s { seat_id = take 255 seat_id; seat_name = take 255 name }))
          made

  -- `require_input_active`.
  unfoldable pub require_input_active : Input X D → Status
  require_input_active s =
      if not s.created then failed not_created else if s.paused then failed seat_paused else ok

  abbrev pub after_check : Input X D → Status → Input X D × Status → Input X D × Status
  after_check s ok r = r
  after_check s (failed f) r = (s, failed f)

  abbrev pub flush : Bool → Input X D → Input X D × Status
  flush true s = (s, ok)
  flush false s = (s, failed flush_failed)

  -- `agentseat_input_pause` and `agentseat_input_resume`.
  unfoldable pub pause : Input X D → Input X D × Status
  pause s =
      if s.created then (record (release_all s) { paused = true }, ok) else (s, failed not_created)

  unfoldable pub resume : Input X D → Input X D × Status
  resume s = if s.created then (record s { paused = false }, ok) else (s, failed not_created)

  -- `agentseat_input_move_absolute`.
  unfoldable pub move_absolute : Bool → Input X D → D.Double → D.Double → Input X D × Status
  move_absolute flushed s x y = after_check s (require_input_active s) (
      if normalized D x && normalized D y
      then (let s' = acquire_gate X D s in
          flush flushed (record s' {
            pointer_x = x;
            pointer_y = y;
            log = frame ∷ motion_absolute (D.to_extent x) (D.to_extent y) ∷ s'.log;
          }))
      else (s, failed not_normalized))

  -- `agentseat_input_button`.
  unfoldable pub button_event : Bool → Input X D → ℕ → Bool → Input X D × Status
  button_event flushed s code pressed = after_check s (require_input_active s) (
      if leb max_tracked_buttons code
      then (s, failed out_of_range)
      else (let s' = acquire_gate X D s in
          flush flushed (
            send X D
              (if bool_eq (get_or s'.pressed_buttons code false) pressed
                then s'
                else track_button s' code pressed)
              frame)))

  -- `agentseat_input_key`.
  unfoldable pub key_event : Bool → Input X D → ℕ → Bool → Input X D × Status
  key_event flushed s code pressed = after_check s (require_input_active s) (
      if leb max_tracked_keys code
      then (s, failed out_of_range)
      else (let s' = acquire_gate X D s in
          flush flushed (
            if bool_eq (get_or s'.pressed_keys code false) pressed
            then s'
            else track_key s' code pressed)))
