-- ===== src/Samples.antt =====
-- A keymap of three keys, numbers for coordinates, and a connection, for the tests.
use agent_seat.Prelude.{ℕ, ◌+◌, true, false, none, some, [], ◌∷◌, leb, ◌==◌, replicate}
use agent_seat.Input.Platform.{Xkb, Doubles}
use agent_seat.Input.State.{Input}
use agent_seat.Input.Seat.{Made, create_seat}
use agent_seat.Input.Listeners.{blank_scene}

-- Keys 8, 9 and 10 bear a, b and c.
abbrev pub keys : Xkb
keys = record {
  State = ℕ;
  state_new = 0;
  num_layouts = 1;
  min_keycode = 8;
  max_keycode = 10;
  num_levels_for_key = λ k g. 1;
  get_syms_by_level = λ k g l. (k + 89) ∷ [];
  get_mods_for_level = λ k g l. 0 ∷ [];
  utf32_to_keysym = λ c. c;
  layout_index_is_active = λ st i. i == 0;
  depressed = λ st. st;
  latched = λ st. 0;
  locked = λ st. 0;
  update_key = λ st k pressed. st;
  update_mask = λ st d a l g. d;
}

abbrev pub units : Doubles
units = record {
  Double = ℕ;
  isfinite = λ x. true;
  le = leb;
  zero = 0;
  half = 1;
  one = 2;
  to_extent = λ x. x;
  twelfth = λ v. v;
}

-- A connection whose globals are bound, before a seat is created.
unfoldable pub fresh : Input keys units
fresh = record {
  log = [];
  control = some 4;
  keyboard_manager = true;
  pointer_manager = some 2;
  output = none;
  target_global = 5;
  target_version = 9;
  seat = false;
  keyboard = false;
  pointer = false;
  xkb_state = none;
  created = false;
  paused = true;
  pressed_keys = replicate 768 false;
  pressed_buttons = replicate 1024 false;
  pointer_x = 1;
  pointer_y = 1;
  seat_id = [];
  seat_name = [];
  control_epoch = 1;
  submit_epoch = 0;
  submit_geometry = 0;
  human_until_ms = 0;
  gate_allowed = true;
  human_held = false;
  window_action_token = 0;
  window_action_status = 0;
  clipboard_token = 0;
  clipboard_status = 0;
  clipboard_transfers = 0;
  clipboard_bytes = 0;
  content_serial = 2;
  content_msec = 0;
  content_history = [];
  authorization = false;
  authorization_requested = 0;
  authorization_token = 0;
  authorization_epoch = 0;
  authorization_allowed = false;
  scene = blank_scene 0;
  pending_scene = blank_scene 0;
}

abbrev pub made : Made
made = record { keyboard = true; pointer = true; keymap = true }

abbrev pub seated : Input keys units
seated = (create_seat fresh made [] []).0
