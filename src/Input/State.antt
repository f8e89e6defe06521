-- ===== src/Input/State.antt =====
-- `struct input_state` of native/agentseat-input.c.
use agent_seat.Prelude.{ℕ, Bool, Option, List, ◌∷◌, CString, if◌then◌else◌, ◌==◌}
use agent_seat.Prelude.Int.{ℤ}
use agent_seat.Input.Platform.{Xkb, Doubles, Wire, acquire, acquire_geometry}

abbrev pub max_tracked_keys : ℕ
max_tracked_keys = 768

abbrev pub max_tracked_buttons : ℕ
max_tracked_buttons = 1024

abbrev pub max_windows : ℕ
max_windows = 256

abbrev pub content_history_size : ℕ
content_history_size = 256

-- `struct agentseat_window`.
pub record Window : Type 0 where
  pub id : ℕ
  pub parent_id : ℕ
  pub pid : ℕ
  pub flags : ℕ
  pub x : ℤ
  pub y : ℤ
  pub width : ℤ
  pub height : ℤ
  pub title : CString
  pub app_id : CString

-- `struct agentseat_scene`; `windows` holds the `count` entries in use.
pub record Scene : Type 0 where
  pub version : ℕ
  pub focused_id : ℕ
  pub scale_120 : ℕ
  pub width : ℤ
  pub height : ℤ
  pub pixel_width : ℤ
  pub pixel_height : ℤ
  pub truncated : Bool
  pub windows : List Window

-- `struct agentseat_content_change`.
pub record Change : Type 0 where
  pub serial : ℕ
  pub area : ℕ
  pub msec : ℕ
  pub x : ℤ
  pub y : ℤ
  pub width : ℤ
  pub height : ℤ

module _ (X : Xkb) (D : Doubles) where
  open X use {State}
  open D use {Double}

  -- `control`, `pointer_manager` and `output` hold the bound version (and the global), the other
  -- proxies whether they are set. `log` is what was sent, the newest first. `quit` and the object
  -- names of the connection are left out.
  pub record Input : Type 0 where
    pub log : List Wire
    pub control : Option ℕ
    pub keyboard_manager : Bool
    pub pointer_manager : Option ℕ
    pub output : Option (ℕ × ℕ)
    pub target_global : ℕ
    pub target_version : ℕ
    pub seat : Bool
    pub keyboard : Bool
    pub pointer : Bool
    pub xkb_state : Option State
    pub created : Bool
    pub paused : Bool
    pub pressed_keys : List Bool
    pub pressed_buttons : List Bool
    pub pointer_x : Double
    pub pointer_y : Double
    pub seat_id : CString
    pub seat_name : CString
    pub control_epoch : ℕ
    pub submit_epoch : ℕ
    pub submit_geometry : ℕ
    pub human_until_ms : ℕ
    pub gate_allowed : Bool
    pub human_held : Bool
    pub window_action_token : ℕ
    pub window_action_status : ℕ
    pub clipboard_token : ℕ
    pub clipboard_status : ℕ
    pub clipboard_transfers : ℕ
    pub clipboard_bytes : ℕ
    pub content_serial : ℕ
    pub content_msec : ℕ
    pub content_history : List Change
    pub authorization : Bool
    pub authorization_requested : ℕ
    pub authorization_token : ℕ
    pub authorization_epoch : ℕ
    pub authorization_allowed : Bool
    pub scene : Scene
    pub pending_scene : Scene

  abbrev pub send : Input → Wire → Input
  send s w = record s { log = w ∷ s.log }

  -- `acquire_gate`.
  unfoldable pub acquire_gate : Input → Input
  acquire_gate s = send s (
      if s.submit_geometry == 0
      then acquire s.submit_epoch
      else acquire_geometry s.submit_epoch s.submit_geometry)
