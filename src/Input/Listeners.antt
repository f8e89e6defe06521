-- ===== src/Input/Listeners.antt =====
-- The compositor's events, as native/agentseat-input.c handles them: the gate's state, the scene,
-- the answers to requests and the registry.
use agent_seat.Prelude.{
  ℕ, Bool, true, false, not, ◌||◌, Option, none, some, [], ◌∷◌, ◌++◌, if◌then◌else◌, ltb, leb, ◌==◌,
  length, take, add_u32,
}
use agent_seat.Prelude.Int.{ℤ, pos}
use agent_seat.Input.Platform.{Xkb, Doubles}
use agent_seat.Input.State.{Input, Window, Scene, max_windows}
use agent_seat.Input.Seat.{bind_target_seat}

abbrev pub nonzero : ℕ → Bool
nonzero n = not (n == 0)

-- An empty scene of a version.
unfoldable pub blank_scene : ℕ → Scene
blank_scene version = record {
  version = version;
  focused_id = 0;
  scale_120 = 0;
  width = pos 0;
  height = pos 0;
  pixel_width = pos 0;
  pixel_height = pos 0;
  truncated = false;
  windows = [];
}

-- `snprintf` into the 257 bytes of a title.
abbrev pub cut_title : Window → Window
cut_title w = record w { title = take 256 w.title; app_id = take 256 w.app_id }

-- `window_info` on the pending scene.
unfoldable pub add_window : Scene → Window → Scene
add_window scene w =
    if leb max_windows (length scene.windows)
    then record scene { truncated = true }
    else record scene { windows = scene.windows ++ cut_title w ∷ [] }

-- The sizes of the `scene_done` event.
pub record Extent : Type 0 where
  pub width : ℤ
  pub height : ℤ
  pub pixel_width : ℤ
  pub pixel_height : ℤ
  pub scale_120 : ℕ

unfoldable pub finish_scene : Scene → ℕ → ℕ → Extent → ℕ → Scene
finish_scene scene version focused extent truncated = record scene {
  version = version;
  focused_id = focused;
  width = extent.width;
  height = extent.height;
  pixel_width = extent.pixel_width;
  pixel_height = extent.pixel_height;
  scale_120 = extent.scale_120;
  truncated = scene.truncated || nonzero truncated;
}

-- The globals that `registry_global` looks for.
pub data Interface : Type 0 where
  control_interface keyboard_interface pointer_interface output_interface seat_interface
        other_interface :
      Interface

abbrev pub bind_if : Bool → ℕ → Option ℕ → Option ℕ
bind_if b version (some v) = some v
bind_if true version none = some version
bind_if false version none = none

abbrev pub output_after : Option (ℕ × ℕ) → ℕ → Option (ℕ × ℕ)
output_after none id = none
output_after (some (global, version)) id = if id == global then none else some (global, version)

module _ {X : Xkb} {D : Doubles} where
  -- `control_state`, at a time in milliseconds.
  pub control_state : Input X D → ℕ → ℕ → ℕ → ℕ → ℕ → Input X D
  control_state s now epoch allowed quiet_ms held = record s {
    control_epoch = epoch;
    gate_allowed = nonzero allowed;
    human_until_ms = add_u32 now quiet_ms;
    human_held = nonzero held;
  }

  unfoldable pub scene_begin : Input X D → ℕ → Input X D
  scene_begin s version = record s { pending_scene = blank_scene version }

  unfoldable pub window_info : Input X D → Window → Input X D
  window_info s w = record s { pending_scene = add_window s.pending_scene w }

  unfoldable pub scene_done : Input X D → ℕ → ℕ → Extent → ℕ → Input X D
  scene_done s version focused extent truncated =
      let scene = finish_scene s.pending_scene version focused extent truncated in
      record s { pending_scene = scene; scene = scene }

  pub window_action_done : Input X D → ℕ → ℕ → Input X D
  window_action_done s token status = record s {
    window_action_token = token;
    window_action_status = status;
  }

  pub clipboard_offered : Input X D → ℕ → ℕ → Input X D
  clipboard_offered s token status = record s { clipboard_token = token; clipboard_status = status }

  pub clipboard_transfer : Input X D → ℕ → ℕ → Input X D
  clipboard_transfer s token bytes =
      if s.clipboard_token == token
      then record s {
        clipboard_transfers = add_u32 s.clipboard_transfers 1;
        clipboard_bytes = add_u32 s.clipboard_bytes bytes;
      }
      else s

  -- `registry_global`.
  pub registry_global : Input X D → ℕ → Interface → ℕ → Input X D
  registry_global s id control_interface version = record s {
    control = bind_if (leb 2 version) (if ltb 4 version then 4 else version) s.control;
  }
  registry_global s id keyboard_interface version = record s { keyboard_manager = true }
  registry_global s id pointer_interface version = record s {
    pointer_manager = bind_if true (if ltb 2 version then 2 else version) s.pointer_manager;
  }
  registry_global s id output_interface version = elim s.output [
    | some o ↦ s
    | none ↦ record s { output = some (id, if ltb 4 version then 4 else version) }
  ]
  registry_global s id seat_interface version =
      if s.target_global == 0
      then bind_target_seat (record s { target_global = id; target_version = version })
      else s
  registry_global s id other_interface version = s

  -- `registry_remove`.
  pub registry_remove : Input X D → ℕ → Input X D
  registry_remove s id =
      let s' : Input X D = record s { output = output_after s.output id } in
      if id == s.target_global
      then record s' { target_global = 0; target_version = 0; created = false }
      else s'
