-- ===== src/Daemon/Sync.antt =====
-- `sync_control_state` of native/agentseatd.c, which takes over what the compositor has reported:
-- the control epoch, the human's activity, a new scene and the confirmation of a window action.
use agent_seat.Prelude.{
  ℕ, ◌%◌, Bool, false, ◌&&◌, ◌||◌, Option, none, some, List, [], ◌∷◌, CString, cstr, str_eq,
  if◌then◌else◌, ltb, ◌==◌, get_or, add_size,
}
use agent_seat.Prelude.Int.{ℤ, leb_ℤ}
use agent_seat.Json.{JsonC}
use agent_seat.Input.Platform.{Xkb, Doubles}
use agent_seat.Input.State.{Window, Scene}
use agent_seat.Input.Seat.{release_all}
use agent_seat.Input.Commands.{human_quiet_ms}
use agent_seat.Daemon.State.{Daemon, Semantic, Operation, no_operation}
use agent_seat.Daemon.Names.{window_name}
use agent_seat.Daemon.Leases.{lease_scene, focus_name}
use agent_seat.Daemon.Control.{finish_typing, no_writer}

-- `flags & 1`: the primary window.
abbrev pub is_primary : Window → Bool
is_primary w = w.flags % 2 == 1

-- `find_window`.
pub find_window : List Window → CString → Option Window
find_window [] id = none
find_window (w ∷ ws) id =
    if str_eq id (window_name w.id) || (str_eq id (cstr "agentseat:root") && is_primary w)
    then some w
    else find_window ws id

abbrev pub int_eq : ℤ → ℤ → Bool
int_eq a b = leb_ℤ a b && leb_ℤ b a

abbrev pub confirmed_by : Scene → Operation → Option Window → Bool
confirmed_by scene op none = false
confirmed_by scene op (some w) =
    ((op.window_action == 1) && (scene.focused_id == op.window_id))
    || ((op.window_action == 2) && int_eq w.x op.action_first && int_eq w.y op.action_second)
    || ((op.window_action == 3)
        && int_eq w.width op.action_first
        && int_eq w.height op.action_second)

-- `confirmed`.
pub confirmed : Scene → Operation → Bool
confirmed scene op =
    (op.window_action == 4)
    || confirmed_by scene op (find_window scene.windows (window_name op.window_id))

module _ {X : Xkb} {D : Doubles} {J : JsonC} {S : Semantic} where
  -- A newer control epoch ends the write lease and the operation in progress.
  unfoldable pub sync_epoch : Daemon X D J S → Daemon X D J S
  sync_epoch s =
      if ltb s.control_epoch s.input.control_epoch
      then (let s' =
            finish_typing (record s { control_epoch = s.input.control_epoch; writer = no_writer })
              (cstr "cancelled") in
          record s' { input = release_all s'.input })
      else s

  -- The human's activity and the gate; `now_u32` is `monotonic_ms` of the input connection.
  unfoldable pub sync_gate : Daemon X D J S → ℕ → ℕ → Daemon X D J S
  sync_gate s now now_u32 = record s {
    human_active_until_msec = add_size now (human_quiet_ms s.input now_u32);
    human_held = s.input.human_held;
    gate_allowed = s.input.gate_allowed;
    gate_epoch = s.input.control_epoch;
  }

  -- A new scene: the leases are those of its windows that are not denied.
  unfoldable pub sync_scene : Daemon X D J S → Daemon X D J S
  sync_scene s =
      let scene = s.input.scene in
      if scene.version == s.scene_version then s else record s {
        scene_version = scene.version;
        output_width = scene.width;
        output_height = scene.height;
        leases = if s.created then lease_scene s.denied_windows scene.windows [] else [];
        focused_window = focus_name scene.focused_id;
      }

  abbrev pub sync_operation : Daemon X D J S → Operation → Daemon X D J S
  sync_operation s op =
      if ltb 0 op.window_action && (s.input.window_action_token == op.action_token)
      then if ltb 0 s.input.window_action_status
        then finish_typing s (cstr "rejected")
        else if confirmed s.input.scene op
        then finish_typing s (cstr "finished")
        else s
      else s

  abbrev pub sync_if : Daemon X D J S → Option ℕ → Daemon X D J S
  sync_if s none = s
  sync_if s (some i) = sync_operation s (get_or s.operations i no_operation)

  -- The window action in progress.
  unfoldable pub sync_action : Daemon X D J S → Daemon X D J S
  sync_action s = sync_if s s.typing

  -- `sync_control_state`.
  unfoldable pub sync_control_state : Daemon X D J S → ℕ → ℕ → Daemon X D J S
  sync_control_state s now now_u32 = sync_action (sync_scene (sync_gate (sync_epoch s) now now_u32))
