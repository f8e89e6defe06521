-- ===== src/Input/Tests.antt =====
-- native/agentseat-input.c on a keymap of three keys, and the theorems about it there.
use agent_seat.Prelude.{
  ℕ, ◌≡◌, ◌⊎◌, ◌↔◌, refl, true, false, some, List, [], ◌∷◌, map, get_or, replicate,
  length-replicate, get_or-replicate, arith, set, sym, get_or-set, length-set, ◌∙◌, first,
}
use agent_seat.Prelude.Int.{pos}
use agent_seat.Input.Platform.{Wire}
use agent_seat.Input.State.{Input, Window, Change}
use agent_seat.Input.Utf8.{decode, decode_iff, AllScalars, encode_all}
use agent_seat.Input.Keymap.{
  find_symbol, find_key, find_level, has_symbol, current_group, place_of, symbol_of,
  supported_codepoint, type_codepoint,
}
use agent_seat.Input.Keymap.Symbols.{Holds, find_symbol-total, type_codepoint-supported}
use agent_seat.Input.Texts.{Typeable, prepare_text_iff}
use agent_seat.Input.Seat.{ok, is_some, pause, destroy_seat, key_event}
use agent_seat.Input.Seat.Mirror.{sent_key_down, sent_button_down}
use agent_seat.Input.Seat.Operations.{IsConsistent}
use agent_seat.Input.Commands.{revoke_seat, prepare_text}
use agent_seat.Input.Calls.{creates, presses_key}
use agent_seat.Input.Reach.{Reach, Lifted, here, next, sent_down-pressed, nothing_sent_down}
use agent_seat.Input.Listeners.{Extent, scene_begin, scene_done}
use agent_seat.Input.Scenes.{window_infos, scene_done-windows}
use agent_seat.Input.Content.{content_changes, content_changes-serials, serials_from, collect}
use agent_seat.Samples.{keys, units, fresh, made, seated}

fresh-IsConsistent : IsConsistent fresh
unfolding fresh
fresh-IsConsistent = record {
  mirrors = record {
    keys = λ c. rw (get_or-replicate 768 c false) refl;
    buttons = λ c. rw (get_or-replicate 1024 c false) refl;
    key_slots = length-replicate 768 false;
    button_slots = length-replicate 1024 false;
  };
  absent = record {
    no_keyboard = λ _ c. get_or-replicate 768 c false;
    no_pointer = λ _ c. get_or-replicate 1024 c false;
  };
  keyboard_made = refl;
  pointer_made = refl;
}

-- The seat is created, and the agent holds key 30.
to_held : Reach fresh (key_event true seated 30 true).0
to_held = next (next here (creates made [] [])) (presses_key true 30 true)

sent_down-pressed_example :
    ((c : ℕ)
      → sent_key_down (key_event true seated 30 true).0.log c
        ≡ get_or (key_event true seated 30 true).0.pressed_keys c false)
    × ((c : ℕ)
        → sent_button_down (key_event true seated 30 true).0.log c
          ≡ get_or (key_event true seated 30 true).0.pressed_buttons c false)
sent_down-pressed_example = sent_down-pressed fresh-IsConsistent to_held

decode_iff_example :
    (decode 2 (0xc3 ∷ 0xa9 ∷ []) ≡ some (0xe9 ∷ []))
    ↔ (AllScalars (0xe9 ∷ []) × (0xc3 ∷ 0xa9 ∷ [] ≡ encode_all (0xe9 ∷ [])))
decode_iff_example = decode_iff (0xc3 ∷ 0xa9 ∷ []) (0xe9 ∷ []) (omega arith)

prepare_text_iff_example :
    (prepare_text seated (97 ∷ 98 ∷ []) ≡ (some (97 ∷ 98 ∷ []), ok))
    ↔ Typeable seated (97 ∷ 98 ∷ []) (97 ∷ 98 ∷ [])
prepare_text_iff_example = prepare_text_iff seated (97 ∷ 98 ∷ []) (97 ∷ 98 ∷ []) (omega arith)

-- A seat on which key 30 is held.
holding : Input keys units
unfolding fresh
holding = record fresh {
  log = Wire.key 30 true ∷ [];
  created = true;
  paused = false;
  keyboard = true;
  pointer = true;
  pressed_keys = set (replicate 768 false) 30 true;
}

holding-IsConsistent : IsConsistent holding
unfolding holding
holding-IsConsistent = record {
  mirrors = record {
    keys = λ c.
        let written =
          get_or-set (replicate 768 false) 30 c true false
            (rw (length-replicate 768 false) (omega arith)) in
        sym (rw (written, get_or-replicate 768 c false) refl);
    buttons = λ c. rw (get_or-replicate 1024 c false) refl;
    key_slots = length-set (replicate 768 false) 30 true ∙ length-replicate 768 false;
    button_slots = length-replicate 1024 false;
  };
  absent = record { no_keyboard = λ e. cc; no_pointer = λ e. cc };
  keyboard_made = refl;
  pointer_made = refl;
}

nothing_sent_down_example :
    Lifted 30 (pause holding).0
    × Lifted 30 (destroy_seat holding)
    × ((is_some holding.control ≡ false) ⊎ Lifted 30 (revoke_seat holding))
nothing_sent_down_example = nothing_sent_down 30 holding-IsConsistent here

b_held : Holds keys 98 9 0 0
b_held = record {
  low = omega arith;
  high = omega arith;
  group = omega arith;
  level = omega arith;
  bears = unfold has_symbol in refl;
}

find_symbol-total_example :
    (k : ℕ) × (g : ℕ) × (l : ℕ) × (find_symbol keys 0 98 ≡ some (k, g, l)) × Holds keys 98 k g l
find_symbol-total_example = find_symbol-total keys 0 98 9 0 0 b_held

type_codepoint-supported_example : (r : List Wire × ℕ) × (type_codepoint keys 5 98 ≡ some r)
type_codepoint-supported_example = type_codepoint-supported keys 0 5 98 (
    unfold supported_codepoint place_of symbol_of find_symbol find_key find_level has_symbol
      current_group first in
    refl)

abbrev window : Window
window = record {
  id = 7;
  parent_id = 0;
  pid = 100;
  flags = 1;
  x = pos 0;
  y = pos 0;
  width = pos 800;
  height = pos 600;
  title = [];
  app_id = [];
}

abbrev extent : Extent
extent = record {
  width = pos 800;
  height = pos 600;
  pixel_width = pos 800;
  pixel_height = pos 600;
  scale_120 = 120;
}

scene_done-windows_example :
    let described = window_infos (scene_begin fresh 3) (window ∷ []) in
    let done = (scene_done described 3 7 extent 0).scene in
    (described.scene ≡ fresh.scene)
    × (done.windows ≡ window ∷ [])
    × (done.truncated ≡ false)
    × (done.version ≡ 3)
    × (done.focused_id ≡ 7)
scene_done-windows_example = scene_done-windows fresh (window ∷ []) 3 3 7 extent 0

-- Two commits, the second of which is newer than serial 1.
abbrev commit : ℕ → Change
commit n = record {
  serial = n;
  area = 1;
  msec = 0;
  x = pos 0;
  y = pos 0;
  width = pos 1;
  height = pos 1;
}

committed : Input keys units
unfolding fresh
committed = record fresh {
  content_serial = 2;
  content_history = commit 0 ∷ commit 1 ∷ commit 2 ∷ [];
}

content_changes-serials_example :
    map (λ q. q.serial) (content_changes committed 1 256).items ≡ 2 ∷ []
unfolding committed content_changes collect serials_from
content_changes-serials_example =
    content_changes-serials committed 1 (omega arith) (omega arith) refl
