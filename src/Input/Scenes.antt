-- ===== src/Input/Scenes.antt =====
-- A description of the scene is published as a whole.
use agent_seat.Prelude.{
  ℕ, zero, suc, ◌+◌, ◌≤◌, ◌≡◌, ◌∙◌, refl, ap, true, not, ◌||◌, List, [], ◌∷◌, ◌++◌, map, take, ltb,
  ◌==◌, length, length-append, arith,
}
use mathlib.Core.List.{append_assoc, append-nil}
use agent_seat.Input.Platform.{Xkb, Doubles}
use agent_seat.Input.State.{Input, Window, Scene, max_windows}
use agent_seat.Input.Listeners.{
  cut_title, add_window, finish_scene, blank_scene, Extent, scene_begin, window_info, scene_done,
}

-- The windows that are added to a scene, in order.
add_windows : Scene → List Window → Scene
add_windows scene [] = scene
add_windows scene (w ∷ ws) = add_windows (add_window scene w) ws

add_windows-full :
    (scene : Scene) (ws : List Window)
    → max_windows ≤ length scene.windows
    → ((add_windows scene ws).windows ≡ scene.windows)
      × ((add_windows scene ws).truncated ≡ (scene.truncated || ltb 0 (length ws)))
unfolding add_windows add_window
add_windows-full scene [] h = ground arith
add_windows-full scene (w ∷ ws) h =
    ground (arith, add_windows-full (record scene { truncated = true }) ws)

add_windows-lem :
    (ws : List Window) (scene : Scene) (room : ℕ)
    → length scene.windows + room ≡ max_windows
    → ((add_windows scene ws).windows ≡ scene.windows ++ map cut_title (take room ws))
      × ((add_windows scene ws).truncated ≡ (scene.truncated || ltb room (length ws)))
unfolding add_windows add_window
add_windows-lem [] scene zero h = ground (arith, append-nil scene.windows)
add_windows-lem [] scene (suc room) h = ground (arith, append-nil scene.windows)
add_windows-lem (w ∷ ws) scene zero h = ground (
  arith,
  append-nil scene.windows,
  add_windows-full (record scene { truncated = true }) ws (omega arith),
)
add_windows-lem (w ∷ ws) scene (suc room) h =
    let wider : Scene = record scene { windows = scene.windows ++ cut_title w ∷ [] } in
    ground (
      arith,
      add_windows-lem ws wider room (omega (arith, length-append scene.windows (cut_title w ∷ []))),
      append_assoc scene.windows (cut_title w ∷ []) (map cut_title (take room ws)),
    )

module _ {X : Xkb} {D : Doubles} where
  -- The events `window_info` of one description.
  pub window_infos : Input X D → List Window → Input X D
  window_infos s [] = s
  window_infos s (w ∷ ws) = window_infos (window_info s w) ws

  window_infos-scenes :
      (s : Input X D) (ws : List Window)
      → ((window_infos s ws).pending_scene ≡ add_windows s.pending_scene ws)
        × ((window_infos s ws).scene ≡ s.scene)
  unfolding window_infos window_info add_windows
  window_infos-scenes s [] = (refl, refl)
  window_infos-scenes s (w ∷ ws) =
      window_infos-scenes (record s { pending_scene = add_window s.pending_scene w }) ws

  -- A description of the scene, `scene_begin`, one `window_info` for each window and `scene_done`,
  -- publishes exactly the first 256 windows, in order and with their texts cut to their buffers, and
  -- marks the scene as truncated exactly when there were more windows or the compositor said so;
  -- until `scene_done` the scene that others read stays the old one.
  pub scene_done-windows :
      (s : Input X D) (ws : List Window) (begun version focused : ℕ) (extent : Extent) (cut : ℕ)
      → let described = window_infos (scene_begin s begun) ws in
        let done = (scene_done described version focused extent cut).scene in
        (described.scene ≡ s.scene)
        × (done.windows ≡ map cut_title (take 256 ws))
        × (done.truncated ≡ (ltb 256 (length ws) || not (cut == 0)))
        × (done.version ≡ version)
        × (done.focused_id ≡ focused)
  unfolding scene_done finish_scene scene_begin blank_scene
  scene_done-windows s ws begun version focused extent cut =
      let s' : Input X D = record s { pending_scene = blank_scene begun } in
      let (pending, kept) = window_infos-scenes s' ws in
      let (windows, truncated) = add_windows-lem ws (blank_scene begun) 256 refl in
      (
        kept,
        ap (λ q. q.windows) pending ∙ windows,
        ap (λ b. b || not (cut == 0)) (ap (λ q. q.truncated) pending ∙ truncated),
        refl,
        refl,
      )
