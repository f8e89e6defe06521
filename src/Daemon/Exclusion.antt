-- ===== src/Daemon/Exclusion.antt =====
-- A window that window.release has excluded is not leased by a new scene.
use agent_seat.Prelude.{
  ℕ, ◌^◌, ◌<◌, ◌≡◌, ◌≢◌, refl, arith, true, false, List, [], ◌∷◌, ◌++◌, CString, length, leb, ◌==◌,
  str_eq, str_eq→eq, if_cases, ap, inl, inr, Bool-cases,
}
use agent_seat.Json.{JsonC}
use agent_seat.Input.Platform.{Xkb, Doubles}
use agent_seat.Input.State.{Window}
use agent_seat.Daemon.State.{Daemon, Semantic, max_leases}
use agent_seat.Daemon.Names.{window_name, window_name_injective}
use agent_seat.Daemon.Leases.{lease_contains, lease_add, is_denied, lease_scene}
use agent_seat.Daemon.Sync.{sync_scene}

-- The ids of these windows are uint32_t.
pub data SmallIds : List Window → Type 0 where
  none_left : SmallIds []
  small_id : {w : Window} {ws : List Window} → w.id < 2 ^ 32 → SmallIds ws → SmallIds (w ∷ ws)

contains-append :
    (xs : List CString) (x id : CString)
    → lease_contains xs id ≡ false
    → str_eq x id ≡ false
    → lease_contains (xs ++ (x ∷ [])) id ≡ false
unfolding lease_contains
contains-append [] x id h e = ground (arith, e)
contains-append (y ∷ ys) x id h e = ground (arith, h, e, contains-append ys x id)

lease_add-absent :
    (xs : List CString) (x id : CString)
    → lease_contains xs id ≡ false
    → str_eq x id ≡ false
    → lease_contains (lease_add xs x) id ≡ false
unfolding lease_add
lease_add-absent xs x id h e =
    if_cases (λ ys. lease_contains ys id ≡ false) (lease_contains xs x) (λ _. h)
      (λ _.
        if_cases (λ ys. lease_contains ys id ≡ false) (leb max_leases (length xs)) (λ _. h)
          (λ _. contains-append xs x id h e))

other_name :
    (a b : ℕ) → a < 2 ^ 32 → b < 2 ^ 32 → a ≢ b → str_eq (window_name a) (window_name b) ≡ false
other_name a b ha hb ne = elim (Bool-cases (str_eq (window_name a) (window_name b))) [
  | inl e ↦
      absurd (ne (window_name_injective a b ha hb (str_eq→eq (window_name a) (window_name b) e)))
  | inr e ↦ e
]

not_same : (a b : ℕ) (xs : List ℕ) → is_denied xs b ≡ true → is_denied xs a ≡ false → a ≢ b
not_same a b xs d e same = absurd (ground (arith, d, e, ap (is_denied xs) same))

lease_scene-absent :
    (denied : List ℕ) (ws : List Window) (leases : List CString) (id : ℕ)
    → SmallIds ws
    → id < 2 ^ 32
    → is_denied denied id ≡ true
    → lease_contains leases (window_name id) ≡ false
    → lease_contains (lease_scene denied ws leases) (window_name id) ≡ false
unfolding lease_scene
lease_scene-absent denied [] leases id v p d h = h
lease_scene-absent denied (w ∷ ws) leases id (small_id q v) p d h =
    lease_scene-absent denied ws _ id v p d (
      if_cases (λ ys. lease_contains ys (window_name id) ≡ false) (is_denied denied w.id) (λ _. h)
        (λ e.
          lease_add-absent leases (window_name w.id) (window_name id) h
            (other_name w.id id q p (not_same w.id id denied d e))))

module _ {X : Xkb} {D : Doubles} {J : JsonC} {S : Semantic} where
  -- When the compositor reports a new scene, a window that window.release has excluded, and that
  -- window.lease has not admitted again, is not among the leases afterwards, whatever windows the
  -- scene has; the numbers of windows are below 2 ^ 32.
  pub sync_scene-excluded :
      (s : Daemon X D J S) (id : ℕ)
      → SmallIds s.input.scene.windows
      → id < 2 ^ 32
      → is_denied s.denied_windows id ≡ true
      → s.input.scene.version ≢ s.scene_version
      → lease_contains (sync_scene s).leases (window_name id) ≡ false
  unfolding sync_scene lease_contains
  sync_scene-excluded s id v p d newer =
      if_cases (λ (r : Daemon X D J S). lease_contains r.leases (window_name id) ≡ false)
        (s.input.scene.version == s.scene_version) (λ e. absurd (newer (ground (arith, e))))
        (λ _.
          if_cases (λ ys. lease_contains ys (window_name id) ≡ false) s.created
            (λ _. lease_scene-absent s.denied_windows s.input.scene.windows [] id v p d refl)
            (λ _. refl))
