-- ===== src/Daemon/Leases.antt =====
-- The windows that the agent may use, in native/agentseatd.c: the lists `leases`, of names, and
-- `denied_windows`, of the windows that were released.
use agent_seat.Prelude.{
  ℕ, zero, suc, ◌+◌, ◌-◌, Bool, false, ◌||◌, Option, none, some, List, [], ◌∷◌, ◌++◌, CString,
  str_eq, if◌then◌else◌, leb, ◌==◌, length, get_or, set, take,
}
use agent_seat.Input.State.{Window}
use agent_seat.Daemon.State.{max_leases}
use agent_seat.Daemon.Names.{window_name}

-- `lease_contains`.
unfoldable pub lease_contains : List CString → CString → Bool
lease_contains [] id = false
lease_contains (x ∷ xs) id = str_eq x id || lease_contains xs id

-- `lease_add`, where the allocation succeeds.
unfoldable pub lease_add : List CString → CString → List CString
lease_add xs id =
    if lease_contains xs id then xs else if leb max_leases (length xs) then xs else xs ++ (id ∷ [])

-- `lease_remove`.
pub lease_remove : List CString → CString → List CString
lease_remove [] id = []
lease_remove (x ∷ xs) id = if str_eq x id then xs else x ∷ lease_remove xs id

-- The loops over `denied_windows` that set `denied`.
unfoldable pub is_denied : List ℕ → ℕ → Bool
is_denied [] id = false
is_denied (x ∷ xs) id = (x == id) || is_denied xs id

-- window.release: the exclusion, or `none` when there is no room.
pub deny : List ℕ → ℕ → Option (List ℕ)
deny xs id =
    if is_denied xs id
    then some xs
    else if length xs == max_leases
    then none
    else some (xs ++ (id ∷ []))

-- The loop of window.lease, from the index `i` on: an entry with the window gives way to the last
-- one, which is examined next. Each round passes an entry or drops one.
pub admit_from : ℕ → List ℕ → ℕ → ℕ → List ℕ
admit_from zero xs id i = xs
admit_from (suc rounds) xs id i =
    let dropped =
      admit_from rounds (take (length xs - 1) (set xs i (get_or xs (length xs - 1) 0))) id i in
    let passed = admit_from rounds xs id (i + 1) in
    if leb (length xs) i then xs else if get_or xs i 0 == id then dropped else passed

-- window.lease on `denied_windows`.
pub admit_window : List ℕ → ℕ → List ℕ
admit_window xs id = admit_from (length xs) xs id 0

-- The loop over the windows of a new scene in `sync_control_state`.
unfoldable pub lease_scene : List ℕ → List Window → List CString → List CString
lease_scene denied [] leases = leases
lease_scene denied (w ∷ ws) leases =
    lease_scene denied ws
      (if is_denied denied w.id then leases else lease_add leases (window_name w.id))

-- `focused_window` after a new scene.
pub focus_name : ℕ → CString
focus_name id = if id == 0 then [] else take 63 (window_name id)
