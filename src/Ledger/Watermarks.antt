-- ===== src/Ledger/Watermarks.antt =====
-- The watermark of a controller: the highest request number that `as_request_begin` has admitted.
use agent_seat.Prelude.{
  ℕ, zero, suc, ◌≤◌, ◌<◌, ◌≡◌, refl, List, [], ◌∷◌, ◌++◌, CString, str_eq, str_eq→eq, str_eq_refl,
  if◌then◌else◌, length, arith, Bool-cases, ap, inl, inr,
}
use agent_seat.Ledger.{Watermark, find_controller, highest_at, raise, id_at}

-- The number kept for a controller, and 0 for one that has no entry.
pub watermark : List Watermark → CString → ℕ
watermark [] id = 0
watermark (w ∷ ws) id = if str_eq w.id id then w.highest else watermark ws id

pub find_controller-le : (ws : List Watermark) (id : CString) → find_controller ws id ≤ length ws
unfolding find_controller
find_controller-le [] id = omega arith
find_controller-le (w ∷ ws) id = ground (arith, find_controller-le ws id)

pub highest_at-find_controller :
    (ws : List Watermark) (id : CString) → highest_at ws (find_controller ws id) ≡ watermark ws id
unfolding find_controller highest_at watermark
highest_at-find_controller [] id = refl
highest_at-find_controller (w ∷ ws) id = elim (Bool-cases (str_eq w.id id)) [
  | inl e ↦ rw (e, find_controller) refl
  | inr e ↦ rw (e, find_controller) (highest_at-find_controller ws id)
]

pub id_at-find_controller :
    (ws : List Watermark) (id : CString)
    → find_controller ws id < length ws
    → id_at ws (find_controller ws id) ≡ id
unfolding find_controller id_at
id_at-find_controller [] id h = absurd (omega arith)
id_at-find_controller (w ∷ ws) id h = elim (Bool-cases (str_eq w.id id)) [
  | inl e ↦ rw (e, find_controller) (str_eq→eq w.id id e)
  | inr e ↦ rw (e, find_controller) (id_at-find_controller ws id (ground arith))
]

pub watermark-raise_self :
    (ws : List Watermark) (id : CString) (s : ℕ)
    → find_controller ws id < length ws
    → watermark (raise ws (find_controller ws id) s) id ≡ s
unfolding find_controller raise watermark
watermark-raise_self [] id s h = absurd (omega arith)
watermark-raise_self (w ∷ ws) id s h = elim (Bool-cases (str_eq w.id id)) [
  | inl e ↦ rw (e, find_controller) (rw e)
  | inr e ↦ rw (e, find_controller) (rw e (watermark-raise_self ws id s (ground arith)))
]

pub watermark-raise :
    (ws : List Watermark) (i s : ℕ) (id : CString)
    → highest_at ws i ≤ s
    → watermark ws id ≤ watermark (raise ws i s) id
unfolding highest_at raise watermark
watermark-raise [] i s id h = omega arith
watermark-raise (w ∷ ws) zero s id h = ground arith
watermark-raise (w ∷ ws) (suc i) s id h = ground (arith, watermark-raise ws i s id)

pub length-raise : (ws : List Watermark) (i s : ℕ) → length (raise ws i s) ≡ length ws
unfolding raise
length-raise [] i s = refl
length-raise (w ∷ ws) zero s = refl
length-raise (w ∷ ws) (suc i) s = ap suc (length-raise ws i s)

pub find_controller-raise :
    (ws : List Watermark) (i s : ℕ) (id : CString)
    → find_controller (raise ws i s) id ≡ find_controller ws id
unfolding raise find_controller
find_controller-raise [] i s id = refl
find_controller-raise (w ∷ ws) zero s id = refl
find_controller-raise (w ∷ ws) (suc i) s id = ground (arith, find_controller-raise ws i s id)

-- A new entry, for a controller that has none.
module _ (id : CString) where
  abbrev pub entry : List Watermark
  entry = record { id = id; highest = 0 } ∷ []

  pub watermark-append :
      (ws : List Watermark) (j : CString) → watermark (ws ++ entry) j ≡ watermark ws j
  unfolding watermark
  watermark-append [] j = ground arith
  watermark-append (w ∷ ws) j = ground (arith, watermark-append ws j)

  pub find_controller-append :
      (ws : List Watermark)
      → find_controller ws id ≡ length ws
      → find_controller (ws ++ entry) id ≡ length ws
  unfolding find_controller
  find_controller-append [] h = rw (str_eq_refl id)
  find_controller-append (w ∷ ws) h = elim (Bool-cases (str_eq w.id id)) [
    | inl e ↦ absurd (ground arith)
    | inr e ↦ rw e (ap suc (find_controller-append ws (ground arith)))
  ]
