-- ===== src/Ledger/AtMostOnce.antt =====
-- A write request is admitted at most once, whatever happens to its receipt.
use agent_seat.Prelude.{
  ℕ, suc, ◌≤◌, ◌<◌, ◌≡◌, inl, inr, Option, none, some, List, [], ◌∷◌, ◌++◌, CString, length,
  length-append, arith, Option-cases, Bool-cases, true, false,
}
use agent_seat.Json.{JsonC}
use agent_seat.Ledger.{
  Ledger, find_controller, owner_of, sequence_of, admit, begin_for, begin, evict, free_next, finish,
  receipt, is_admitted,
}
use agent_seat.Ledger.Watermarks.{
  watermark, find_controller-le, highest_at-find_controller, watermark-raise, watermark-raise_self,
  watermark-append, find_controller-append, entry,
}

module _ (J : JsonC) where
  open J use {Json}

  -- The number that the ledger keeps for a controller.
  abbrev pub mark : Ledger Json → CString → ℕ
  mark l id = watermark l.controllers id

  admit-mark :
      (l : Ledger Json) (method : CString) (params : Json) (i s : ℕ) (id : CString)
      → mark l id ≤ mark (admit J l method params i s).0 id
  unfolding admit
  admit-mark l method params i s id = ground (arith, watermark-raise l.controllers i s id)

  begin_for-mark :
      (l : Ledger Json) (method : CString) (params : Json) (owner : CString) (s : ℕ) (id : CString)
      → mark l id ≤ mark (begin_for J l method params owner s).0 id
  unfolding begin_for
  begin_for-mark l method params owner s id =
      let index = find_controller l.controllers owner in
      let l' : Ledger Json = record l { controllers = l.controllers ++ entry owner } in
      ground (
        arith,
        admit-mark l method params index s id,
        admit-mark l' method params index s id,
        watermark-append owner l.controllers id,
      )

  pub begin-mark :
      (l : Ledger Json) (method : CString) (params : Json) (id : CString)
      → mark l id ≤ mark (begin J l method params).0 id
  unfolding begin
  begin-mark l method params id = elim (Option-cases (owner_of J params)) [
    | inl e ↦ rw (e, begin) (omega arith)
    | inr (owner, e) ↦ elim (Option-cases (sequence_of J params)) [
      | inl f ↦ rw (e, f, begin) (omega arith)
      | inr (s, f) ↦ rw (e, f, begin) (ground (arith, begin_for-mark l method params owner s id))
    ]
  ]

  admit-admitted :
      (l : Ledger Json) (method : CString) (params : Json) (id : CString) (s : ℕ)
      → let i = find_controller l.controllers id in
        i < length l.controllers
        → is_admitted (admit J l method params i s).1 ≡ true
        → (mark l id < s) × (mark (admit J l method params i s).0 id ≡ s)
  unfolding admit
  admit-admitted l method params id s h e =
      ground (
        arith,
        highest_at-find_controller l.controllers id,
        watermark-raise_self l.controllers id s,
      )

  begin_for-admitted :
      (l : Ledger Json) (method : CString) (params : Json) (id : CString) (s : ℕ)
      → is_admitted (begin_for J l method params id s).1 ≡ true
      → (mark l id < s) × (mark (begin_for J l method params id s).0 id ≡ s)
  unfolding begin_for
  begin_for-admitted l method params id s e =
      let l' : Ledger Json = record l { controllers = l.controllers ++ entry id } in
      ground (
        arith,
        admit-admitted l method params id s,
        admit-admitted l' method params id s,
        watermark-append id l.controllers id,
        find_controller-append id l.controllers,
        find_controller-le l.controllers id,
        length-append l.controllers (entry id),
      )

  -- An admitted request carries a number above its controller's watermark, and moves it there.
  pub begin-admitted :
      (l : Ledger Json) (method : CString) (params : Json) {id : CString} {s : ℕ}
      → owner_of J params ≡ some id
      → sequence_of J params ≡ some s
      → is_admitted (begin J l method params).1 ≡ true
      → (mark l id < s) × (mark (begin J l method params).0 id ≡ s)
  unfolding begin
  begin-admitted l method params {id} {s} o q =
      rw (o, q, begin) λ e. ground (arith, begin_for-admitted l method params id s)

  pub evict-controllers :
      (fuel : ℕ) (l : Ledger Json) (size : ℕ) (e : ℕ × Ledger Json)
      → evict fuel l size ≡ some e
      → e.1.controllers ≡ l.controllers
  unfolding evict free_next
  evict-controllers ℕ.zero l size e h = cc
  evict-controllers (suc fuel) l size e h =
      ground (arith, evict-controllers fuel (free_next l) size e)

  -- What the daemon does with its ledger.
  pub data Op : Type 0 where
    begins : CString → Json → Op
    finishes : ℕ → ℕ → CString → Json → Json → Op

  abbrev pub finished : Ledger Json → Option (Ledger Json) → Ledger Json
  finished l none = l
  finished l (some l') = l'

  unfoldable pub step : Ledger Json → Op → Ledger Json
  step l (begins method params) = (begin J l method params).0
  step l (finishes c s method params response) = finished l (finish J l c s method params response)

  unfoldable pub run : Ledger Json → List Op → Ledger Json
  run l [] = l
  run l (op ∷ ops) = run (step l op) ops

  step-mark : (l : Ledger Json) (op : Op) (id : CString) → mark l id ≤ mark (step l op) id
  unfolding step finish
  step-mark l (begins method params) id = begin-mark l method params id
  step-mark l (finishes c s method params response) id =
      let r = receipt J c s method params response in
      elim (Option-cases (evict 128 l r.bytes)) [
        | inl none_left ↦ ground arith
        | inr (e, found) ↦ ground (arith, evict-controllers 128 l r.bytes e found)
      ]

  run-mark : (l : Ledger Json) (ops : List Op) (id : CString) → mark l id ≤ mark (run l ops) id
  unfolding run
  run-mark l [] id = omega arith
  run-mark l (op ∷ ops) id = omega (arith, step-mark l op id, run-mark (step l op) ops id)

  -- A write request is admitted at most once: after `as_request_begin` has admitted a request of a
  -- controller, no request of that controller with the same or a smaller number is admitted again,
  -- whatever requests begin and finish in between and whichever receipts they evict.
  pub admitted_once :
      (l : Ledger Json) (ops : List Op) (m m' : CString) (p p' : Json) {id : CString} {s s' : ℕ}
      → owner_of J p ≡ some id
      → sequence_of J p ≡ some s
      → owner_of J p' ≡ some id
      → sequence_of J p' ≡ some s'
      → s' ≤ s
      → is_admitted (begin J l m p).1 ≡ true
      → is_admitted (begin J (run (begin J l m p).0 ops) m' p').1 ≡ false
  admitted_once l ops m m' p p' {id} o q o' q' le first =
      let l' = run (begin J l m p).0 ops in
      elim (Bool-cases (is_admitted (begin J l' m' p').1)) [
        | inr no_more ↦ no_more
        | inl again ↦ absurd (
            omega (
              arith,
              begin-admitted l m p o q first,
              run-mark (begin J l m p).0 ops id,
              begin-admitted l' m' p' o' q' again,
            ))
      ]
