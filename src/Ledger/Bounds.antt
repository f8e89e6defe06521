-- ===== src/Ledger/Bounds.antt =====
-- The ledger's bounds: its arrays, and the byte count that `forget` and `as_request_finish` keep.
use agent_seat.Prelude.{
  ℕ, zero, suc, ◌+◌, ◌%◌, ◌^◌, ◌≤◌, ◌<◌, ◌≡◌, refl, Option, none, List, [], ◌∷◌, ◌++◌, CString,
  length, get_or, set, length-set, length-append, arith, Option-cases, inl, inr,
}
use agent_seat.Json.{JsonC}
use agent_seat.Ledger.{
  Ledger, Receipt, max_controllers, request_history, ledger_bytes, receipt_bytes, empty, forget,
  free_next, find_controller, owner_of, sequence_of, admit, begin_for, begin,
}
use agent_seat.Ledger.Watermarks.{find_controller-le, length-raise, entry}

module _ {Json : Type 0} where
  -- The bytes that the receipts are charged with.
  pub total : List (Option (Receipt Json)) → ℕ
  total [] = 0
  total (r ∷ rs) = receipt_bytes r + total rs

  pub record IsValid (l : Ledger Json) : Type 0 where
    pub entries : length l.controllers ≤ max_controllers
    pub slots : length l.records ≡ request_history
    pub counted : l.bytes ≡ total l.records
    pub within : l.bytes ≤ ledger_bytes
    pub cursor : l.next_record < 2 ^ 64

  pub total-set :
      (rs : List (Option (Receipt Json))) (i : ℕ) (v : Option (Receipt Json))
      → i < length rs
      → total (set rs i v) + receipt_bytes (get_or rs i none) ≡ total rs + receipt_bytes v
  unfolding total
  total-set [] i v h = absurd (omega arith)
  total-set (r ∷ rs) zero v h = omega arith
  total-set (r ∷ rs) (suc i) v h = omega (arith, total-set rs i v (omega arith))

  pub total-none :
      (rs : List (Option (Receipt Json)))
      → ((i : ℕ) → i < length rs → get_or rs i none ≡ none)
      → total rs ≡ 0
  unfolding total
  total-none [] h = refl
  total-none (r ∷ rs) h =
      ground (arith, h 0 (omega arith), total-none rs (λ i lt. h (suc i) (omega arith)))

  pub empty-IsValid : IsValid (empty {Json = Json})
  unfolding empty total
  empty-IsValid = omega arith

  pub forget-IsValid :
      (l : Ledger Json) (i : ℕ) → i < request_history → IsValid l → IsValid (forget l i)
  unfolding forget
  forget-IsValid l i h v =
      omega (arith, length-set l.records i none, total-set l.records i none (omega arith))

  pub free_next-IsValid : (l : Ledger Json) → IsValid l → IsValid (free_next l)
  unfolding free_next
  free_next-IsValid l v =
      forget-IsValid (record l { next_record = (l.next_record + 1) % 2 ^ 64 })
        (l.next_record % request_history) (omega arith) (omega arith)

module _ (J : JsonC) where
  open J use {Json}

  admit-IsValid :
      (l : Ledger Json) (method : CString) (params : Json) (i s : ℕ)
      → IsValid l
      → IsValid (admit J l method params i s).0
  unfolding admit
  admit-IsValid l method params i s v = ground (arith, length-raise l.controllers i s)

  begin_for-IsValid :
      (l : Ledger Json) (method : CString) (params : Json) (id : CString) (s : ℕ)
      → IsValid l
      → IsValid (begin_for J l method params id s).0
  unfolding begin_for
  begin_for-IsValid l method params id s v =
      let index = find_controller l.controllers id in
      let l' : Ledger Json = record l { controllers = l.controllers ++ entry id } in
      ground (
        arith,
        admit-IsValid l method params index s,
        admit-IsValid l' method params index s,
        find_controller-le l.controllers id,
        length-append l.controllers (entry id),
      )

  -- `as_request_begin` keeps the ledger within its bounds, whatever the request.
  pub begin-IsValid :
      (l : Ledger Json) (method : CString) (params : Json)
      → IsValid l
      → IsValid (begin J l method params).0
  unfolding begin
  begin-IsValid l method params v = elim (Option-cases (owner_of J params)) [
    | inl e ↦ rw (e, begin) v
    | inr (owner, e) ↦ elim (Option-cases (sequence_of J params)) [
      | inl f ↦ rw (e, f, begin) v
      | inr (s, f) ↦ rw (e, f, begin) (ground (arith, begin_for-IsValid l method params owner s v))
    ]
  ]
