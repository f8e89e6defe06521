-- ===== src/Ledger/Finish.antt =====
-- `as_request_finish` returns, stores the receipt in a free slot and keeps the ledger's bounds.
use agent_seat.Prelude.{
  ℕ, ◌≤◌, ◌≡◌, refl, some, CString, arith, length-set, Bool-cases, inl, inr, ltb, ap,
}
use agent_seat.Json.{JsonC}
use agent_seat.Ledger.{
  Ledger, Receipt, request_history, ledger_bytes, evict, receipt, store, finish, receipt_bytes,
}
use agent_seat.Ledger.Bounds.{IsValid, total-set}
use agent_seat.Ledger.Evict.{Freed, evict-Freed}

module _ (J : JsonC) where
  open J use {Json}

  store-IsValid :
      (r : Receipt Json) (slot : ℕ) (l : Ledger Json)
      → Freed r.bytes slot l
      → IsValid (store J r (slot, l))
  store-IsValid r slot l f = omega (
    arith,
    length-set l.records slot (some r),
    total-set l.records slot (some r) (omega arith),
    ap receipt_bytes f.free,
  )

  module _ (l : Ledger Json) (c s : ℕ) (m : CString) (p r : Json) (v : IsValid l) where
    abbrev size : ℕ
    size = (receipt J c s m p r).bytes

    -- A receipt that fits is stored in the slot that the loop has freed.
    pub finish_stored :
        size ≤ ledger_bytes
        → (slot : ℕ) × (l' : Ledger Json) × (evict request_history l size ≡ some (slot, l'))
          × (finish J l c s m p r ≡ some (store J (receipt J c s m p r) (slot, l')))
          × Freed size slot l'
    unfolding finish
    finish_stored fits =
        let (slot, l', e, f) = evict-Freed l size fits v in
        (slot, l', e, rw (e, finish) (ground (arith, e)), f)

    -- In a ledger within its bounds (IsValid: at most 128 controllers, 128 slots, a byte count that is
    -- that of the receipts kept and within the budget, and a cursor that fits a size_t),
    -- `as_request_finish` returns for every receipt, after at most one round over the records, and
    -- leaves the ledger within its bounds.
    pub finish_total : (l' : Ledger Json) × (finish J l c s m p r ≡ some l') × IsValid l'
    unfolding finish
    finish_total = elim (Bool-cases (ltb ledger_bytes size)) [
      | inl large ↦ (l, rw large refl, v)
      | inr fits ↦
          let (slot, l', _, e, f) = finish_stored (ground arith) in
          (store J (receipt J c s m p r) (slot, l'), e, store-IsValid _ slot l' f)
    ]
