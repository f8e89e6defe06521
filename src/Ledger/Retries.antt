-- ===== src/Ledger/Retries.antt =====
-- A request that is sent again, however much later, gets the retained receipt or is refused.
use agent_seat.Prelude.{
  ℕ, ◌≤◌, ◌<◌, ◌≡◌, ◌∙◌, ◌⊎◌, inl, inr, refl, ap, subst, sym, none, some, List, CString, arith,
  take, take_all, length,
}
use agent_seat.Json.{JsonC}
use agent_seat.Ledger.{
  Ledger, Receipt, refused, admitted, request_expired, find_controller, find_record, owner_of,
  sequence_of, admit, begin_for, begin, receipt, finish,
}
use agent_seat.Ledger.Watermarks.{highest_at-find_controller}
use agent_seat.Ledger.AtMostOnce.{mark, begin-admitted, Op, run, finished}
use agent_seat.Ledger.Replay.{Admission, Fit, answer, begin_lem, begin-Admission, begin_recorded}
use agent_seat.Ledger.Receipts.{find_record-Only, Only-none}
use agent_seat.Ledger.Taken.{Taken, Others, run-Taken, finish-Taken}

module _ (J : JsonC) where
  open J use {Json}

  -- A request whose receipt is gone is not admitted.
  begin_expired :
      (l : Ledger Json) (m : CString) (p : Json) (id : CString) (s : ℕ)
      → Fit J m p id s
      → find_controller l.controllers id < length l.controllers
      → find_record l.records (find_controller l.controllers id) s ≡ none
      → s ≤ mark J l id
      → begin J l m p ≡ (l, refused request_expired)
  unfolding begin_for admit
  begin_expired l m p id s f known gone passed =
      begin_lem J l m p id s f
      ∙ ground (arith, known, gone, passed, highest_at-find_controller l.controllers id)

  begin-known :
      (l : Ledger Json) (m : CString) (p : Json) (id : CString) (x : Receipt Json)
      → Fit J m p id x.sequence
      → Taken J id x l
      → ((find_record l.records x.controller x.sequence ≡ some x)
          × (begin J l m p ≡ answer J l x.method x.params x.response m p))
        ⊎ ((find_record l.records x.controller x.sequence ≡ none)
            × (begin J l m p ≡ (l, refused request_expired)))
  begin-known l m p id x f t = elim (find_record-Only x l.records t.only) [
    | inl gone ↦ inr (
      gone,
      begin_expired l m p id x.sequence f (rw (← t.index) t.known) (rw (← t.index) gone) t.passed,
    )
    | inr found ↦ inl (
      found,
      begin_recorded J l m p id x.sequence x f (rw (← t.index) t.known) (rw (← t.index) found),
    )
  ]

  admitted-Taken :
      (l l₁ : Ledger Json) (m : CString) (p r : Json) (id : CString) (s c n : ℕ)
      → owner_of J p ≡ some id
      → sequence_of J p ≡ some s
      → begin J l m p ≡ (l₁, admitted c n)
      → Taken J id (receipt J c n m p r) l₁ × (length m < 96) × (n ≡ s)
  admitted-Taken l l₁ m p r id s c n o q first =
      let (a, short) = begin-Admission J l m p id s c n o q (ap (λ y. y.1) first) in
      let l₁_eq : (begin J l m p).0 ≡ l₁ = ap (λ y. y.0) first in
      let a₁ : Admission J id s c n l₁ = subst (Admission J id s c n) l₁_eq a in
      let above = begin-admitted J l m p o q (rw first refl) in
      (
        record {
          index = a₁.index;
          known = a₁.known;
          passed = omega (arith, a₁.number, above, ap (λ y. mark J y id) l₁_eq);
          only = Only-none (receipt J c n m p r) l₁.records a₁.fresh;
        },
        short,
        a₁.number,
      )

  finished-Taken :
      (l l' : Ledger Json) (c n : ℕ) (m : CString) (p r : Json) (id : CString)
      → finish J l c n m p r ≡ some l'
      → Taken J id (receipt J c n m p r) l
      → Taken J id (receipt J c n m p r) l'
  finished-Taken l l' c n m p r id e t =
      subst (Taken J id (receipt J c n m p r)) (ap (finished J l) e)
        (finish-Taken J l c n m p r id (receipt J c n m p r) (inr refl) t)

  -- A request that was admitted and finished, in a ledger of any state, is not executed again but
  -- answered, whatever requests begin and finish after it, as long as no other one is finished under
  -- its controller and number. If its receipt is among the records, a request of the same controller
  -- with the same number, a method of less than 96 bytes and parameters whose text is at most 65536
  -- bytes gets the retained response if its method and parameters are the same, and otherwise
  -- REQUEST_ID_CONFLICT; if not, because it was evicted or never fitted, no record has the number and
  -- the request gets REQUEST_EXPIRED. The ledger stays as it is.
  pub begin-run-finish :
      (l l₁ l₂ : Ledger Json) (ops : List (Op J)) (m m' : CString) (p p' r : Json) (id : CString)
      (s c n : ℕ)
      → owner_of J p ≡ some id
      → sequence_of J p ≡ some s
      → Fit J m' p' id s
      → begin J l m p ≡ (l₁, admitted c n)
      → finish J l₁ c n m p r ≡ some l₂
      → Others J (receipt J c n m p r) ops
      → let l' = run J l₂ ops in
        ((find_record l'.records c n ≡ some (receipt J c n m p r))
          × (begin J l' m' p' ≡ answer J l' m p r m' p'))
        ⊎ ((find_record l'.records c n ≡ none) × (begin J l' m' p' ≡ (l', refused request_expired)))
  begin-run-finish l l₁ l₂ ops m m' p p' r id s c n o q f first done others =
      let x = receipt J c n m p r in
      let (t, short, number) = admitted-Taken l l₁ m p r id s c n o q first in
      let t' = run-Taken J l₂ ops id x others (finished-Taken l₁ l₂ c n m p r id done t) in
      let l' = run J l₂ ops in
      let method_eq : take 95 m ≡ m = take_all 95 m (omega (arith, short)) in
      subst
        (λ (y : CString).
          ((find_record l'.records c n ≡ some x) × (begin J l' m' p' ≡ answer J l' y p r m' p'))
          ⊎ ((find_record l'.records c n ≡ none)
              × (begin J l' m' p' ≡ (l', refused request_expired))))
        method_eq (begin-known l' m' p' id x (subst (Fit J m' p' id) (sym number) f) t')
