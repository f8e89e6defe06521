-- ===== src/Ledger/Taken.antt =====
-- A number that is taken stays taken, whatever native/request-ledger.c does.
use agent_seat.Prelude.{
  ℕ, ◌≤◌, ◌<◌, ◌≡◌, inl, inr, refl, false, ◌&&◌, ◌==◌, Option, none, some, List, [], ◌∷◌, ◌++◌,
  CString, arith, length, length-append, Option-cases, ltb, leb, if_cases, ◌||◌,
}
use agent_seat.Json.{JsonC}
use agent_seat.Ledger.{
  Ledger, Receipt, find_controller, owner_of, sequence_of, admit, begin_for, begin, evict, receipt,
  store, finish, ledger_bytes, Begun, Watermark,
}
use agent_seat.Ledger.Watermarks.{find_controller-raise, length-raise, entry}
use agent_seat.Ledger.AtMostOnce.{
  mark, begin-mark, evict-controllers, Op, begins, finishes, step, run, finished,
}
use agent_seat.Ledger.Receipts.{OwnOr, Only, Only-set, Only-evict}

module _ (J : JsonC) where
  open J use {Json}

  -- The number of the controller `id` is taken, and no other receipt than `x` bears it.
  pub record Taken (id : CString) (x : Receipt Json) (l : Ledger Json) : Type 0 where
    pub index : x.controller ≡ find_controller l.controllers id
    pub known : x.controller < length l.controllers
    pub passed : x.sequence ≤ mark J l id
    pub only : Only x l.records

  -- The operation finishes no request with the number of `x`.
  abbrev pub Other : Receipt Json → Op J → Type 0
  Other x (begins m p) = Unit {0}
  Other x (finishes c s m p r) = ((c == x.controller) && (s == x.sequence)) ≡ false

  abbrev pub Others : Receipt Json → List (Op J) → Type 0
  Others x [] = Unit {0}
  Others x (op ∷ ops) = Other x op × Others x ops

  -- The entry of `id` stays where it is, and so do the receipts.
  record Kept (id : CString) (l r : Ledger Json) : Type 0 where
    records_eq : r.records ≡ l.records
    index_eq : find_controller r.controllers id ≡ find_controller l.controllers id
    grown : length l.controllers ≤ length r.controllers

  find_controller-known :
      (ws rest : List Watermark) (id : CString)
      → find_controller ws id < length ws
      → find_controller (ws ++ rest) id ≡ find_controller ws id
  unfolding find_controller
  find_controller-known [] rest id h = absurd (omega arith)
  find_controller-known (w ∷ ws) rest id h = ground (arith, find_controller-known ws rest id)

  admit-Kept :
      (l : Ledger Json) (m : CString) (p : Json) (i s : ℕ) (id : CString)
      → Kept id l (admit J l m p i s).0
  unfolding admit
  admit-Kept l m p i s id =
      let found = find_controller-raise l.controllers i s id in
      let same = length-raise l.controllers i s in
      record {
        records_eq = ground arith;
        index_eq = ground (arith, found);
        grown = ground (arith, same);
      }

  begin_for-Kept :
      (l : Ledger Json) (m : CString) (p : Json) (owner : CString) (s : ℕ) (id : CString)
      → find_controller l.controllers id < length l.controllers
      → Kept id l (begin_for J l m p owner s).0
  unfolding begin_for
  begin_for-Kept l m p owner s id h =
      let i = find_controller l.controllers owner in
      let l' : Ledger Json = record l { controllers = l.controllers ++ entry owner } in
      let a = admit-Kept l m p i s id in
      let b = admit-Kept l' m p i s id in
      let same = find_controller-known l.controllers (entry owner) id h in
      let longer = length-append l.controllers (entry owner) in
      record {
        records_eq = ground (arith, a.records_eq, b.records_eq);
        index_eq = ground (arith, a.index_eq, b.index_eq, same);
        grown = ground (arith, a.grown, b.grown, longer);
      }

  begin-Kept :
      (l : Ledger Json) (m : CString) (p : Json) (id : CString)
      → find_controller l.controllers id < length l.controllers
      → Kept id l (begin J l m p).0
  unfolding begin
  begin-Kept l m p id h = elim (Option-cases (owner_of J p)) [
    | inl e ↦ rw (e, begin) (record { records_eq = refl; index_eq = refl; grown = omega arith })
    | inr (owner, e) ↦ elim (Option-cases (sequence_of J p)) [
      | inl f ↦
          rw (e, f, begin) (record { records_eq = refl; index_eq = refl; grown = omega arith })
      | inr (s, f) ↦
          rw (e, f, begin)
            (if_cases (λ (q : Ledger Json × Begun Json). Kept id l q.0)
              (leb 96 (length m) || ltb 65536 (J.text_length p))
              (λ _. record { records_eq = refl; index_eq = refl; grown = omega arith })
              (λ _. begin_for-Kept l m p owner s id h))
    ]
  ]

  begin-Taken :
      (l : Ledger Json) (m : CString) (p : Json) (id : CString) (x : Receipt Json)
      → Taken id x l
      → Taken id x (begin J l m p).0
  begin-Taken l m p id x t =
      let k = begin-Kept l m p id (omega (arith, t.index, t.known)) in
      record {
        index = omega (arith, t.index, k.index_eq);
        known = omega (arith, t.known, k.grown);
        passed = omega (arith, t.passed, begin-mark J l m p id);
        only = rw k.records_eq t.only;
      }

  store-Taken :
      (l : Ledger Json) (w : Receipt Json) (id : CString) (x : Receipt Json)
      (e : Option (ℕ × Ledger Json))
      → OwnOr x (some w)
      → Taken id x l
      → evict 128 l w.bytes ≡ e
      → Taken id x (finished J l (elim e [ none ↦ none | some f ↦ some (store J w f) ]))
  store-Taken l w id x none own t h = t
  store-Taken l w id x (some e) own t h =
      let same = evict-controllers J 128 l w.bytes e h in
      record {
        index = rw same t.index;
        known = rw same t.known;
        passed = rw same t.passed;
        only = Only-set x e.1.records e.0 (some w) own (Only-evict x 128 l w.bytes e h t.only);
      }

  pub finish-Taken :
      (l : Ledger Json) (c s : ℕ) (m : CString) (p r : Json) (id : CString) (x : Receipt Json)
      → OwnOr x (some (receipt J c s m p r))
      → Taken id x l
      → Taken id x (finished J l (finish J l c s m p r))
  unfolding finish
  finish-Taken l c s m p r id x own t =
      let w = receipt J c s m p r in
      if_cases (λ (q : Option (Ledger Json)). Taken id x (finished J l q))
        (ltb ledger_bytes w.bytes) (λ _. t)
        (λ _. store-Taken l w id x (evict 128 l w.bytes) own t refl)

  step-Taken :
      (l : Ledger Json) (op : Op J) (id : CString) (x : Receipt Json)
      → Other x op
      → Taken id x l
      → Taken id x (step J l op)
  unfolding step
  step-Taken l (begins m p) id x o t = begin-Taken l m p id x t
  step-Taken l (finishes c s m p r) id x o t = finish-Taken l c s m p r id x (inl o) t

  pub run-Taken :
      (l : Ledger Json) (ops : List (Op J)) (id : CString) (x : Receipt Json)
      → Others x ops
      → Taken id x l
      → Taken id x (run J l ops)
  unfolding run
  run-Taken l [] id x o t = t
  run-Taken l (op ∷ ops) id x o t =
      run-Taken (step J l op) ops id x o.1 (step-Taken l op id x o.0 t)
