-- ===== src/Ledger/Replay.antt =====
-- A request that is sent again right after it finished is answered from its receipt.
use agent_seat.Prelude.{
  ℕ, zero, suc, ◌≤◌, ◌<◌, ◌≡◌, ◌∙◌, refl, ap, Option, none, some, List, [], ◌∷◌, ◌++◌, CString,
  arith, subst, set, take, take_all, length, length-append, ◌&&◌, if◌then◌else◌, str_eq, add_size,
}
use agent_seat.Json.{JsonC}
use agent_seat.Ledger.{
  Ledger, Receipt, Begun, replayed, refused, admitted, request_id_conflict, ledger_bytes,
  find_controller, find_record, owner_of, sequence_of, admit, begin_for, begin, evict, free_next,
  forget, receipt, store, finish,
}
use agent_seat.Ledger.Watermarks.{
  find_controller-le, find_controller-append, find_controller-raise, length-raise, entry,
}
use agent_seat.Ledger.Bounds.{IsValid, begin-IsValid}
use agent_seat.Ledger.AtMostOnce.{evict-controllers}
use agent_seat.Ledger.Finish.{finish_stored}

module _ {Json : Type 0} where
  find_record-forget :
      (rs : List (Option (Receipt Json))) (i c s : ℕ)
      → find_record rs c s ≡ none
      → find_record (set rs i none) c s ≡ none
  unfolding find_record
  find_record-forget [] i c s h = refl
  find_record-forget (none ∷ rs) zero c s h = h
  find_record-forget (some r ∷ rs) zero c s h = ground arith
  find_record-forget (none ∷ rs) (suc i) c s h = find_record-forget rs i c s h
  find_record-forget (some r ∷ rs) (suc i) c s h = ground (arith, find_record-forget rs i c s)

  pub find_record-evict :
      (fuel : ℕ) (l : Ledger Json) (size c s : ℕ) (e : ℕ × Ledger Json)
      → evict fuel l size ≡ some e
      → find_record l.records c s ≡ none
      → find_record e.1.records c s ≡ none
  unfolding evict
  find_record-evict zero l size c s e h n = cc
  find_record-evict (suc fuel) l size c s e h n =
      ground (arith, find_record-evict fuel (free_next l) size c s e, free_next_none)
    where
      free_next_none : find_record (free_next l).records c s ≡ none
      free_next_none = unfold free_next forget in find_record-forget l.records _ c s n

  -- Where no record has this number, the one that is stored is the one that is found.
  find_record-set :
      (rs : List (Option (Receipt Json))) (i : ℕ) (r : Receipt Json)
      → i < length rs
      → find_record rs r.controller r.sequence ≡ none
      → find_record (set rs i (some r)) r.controller r.sequence ≡ some r
  unfolding find_record
  find_record-set [] i r h n = absurd (omega arith)
  find_record-set (x ∷ rs) zero r h n = ground arith
  find_record-set (none ∷ rs) (suc i) r h n = find_record-set rs i r (omega arith) n
  find_record-set (some x ∷ rs) (suc i) r h n = ground (arith, find_record-set rs i r (omega arith))

module _ (J : JsonC) where
  open J use {Json, text_length, equal}

  -- What an admission leaves: the controller has an entry, and no record has the request's number.
  pub record Admission (id : CString) (s : ℕ) (c n : ℕ) (l : Ledger Json) : Type 0 where
    pub index : c ≡ find_controller l.controllers id
    pub known : c < length l.controllers
    pub number : n ≡ s
    pub fresh : find_record l.records c n ≡ none

  admit-Admission :
      (l : Ledger Json) (m : CString) (p : Json) (id : CString) (s c n : ℕ)
      → find_controller l.controllers id < length l.controllers
      → (admit J l m p (find_controller l.controllers id) s).1 ≡ admitted c n
      → Admission id s c n (admit J l m p (find_controller l.controllers id) s).0
  unfolding admit
  admit-Admission l m p id s c n h e =
      let i = find_controller l.controllers id in
      ground (arith, find_controller-raise l.controllers i s id, length-raise l.controllers i s)

  begin_for-Admission :
      (l : Ledger Json) (m : CString) (p : Json) (id : CString) (s c n : ℕ)
      → (begin_for J l m p id s).1 ≡ admitted c n
      → Admission id s c n (begin_for J l m p id s).0
  unfolding begin_for
  begin_for-Admission l m p id s c n e =
      let l' : Ledger Json = record l { controllers = l.controllers ++ entry id } in
      ground (
        arith,
        admit-Admission l m p id s c n,
        admit-Admission l' m p id s c n,
        find_controller-append id l.controllers,
        find_controller-le l.controllers id,
        length-append l.controllers (entry id),
      )

  -- The tests on a request that precede the ledger.
  pub record Fit (m : CString) (p : Json) (id : CString) (s : ℕ) : Type 0 where
    pub owner : owner_of J p ≡ some id
    pub sequence : sequence_of J p ≡ some s
    pub short : length m < 96
    pub small : text_length p ≤ 65536

  -- The answer to a request that bears the number of one that finished.
  abbrev pub answer :
      Ledger Json → CString → Json → Json → CString → Json → Ledger Json × Begun Json
  answer l m p r m' p' =
      if str_eq m m' && equal p p' then (l, replayed r) else (l, refused request_id_conflict)

  pub begin_lem :
      (l : Ledger Json) (m : CString) (p : Json) (id : CString) (s : ℕ)
      → Fit m p id s
      → begin J l m p ≡ begin_for J l m p id s
  unfolding begin
  begin_lem l m p id s f = rw (f.owner, f.sequence, begin) (ground arith)

  pub begin-Admission :
      (l : Ledger Json) (m : CString) (p : Json) (id : CString) (s c n : ℕ)
      → owner_of J p ≡ some id
      → sequence_of J p ≡ some s
      → (begin J l m p).1 ≡ admitted c n
      → Admission id s c n (begin J l m p).0 × (length m < 96)
  unfolding begin
  begin-Admission l m p id s c n o q =
      rw (o, q, begin) λ e. ground (arith, begin_for-Admission l m p id s c n)

  -- A further request with the number of one that is recorded.
  pub begin_recorded :
      (l : Ledger Json) (m : CString) (p : Json) (id : CString) (s : ℕ) (x : Receipt Json)
      → Fit m p id s
      → find_controller l.controllers id < length l.controllers
      → find_record l.records (find_controller l.controllers id) s ≡ some x
      → begin J l m p ≡ answer l x.method x.params x.response m p
  unfolding begin_for admit
  begin_recorded l m p id s x f known found = begin_lem l m p id s f ∙ ground (arith, known, found)

  finish-record :
      (l : Ledger Json) (m : CString) (p r : Json) (id : CString) (s c n : ℕ) (l' : Ledger Json)
      → IsValid l
      → Admission id s c n l
      → add_size (text_length p) (text_length r) ≤ ledger_bytes
      → finish J l c n m p r ≡ some l'
      → (find_record l'.records c n ≡ some (receipt J c n m p r)) × (l'.controllers ≡ l.controllers)
  finish-record l m p r id s c n l' v a fits done =
      let (slot, e, gone, stored, f) = finish_stored J l c n m p r v fits in
      let x = receipt J c n m p r in
      let none_left = find_record-evict 128 l x.bytes c n (slot, e) gone a.fresh in
      let l'_eq : l' ≡ store J x (slot, e) = cc in
      rw l'_eq (
        find_record-set e.records slot x (omega arith) none_left,
        evict-controllers J 128 l x.bytes (slot, e) gone,
      )

  -- Right after a request was admitted in a ledger within its bounds (IsValid) and finished, with a
  -- response that the budget can hold, its receipt is what answers: a request of the same controller
  -- with the same number, a method of less than 96 bytes and parameters whose text is at most 65536
  -- bytes gets the retained response if its method and parameters are the same, and otherwise
  -- REQUEST_ID_CONFLICT; the ledger stays as it is.
  pub begin-finish :
      (l l₁ l₂ : Ledger Json) (m m' : CString) (p p' r : Json) (id : CString) (s c n : ℕ)
      → IsValid l
      → owner_of J p ≡ some id
      → sequence_of J p ≡ some s
      → Fit m' p' id s
      → begin J l m p ≡ (l₁, admitted c n)
      → finish J l₁ c n m p r ≡ some l₂
      → add_size (text_length p) (text_length r) ≤ ledger_bytes
      → begin J l₂ m' p' ≡ answer l₂ m p r m' p'
  begin-finish l l₁ l₂ m m' p p' r id s c n v o q f first done fits =
      let (a, short) = begin-Admission l m p id s c n o q (ap (λ x. x.1) first) in
      let l₁_eq : (begin J l m p).0 ≡ l₁ = ap (λ x. x.0) first in
      let a₁ : Admission id s c n l₁ = subst (Admission id s c n) l₁_eq a in
      let v₁ : IsValid l₁ = subst IsValid l₁_eq (begin-IsValid J l m p v) in
      let (found, same) = finish-record l₁ m p r id s c n l₂ v₁ a₁ fits done in
      let method_eq : take 95 m ≡ m = take_all 95 m (omega (arith, short)) in
      let recorded : find_record l₂.records (find_controller l₂.controllers id) s
          ≡ some (receipt J c n m p r) =
        rw (same, ← a₁.index, ← a₁.number) found in
      begin_recorded l₂ m' p' id s (receipt J c n m p r) f (rw (same, ← a₁.index) a₁.known) recorded
      ∙ ap (λ x. answer l₂ x p r m' p') method_eq
