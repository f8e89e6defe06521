-- ===== src/Ledger/Receipts.antt =====
-- The receipts that the slots of native/request-ledger.c hold under one number.
use agent_seat.Prelude.{
  ℕ, zero, suc, ◌≡◌, ◌⊎◌, inl, inr, refl, ap, false, ◌&&◌, ◌==◌, Option, none, some, List, [], ◌∷◌,
  arith, set, Bool-cases,
}
use agent_seat.Ledger.{Ledger, Receipt, find_record, evict, free_next, forget}

module _ {Json : Type 0} (x : Receipt Json) where
  -- The receipt `x`, or one of another request.
  abbrev pub OwnOr : Option (Receipt Json) → Type 0
  OwnOr none = Unit {0}
  OwnOr (some r) =
      (((r.controller == x.controller) && (r.sequence == x.sequence)) ≡ false) ⊎ (r ≡ x)

  -- No other receipt bears the number of `x`.
  abbrev pub Only : List (Option (Receipt Json)) → Type 0
  Only [] = Unit {0}
  Only (o ∷ rs) = OwnOr o × Only rs

  pub find_record-Only :
      (rs : List (Option (Receipt Json)))
      → Only rs
      → (find_record rs x.controller x.sequence ≡ none)
        ⊎ (find_record rs x.controller x.sequence ≡ some x)
  unfolding find_record
  find_record-Only [] h = inl refl
  find_record-Only (none ∷ rs) h = find_record-Only rs h.1
  find_record-Only (some r ∷ rs) (inl other, h) = ground (arith, other, find_record-Only rs h)
  find_record-Only (some r ∷ rs) (inr same, h) =
      elim (Bool-cases ((r.controller == x.controller) && (r.sequence == x.sequence))) [
        | inl e ↦ inr (rw (e, find_record) (ap some same))
        | inr e ↦ rw (e, find_record) (find_record-Only rs h)
      ]

  pub Only-none :
      (rs : List (Option (Receipt Json))) → find_record rs x.controller x.sequence ≡ none → Only rs
  unfolding find_record
  Only-none [] h = tt
  Only-none (none ∷ rs) h = (tt, Only-none rs h)
  Only-none (some r ∷ rs) h =
      elim (Bool-cases ((r.controller == x.controller) && (r.sequence == x.sequence))) [
        | inl e ↦ absurd (ground (arith, e, h))
        | inr e ↦ (inl e, Only-none rs (ground (arith, e, h)))
      ]

  pub Only-set :
      (rs : List (Option (Receipt Json))) (i : ℕ) (o : Option (Receipt Json))
      → OwnOr o
      → Only rs
      → Only (set rs i o)
  Only-set [] i o k h = tt
  Only-set (q ∷ rs) zero o k h = (k, h.1)
  Only-set (q ∷ rs) (suc i) o k h = (h.0, Only-set rs i o k h.1)

  pub Only-evict :
      (fuel : ℕ) (l : Ledger Json) (size : ℕ) (e : ℕ × Ledger Json)
      → evict fuel l size ≡ some e
      → Only l.records
      → Only e.1.records
  unfolding evict
  Only-evict zero l size e h n = cc
  Only-evict (suc fuel) l size e h n = ground (arith, Only-evict fuel (free_next l) size e, freed)
    where
      freed : Only (free_next l).records
      freed = unfold free_next forget in Only-set l.records _ none tt n
