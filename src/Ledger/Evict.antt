-- ===== src/Ledger/Evict.antt =====
-- The loop of `as_request_finish` ends, within one round over the records, with room for the bytes
-- that it was asked for.
use agent_seat.Prelude.{
  ℕ, zero, suc, ◌+◌, ◌-◌, ◌%◌, ◌≤◌, ◌<◌, ◌≡◌, refl, Option, none, some, List, arith, get_or,
  get_or-set_self, set, length, Bool-cases, inl, inr, ltb, add_size, ◌==◌, ==→eq, subst, [], ◌∷◌,
}
use agent_seat.Ledger.{Ledger, Receipt, request_history, ledger_bytes, forget, free_next, evict}
use agent_seat.Ledger.Bounds.{IsValid, total-none, free_next-IsValid}

module _ {Json : Type 0} where
  -- The `k` slots from `first` on, going round, are free.
  abbrev Cleared : Ledger Json → ℕ → ℕ → Type 0
  Cleared l first k = (i : ℕ) → i < k → get_or l.records ((first + i) % 128) none ≡ none

  set-none :
      (rs : List (Option (Receipt Json))) (i j : ℕ)
      → get_or rs j none ≡ none
      → get_or (set rs i none) j none ≡ none
  set-none [] i j h = refl
  set-none (r ∷ rs) zero zero h = refl
  set-none (r ∷ rs) zero (suc j) h = h
  set-none (r ∷ rs) (suc i) zero h = h
  set-none (r ∷ rs) (suc i) (suc j) h = set-none rs i j h

  free_next-Cleared :
      (l : Ledger Json) (first k : ℕ)
      → IsValid l
      → l.next_record % 128 ≡ (first + k) % 128
      → Cleared l first k
      → Cleared (free_next l) first (suc k)
  unfolding free_next forget
  free_next-Cleared l first k v at c i h = elim (Bool-cases (i == k)) [
    | inl e ↦ ground (arith, get_or-set_self l.records ((first + i) % 128) none none, ==→eq i k e)
    | inr e ↦ set-none l.records (l.next_record % 128) ((first + i) % 128) (c i (ground arith))
  ]

  free_next-next :
      (l : Ledger Json) (first k : ℕ)
      → l.next_record % 128 ≡ (first + k) % 128
      → (free_next l).next_record % 128 ≡ (first + suc k) % 128
  unfolding free_next forget
  free_next-next l first k h = omega arith

  free_next-slot :
      (l : Ledger Json) → IsValid l → get_or (free_next l).records (l.next_record % 128) none ≡ none
  unfolding free_next forget
  free_next-slot l v = get_or-set_self l.records (l.next_record % 128) none none (omega arith)

  Cleared-bytes : (l : Ledger Json) (first : ℕ) → IsValid l → Cleared l first 128 → l.bytes ≡ 0
  Cleared-bytes l first v c = omega (arith, total-none l.records free)
    where
      free : (i : ℕ) → i < length l.records → get_or l.records i none ≡ none
      free i h =
          subst (λ j. get_or l.records j none ≡ none) (omega arith)
            (c ((i + 128 - first % 128) % 128) (omega arith))

  -- What the loop leaves: a free slot, and room beside the receipts that are kept.
  pub record Freed (size : ℕ) (slot : ℕ) (l : Ledger Json) : Type 0 where
    pub valid : IsValid l
    pub in_range : slot < request_history
    pub free : get_or l.records slot none ≡ none
    pub room : l.bytes + size ≤ ledger_bytes

  evict_from :
      (fuel : ℕ) (l : Ledger Json) (size first k : ℕ)
      → suc fuel + k ≡ 128
      → size ≤ ledger_bytes
      → IsValid l
      → l.next_record % 128 ≡ (first + k) % 128
      → Cleared l first k
      → (slot : ℕ) × (l' : Ledger Json) × (evict (suc fuel) l size ≡ some (slot, l'))
        × Freed size slot l'
  unfolding evict
  evict_from zero l size first k e fits v at c =
      let v' = free_next-IsValid l v in
      let k_last : suc k ≡ 128 = omega arith in
      let all_free : Cleared (free_next l) first 128 =
        subst (Cleared (free_next l) first) k_last (free_next-Cleared l first k v at c) in
      let bytes_zero = Cleared-bytes (free_next l) first v' all_free in
      (
        l.next_record % request_history,
        free_next l,
        ground (arith, bytes_zero),
        record {
          valid = v';
          in_range = omega arith;
          free = free_next-slot l v;
          room = omega (arith, bytes_zero);
        },
      )
  evict_from (suc fuel) l size first k e fits v at c =
      let v' = free_next-IsValid l v in
      elim (Bool-cases (ltb ledger_bytes (add_size (free_next l).bytes size))) [
        | inl full ↦ rw full (
            evict_from fuel (free_next l) size first (suc k) (omega arith) fits v'
              (free_next-next l first k at) (free_next-Cleared l first k v at c))
        | inr room ↦ (
          l.next_record % request_history,
          free_next l,
          rw room refl,
          record {
            valid = v';
            in_range = omega arith;
            free = free_next-slot l v;
            room = ground (arith, v'.within);
          },
        )
      ]

  -- A round over the records is enough fuel.
  pub evict-Freed :
      (l : Ledger Json) (size : ℕ)
      → size ≤ ledger_bytes
      → IsValid l
      → (slot : ℕ) × (l' : Ledger Json) × (evict request_history l size ≡ some (slot, l'))
        × Freed size slot l'
  evict-Freed l size fits v =
      evict_from 127 l size (l.next_record % 128) 0 refl fits v (omega arith)
        (λ i h. absurd (omega arith))
