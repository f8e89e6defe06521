-- ===== src/Catalog/Lookup.antt =====
-- In a sorted catalogue the binary search finds what a scan of all its entries finds.
use agent_seat.Prelude.{
  ℕ, zero, suc, ◌+◌, ◌-◌, ◌/◌, ◌<◌, ◌≤◌, ◌≡◌, ◌≢◌, ◌⊎◌, refl, sym, ap, ◌∙◌, subst, arith, inl, inr,
  false, Option, none, some, CString, if◌then◌else◌, ltb, ◌==◌, str_eq, str_eq→eq, str_eq_refl,
  Bool-cases, if_cases, compare, Ordering, lt, eq, gt,
}
use agent_seat.Catalog.{
  Catalog, Access, got, ◌>>=◌, entry_text, translation, turn, by_order, search_range,
  agentseat_translate, str_compare,
}
use agent_seat.Catalog.Order.{Ordering-cases, str_compare_refl, str_compare-eq, str_compare_flip}

-- The names of the entries of a catalogue, which are readable and in order.
pub record IsSorted (c : Catalog) (names : ℕ → CString) (lens : ℕ → ℕ) : Type 0 where
  pub readable : (i : ℕ) → i < c.count → entry_text c c.originals i ≡ got (some (names i, lens i))
  pub ordered : (i j : ℕ) → i < j → j < c.count → str_compare (names i) (names j) ≡ lt

abbrev first_match :
    CString → Option (CString × ℕ) → Access CString → Access CString → Access CString
first_match m none here rest = got m
first_match m (some (s, _)) here rest = if str_eq s m then here else rest

-- The first entry from an index on with this name, by a scan.
pub scan : Catalog → CString → ℕ → ℕ → Access CString
scan c m i zero = got m
scan c m i (suc rounds) =
    let rest = scan c m (i + 1) rounds in
    entry_text c c.originals i >>= λ o. first_match m o (translation c m i) rest

by_order-eq :
    (o : Ordering) (below above here answer : Access CString)
    → (o ≡ lt → below ≡ answer)
    → (o ≡ gt → above ≡ answer)
    → (o ≡ eq → here ≡ answer)
    → by_order o below above here ≡ answer
by_order-eq lt below above here answer p q r = p refl
by_order-eq eq below above here answer p q r = r refl
by_order-eq gt below above here answer p q r = q refl

module _ (c : Catalog) (names : ℕ → CString) (lens : ℕ → ℕ) (sorted : IsSorted c names lens) where
  -- The order of the names is that of the indices.
  order-names :
      (k i : ℕ) → k < c.count → i < c.count → str_compare (names k) (names i) ≡ compare k i
  order-names k i p q = elim (Ordering-cases (compare k i)) [
    | inl e ↦ sorted.ordered k i (ground arith) q ∙ sym e
    | inr (inl e) ↦
        let same : k ≡ i = ground arith in
        subst (λ j. str_compare (names k) (names j) ≡ eq) same (str_compare_refl (names k)) ∙ sym e
    | inr (inr e) ↦
        str_compare_flip (names i) (names k) (sorted.ordered i k (ground arith) p) ∙ sym e
  ]

  -- A round, by the order of the message and the middle entry.
  turn-eq :
      (m : CString) (i : ℕ) (o : Ordering) (below above here : Access CString)
      → i < c.count
      → str_compare m (names i) ≡ o
      → (entry_text c c.originals i >>= λ t. turn m t below above here)
        ≡ by_order o below above here
  turn-eq m i o below above here p e =
      ap (λ (a : Access (Option (CString × ℕ))). a >>= λ t. turn m t below above here)
        (sorted.readable i p)
      ∙ ap (λ x. by_order x below above here) e

  at_middle :
      (k middle : ℕ)
      → compare k middle ≡ eq
      → translation c (names k) middle ≡ translation c (names k) k
  at_middle k middle e = let same : middle ≡ k = ground arith in ap (translation c (names k)) same

  search_range-hit :
      (rounds low high k : ℕ)
      → low ≤ k
      → k < high
      → high ≤ c.count
      → high - low ≤ rounds
      → search_range c (names k) rounds low high ≡ translation c (names k) k
  unfolding search_range
  search_range-hit zero low high k p q r enough = absurd (omega arith)
  search_range-hit (suc rounds) low high k p q r enough =
      let middle = low + (high - low) / 2 in
      let found = translation c (names k) k in
      if_cases (λ a. a ≡ found) (ltb low high)
        (λ _.
          turn-eq (names k) middle (compare k middle) _ _ _ (omega arith)
            (order-names k middle (omega arith) (omega arith))
          ∙ by_order-eq (compare k middle) _ _ _ found
              (λ e.
                search_range-hit rounds low middle k p (ground arith) (omega arith) (omega arith))
              (λ e. search_range-hit rounds (middle + 1) high k (ground arith) q r (omega arith))
              (λ e. at_middle k middle e))
        (λ e. absurd (ground arith))

  search_range-miss :
      (m : CString) (rounds low high : ℕ)
      → high ≤ c.count
      → ((i : ℕ) → i < c.count → m ≢ names i)
      → search_range c m rounds low high ≡ got m
  unfolding search_range
  search_range-miss m zero low high r other = refl
  search_range-miss m (suc rounds) low high r other =
      let middle = low + (high - low) / 2 in
      if_cases (λ a. a ≡ got m) (ltb low high)
        (λ h.
          turn-eq m middle (str_compare m (names middle)) _ _ _ (ground arith) refl
          ∙ by_order-eq (str_compare m (names middle)) _ _ _ (got m)
              (λ e. search_range-miss m rounds low middle (ground arith) other)
              (λ e. search_range-miss m rounds (middle + 1) high r other)
              (λ e. absurd (other middle (ground arith) (str_compare-eq m (names middle) e))))
        (λ _. refl)

  first_match-eq :
      (m : CString) (i : ℕ) (here rest : Access CString)
      → i < c.count
      → (entry_text c c.originals i >>= λ o. first_match m o here rest)
        ≡ (if str_eq (names i) m then here else rest)
  first_match-eq m i here rest p =
      ap (λ (a : Access (Option (CString × ℕ))). a >>= λ t. first_match m t here rest)
        (sorted.readable i p)

  same_index : (i k : ℕ) → i < c.count → k < c.count → names i ≡ names k → i ≡ k
  same_index i k p q e =
      let order : compare i k ≡ eq =
        sym (order-names i k p q)
        ∙ ap (str_compare (names i)) (sym e)
        ∙ str_compare_refl (names i) in
      ground (arith, order)

  differ : (i k : ℕ) → i ≤ k → str_eq (names i) (names k) ≡ false → i < k
  differ i k p h = elim (Bool-cases (i == k)) [
    | inl e ↦
        let same : i ≡ k = ground arith in
        absurd (ground (arith, h, str_eq_refl (names i), ap (λ j. str_eq (names i) (names j)) same))
    | inr e ↦ ground arith
  ]

  last_other :
      (m : CString) (n : ℕ)
      → ((i : ℕ) → i < n → m ≢ names i)
      → str_eq m (names n) ≡ false
      → (i : ℕ) → i < suc n
      → m ≢ names i
  last_other m n other e i p same = elim (Bool-cases (i == n)) [
    | inl h ↦
        let at : i ≡ n = ground arith in
        absurd
          (ground (arith, e, str_eq_refl m, ap (str_eq m) same, ap (λ j. str_eq m (names j)) at))
    | inr h ↦ other i (ground arith) same
  ]

  scan-hit :
      (rounds i k : ℕ)
      → i ≤ k
      → k < c.count
      → i + rounds ≡ c.count
      → scan c (names k) i rounds ≡ translation c (names k) k
  unfolding scan
  scan-hit zero i k p q e = absurd (omega arith)
  scan-hit (suc rounds) i k p q e =
      first_match-eq (names k) i _ _ (omega arith)
      ∙ if_cases (λ a. a ≡ translation c (names k) k) (str_eq (names i) (names k))
          (λ h.
            ap (translation c (names k))
              (same_index i k (omega arith) q (str_eq→eq (names i) (names k) h)))
          (λ h. scan-hit rounds (i + 1) k (omega (arith, differ i k p h)) q (omega arith))

  scan-miss :
      (m : CString) (rounds i : ℕ)
      → i + rounds ≡ c.count
      → ((i : ℕ) → i < c.count → m ≢ names i)
      → scan c m i rounds ≡ got m
  unfolding scan
  scan-miss m zero i e other = refl
  scan-miss m (suc rounds) i e other =
      first_match-eq m i _ _ (omega arith)
      ∙ if_cases (λ a. a ≡ got m) (str_eq (names i) m)
          (λ h. absurd (other i (omega arith) (sym (str_eq→eq (names i) m h))))
          (λ h. scan-miss m rounds (i + 1) (omega arith) other)

  -- A name occurs among the first entries, or not.
  occurs :
      (m : CString) (n : ℕ) → ((k : ℕ) × (k < n) × (m ≡ names k)) ⊎ ((i : ℕ) → i < n → m ≢ names i)
  occurs m zero = inr (λ i p. absurd (omega arith))
  occurs m (suc n) = elim (occurs m n) [
    | inl (k, p, e) ↦ inl (k, omega arith, e)
    | inr other ↦ elim (Bool-cases (str_eq m (names n))) [
      | inl e ↦ inl (n, omega arith, str_eq→eq m (names n) e)
      | inr e ↦ inr (last_other m n other e)
    ]
  ]

  -- In a catalogue whose original texts are readable and in the order of `strcmp`, the binary search
  -- of `agentseat_translate` gives for every message what a scan of its entries from the first one on
  -- gives: the translation of the entry with that text, if it is readable and not empty, and the
  -- message itself otherwise.
  pub translate-scan : (m : CString) → agentseat_translate (some c) m ≡ scan c m 0 c.count
  unfolding agentseat_translate
  translate-scan m = elim (occurs m c.count) [
    | inl (k, p, e) ↦
        subst (λ x. search_range c x c.count 0 c.count ≡ scan c x 0 c.count) (sym e)
          (search_range-hit c.count 0 c.count k (omega arith) p (omega arith) (omega arith)
            ∙ sym (scan-hit c.count 0 k (omega arith) p (omega arith)))
    | inr other ↦
        search_range-miss m c.count 0 c.count (omega arith) other
        ∙ sym (scan-miss m c.count 0 (omega arith) other)
  ]
