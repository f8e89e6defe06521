-- ===== src/Daemon/Lines.antt =====
-- A connection of native/agentseatd.c serves its first line, however the bytes arrive, and sends its whole
-- answer.
use agent_seat.Prelude.{
  ℕ, zero, suc, ◌+◌, ◌-◌, ◌<◌, ◌≤◌, ◌≡◌, inl, inr, refl, sym, ap, subst, ◌∙◌, arith, true, false,
  ◌||◌, Option, none, some, List, [], ◌∷◌, ◌++◌, if_cases, Bool-cases, ltb, ◌==◌, length, set, take,
  replicate, length-append, length-set, length-replicate,
}
use mathlib.Core.Option.{some-injective}
use mathlib.Core.List.{append_assoc, append-nil}
use agent_seat.Daemon.Clients.{
  Client, max_request, copy_at, new_capacity, grown, first_line, line_after, reads_on, and_then,
  read_blocks, accepted, bytes, Server, ended_text, with_line, with_cells, client_read, request_in,
}

module _ {A : Type 0} where
  take-set : (xs : List A) (j i : ℕ) (v : A) → j ≤ i → take j (set xs i v) ≡ take j xs
  take-set xs zero i v h = refl
  take-set [] (suc j) i v h = refl
  take-set (x ∷ xs) (suc j) zero v h = absurd (omega arith)
  take-set (x ∷ xs) (suc j) (suc i) v h = ap (◌∷◌ x) (take-set xs j i v (omega arith))

  take-suc-set :
      (xs : List A) (i : ℕ) (v : A)
      → i < length xs
      → take (suc i) (set xs i v) ≡ take i xs ++ (v ∷ [])
  take-suc-set [] i v h = absurd (omega arith)
  take-suc-set (x ∷ xs) zero v h = refl
  take-suc-set (x ∷ xs) (suc i) v h = ap (◌∷◌ x) (take-suc-set xs i v (omega arith))

  take-append : (xs ys : List A) (n : ℕ) → n ≤ length xs → take n (xs ++ ys) ≡ take n xs
  take-append [] ys zero h = refl
  take-append [] ys (suc n) h = absurd (omega arith)
  take-append (x ∷ xs) ys zero h = refl
  take-append (x ∷ xs) ys (suc n) h = ap (◌∷◌ x) (take-append xs ys n (omega arith))

-- What the buffer holds after a copy that fits: it does not fault, keeps the capacity and what stood
-- before, and holds the copy behind it.
unfoldable pub Copied : List ℕ → ℕ → List ℕ → Option (List ℕ) → Type 0
Copied cells i bs none = ⊥
Copied cells i bs (some cells') =
    (length cells' ≡ length cells) × (take (i + length bs) cells' ≡ take i cells ++ bs)

pub copy_at-Copied :
    (cells : List ℕ) (i : ℕ) (bs : List ℕ)
    → i + length bs ≤ length cells
    → Copied cells i bs (copy_at cells i bs)
unfolding copy_at Copied
copy_at-Copied cells i [] h =
    let e : i ≡ i + 0 = omega arith in
    (refl, subst (λ k. take k cells ≡ take i cells ++ []) e (sym (append-nil (take i cells))))
copy_at-Copied cells i (b ∷ bs) h =
    if_cases (Copied cells i (b ∷ bs)) (ltb i (length cells))
      (λ _.
        one_more (copy_at (set cells i b) (suc i) bs)
          (copy_at-Copied (set cells i b) (suc i) bs (omega (arith, length-set cells i b))))
      (λ e. absurd (ground (arith, h, e)))
  where
    one_more :
        (o : Option (List ℕ)) → Copied (set cells i b) (suc i) bs o → Copied cells i (b ∷ bs) o
    one_more none k = k
    one_more (some cells') (l, t) =
        let e : suc i + length bs ≡ i + suc (length bs) = omega arith in
        let before : take (suc i) (set cells i b) ≡ take i cells ++ (b ∷ []) =
          take-suc-set cells i b (omega arith) in
        (
          l ∙ length-set cells i b,
          subst (λ k. take k cells' ≡ take i cells ++ (b ∷ bs)) e
              (t ∙ (ap (λ p. p ++ bs) before ∙ append_assoc (take i cells) (b ∷ []) bs)),
        )

-- The buffer of a connection that has read some bytes.
abbrev pub Holds : Client → List ℕ → Type 0
Holds c text =
    (c.is_open ≡ true)
    × (c.response ≡ none)
    × (c.held ≡ length text)
    × (c.held ≤ length c.request)
    × (take c.held c.request ≡ text)

grown_lem :
    (cells : List ℕ) (n needed : ℕ)
    → n ≤ length cells
    → needed ≤ max_request + 1
    → (needed ≤ length (grown cells needed)) × (take n (grown cells needed) ≡ take n cells)
unfolding grown
grown_lem cells n needed h small =
    if_cases (λ g. (needed ≤ length g) × (take n g ≡ take n cells)) (ltb (length cells) needed)
      (λ e.
        let room = new_capacity needed - length cells in
        (
          ground (arith, length-append cells (replicate room 0), length-replicate {A = ℕ} room 0),
          take-append cells (replicate room 0) n h,
        ))
      (λ e. (ground arith, refl))

-- What stands before the copy stays.
Kept : ℕ → List ℕ → Option (List ℕ) → Type 0
Kept j cells none = Unit
Kept j cells (some cells') = take j cells' ≡ take j cells

copy_at-Kept : (cells : List ℕ) (j i : ℕ) (bs : List ℕ) → j ≤ i → Kept j cells (copy_at cells i bs)
unfolding copy_at Kept
copy_at-Kept cells j i [] h = refl
copy_at-Kept cells j i (b ∷ bs) h =
    if_cases (Kept j cells) (ltb i (length cells))
      (λ _.
        same (copy_at (set cells i b) (suc i) bs)
          (copy_at-Kept (set cells i b) j (suc i) bs (omega arith)))
      (λ _. tt)
  where
    same : (o : Option (List ℕ)) → Kept j (set cells i b) o → Kept j cells o
    same none k = k
    same (some cells') k = k ∙ take-set cells j i b h

-- After a block that fits, the buffer holds what it held and the block, with a NUL behind it.
Filled : ℕ → List ℕ → Option (List ℕ) → Type 0
Filled total text none = ⊥
Filled total text (some cells) = (total ≤ length cells) × (take total cells ≡ text)

ended-Filled :
    (cells text : List ℕ) (total : ℕ)
    → total < length cells
    → take total cells ≡ text
    → Filled total text (copy_at cells total (0 ∷ []))
unfolding Filled Copied Kept
ended-Filled cells text total h e =
    go (copy_at cells total (0 ∷ [])) (copy_at-Copied cells total (0 ∷ []) (omega arith))
      (copy_at-Kept cells total total (0 ∷ []) (omega arith))
  where
    go :
        (o : Option (List ℕ))
        → Copied cells total (0 ∷ []) o
        → Kept total cells o
        → Filled total text o
    go none k m = k
    go (some cells') (l, t) m = (omega arith, m ∙ e)

block-Filled :
    (cells text block : List ℕ) (n : ℕ)
    → n ≡ length text
    → take n cells ≡ text
    → n + length block < length cells
    → Filled
        (n + length block)
        (text ++ block)
        (ended_text (n + length block) (copy_at cells n block))
unfolding Copied
block-Filled cells text block n m e h =
    go (copy_at cells n block) (copy_at-Copied cells n block (omega arith))
  where
    go :
        (o : Option (List ℕ))
        → Copied cells n block o
        → Filled (n + length block) (text ++ block) (ended_text (n + length block) o)
    go none k = absurd k
    go (some cells') (l, t) =
        ended-Filled cells' (text ++ block) (n + length block) (omega arith)
          (t ∙ ap (λ p. p ++ block) e)

-- The bytes of some blocks, which `recv` gives one after the other.
abbrev pub joined : List (ℕ × List ℕ) → List ℕ
joined [] = []
joined ((now, block) ∷ blocks) = block ++ joined blocks

-- `recv` gives at least one byte.
abbrev pub AllNonempty : List (ℕ × List ℕ) → Type 0
AllNonempty [] = Unit
AllNonempty ((now, block) ∷ blocks) = (0 < length block) × AllNonempty blocks

line_after-some :
    (b : ℕ) (o : Option (List ℕ)) (line : List ℕ)
    → line_after b o ≡ some line
    → (rest : List ℕ) × (o ≡ some rest) × (line ≡ b ∷ rest)
line_after-some b none line h = cc
line_after-some b (some rest) line h = (rest, refl, sym (some-injective _ _ h))

first_line-append :
    (xs ys line : List ℕ) → first_line xs ≡ some line → first_line (xs ++ ys) ≡ some line
unfolding first_line
first_line-append [] ys line h = cc
first_line-append (x ∷ xs) ys line h = elim (Bool-cases (x == 10)) [
  | inl e ↦ ground (arith, e, h)
  | inr e ↦
      let after : line_after x (first_line xs) ≡ some line = ground (arith, e, h) in
      let (rest, f, g) = line_after-some x (first_line xs) line after in
      ground (arith, e, g, first_line-append xs ys rest f)
]

module _ (V : Server) where
  open V use {Document, State, parse, serve}

  -- What a connection has done on a text, by its first line: nothing yet, or the one request in it.
  abbrev pub Served : State → List ℕ → State → Client → Option (List ℕ) → Type 0
  Served s text s' c' none = (s' ≡ s) × Holds c' text
  Served s text s' c' (some line) =
      (s' ≡ (serve s (request_in V line)).0)
      × (c'.is_open ≡ true)
      × (c'.response ≡ some ((serve s (request_in V line)).1 ++ (10 ∷ [])))

  -- A read that goes well.
  abbrev pub Reads : State → List ℕ → Option (List ℕ) → Option (State × Client) → Type 0
  Reads s text line none = ⊥
  Reads s text line (some (s', c')) = Served s text s' c' line

  line-Served :
      (s : State) (c : Client) (now : ℕ) (text cells : List ℕ) (line : Option (List ℕ))
      → (c.is_open ≡ true) × (c.response ≡ none)
      → length text ≤ length cells
      → take (length text) cells ≡ text
      → Reads s text line
          (some (with_line V s (record c { request = cells; held = length text }) now line))
  line-Served s c now text cells none (a, b) l t = (refl, (a, b, refl, l, t))
  line-Served s c now text cells (some line) h l t = (refl, refl, refl)

  cells-Reads :
      (s : State) (c : Client) (now : ℕ) (text : List ℕ) (o : Option (List ℕ))
      → (c.is_open ≡ true) × (c.response ≡ none)
      → Filled (length text) text o
      → Reads s text (first_line text) (with_cells V s c (length text) now o)
  unfolding Filled
  cells-Reads s c now text none h f = f
  cells-Reads s c now text (some cells) h (l, t) =
      subst
        (λ x. Reads s text (first_line text) (
          some
            (with_line V s (record c { request = cells; held = length text }) now (first_line x))))
        (sym t) (line-Served s c now text cells (first_line text) h l t)

  block-Reads :
      (s : State) (c : Client) (now : ℕ) (text block : List ℕ)
      → Holds c text
      → 0 < length block
      → length text + length block ≤ max_request
      → Reads s (text ++ block) (first_line (text ++ block)) (client_read V s c now (bytes block))
  unfolding client_read
  block-Reads s c now text block (a, b, m, l, t) p q =
      let total = c.held + length block in
      let sum : length (text ++ block) ≡ total = omega (arith, length-append text block, m) in
      if_cases (Reads s (text ++ block) (first_line (text ++ block)))
        ((length block == 0) || ltb max_request total) (λ e. absurd (ground (arith, e, p, q, m)))
        (λ e.
          let (room, same) = grown_lem c.request c.held (total + 1) l (omega arith) in
          let f =
            block-Filled (grown c.request (total + 1)) text block c.held m (same ∙ t)
              (omega arith) in
          subst
            (λ n. Reads s (text ++ block) (first_line (text ++ block)) (
              with_cells V s c n now
                (ended_text total (copy_at (grown c.request (total + 1)) c.held block))))
            sum
            (cells-Reads s c now (text ++ block) _ (a, b)
              (subst
                (λ n.
                  Filled n (text ++ block)
                    (ended_text total (copy_at (grown c.request (total + 1)) c.held block)))
                (sym sum) f)))

  read_blocks_done :
      (s : State) (c : Client) (r : List ℕ) (blocks : List (ℕ × List ℕ))
      → c.response ≡ some r
      → read_blocks V s c blocks ≡ some (s, c)
  unfolding read_blocks
  read_blocks_done s c r [] e = refl
  read_blocks_done s c r ((now, block) ∷ blocks) e =
      let stop : reads_on c ≡ false = ground (arith, e) in
      if_cases (λ o. o ≡ some (s, c)) (reads_on c) (λ f. absurd (ground (arith, stop, f)))
        (λ _. refl)

  rest-Reads :
      (s : State) (text : List ℕ) (blocks : List (ℕ × List ℕ)) (line : Option (List ℕ))
      (o : Option (State × Client))
      → first_line text ≡ line
      → Reads s text line o
      → ((s' : State) (c' : Client)
          → s' ≡ s
          → Holds c' text
          → first_line text ≡ none
          → Reads s
              (text ++ joined blocks)
              (first_line (text ++ joined blocks))
              (read_blocks V s' c' blocks))
      → Reads s
          (text ++ joined blocks)
          (first_line (text ++ joined blocks))
          (and_then o (λ s' c'. read_blocks V s' c' blocks))
  rest-Reads s text blocks line none e k f = absurd k
  rest-Reads s text blocks none (some (s', c')) e (same, h) f = f s' c' same h e
  rest-Reads s text blocks (some line) (some (s', c')) e (at, a, b) f =
      subst (λ l. Reads s (text ++ joined blocks) l (read_blocks V s' c' blocks))
        (sym (first_line-append text (joined blocks) line e))
        (subst (Reads s (text ++ joined blocks) (some line))
          (sym (read_blocks_done s' c' ((serve s (request_in V line)).1 ++ (10 ∷ [])) blocks b))
          (at, a, b))

  blocks-Reads :
      (s : State) (c : Client) (text : List ℕ) (blocks : List (ℕ × List ℕ))
      → Holds c text
      → first_line text ≡ none
      → AllNonempty blocks
      → length (text ++ joined blocks) ≤ max_request
      → Reads s
          (text ++ joined blocks)
          (first_line (text ++ joined blocks))
          (read_blocks V s c blocks)
  unfolding read_blocks
  blocks-Reads s c text [] h e n small =
      subst (λ t. Reads s t (first_line t) (some (s, c))) (sym (append-nil text))
        (subst (λ l. Reads s text l (some (s, c))) (sym e) (refl, h))
  blocks-Reads s c text ((now, block) ∷ blocks) h e (n, ns) small =
      let whole = text ++ (block ++ joined blocks) in
      let assoc : (text ++ block) ++ joined blocks ≡ whole =
        append_assoc text block (joined blocks) in
      let fits : length text + length block ≤ max_request = omega (
        arith,
        small,
        length-append text (block ++ joined blocks),
        length-append block (joined blocks),
      ) in
      if_cases (Reads s whole (first_line whole)) (reads_on c)
        (λ _.
          subst
            (λ t. Reads s t (first_line t) (
              and_then (client_read V s c now (bytes block)) (λ s' c'. read_blocks V s' c' blocks)))
            assoc
            (again
              (λ s' c' held e'.
                blocks-Reads s' c' (text ++ block) blocks held e' ns
                  (omega (arith, small, ap length assoc)))
              (first_line (text ++ block)) refl (block-Reads s c now text block h n fits)))
        (λ f. absurd (ground (arith, f, h.0, h.1)))
    where
      again :
          ((s' : State) (c' : Client)
            → Holds c' (text ++ block)
            → first_line (text ++ block) ≡ none
            → Reads s'
                ((text ++ block) ++ joined blocks)
                (first_line ((text ++ block) ++ joined blocks))
                (read_blocks V s' c' blocks))
          → (line : Option (List ℕ)) → first_line (text ++ block) ≡ line
          → Reads s
              (text ++ block)
              (first_line (text ++ block))
              (client_read V s c now (bytes block))
          → Reads s
              ((text ++ block) ++ joined blocks)
              (first_line ((text ++ block) ++ joined blocks))
              (and_then (client_read V s c now (bytes block)) (λ s' c'. read_blocks V s' c' blocks))
      again ih line f k =
          rest-Reads s (text ++ block) blocks line (client_read V s c now (bytes block)) f
            (subst (λ l. Reads s (text ++ block) l (client_read V s c now (bytes block))) f k)
            (λ s' c' same held e'.
              subst
                (λ z.
                  Reads z ((text ++ block) ++ joined blocks)
                    (first_line ((text ++ block) ++ joined blocks)) (read_blocks V s' c' blocks))
                same (ih s' c' held e'))

  -- A connection serves its first line and nothing else, however the bytes arrive in blocks: while they
  -- have no newline, it keeps all of them and the daemon's state is as it was; from the block with the
  -- first newline on, it holds the answer to the bytes before that newline, with a newline behind it, and
  -- the state is the one after that single request. No write leaves the buffer. The blocks are not empty and
  -- have at most 1048576 bytes together.
  pub first_line_served :
      (s : State) (now : ℕ) (blocks : List (ℕ × List ℕ))
      → AllNonempty blocks
      → length (joined blocks) ≤ max_request
      → Reads s (joined blocks) (first_line (joined blocks)) (read_blocks V s (accepted now) blocks)
  unfolding first_line
  first_line_served s now blocks n small =
      blocks-Reads s (accepted now) [] blocks (refl, refl, refl, omega arith, refl) refl n small
