-- ===== src/Input/Content.antt =====
-- The ring of damaged commits that native/agentseat-input.c keeps for `content.changes`.
use agent_seat.Prelude.{
  ℕ, zero, suc, ◌-◌, ◌%◌, ◌^◌, ◌≤◌, ◌<◌, ◌≡◌, refl, Bool, true, false, not, ◌||◌, List, [], ◌∷◌,
  map, if◌then◌else◌, ltb, leb, ◌==◌, get_or, set, add_u32, sub_u32, arith, Bool-cases, inl, inr,
}
use agent_seat.Prelude.Int.{pos}
use agent_seat.Input.Platform.{Xkb, Doubles}
use agent_seat.Input.State.{Input, Change, content_history_size}

-- An entry of the zeroed array.
abbrev pub no_change : Change
no_change = record {
  serial = 0;
  area = 0;
  msec = 0;
  x = pos 0;
  y = pos 0;
  width = pos 0;
  height = pos 0;
}

-- What `agentseat_input_content_changes` returns: the changes copied, and `*gap`.
pub record Changes : Type 0 where
  pub items : List Change
  pub gap : Bool

-- Its loop, on fuel, from `serial` on, with room for `max` changes; `stop` is the serial past the
-- latest.
unfoldable pub collect : ℕ → List Change → ℕ → ℕ → ℕ → Bool → Changes
collect zero history serial stop max gap = record { items = []; gap = gap }
collect (suc fuel) history serial stop max gap =
    let change = get_or history (serial % content_history_size) no_change in
    let hit = change.serial == serial in
    let rest =
      collect fuel history (add_u32 serial 1) stop (if hit then max - 1 else max)
        (gap || not hit) in
    if (serial == stop) || (max == 0)
    then record { items = []; gap = gap }
    else if hit
    then record rest { items = change ∷ rest.items }
    else rest

-- `(int32_t)(latest - after) <= 0`.
abbrev pub not_newer : ℕ → Bool
not_newer pending = (pending == 0) || leb (2 ^ 31) pending

module _ {X : Xkb} {D : Doubles} where
  -- `content`, at a time in milliseconds.
  pub content : Input X D → ℕ → Change → Input X D
  content s now change =
      let s' : Input X D = record s { content_serial = change.serial; content_msec = now } in
      if change.area == 0 then s' else record s' {
        content_history =
            set s'.content_history (change.serial % content_history_size)
              (record change { msec = now });
      }

  -- `agentseat_input_content_changes`; `*latest` is the serial of the state.
  unfoldable pub content_changes : Input X D → ℕ → ℕ → Changes
  content_changes s after max =
      let latest = s.content_serial in
      let pending = sub_u32 latest after in
      if not_newer pending
      then record { items = []; gap = false }
      else if ltb content_history_size pending
      then collect content_history_size s.content_history
          (add_u32 (sub_u32 latest content_history_size) 1) (add_u32 latest 1) max true
      else collect content_history_size s.content_history (add_u32 after 1) (add_u32 latest 1) max
          false

-- The serials that follow one, wrapping as uint32_t.
unfoldable pub serials_from : ℕ → ℕ → List ℕ
serials_from zero serial = []
serials_from (suc n) serial = serial ∷ serials_from n (add_u32 serial 1)

collect-gap :
    (fuel : ℕ) (h : List Change) (serial stop max : ℕ)
    → (collect fuel h serial stop max true).gap ≡ true
unfolding collect
collect-gap zero h serial stop max = refl
collect-gap (suc fuel) h serial stop max = ground (
  arith,
  collect-gap fuel h (add_u32 serial 1) stop (max - 1),
  collect-gap fuel h (add_u32 serial 1) stop max,
)

-- With no gap, the loop copies one change for each serial up to the latest.
collect-serials :
    (n fuel : ℕ) (h : List Change) (serial stop max : ℕ)
    → n ≤ fuel
    → n ≤ max
    → n < 2 ^ 32
    → serial < 2 ^ 32
    → stop ≡ add_u32 serial n
    → (collect fuel h serial stop max false).gap ≡ false
    → map (λ q. q.serial) (collect fuel h serial stop max false).items ≡ serials_from n serial
unfolding collect serials_from
collect-serials zero zero h serial stop max f m w l e g = refl
collect-serials zero (suc fuel) h serial stop max f m w l e g = ground arith
collect-serials (suc n) zero h serial stop max f m w l e g = absurd (omega arith)
collect-serials (suc n) (suc fuel) h serial stop max f m w l e g =
    let change = get_or h (serial % content_history_size) no_change in
    let next = add_u32 serial 1 in
    elim (Bool-cases (change.serial == serial)) [
      | inl hit ↦ ground (
        arith,
        hit,
        going,
        collect-serials n fuel h next stop (max - 1) (omega arith) (omega arith) (omega arith)
            (omega arith) (omega arith),
      )
      | inr missed ↦ absurd (ground (arith, missed, going, collect-gap fuel h next stop max))
    ]
  where
    going : ((serial == stop) || (max == 0)) ≡ false
    going = ground arith

module _ {X : Xkb} {D : Doubles} where
  -- Without a gap the answer is complete: when `agentseat_input_content_changes` has room for 256
  -- changes and reports no gap, it returns exactly one change for each serial after `after_serial`
  -- up to the latest one, oldest first, and none when there is nothing newer.
  pub content_changes-serials :
      (s : Input X D) (after : ℕ)
      → s.content_serial < 2 ^ 32
      → after < 2 ^ 32
      → (content_changes s after 256).gap ≡ false
      → map (λ q. q.serial) (content_changes s after 256).items ≡ (
          if not_newer (sub_u32 s.content_serial after)
          then []
          else serials_from (sub_u32 s.content_serial after) (add_u32 after 1))
  unfolding content_changes
  content_changes-serials s after l a g =
      let pending = sub_u32 s.content_serial after in
      let oldest = add_u32 (sub_u32 s.content_serial content_history_size) 1 in
      let stop = add_u32 s.content_serial 1 in
      ground (
        arith,
        collect-gap 256 s.content_history oldest stop 256,
        collect-serials pending 256 s.content_history (add_u32 after 1) stop 256,
      )
