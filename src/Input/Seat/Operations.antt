-- ===== src/Input/Seat/Operations.antt =====
-- Every operation of the daemon on the seat keeps its record of held keys and buttons true.
use agent_seat.Prelude.{
  ℕ, ◌≡◌, refl, sym, ◌∙◌, Bool, true, false, ◌&&◌, arith, get_or-replicate, length-replicate,
}
use agent_seat.Input.Platform.{Xkb, Doubles}
use agent_seat.Input.State.{Input, acquire_gate, max_tracked_keys, max_tracked_buttons}
use agent_seat.Input.Seat.{release_all, revoke_if, is_some, clear_seat, destroy_seat}
use agent_seat.Input.Seat.Mirror.{sent_key_down, sent_button_down, Mirrors, NoKeys, NoButtons}
use agent_seat.Input.Seat.Held.{Absent, release_all-Mirrors, release_all-Released}

module _ {X : Xkb} {D : Doubles} where
  -- The entries are what was last sent, and there are devices exactly while there is a seat.
  pub record IsConsistent (s : Input X D) : Type 0 where
    pub mirrors : Mirrors s
    pub absent : Absent s
    pub keyboard_made : s.keyboard ≡ s.created
    pub pointer_made : s.pointer ≡ s.created

  clear_seat-IsConsistent :
      (s : Input X D) → Mirrors s → NoKeys s → NoButtons s → IsConsistent (clear_seat s)
  unfolding clear_seat
  clear_seat-IsConsistent s m nk nb = record {
    mirrors = record {
      keys = λ c. rw (get_or-replicate max_tracked_keys c false) (ground (arith, m.keys c, nk c));
      buttons = λ c.
          rw (get_or-replicate max_tracked_buttons c false) (ground (arith, m.buttons c, nb c));
      key_slots = length-replicate max_tracked_keys false;
      button_slots = length-replicate max_tracked_buttons false;
    };
    absent = record {
      no_keyboard = λ _ c. get_or-replicate max_tracked_keys c false;
      no_pointer = λ _ c. get_or-replicate max_tracked_buttons c false;
    };
    keyboard_made = refl;
    pointer_made = refl;
  }

  destroy_revoked :
      (s : Input X D) → Mirrors s → Absent s → IsConsistent (clear_seat (release_all s))
  destroy_revoked s m a =
      let r = release_all-Released s a in
      clear_seat-IsConsistent (release_all s) (release_all-Mirrors s m) r.no_keys r.no_buttons

  pub destroy_seat-IsConsistent :
      (s : Input X D) → Mirrors s → Absent s → IsConsistent (destroy_seat s)
  unfolding destroy_seat
  destroy_seat-IsConsistent s m a = go (is_some s.control && s.created)
    where
      go : (b : Bool) → IsConsistent (clear_seat (release_all (revoke_if b s)))
      go true =
          destroy_revoked (revoke_if true s)
            (record {
              keys = m.keys;
              buttons = m.buttons;
              key_slots = m.key_slots;
              button_slots = m.button_slots;
            })
            (record { no_keyboard = a.no_keyboard; no_pointer = a.no_pointer })
      go false = destroy_revoked s m a

  -- The log grows by requests that press nothing; the entries stay.
  pub record Quiet (s r : Input X D) : Type 0 where
    pub same_keys_sent : (c : ℕ) → sent_key_down r.log c ≡ sent_key_down s.log c
    pub same_buttons_sent : (c : ℕ) → sent_button_down r.log c ≡ sent_button_down s.log c
    pub same_keys : r.pressed_keys ≡ s.pressed_keys
    pub same_buttons : r.pressed_buttons ≡ s.pressed_buttons

  pub Quiet-Mirrors : {s r : Input X D} → Quiet s r → Mirrors s → Mirrors r
  Quiet-Mirrors q m = record {
    keys = λ c. rw q.same_keys (q.same_keys_sent c ∙ m.keys c);
    buttons = λ c. rw q.same_buttons (q.same_buttons_sent c ∙ m.buttons c);
    key_slots = rw q.same_keys m.key_slots;
    button_slots = rw q.same_buttons m.button_slots;
  }

  pub Quiet-NoKeys : {s r : Input X D} → Quiet s r → NoKeys s → NoKeys r
  Quiet-NoKeys q n c = rw q.same_keys (n c)

  pub Quiet-NoButtons : {s r : Input X D} → Quiet s r → NoButtons s → NoButtons r
  Quiet-NoButtons q n c = rw q.same_buttons (n c)

  -- A quiet change that leaves the seat and its devices keeps the whole record.
  pub Quiet-IsConsistent :
      {s r : Input X D}
      → Quiet s r
      → r.keyboard ≡ s.keyboard
      → r.pointer ≡ s.pointer
      → r.created ≡ s.created
      → IsConsistent s
      → IsConsistent r
  Quiet-IsConsistent q ek ep ec v = record {
    mirrors = Quiet-Mirrors q v.mirrors;
    absent = record {
      no_keyboard = λ e. Quiet-NoKeys q (v.absent.no_keyboard (sym ek ∙ e));
      no_pointer = λ e. Quiet-NoButtons q (v.absent.no_pointer (sym ep ∙ e));
    };
    keyboard_made = ek ∙ v.keyboard_made ∙ sym ec;
    pointer_made = ep ∙ v.pointer_made ∙ sym ec;
  }

  pub acquire_gate-Quiet : (s : Input X D) → Quiet s (acquire_gate X D s)
  unfolding acquire_gate
  acquire_gate-Quiet s = record {
    same_keys_sent = λ c. ground arith;
    same_buttons_sent = λ c. ground arith;
    same_keys = refl;
    same_buttons = refl;
  }
