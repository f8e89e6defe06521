-- ===== src/Daemon/Messages.antt =====
-- The messages of the collaborators in native/agentseatd.c: `message_append` and chat.list.
use mathlib.Core.List.{append_assoc}
use agent_seat.Prelude.{
  ℕ, zero, suc, ◌+◌, ◌-◌, ◌%◌, ◌^◌, ◌<◌, ◌≤◌, false, List, [], ◌∷◌, ◌++◌, CString, if◌then◌else◌,
  if_cases, ltb, length, get_or, set, take, replicate, add_size, ◌≡◌, refl, arith, length-set,
  get_or-set, length-replicate, inl, inr, Bool-cases, ap, subst, take_all, ◌∙◌, sym,
}
use agent_seat.Daemon.State.{Role, Role.human, Message, Chat, max_messages, max_chat_bytes}

abbrev no_message : Message
no_message = record { id = 0; created_msec = 0; role = human; text = [] }

-- The zeroed fields.
pub no_chat : Chat
unfolding replicate
no_chat = record { messages = replicate max_messages no_message; start = 0; count = 0; next_id = 0 }

abbrev message : ℕ → ℕ → Role → CString → Message
message id now role text = record {
  id = id;
  created_msec = now;
  role = role;
  text = take max_chat_bytes text;
}

-- `message_append`, at the time `now`.
pub message_append : Chat → ℕ → Role → CString → Chat
message_append c now role text =
    let id = add_size c.next_id 1 in
    let m = message id now role text in
    if ltb c.count max_messages
    then record c {
      messages = set c.messages (add_size c.start c.count % max_messages) m;
      count = c.count + 1;
      next_id = id;
    }
    else record c {
      messages = set c.messages c.start m;
      start = add_size c.start 1 % max_messages;
      next_id = id;
    }

-- The loop of chat.list, from the index `i` on.
listed : Chat → ℕ → ℕ → ℕ → List Message
listed c after_id i zero = []
listed c after_id i (suc rounds) =
    let m = get_or c.messages (add_size c.start i % max_messages) no_message in
    let rest = listed c after_id (i + 1) rounds in if ltb after_id m.id then m ∷ rest else rest

-- The messages of the answer to chat.list.
pub messages_after : Chat → ℕ → List Message
unfolding listed
messages_after c after_id = listed c after_id 0 c.count

-- What `message_append` is called with: the time, the role and the text.
abbrev pub Entry : Type 0
Entry = ℕ × Role × CString

-- The chat after these calls, the last one first.
pub append_all : List Entry → Chat
append_all [] = no_chat
append_all ((now, role, text) ∷ es) = message_append (append_all es) now role text

-- The messages of these calls, numbered from 1 on.
pub history : List Entry → List Message
history [] = []
history ((now, role, text) ∷ es) = message (length es + 1) now role text ∷ history es

abbrev kept : ℕ → Message → List Message
kept k m = if ltb k m.id then m ∷ [] else []

-- Those above a number, the oldest first, from a list with the newest first.
pub above : ℕ → List Message → List Message
above k [] = []
above k (m ∷ ms) = above k ms ++ kept k m

-- The ring holds the newest messages of a history.
record Holds (c : Chat) (h : List Message) : Type 0 where
  slots : length c.messages ≡ max_messages
  start_lt : c.start < max_messages
  count_le : c.count ≤ max_messages
  from_zero : c.count < max_messages → c.start ≡ 0
  counted : c.count ≤ length h
  full : c.count < max_messages → c.count ≡ length h
  numbered : c.next_id ≡ length h
  newest :
      (j : ℕ)
      → j < c.count
      → get_or c.messages ((c.start + (c.count - 1 - j)) % max_messages) no_message
        ≡ get_or h j no_message

-- The case of a free slot.
Holds-room :
    (c : Chat) (h : List Message) (m : Message)
    → Holds c h
    → c.count < max_messages
    → length h < 2 ^ 64 - 1
    → Holds
        (record c {
          messages = set c.messages (add_size c.start c.count % max_messages) m;
          count = c.count + 1;
          next_id = add_size c.next_id 1;
        })
        (m ∷ h)
Holds-room c h m v room small = record {
  slots = omega (arith, v.slots, length-set c.messages (add_size c.start c.count % max_messages) m);
  start_lt = v.start_lt;
  count_le = omega arith;
  from_zero = λ p. v.from_zero room;
  counted = omega (arith, v.counted);
  full = λ p. omega (arith, v.full room);
  numbered = omega (arith, v.numbered);
  newest = λ j p. newest_at j p;
}
  where
    newest_at :
        (j : ℕ)
        → j < c.count + 1
        → get_or
            (set c.messages (add_size c.start c.count % max_messages) m)
            ((c.start + (c.count + 1 - 1 - j)) % max_messages)
            no_message
          ≡ get_or (m ∷ h) j no_message
    newest_at zero p = ground (
      arith,
      v.slots,
      v.from_zero room,
      get_or-set c.messages (add_size c.start c.count % max_messages)
          ((c.start + (c.count + 1 - 1 - 0)) % max_messages) m no_message,
    )
    newest_at (suc j) p = ground (
      arith,
      v.slots,
      v.from_zero room,
      v.newest j (omega arith),
      get_or-set c.messages (add_size c.start c.count % max_messages)
          ((c.start + (c.count + 1 - 1 - suc j)) % max_messages) m no_message,
    )

-- The case of a full ring, where the oldest message gives way.
Holds-full :
    (c : Chat) (h : List Message) (m : Message)
    → Holds c h
    → c.count ≡ max_messages
    → length h < 2 ^ 64 - 1
    → Holds
        (record c {
          messages = set c.messages c.start m;
          start = add_size c.start 1 % max_messages;
          next_id = add_size c.next_id 1;
        })
        (m ∷ h)
Holds-full c h m v e small = record {
  slots = omega (arith, v.slots, length-set c.messages c.start m);
  start_lt = omega arith;
  count_le = omega arith;
  from_zero = λ p. absurd (omega arith);
  counted = omega (arith, v.counted);
  full = λ p. absurd (omega arith);
  numbered = omega (arith, v.numbered);
  newest = λ j p. newest_at j p;
}
  where
    newest_at :
        (j : ℕ)
        → j < c.count
        → get_or
            (set c.messages c.start m)
            ((add_size c.start 1 % max_messages + (c.count - 1 - j)) % max_messages)
            no_message
          ≡ get_or (m ∷ h) j no_message
    newest_at zero p = ground (
      arith,
      v.slots,
      v.start_lt,
      e,
      get_or-set c.messages c.start
          ((add_size c.start 1 % max_messages + (c.count - 1 - 0)) % max_messages) m no_message,
    )
    newest_at (suc j) p = ground (
      arith,
      v.slots,
      v.start_lt,
      e,
      v.newest j (omega arith),
      get_or-set c.messages c.start
          ((add_size c.start 1 % max_messages + (c.count - 1 - suc j)) % max_messages) m no_message,
    )

message_append-Holds :
    (c : Chat) (h : List Message) (now : ℕ) (role : Role) (text : CString)
    → Holds c h
    → length h < 2 ^ 64 - 1
    → Holds (message_append c now role text) (message (length h + 1) now role text ∷ h)
unfolding message_append
message_append-Holds c h now role text v small =
    subst (λ n. Holds (message_append c now role text) (message n now role text ∷ h))
      (omega (arith, v.numbered))
      (if_cases (λ d. Holds d (message (add_size c.next_id 1) now role text ∷ h))
        (ltb c.count max_messages)
        (λ room.
          Holds-room c h (message (add_size c.next_id 1) now role text) v (ground arith) small)
        (λ full.
          Holds-full c h (message (add_size c.next_id 1) now role text) v
            (ground (arith, v.count_le)) small))

length-history : (es : List Entry) → length (history es) ≡ length es
unfolding history
length-history [] = refl
length-history ((now, role, text) ∷ es) = ap suc (length-history es)

append_all-Holds : (es : List Entry) → length es < 2 ^ 64 → Holds (append_all es) (history es)
unfolding append_all history no_chat
append_all-Holds [] small = record {
  slots = length-replicate max_messages no_message;
  start_lt = omega arith;
  count_le = omega arith;
  from_zero = λ p. refl;
  counted = omega arith;
  full = λ p. refl;
  numbered = refl;
  newest = λ j p. absurd (omega arith);
}
append_all-Holds ((now, role, text) ∷ es) small = rw (← length-history es) (
    message_append-Holds (append_all es) (history es) now role text
      (append_all-Holds es (omega arith)) (omega (arith, length-history es)))

kept-append :
    (k : ℕ) (m : Message) (ms : List Message) → (if ltb k m.id then m ∷ ms else ms) ≡ kept k m ++ ms
kept-append k m ms = ground arith

-- One message more, an older one.
above-take-suc :
    (k : ℕ) (h : List Message) (r : ℕ)
    → r < length h
    → above k (take (suc r) h) ≡ kept k (get_or h r no_message) ++ above k (take r h)
unfolding above
above-take-suc k [] r p = absurd (omega arith)
above-take-suc k (m ∷ h) zero p =
    if_cases {A = List Message} (λ l. [] ++ l ≡ l ++ []) (ltb k m.id) (λ _. refl) (λ _. refl)
above-take-suc k (m ∷ h) (suc r) p =
    rw (above-take-suc k h r (omega arith))
      (append_assoc (kept k (get_or h r no_message)) (above k (take r h)) (kept k m))

same_slot :
    (c : Chat) (h : List Message) (i rounds : ℕ)
    → Holds c h
    → i + suc rounds ≡ c.count
    → add_size c.start i % max_messages ≡ (c.start + (c.count - 1 - rounds)) % max_messages
same_slot c h i rounds v e = omega (arith, v.start_lt, v.count_le)

slot_at :
    (c : Chat) (h : List Message) (i rounds : ℕ)
    → Holds c h
    → i + suc rounds ≡ c.count
    → get_or c.messages (add_size c.start i % max_messages) no_message ≡ get_or h rounds no_message
slot_at c h i rounds v e =
    let same = same_slot c h i rounds v e in rw same (v.newest rounds (omega arith))

listed-above :
    (c : Chat) (h : List Message) (k i rounds : ℕ)
    → Holds c h
    → i + rounds ≡ c.count
    → listed c k i rounds ≡ above k (take rounds h)
unfolding listed above
listed-above c h k i zero v e = refl
listed-above c h k i (suc rounds) v e =
    let at_i = slot_at c h i rounds v e in
    rw
      (
        at_i,
        listed-above c h k (i + 1) rounds v (omega arith),
        above-take-suc k h rounds (omega (arith, v.counted)),
      )
      (kept-append k (get_or h rounds no_message) (above k (take rounds h)))

full_count :
    (c : Chat) (h : List Message)
    → Holds c h
    → ltb c.count max_messages ≡ false
    → c.count ≡ max_messages
full_count c h v full = ground (arith, v.count_le)

take_newest : (c : Chat) (h : List Message) → Holds c h → take c.count h ≡ take max_messages h
take_newest c h v = elim (Bool-cases (ltb c.count max_messages)) [
  | inl room ↦
      take_all c.count h (omega (arith, v.full (ground arith)))
      ∙ sym (take_all max_messages h (omega (arith, v.full (ground arith), v.count_le)))
  | inr full ↦ rw (full_count c h v full) refl
]

-- After any sequence of fewer than 2 ^ 64 calls of `message_append`, beginning with the zeroed
-- state, the answer to chat.list after a number holds exactly those of the 64 newest messages whose
-- number is above it, the oldest first; the messages are numbered by the calls, from 1 on.
pub messages_after-newest :
    (es : List Entry) (after_id : ℕ)
    → length es < 2 ^ 64
    → messages_after (append_all es) after_id ≡ above after_id (take max_messages (history es))
unfolding messages_after
messages_after-newest es after_id small =
    let v = append_all-Holds es small in
    listed-above (append_all es) (history es) after_id 0 (append_all es).count v (omega arith)
    ∙ ap (above after_id) (take_newest (append_all es) (history es) v)
