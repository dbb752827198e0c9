-- ===== src/Utils/Queue/Order.antt =====
-- A queue hands its messages out in the order in which they were posted, and holds no more of them
-- than its maximum.
use wasm_trustzone.Base.{
  ℕ, ◌≤◌, ◌≡◌, refl, ap, sym, subst, Bool, true, false, List, [], ◌∷◌, ◌++◌, none, some, arith, leb,
  ltb, ◌==◌, if◌then◌else◌, Bool-cases, inl, inr, length, length-append,
}
use wasm_trustzone.Utils.Queue.{
  Message, Queue, Posted, drop_msg, bh_post_msg2, Taken, pop_head, take_msg, bh_get_msg,
}

unfoldable pub IsQueue : Queue → Type 0
IsQueue q = (q.cnt ≡ length q.messages) × (q.cnt ≤ q.max)

-- A post puts the message at the end, and is refused exactly where the queue is full.
unfoldable pub IsPost : Queue → Message → Posted → Type 0
IsPost q msg p =
    (p.result ≡ ltb (length q.messages) q.max)
    × ((p.queue.messages ≡ (if p.result then q.messages ++ msg ∷ [] else q.messages))
        × IsQueue p.queue)

no_messages : (messages : List Message) → length messages ≡ 0 → messages ≡ []
no_messages [] h = refl
no_messages (m ∷ messages) h = absurd (omega arith)

bh_post_msg2-IsPost : (q : Queue) (msg : Message) → IsQueue q → IsPost q msg (bh_post_msg2 q msg)
unfolding bh_post_msg2 IsPost IsQueue drop_msg
bh_post_msg2-IsPost q msg (cnt, most) = elim (Bool-cases (leb q.max q.cnt)) [
  | inl full ↦
      let refused : ltb (length q.messages) q.max ≡ false = ground (arith, full, cnt) in
      rw (full, refused) (refl, (refl, (cnt, most)))
  | inr room ↦
      let put : ltb (length q.messages) q.max ≡ true = ground (arith, room, cnt) in
      elim (Bool-cases (q.cnt == 0)) [
        | inl empty ↦
            let nothing = no_messages q.messages (ground (arith, empty, cnt)) in
            rw (room, put, empty)
              (refl, (ap (λ l. l ++ msg ∷ []) (sym nothing), (refl, ground (arith, room, empty))))
        | inr more ↦
            let len = length-append q.messages (msg ∷ []) in
            rw (room, put, more) (refl, (refl, (omega (arith, len, cnt), ground (arith, room))))
      ]
]

-- A take gives the head and leaves the rest, and nothing exactly where there is none.
unfoldable pub IsTake : Queue → Taken → Type 0
IsTake q t = elim q.messages [
  | [] ↦ (t.msg ≡ none) × IsQueue t.queue
  | msg ∷ messages ↦ (t.msg ≡ some msg) × ((t.queue.messages ≡ messages) × IsQueue t.queue)
]

take_msg-IsTake :
    (messages : List Message) (cnt max drops : ℕ) (exit_loop_run : Bool)
    → cnt ≡ length messages
    → cnt ≤ max
    → IsTake
        (record {
          messages = messages;
          cnt = cnt;
          max = max;
          drops = drops;
          exit_loop_run = exit_loop_run;
        })
        (take_msg (record {
          messages = messages;
          cnt = cnt;
          max = max;
          drops = drops;
          exit_loop_run = exit_loop_run;
        }))
unfolding take_msg pop_head IsTake IsQueue
take_msg-IsTake [] cnt max drops exit_loop_run h k =
    let none_left : (cnt == 0) ≡ true = ground (arith, h) in rw none_left (refl, (h, k))
take_msg-IsTake (msg ∷ messages) cnt max drops exit_loop_run h k =
    let some_left : (cnt == 0) ≡ false = ground (arith, h) in
    elim (Bool-cases (cnt == 1)) [
      | inl last ↦
          let one : cnt ≡ 1 = ground (arith, last) in
          rw (some_left, last) (refl, (refl, (omega arith, omega arith)))
      | inr more ↦ rw (some_left, more) (refl, (refl, (omega arith, omega arith)))
    ]

take_msg-empty : (q : Queue) → (q.cnt == 0) ≡ true → take_msg q ≡ record { queue = q; msg = none }
unfolding take_msg
take_msg-empty q e = rw e refl

bh_get_msg-take_msg : (q : Queue) (wait : Queue → Queue) → take_msg q ≡ bh_get_msg wait q 0
unfolding bh_get_msg
bh_get_msg-take_msg q wait = elim (Bool-cases (q.cnt == 0)) [
  | inl empty ↦ rw empty (take_msg-empty q empty)
  | inr some_left ↦ rw some_left refl
]

-- A queue that holds as many messages as it counts, and no more than its maximum, takes a post at its
-- end exactly where it is not full, gives its head to a caller that does not wait, and stays such a
-- queue.
pub bh_get_msg-bh_post_msg2 :
    (q : Queue) (msg : Message) (wait : Queue → Queue)
    → IsQueue q
    → IsPost q msg (bh_post_msg2 q msg) × IsTake q (bh_get_msg wait q 0)
unfolding IsQueue
bh_get_msg-bh_post_msg2 q msg wait (cnt, most) =
    let taken = take_msg-IsTake q.messages q.cnt q.max q.drops q.exit_loop_run cnt most in
    (bh_post_msg2-IsPost q msg (cnt, most), subst (IsTake q) (bh_get_msg-take_msg q wait) taken)
