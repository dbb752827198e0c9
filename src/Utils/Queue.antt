-- ===== src/Utils/Queue.antt =====
-- core/shared/utils/bh_queue.c: the bounded queues of messages between the threads. The nodes are the
-- list of their messages, the first of them the head; the lock has no state here, and what other
-- threads do while a thread waits is an argument. The function that cleans a message up is left out.
pub mod Order
mod Tests
use wasm_trustzone.Base.{
  ℕ, ◌+◌, ◌-◌, ◌%◌, ◌^◌, Bool, true, false, List, [], ◌∷◌, ◌++◌, Option, none, some, leb, ◌==◌,
  if◌then◌else◌,
}

pub record Message : Type 0 where
  pub tag : ℕ
  pub len : ℕ
  pub body : ℕ

pub record Queue : Type 0 where
  pub messages : List Message
  pub cnt : ℕ
  pub max : ℕ
  pub drops : ℕ
  pub exit_loop_run : Bool

-- `DEFAULT_QUEUE_LENGTH` of core/config.h.
abbrev pub default_queue_length : ℕ
default_queue_length = 50

unfoldable pub bh_queue_create : Queue
bh_queue_create = record {
  messages = [];
  cnt = 0;
  max = default_queue_length;
  drops = 0;
  exit_loop_run = false;
}

pub record Posted : Type 0 where
  pub queue : Queue
  pub result : Bool

unfoldable pub drop_msg : Queue → Posted
drop_msg q = record { queue = record q { drops = (q.drops + 1) % 2 ^ 32 }; result = false }

unfoldable pub bh_post_msg2 : Queue → Message → Posted
bh_post_msg2 q msg =
    if leb q.max q.cnt
    then drop_msg q
    else if q.cnt == 0
    then record { queue = record q { messages = msg ∷ []; cnt = 1 }; result = true }
    else record {
      queue = record q { messages = q.messages ++ msg ∷ []; cnt = q.cnt + 1 };
      result = true;
    }

-- `allocated` says whether there is room for the node.
unfoldable pub bh_post_msg : Bool → Queue → ℕ → ℕ → ℕ → Posted
bh_post_msg allocated q tag body len =
    if allocated then bh_post_msg2 q (record { tag = tag; len = len; body = body }) else drop_msg q

pub record Taken : Type 0 where
  pub queue : Queue
  pub msg : Option Message

-- The head, and the queue behind it.
unfoldable pub pop_head : Queue → ℕ → List Message → Taken
pop_head q cnt [] = record { queue = q; msg = none }
pop_head q cnt (msg ∷ messages) = record {
  queue = record q { messages = messages; cnt = cnt };
  msg = some msg;
}

unfoldable pub take_msg : Queue → Taken
take_msg q =
    if q.cnt == 0
    then record { queue = q; msg = none }
    else if q.cnt == 1
    then pop_head q 0 q.messages
    else pop_head q (q.cnt - 1) q.messages

unfoldable pub bh_get_msg : (Queue → Queue) → Queue → ℕ → Taken
bh_get_msg wait q timeout =
    if q.cnt == 0
    then (if timeout == 0 then record { queue = q; msg = none } else take_msg (wait q))
    else take_msg q

unfoldable pub bh_queue_exit_loop_run : Queue → Queue
bh_queue_exit_loop_run q = record q { exit_loop_run = true }
