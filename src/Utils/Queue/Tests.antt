-- ===== src/Utils/Queue/Tests.antt =====
-- A new queue, and one with a message.
use wasm_trustzone.Base.{◌≡◌, refl, true, false, [], ◌∷◌, arith}
use wasm_trustzone.Utils.Queue.{
  Message, Queue, bh_queue_create, bh_post_msg, bh_post_msg2, bh_get_msg,
}
use wasm_trustzone.Utils.Queue.Order.{IsQueue, IsPost, IsTake, bh_get_msg-bh_post_msg2}

abbrev first : Message
first = record { tag = 1; len = 0; body = 10 }

abbrev second : Message
second = record { tag = 2; len = 0; body = 20 }

abbrev one_message : Queue
one_message = record { messages = first ∷ []; cnt = 1; max = 50; drops = 0; exit_loop_run = false }

first_posted : (bh_post_msg true bh_queue_create 1 10 0).queue ≡ one_message
unfolding bh_post_msg bh_post_msg2 bh_queue_create
first_posted = refl

one_message-IsQueue : IsQueue one_message
unfolding IsQueue
one_message-IsQueue = (refl, omega arith)

bh_get_msg-bh_post_msg2_example :
    IsPost one_message second (bh_post_msg2 one_message second)
    × IsTake one_message (bh_get_msg (λ q. q) one_message 0)
bh_get_msg-bh_post_msg2_example =
    bh_get_msg-bh_post_msg2 one_message second (λ q. q) one_message-IsQueue
