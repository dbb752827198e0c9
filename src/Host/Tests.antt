-- ===== src/Host/Tests.antt =====
-- The link on concrete bytes, and its theorem there.
use wasm_trustzone.Base.{ℕ, [], ◌∷◌, ◌≡◌, refl, true, none, arith}
use wasm_trustzone.Rest.Packet.{Request, word, dword}
use wasm_trustzone.Rest.Packet.RoundTrip.{IsRequest}
use wasm_trustzone.Aerogel.Name.{NoNul}
use wasm_trustzone.Host.{
  Env, dispatched, idle, aee_host_msg_callback, host_byte, on_imrt_link_byte_arrive, in_phase,
  type_byte, size_byte, size_complete, store_byte, ntohl, ntohs,
}
use wasm_trustzone.Host.Framing.{at}
use wasm_trustzone.Host.Requests.{sent, dispatch_all, AllRequests, aee_host_msg_callback-sent}

abbrev env : Env ℕ
env = record { malloc = λ n. true; module_on_install = none }

abbrev ask : Request
ask = record {
  action = 1;
  fmt = 0;
  mid = 7;
  sender = 5;
  url = b'/' ∷ b'a' ∷ [];
  payload = 1 ∷ 2 ∷ [];
}

ask-IsRequest : IsRequest ask
unfolding NoNul
ask-IsRequest = record {
  action_byte = omega arith;
  fmt_word = omega arith;
  mid_dword = omega arith;
  sender_dword = omega arith;
  url_string = (omega arith, (omega arith, tt));
  url_word = omega arith;
  size_int = omega arith;
}

aee_host_msg_callback-sent_example :
    aee_host_msg_callback env (sent (ask ∷ ask ∷ [])) (at env 0 idle [])
    ≡ at env 0 idle (
        dispatched (record ask { sender = 4294967293 })
        ∷ dispatched (record ask { sender = 4294967293 })
        ∷ [])
unfolding dispatch_all AllRequests
aee_host_msg_callback-sent_example =
    aee_host_msg_callback-sent env 0 (λ n small. refl) (ask ∷ ask ∷ []) []
      ((ask-IsRequest, omega arith), ((ask-IsRequest, omega arith), tt))

-- A message of more than a megabyte is dropped at its header, but the count of the bytes of its size
-- stays: the next header's type is read from one byte, and its size from the byte after that on.
misframed :
    (aee_host_msg_callback env
      (0x12 ∷ 0x34 ∷ word 2 (dword 2000000 (0x12 ∷ 0x34 ∷ word 2 [])))
      (at env 0 idle [])).recv_ctx.payload_size
    ≡ 2
unfolding aee_host_msg_callback host_byte on_imrt_link_byte_arrive in_phase type_byte size_byte
    size_complete store_byte ntohl ntohs word dword at
misframed = refl
