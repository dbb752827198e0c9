-- ===== src/Host/Requests.antt =====
-- From the sender to the dispatcher: requests that are packed, framed and sent one after the other.
use mathlib.Core.List.{append-nil}
use wasm_trustzone.Base.{
  ℕ, ◌+◌, ◌*◌, ◌≤◌, ◌≡◌, refl, ap, ◌∙◌, true, List, [], ◌∷◌, ◌++◌, none, some, arith, length,
}
use wasm_trustzone.Rest.Packet.{Request, unpacked, word, dword, pack_request, unpack_request}
use wasm_trustzone.Rest.Packet.RoundTrip.{
  IsRequest, packet, packet-length, pack_request-packet, unpack_request-packet,
}
use wasm_trustzone.Host.{
  Env, Event, dispatched, idle, id_host, request_packet, finish, finish_request,
  aee_host_msg_callback, app_manager_host_send_msg,
}
use wasm_trustzone.Host.Framing.{at, received, finished, aee_host_msg_callback-message}

-- Buffers sent one after the other.
abbrev wire : List (List ℕ) → List ℕ
wire [] = []
wire (b ∷ bs) = b ++ wire bs

-- The bytes on the link for requests, each packed and sent whole.
unfoldable pub sent : List Request → List ℕ
sent [] = []
sent (r ∷ rs) =
    elim (pack_request true r) [
      | none ↦ []
      | some buf ↦ wire (app_manager_host_send_msg (some length) request_packet buf).1
    ]
    ++ sent rs

-- The requests that go to the dispatcher, the last one first.
unfoldable pub dispatch_all : List Request → List Event → List Event
dispatch_all [] es = es
dispatch_all (r ∷ rs) es = dispatch_all rs (dispatched (record r { sender = id_host }) ∷ es)

-- Requests that fit the packet and the largest message of the link.
unfoldable pub AllRequests : List Request → Type 0
AllRequests [] = Unit
AllRequests (r ∷ rs) =
    (IsRequest r × (18 + (length r.url + 1) + length r.payload ≤ 1024 * 1024)) × AllRequests rs

module _ {S : Type 0} (env : Env S) (s : S)
    (room : (n : ℕ) → n ≤ 1024 * 1024 → env.malloc n ≡ true) where
  finished-request :
      (buf : List ℕ) (r : Request) (es : List Event) (size : ℕ)
      → unpack_request buf ≡ unpacked r
      → finished env s (received size buf) es
        ≡ at env s idle (dispatched (record r { sender = id_host }) ∷ es)
  unfolding finished received finish finish_request at
  finished-request buf r es size e = rw e refl

  sent-one :
      (buf rest : List ℕ)
      → wire (app_manager_host_send_msg (some length) request_packet buf).1 ++ rest
        ≡ 0x12 ∷ 0x34 ∷ word request_packet (dword (length buf) (buf ++ rest))
  unfolding app_manager_host_send_msg word dword
  sent-one buf rest =
      ap (λ b. 0x12 ∷ 0x34 ∷ word request_packet (dword (length buf) (b ++ rest))) (append-nil buf)

  sent-cons :
      (r : Request) (rs : List Request) (h : IsRequest r)
      → sent (r ∷ rs)
        ≡ 0x12 ∷ 0x34 ∷ word request_packet (dword (length (packet r h)) (packet r h ++ sent rs))
  unfolding sent
  sent-cons r rs h = rw (pack_request-packet r h) (sent-one (packet r h) (sent rs))

  -- Requests that fit the packet and a megabyte, packed and sent whole one after the other over an idle
  -- link, to a receiver that has memory for them, are dispatched in their order, each one as it was
  -- packed but with the host as the sender, and the link is idle again.
  pub aee_host_msg_callback-sent :
      (rs : List Request) (es : List Event)
      → AllRequests rs
      → aee_host_msg_callback env (sent rs) (at env s idle es) ≡ at env s idle (dispatch_all rs es)
  unfolding sent dispatch_all AllRequests aee_host_msg_callback
  aee_host_msg_callback-sent [] es h = refl
  aee_host_msg_callback-sent (r ∷ rs) es ((is_request, fits), hs) =
      let buf = packet r is_request in
      let size = packet-length r is_request in
      ap (λ b. aee_host_msg_callback env b (at env s idle es)) (sent-cons r rs is_request)
      ∙ aee_host_msg_callback-message env s buf (sent rs) es (omega (arith, size))
          (omega (arith, size)) (room (length buf) (omega (arith, size)))
      ∙ ap (aee_host_msg_callback env (sent rs))
          (finished-request buf r es (length buf) (unpack_request-packet r is_request))
      ∙ aee_host_msg_callback-sent rs (dispatched (record r { sender = id_host }) ∷ es) hs
