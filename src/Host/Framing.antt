-- ===== src/Host/Framing.antt =====
-- What the receiver makes of the bytes of one message.
use wasm_trustzone.Base.{
  ℕ, suc, ◌+◌, ◌*◌, ◌/◌, ◌%◌, ◌^◌, ◌≤◌, ◌<◌, ◌≡◌, refl, ap, sym, ◌∙◌, true, false, List, [], ◌∷◌,
  ◌++◌, none, some, arith, ltb, ◌==◌, ==_self, length, length-append, set, replicate,
}
use wasm_trustzone.Rest.Packet.{word, dword}
use wasm_trustzone.Host.{
  phase_payload, phase_size, phase_non_start, request_packet, Event, RecvContext, idle, Env, Host,
  store_byte, ntohl, ntohs, type_byte, size_complete, size_byte, buffer_byte, in_phase,
  on_imrt_link_byte_arrive, finish, host_byte, aee_host_msg_callback,
}

-- The context while the payload of a request comes in: the buffer and how much of it is written.
pub receiving : ℕ → List ℕ → ℕ → RecvContext
receiving size buf written = record {
  phase = phase_payload;
  message_type = request_packet;
  payload_size = size;
  payload = some buf;
  size_in_phase = written;
}

-- The context when the last byte is in.
unfoldable pub received : ℕ → List ℕ → RecvContext
received size buf = record {
  phase = phase_non_start;
  message_type = request_packet;
  payload_size = size;
  payload = some buf;
  size_in_phase = size;
}

set-append_length : (xs ys : List ℕ) (y c : ℕ) → set (xs ++ y ∷ ys) (length xs) c ≡ xs ++ c ∷ ys
set-append_length [] ys y c = refl
set-append_length (x ∷ xs) ys y c = ap (λ t. x ∷ t) (set-append_length xs ys y c)

append-snoc : (xs ys : List ℕ) (c : ℕ) → (xs ++ c ∷ []) ++ ys ≡ xs ++ c ∷ ys
append-snoc [] ys c = refl
append-snoc (x ∷ xs) ys c = ap (λ t. x ∷ t) (append-snoc xs ys c)

-- The four bytes of a size, stored one after the other and turned round.
stored_size :
    (n : ℕ)
    → n < 2 ^ 32
    → ntohl (
        store_byte
          (store_byte
            (store_byte (store_byte 0 0 (n / 16777216 % 256)) 1 (n / 65536 % 256))
            2
            (n / 256 % 256))
          3
          (n % 256))
      ≡ n
unfolding ntohl store_byte
stored_size n h = omega arith

module _ {S : Type 0} (env : Env S) (s : S) where
  unfoldable pub at : RecvContext → List Event → Host S
  at c es = record { recv_ctx = c; installer = s; events = es }

  unfoldable pub finished : RecvContext → List Event → Host S
  finished c es = record { recv_ctx = (finish c es).0; installer = s; events = (finish c es).1 }

  host_byte-last :
      (size written ch : ℕ) (buf : List ℕ) (es : List Event)
      → written + 1 ≡ size
      → host_byte env ch (at (receiving size buf written) es)
        ≡ finished (received size (set buf written ch)) es
  unfolding host_byte on_imrt_link_byte_arrive in_phase buffer_byte receiving received at finished
  host_byte-last size written ch buf es last = rw (last, ==_self size) refl

  host_byte-next :
      (size written ch : ℕ) (buf : List ℕ) (es : List Event)
      → written + 1 < size
      → host_byte env ch (at (receiving size buf written) es)
        ≡ at (receiving size (set buf written ch) (written + 1)) es
  unfolding host_byte on_imrt_link_byte_arrive in_phase buffer_byte receiving at
  host_byte-next size written ch buf es more = ground arith

  -- Behind the two leading bytes and the type.
  sizing : ℕ → ℕ → RecvContext
  sizing payload_size size_in_phase = record {
    phase = phase_size;
    message_type = request_packet;
    payload_size = payload_size;
    payload = none;
    size_in_phase = size_in_phase;
  }

  host_byte-store :
      (n i ch : ℕ) (es : List Event)
      → i < 3
      → host_byte env ch (at (sizing n i) es) ≡ at (sizing (store_byte n i ch) (i + 1)) es
  unfolding host_byte on_imrt_link_byte_arrive in_phase size_byte sizing at
  host_byte-store n i ch es h = ground arith

  host_byte-sized :
      (n ch size : ℕ) (es : List Event)
      → ntohl (store_byte n 3 ch) ≡ size
      → 0 < size
      → size ≤ 1024 * 1024
      → env.malloc size ≡ true
      → host_byte env ch (at (sizing n 3) es) ≡ at (receiving size (replicate size 0) 0) es
  unfolding host_byte on_imrt_link_byte_arrive in_phase size_byte sizing at size_complete receiving
  host_byte-sized n ch size es e some_bytes small room =
      let positive : (size == 0) ≡ false = ground arith in
      let bounded : ltb (1024 * 1024) size ≡ false = ground arith in
      rw (e, positive, bounded, room) refl

  host_header :
      (size : ℕ) (rest : List ℕ) (es : List Event)
      → 0 < size
      → size ≤ 1024 * 1024
      → env.malloc size ≡ true
      → aee_host_msg_callback env (0x12 ∷ 0x34 ∷ word request_packet (dword size rest)) (at idle es)
        ≡ aee_host_msg_callback env rest (at (receiving size (replicate size 0) 0) es)
  unfolding aee_host_msg_callback host_byte on_imrt_link_byte_arrive in_phase type_byte ntohs word
      dword at sizing
  host_header size rest es some_bytes small room =
      let b0 = size / 16777216 % 256 in
      let b1 = size / 65536 % 256 in
      let b2 = size / 256 % 256 in
      let n1 = store_byte 0 0 b0 in
      let n2 = store_byte n1 1 b1 in
      let n3 = store_byte n2 2 b2 in
      let sized =
        host_byte-sized n3 (size % 256) size es (stored_size size (omega arith)) some_bytes small
          room in
      ap (aee_host_msg_callback env (b1 ∷ b2 ∷ size % 256 ∷ rest))
        (host_byte-store 0 0 b0 es (omega arith))
      ∙ ap (aee_host_msg_callback env (b2 ∷ size % 256 ∷ rest))
          (host_byte-store n1 1 b1 es (omega arith))
      ∙ ap (aee_host_msg_callback env (size % 256 ∷ rest))
          (host_byte-store n2 2 b2 es (omega arith))
      ∙ ap (aee_host_msg_callback env rest) sized

  host_payload :
      (xs : List ℕ) (b : ℕ) (bs rest : List ℕ) (es : List Event) (size : ℕ)
      → size ≡ length xs + suc (length bs)
      → aee_host_msg_callback env
          ((b ∷ bs) ++ rest)
          (at (receiving size (xs ++ replicate (suc (length bs)) 0) (length xs)) es)
        ≡ aee_host_msg_callback env rest (finished (received size (xs ++ b ∷ bs)) es)
  unfolding aee_host_msg_callback
  host_payload xs b [] rest es size e = ap (aee_host_msg_callback env rest) (
      host_byte-last size (length xs) b (xs ++ 0 ∷ []) es (omega arith)
      ∙ ap (λ buf. finished (received size buf) es) (set-append_length xs [] 0 b))
  host_payload xs b (c ∷ bs) rest es size e =
      let zeros = replicate (suc (length bs)) 0 in
      let written : length xs + 1 ≡ length (xs ++ b ∷ []) =
        omega (arith, length-append xs (b ∷ [])) in
      let buffer : set (xs ++ 0 ∷ zeros) (length xs) b ≡ (xs ++ b ∷ []) ++ zeros =
        set-append_length xs zeros 0 b ∙ sym (append-snoc xs zeros b) in
      ap (aee_host_msg_callback env ((c ∷ bs) ++ rest)) (
        host_byte-next size (length xs) b (xs ++ 0 ∷ zeros) es (omega arith)
        ∙ ap (λ buf. at (receiving size buf (length xs + 1)) es) buffer
        ∙ ap (λ n. at (receiving size ((xs ++ b ∷ []) ++ zeros) n) es) written)
      ∙ host_payload (xs ++ b ∷ []) c bs rest es size (omega (arith, length-append xs (b ∷ [])))
      ∙ ap (λ buf. aee_host_msg_callback env rest (finished (received size buf) es))
          (append-snoc xs (c ∷ bs) b)

  -- The bytes of a whole message of this type, on an idle link.
  pub aee_host_msg_callback-message :
      (buf rest : List ℕ) (es : List Event)
      → 0 < length buf
      → length buf ≤ 1024 * 1024
      → env.malloc (length buf) ≡ true
      → aee_host_msg_callback env
          (0x12 ∷ 0x34 ∷ word request_packet (dword (length buf) (buf ++ rest)))
          (at idle es)
        ≡ aee_host_msg_callback env rest (finished (received (length buf) buf) es)
  aee_host_msg_callback-message [] rest es some_bytes small room = absurd (omega arith)
  aee_host_msg_callback-message (b ∷ bs) rest es some_bytes small room =
      host_header (length (b ∷ bs)) ((b ∷ bs) ++ rest) es some_bytes small room
      ∙ host_payload [] b bs rest es (length (b ∷ bs)) (omega arith)
