-- ===== src/Host.antt =====
-- The link between the host and the app manager: core/app-mgr/app-manager/app_manager_host.c, on a
-- little-endian machine. Both directions carry messages of two leading bytes, a type, a size and a
-- payload. Logging and the lock of the sender are left out.
pub mod Framing
pub mod Requests
mod Tests
use wasm_trustzone.Base.{
  ℕ, zero, suc, ◌+◌, ◌-◌, ◌*◌, ◌/◌, ◌%◌, ◌^◌, Bool, true, false, not, List, [], ◌∷◌, ◌++◌, Option,
  none, some, ltb, ◌==◌, if◌then◌else◌, length, set, replicate, bit_or,
}
use wasm_trustzone.Rest.Packet.{
  Request, Unpacked, unpacked, refused, outside, word, dword, unpack_request,
}

pub data Phase : Type 0 where
  phase_non_start phase_leading phase_type phase_size phase_payload : Phase

abbrev pub request_packet : ℕ
request_packet = 2

abbrev pub install_wasm_app : ℕ
install_wasm_app = 4

-- -3 as an `unsigned long` of a target with 32 bits.
abbrev pub id_host : ℕ
id_host = 4294967293

-- `recv_context_t`; `payload` is `none` for NULL.
pub record RecvContext : Type 0 where
  pub phase : Phase
  pub message_type : ℕ
  pub payload_size : ℕ
  pub payload : Option (List ℕ)
  pub size_in_phase : ℕ

-- `memset(&recv_ctx, 0, sizeof(recv_ctx))`.
abbrev pub idle : RecvContext
idle = record {
  phase = phase_non_start;
  message_type = 0;
  payload_size = 0;
  payload = none;
  size_in_phase = 0;
}

-- The allocator, and `module_on_install` of the WASM app module: the byte, the size of the message
-- and the module's own state go in; its verdict, `received_size` and its state come out. A fresh
-- buffer is taken to hold zeros: no byte of it is read before it is written.
pub record Env (S : Type 0) : Type 0 where
  pub malloc : ℕ → Bool
  pub module_on_install : Option (ℕ → ℕ → S → (Bool × ℕ) × S)

-- The byte `p[i] = ch` of a `uint32`, and `ntohl`.
pub store_byte : ℕ → ℕ → ℕ → ℕ
store_byte n i ch = n - n / 256 ^ i % 256 * 256 ^ i + ch * 256 ^ i

pub ntohl : ℕ → ℕ
ntohl n = n % 256 * 16777216 + n / 256 % 256 * 65536 + n / 65536 % 256 * 256 + n / 16777216 % 256

pub ntohs : ℕ → ℕ
ntohs n = n % 256 * 256 + n / 256 % 256

-- Phase_Type.
pub type_byte : ℕ → RecvContext → RecvContext
type_byte ch c =
    if c.size_in_phase == 0 then record c { message_type = ch; size_in_phase = 1 } else record c {
      message_type = ntohs (bit_or c.message_type (ch * 256));
      phase = phase_size;
      size_in_phase = 0;
    }

-- The message's size is complete; the result is 1 (`true`) for a message without payload.
pub size_complete : (ℕ → Bool) → RecvContext → Bool × RecvContext
size_complete malloc c =
    let size = ntohl c.payload_size in
    let sized = record c { payload_size = size; phase = phase_payload; payload = none } in
    if size == 0
    then (true, record sized { phase = phase_non_start })
    else if ltb (1024 * 1024) size
    then (false, record sized { phase = phase_non_start })
    else if c.message_type == install_wasm_app
    then (false, record sized { size_in_phase = 0 })
    else if malloc size
    then (false, record sized { payload = some (replicate size 0); size_in_phase = 0 })
    else (false, record sized { phase = phase_non_start })

-- Phase_Size.
pub size_byte : (ℕ → Bool) → ℕ → RecvContext → Bool × RecvContext
size_byte malloc ch c =
    let stored = record c {
      payload_size = store_byte c.payload_size c.size_in_phase ch;
      size_in_phase = c.size_in_phase + 1;
    } in
    if stored.size_in_phase == 4 then size_complete malloc stored else (false, stored)

-- Phase_Payload of a message that is kept in the buffer.
pub buffer_byte : ℕ → RecvContext → Bool × RecvContext
buffer_byte ch c =
    let stored = record c {
      payload = elim c.payload [ none ↦ none | some buf ↦ some (set buf c.size_in_phase ch) ];
      size_in_phase = c.size_in_phase + 1;
    } in
    if stored.size_in_phase == c.payload_size
    then (true, record stored { phase = phase_non_start })
    else (false, stored)

-- The instance's `module_on_install` says whether the message goes on.
pub installed : (Bool × ℕ) → RecvContext → Bool × RecvContext
installed (false, received_size) c =
    (false, record c { phase = phase_non_start; size_in_phase = 0 })
installed (true, received_size) c =
    if received_size == c.payload_size
    then (true, record c { phase = phase_non_start; size_in_phase = c.size_in_phase + 1 })
    else (false, record c { size_in_phase = c.size_in_phase + 1 })

module _ {S : Type 0} (env : Env S) where
  -- Phase_Payload of an installation.
  pub install_byte : ℕ → RecvContext → S → (Bool × RecvContext) × S
  install_byte ch c s = elim env.module_on_install [
    | none ↦ ((false, record c { phase = phase_non_start; size_in_phase = 0 }), s)
    | some on_install ↦
        let verdict = on_install ch c.payload_size s in (installed verdict.0 c, verdict.1)
  ]

  in_phase : Phase → ℕ → RecvContext → S → (Bool × RecvContext) × S
  in_phase phase_non_start ch c s =
      let cleared = record c { payload_size = 0; payload = none } in
      ((false, if ch == 0x12 then record cleared { phase = phase_leading } else cleared), s)
  in_phase phase_leading ch c s =
      ((false, record c { phase = if ch == 0x34 then phase_type else phase_non_start }), s)
  in_phase phase_type ch c s = ((false, type_byte ch c), s)
  in_phase phase_size ch c s = (size_byte env.malloc ch c, s)
  in_phase phase_payload ch c s =
      if c.message_type == install_wasm_app then install_byte ch c s else (buffer_byte ch c, s)

  -- `true` for the result 1.
  pub on_imrt_link_byte_arrive : ℕ → RecvContext → S → (Bool × RecvContext) × S
  on_imrt_link_byte_arrive ch c s = in_phase c.phase ch c s

-- What the callback hands on.
pub data Event : Type 0 where
  dispatched : Request → Event
  unexpected : ℕ → Event
  over_read : Event

-- The events, the last one first.
pub record Host (S : Type 0) : Type 0 where
  pub recv_ctx : RecvContext
  pub installer : S
  pub events : List Event

-- The body of `if (ret == 1)`: a request that is refused is followed by `continue`.
pub finish_request : Unpacked Request → RecvContext → List Event → RecvContext × List Event
finish_request refused c es = (c, es)
finish_request outside c es = (c, over_read ∷ es)
finish_request (unpacked request) c es =
    (idle, dispatched (record request { sender = id_host }) ∷ es)

pub finish : RecvContext → List Event → RecvContext × List Event
finish c es = elim c.payload [
  | none ↦ (idle, es)
  | some payload ↦
      if c.message_type == request_packet
      then finish_request (unpack_request payload) c es
      else (idle, unexpected c.message_type ∷ es)
]

module _ {S : Type 0} (env : Env S) where
  pub host_byte : ℕ → Host S → Host S
  host_byte ch h =
      let arrived = on_imrt_link_byte_arrive env ch h.recv_ctx h.installer in
      let done = finish arrived.0.1 h.events in
      if arrived.0.0
      then record { recv_ctx = done.0; installer = arrived.1; events = done.1 }
      else record { recv_ctx = arrived.0.1; installer = arrived.1; events = h.events }

  -- Of a message of fewer than 2 ^ 16 bytes, or of such messages one after the other.
  pub aee_host_msg_callback : List ℕ → Host S → Host S
  aee_host_msg_callback [] h = h
  aee_host_msg_callback (ch ∷ msg) h = aee_host_msg_callback msg (host_byte ch h)

-- `host_commu.send` gives the number of bytes that it sends; what is returned comes with the buffers
-- given to it.
pub app_manager_host_send_msg : Option (List ℕ → ℕ) → ℕ → List ℕ → ℕ × List (List ℕ)
app_manager_host_send_msg none msg_type buf = (0, [])
app_manager_host_send_msg (some send) msg_type buf =
    let header = 0x12 ∷ 0x34 ∷ word msg_type (dword (length buf) []) in
    if send header == 8 then (send buf, header ∷ buf ∷ []) else (0, header ∷ [])
