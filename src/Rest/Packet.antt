-- ===== src/Rest/Packet.antt =====
-- `pack_request`, `unpack_request`, `pack_response` and `unpack_response` of
-- core/app-framework/app-native-shared/restful_utils.c, on a little-endian machine, where `htons`
-- and `htonl` reverse the bytes of a number. A size is below 2 ^ 31; what a NULL payload is packed
-- from is the empty list.
pub mod RoundTrip
pub mod Reply
pub mod Bounds
use wasm_trustzone.Base.{
  ℕ, zero, suc, ◌+◌, ◌-◌, ◌*◌, ◌/◌, ◌%◌, ◌^◌, Bool, true, false, not, List, [], ◌∷◌, ◌++◌, Option,
  none, some, ltb, ◌==◌, if◌then◌else◌, length, get_elem?, get_or, drop,
}
use wasm_trustzone.Aerogel.CString.{until}

-- A string field holds the bytes before its NUL.
pub record Request : Type 0 where
  pub action : ℕ
  pub fmt : ℕ
  pub mid : ℕ
  pub sender : ℕ
  pub url : List ℕ
  pub payload : List ℕ

pub record Response : Type 0 where
  pub status : ℕ
  pub fmt : ℕ
  pub mid : ℕ
  pub reciever : ℕ
  pub payload : List ℕ

-- What a parser does with a packet; `outside` is a read behind its last byte.
pub data Unpacked {ℓ} (A : Type ℓ) : Type ℓ where
  unpacked : A → Unpacked A
  refused : Unpacked A
  outside : Unpacked A

-- The bytes of `htons(n)` and `htonl(n)` in memory.
unfoldable pub word : ℕ → List ℕ → List ℕ
word n rest = n / 256 % 256 ∷ n % 256 ∷ rest

unfoldable pub dword : ℕ → List ℕ → List ℕ
dword n rest = n / 16777216 % 256 ∷ n / 65536 % 256 ∷ n / 256 % 256 ∷ n % 256 ∷ rest

-- `ntohs` and `ntohl` of the number at an offset.
unfoldable pub word_at : List ℕ → ℕ → ℕ
word_at packet at = get_or packet at 0 * 256 + get_or packet (at + 1) 0

unfoldable pub dword_at : List ℕ → ℕ → ℕ
dword_at packet at =
    get_or packet at 0 * 16777216
    + get_or packet (at + 1) 0 * 65536
    + get_or packet (at + 2) 0 * 256
    + get_or packet (at + 3) 0

-- `allocated` says whether `WA_MALLOC` finds room. The number of bytes is the packet's length.
pub pack_request : Bool → Request → Option (List ℕ)
pack_request allocated request =
    let url_len = length request.url + 1 in
    if allocated
    then some (
        1
        ∷ request.action % 256
        ∷ word request.fmt (
            dword request.mid (
              dword request.sender (
                word (url_len % 65536)
                  (dword (length request.payload) (request.url ++ 0 ∷ request.payload))))))
    else none

-- Behind the two checks of the header: the lengths are read from the bytes 12 to 17, which a shorter
-- packet does not have.
unfoldable pub unpack_fields : List ℕ → Unpacked Request
unpack_fields packet =
    let url_len = word_at packet 12 in
    let payload_len = dword_at packet 14 in
    if ltb (length packet) 18
    then outside
    else if not (length packet % 2 ^ 32 == (18 + url_len + payload_len) % 2 ^ 32)
    then refused
    else elim (get_elem? packet (18 + url_len - 1)) [
      | none ↦ outside
      | some last ↦
          if not (last == 0)
          then refused
          else unpacked (record {
            action = get_or packet 1 0;
            fmt = word_at packet 2;
            mid = dword_at packet 4;
            sender = dword_at packet 8;
            url = until 0 (drop 18 packet);
            payload = if payload_len == 0 then [] else drop (18 + url_len) packet;
          })
    ]

unfoldable pub unpack_request : List ℕ → Unpacked Request
unpack_request [] = outside
unpack_request (version ∷ rest) =
    if not (version == 1)
    then refused
    else if ltb (length (version ∷ rest)) 18
    then refused
    else unpack_fields (version ∷ rest)

pub pack_response : Bool → Response → Option (List ℕ)
pack_response allocated response =
    if allocated
    then some (
        1
        ∷ response.status % 256
        ∷ word response.fmt (
            dword response.mid
              (dword response.reciever (dword (length response.payload) response.payload))))
    else none

pub unpack_response_fields : List ℕ → Unpacked Response
unpack_response_fields packet =
    let payload_len = dword_at packet 12 in
    if ltb (length packet) 16
    then outside
    else if not (length packet % 2 ^ 32 == (16 + payload_len) % 2 ^ 32)
    then refused
    else unpacked (record {
      status = get_or packet 1 0;
      fmt = word_at packet 2;
      mid = dword_at packet 4;
      reciever = dword_at packet 8;
      payload = if payload_len == 0 then [] else drop 16 packet;
    })

pub unpack_response : List ℕ → Unpacked Response
unpack_response [] = outside
unpack_response (version ∷ rest) =
    if not (version == 1)
    then refused
    else if ltb (length (version ∷ rest)) 16
    then refused
    else unpack_response_fields (version ∷ rest)
