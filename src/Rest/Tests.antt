-- ===== src/Rest/Tests.antt =====
-- Packets on concrete bytes, and the theorems there.
use wasm_trustzone.Base.{ℕ, List, [], ◌∷◌, ◌≡◌, ◌≢◌, refl, true, some, arith}
use mathlib.Core.Option.{map}
use wasm_trustzone.Aerogel.Name.{NoNul}
use wasm_trustzone.Rest.Packet.{
  Request, Response, unpacked, outside, word_at, dword_at, pack_request, unpack_request,
  unpack_fields, pack_response, unpack_response,
}
use wasm_trustzone.Rest.Packet.RoundTrip.{IsRequest, unpack_request-pack_request}
use wasm_trustzone.Rest.Packet.Reply.{IsResponse, unpack_response-pack_response}
use wasm_trustzone.Rest.Packet.Bounds.{unpack_request-inside}

abbrev get_sensor : Request
get_sensor = record {
  action = 1;
  fmt = 3;
  mid = 70000;
  sender = 4294967295;
  url = b'/' ∷ b's' ∷ [];
  payload = 7 ∷ 0 ∷ 9 ∷ [];
}

get_sensor-IsRequest : IsRequest get_sensor
unfolding NoNul
get_sensor-IsRequest = record {
  action_byte = omega arith;
  fmt_word = omega arith;
  mid_dword = omega arith;
  sender_dword = omega arith;
  url_string = (omega arith, (omega arith, tt));
  url_word = omega arith;
  size_int = omega arith;
}

unpack_request-pack_request_example :
    map unpack_request (pack_request true get_sensor) ≡ some (unpacked get_sensor)
unpack_request-pack_request_example = unpack_request-pack_request get_sensor get_sensor-IsRequest

abbrev found : Response
found = record { status = 69; fmt = 0; mid = 258; reciever = 1; payload = 42 ∷ [] }

found-IsResponse : IsResponse found
found-IsResponse = record {
  status_byte = omega arith;
  fmt_word = omega arith;
  mid_dword = omega arith;
  reciever_dword = omega arith;
  size_int = omega arith;
}

unpack_response-pack_response_example :
    map unpack_response (pack_response true found) ≡ some (unpacked found)
unpack_response-pack_response_example = unpack_response-pack_response found found-IsResponse

abbrev header_of : List ℕ → List ℕ
header_of lengths = 1 ∷ 1 ∷ 0 ∷ 0 ∷ 0 ∷ 0 ∷ 0 ∷ 0 ∷ 0 ∷ 0 ∷ 0 ∷ 0 ∷ lengths

-- A url of one byte and a payload of 2 ^ 32 - 1 bytes add up to the 18 bytes of the header.
wrapping_lengths : unpack_request (header_of (0 ∷ 1 ∷ 255 ∷ 255 ∷ 255 ∷ 255 ∷ [])) ≡ outside
unfolding unpack_request unpack_fields word_at dword_at
wrapping_lengths = refl

abbrev short_packet : List ℕ
short_packet = header_of (0 ∷ 1 ∷ 0 ∷ 0 ∷ 0 ∷ 0 ∷ 0 ∷ [])

unpack_request-inside_example : unpack_request short_packet ≢ outside
unfolding word_at dword_at
unpack_request-inside_example =
    unpack_request-inside short_packet (omega arith) (omega arith) (omega arith)
