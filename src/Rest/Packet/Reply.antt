-- ===== src/Rest/Packet/Reply.antt =====
-- What a response packet carries comes out as it went in.
use wasm_trustzone.Base.{
  ℕ, ◌+◌, ◌%◌, ◌^◌, ◌<◌, ◌≡◌, refl, true, false, List, ◌∷◌, some, arith, ltb, length, get_or, drop,
  ==_self,
}
use mathlib.Core.Option.{map}
use wasm_trustzone.Rest.Packet.{
  Response, unpacked, word, dword, word_at, dword_at, pack_response, unpack_response_fields,
  unpack_response,
}
use wasm_trustzone.Rest.Packet.RoundTrip.{payload_lem}

pub record IsResponse (r : Response) : Type 0 where
  pub status_byte : r.status < 256
  pub fmt_word : r.fmt < 65536
  pub mid_dword : r.mid < 2 ^ 32
  pub reciever_dword : r.reciever < 2 ^ 32
  pub size_int : 16 + length r.payload < 2 ^ 31

module _ (r : Response) (h : IsResponse r) where
  packet : List ℕ
  packet =
      1
      ∷ r.status % 256
      ∷ word r.fmt (dword r.mid (dword r.reciever (dword (length r.payload) r.payload)))

  packet-payload_len : dword_at packet 12 ≡ length r.payload
  unfolding packet word dword dword_at
  packet-payload_len = omega (arith, h.size_int)

  packet-length : length packet ≡ 16 + length r.payload
  unfolding packet word dword
  packet-length = omega arith

  packet-payload : drop 16 packet ≡ r.payload
  unfolding packet word dword
  packet-payload = refl

  packet-header :
      (get_or packet 1 0 ≡ r.status)
      × (word_at packet 2 ≡ r.fmt)
      × (dword_at packet 4 ≡ r.mid)
      × (dword_at packet 8 ≡ r.reciever)
  unfolding packet word dword word_at dword_at
  packet-header = (
    omega (arith, h.status_byte),
    omega (arith, h.fmt_word),
    omega (arith, h.mid_dword),
    omega (arith, h.reciever_dword),
  )

  packet-fields : unpack_response_fields packet ≡ unpacked r
  unfolding unpack_response_fields
  packet-fields =
      let (status, fmt, mid, reciever) = packet-header in
      let long : ltb (length packet) 16 ≡ false = ground (arith, packet-length) in
      rw
        (
          long,
          packet-payload_len,
          packet-length,
          ==_self ((16 + length r.payload) % 2 ^ 32),
          status,
          fmt,
          mid,
          reciever,
          packet-payload,
          payload_lem r.payload,
        )
        refl

  -- A response whose fields fit the packet comes back when it is packed, with memory for it, and
  -- unpacked: its status, format, numbers and payload.
  pub unpack_response-pack_response : map unpack_response (pack_response true r) ≡ some (unpacked r)
  unfolding pack_response unpack_response packet
  unpack_response-pack_response =
      let long : ltb (length packet) 16 ≡ false = ground (arith, packet-length) in
      rw (long, packet-fields) refl
