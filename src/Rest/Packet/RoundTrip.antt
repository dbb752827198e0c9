-- ===== src/Rest/Packet/RoundTrip.antt =====
-- What a packet carries comes out as it went in.
use wasm_trustzone.Base.{
  ℕ, suc, ◌+◌, ◌-◌, ◌%◌, ◌^◌, ◌<◌, ◌≡◌, refl, ap, ◌∙◌, true, false, List, [], ◌∷◌, ◌++◌, some,
  arith, ltb, ◌==◌, ==_self, if◌then◌else◌, length, length-append, get_elem?, get_or, drop,
}
use wasm_trustzone.Aerogel.CString.{until}
use wasm_trustzone.Aerogel.Name.{NoNul}
use mathlib.Core.Option.{map}
use wasm_trustzone.Rest.Packet.{
  Request, unpacked, word, dword, word_at, dword_at, pack_request, unpack_fields, unpack_request,
}

-- The fields fit the widths of the packet, and the url is a string.
pub record IsRequest (r : Request) : Type 0 where
  pub action_byte : r.action < 256
  pub fmt_word : r.fmt < 65536
  pub mid_dword : r.mid < 2 ^ 32
  pub sender_dword : r.sender < 2 ^ 32
  pub url_string : NoNul r.url
  pub url_word : length r.url + 1 < 65536
  pub size_int : 18 + (length r.url + 1) + length r.payload < 2 ^ 31

until-string : (url rest : List ℕ) → NoNul url → until 0 (url ++ 0 ∷ rest) ≡ url
unfolding until NoNul
until-string [] rest h = refl
until-string (c ∷ url) rest (h, hs) = ground (arith, until-string url rest hs)

get_elem?-append_length : (xs ys : List ℕ) (y : ℕ) → get_elem? (xs ++ y ∷ ys) (length xs) ≡ some y
get_elem?-append_length [] ys y = refl
get_elem?-append_length (x ∷ xs) ys y = get_elem?-append_length xs ys y

drop-append_suc : (xs ys : List ℕ) (y : ℕ) → drop (suc (length xs)) (xs ++ y ∷ ys) ≡ ys
drop-append_suc [] ys y = refl
drop-append_suc (x ∷ xs) ys y = drop-append_suc xs ys y

pub payload_lem : (payload : List ℕ) → (if length payload == 0 then [] else payload) ≡ payload
payload_lem [] = refl
payload_lem (x ∷ xs) = ground arith

abbrev over_header : ℕ → ℕ
over_header n = suc (
    suc (
      suc (
        suc (suc (suc (suc (suc (suc (suc (suc (suc (suc (suc (suc (suc (suc (suc n)))))))))))))))))

over_header_lem : (n : ℕ) → 18 + n ≡ over_header n
over_header_lem n = omega arith

module _ (r : Request) (h : IsRequest r) where
  tail : List ℕ
  tail = r.url ++ 0 ∷ r.payload

  pub packet : List ℕ
  packet =
      1
      ∷ r.action % 256
      ∷ word r.fmt (
          dword r.mid
            (dword r.sender (word ((length r.url + 1) % 65536) (dword (length r.payload) tail))))

  packet-url_len : word_at packet 12 ≡ length r.url + 1
  unfolding packet word dword word_at
  packet-url_len = omega (arith, h.url_word)

  packet-payload_len : dword_at packet 14 ≡ length r.payload
  unfolding packet word dword dword_at
  packet-payload_len = omega (arith, h.size_int)

  pub packet-length : length packet ≡ 18 + (length r.url + 1) + length r.payload
  unfolding packet word dword tail
  packet-length = omega (arith, length-append r.url (0 ∷ r.payload))

  packet-last : get_elem? packet (18 + (length r.url + 1) - 1) ≡ some 0
  unfolding packet word dword tail
  packet-last =
      let at : 18 + (length r.url + 1) - 1 ≡ over_header (length r.url) = omega arith in
      ap (get_elem? packet) at ∙ get_elem?-append_length r.url r.payload 0

  packet-payload : drop (18 + (length r.url + 1)) packet ≡ r.payload
  unfolding packet word dword tail
  packet-payload =
      let at : 18 + (length r.url + 1) ≡ over_header (suc (length r.url)) = omega arith in
      ap (λ n. drop n packet) at ∙ drop-append_suc r.url r.payload 0

  packet-url : until 0 (drop 18 packet) ≡ r.url
  unfolding packet word dword tail
  packet-url = until-string r.url r.payload h.url_string

  packet-header :
      (get_or packet 1 0 ≡ r.action)
      × (word_at packet 2 ≡ r.fmt)
      × (dword_at packet 4 ≡ r.mid)
      × (dword_at packet 8 ≡ r.sender)
  unfolding packet word dword word_at dword_at
  packet-header = (
    omega (arith, h.action_byte),
    omega (arith, h.fmt_word),
    omega (arith, h.mid_dword),
    omega (arith, h.sender_dword),
  )

  packet-fields : unpack_fields packet ≡ unpacked r
  unfolding unpack_fields
  packet-fields =
      let (action, fmt, mid, sender) = packet-header in
      let long : ltb (length packet) 18 ≡ false = ground (arith, packet-length) in
      rw
        (
          long,
          packet-url_len,
          packet-payload_len,
          packet-last,
          packet-length,
          ==_self ((18 + (length r.url + 1) + length r.payload) % 2 ^ 32),
          action,
          fmt,
          mid,
          sender,
          packet-url,
          packet-url_len,
          packet-payload_len,
          packet-payload,
          payload_lem r.payload,
        )
        refl

  pub pack_request-packet : pack_request true r ≡ some packet
  unfolding pack_request packet tail
  pack_request-packet = refl

  pub unpack_request-packet : unpack_request packet ≡ unpacked r
  unfolding unpack_request packet tail
  unpack_request-packet =
      let long : ltb (length packet) 18 ≡ false = ground (arith, packet-length) in
      rw (long, packet-fields) refl

  -- A request whose fields fit the packet and whose url is a string comes back when it is packed, with
  -- memory for it, and unpacked: its action, format, numbers, url and payload.
  pub unpack_request-pack_request : map unpack_request (pack_request true r) ≡ some (unpacked r)
  unpack_request-pack_request = rw pack_request-packet (ap some unpack_request-packet)
