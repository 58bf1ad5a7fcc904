-- ===== src/Tms/Request.antt =====
-- tms_tms.c, Tms_CreatePacket: the signature of a message and the packet. cJSON's printing, MD5 and the
-- platform's conversions are parameters.
use service_payment_bridge.Prelude.{
  ℕ, zero, suc, ◌+◌, ◌*◌, ◌/◌, ◌%◌, Option, none, some, [], ◌∷◌, ◌++◌, Bytes, codes, length, take,
  replicate, ltb, leb, if◌then◌else◌,
}
use service_payment_bridge.Qris.Amount.{decimal}
use service_payment_bridge.Tms.Reply.{Session}
use service_payment_bridge.Tms.Trade.{File}
use service_payment_bridge.Tms.Members.{Fields, Device, Mode, url_path, members}

-- `^` on the lowest `n` bits.
unfoldable pub xor_bits : ℕ → ℕ → ℕ → ℕ
xor_bits zero a b = 0
xor_bits (suc n) a b = (a % 2 + b % 2) % 2 + 2 * xor_bits n (a / 2) (b / 2)

unfoldable pub xor_bytes : Bytes → Bytes → Bytes
unfolding xor_bits
xor_bytes [] t = []
xor_bytes (a ∷ s) [] = []
xor_bytes (a ∷ s) (b ∷ t) = xor_bits 8 a b ∷ xor_bytes s t

-- A text in a buffer of blanks, its first 50 bytes.
unfoldable pub padded : Bytes → Bytes
padded s = take 50 (s ++ replicate 50 0x20)

abbrev pub key : Bytes
key = codes "998876511QQQWWeerASDHGJKL"

-- What is hashed behind the message: the serial number, the time and the key, mixed.
unfoldable pub mixed : Bytes → Bytes → Bytes
unfolding padded xor_bytes
mixed sn now = xor_bytes (xor_bytes (padded sn) (padded now)) (padded key)

-- cJSON_PrintUnformatted, BcdToAsc_Api with the number of digits, _tms_MDString.
pub record Library : Type 0 where
  pub print : Fields → Bytes
  pub bcd_to_asc : Bytes → ℕ → Bytes
  pub md_string : Bytes → Bytes

-- The signature of a message; md5src[1024] overruns with more than 923 bytes.
unfoldable pub sign : Library → Bytes → Bytes → Bytes → Option Bytes
unfolding mixed
sign l body sn now =
    if ltb 923 (length body)
    then none
    else some (l.bcd_to_asc (l.md_string (body ++ l.bcd_to_asc (mixed sn now) 100)) 32)

unfoldable pub header_lines : Bytes → Bytes → ℕ → Bytes → Bytes
unfolding decimal
header_lines signature now len host =
    codes "sign: "
    ++ (signature
        ++ (codes "\r\ntimestamp: "
            ++ (now
                ++ (codes "\r\nContent-Length: "
                    ++ (decimal len
                        ++ (codes "\r\nContent-Type: application/json;charset=UTF-8\r\n"
                            ++ (codes "Host: "
                                ++ (host
                                    ++ (codes "\r\nConnection: Keep-Alive\r\n"
                                        ++ (codes
                                              "User-Agent: Apache-HttpClient/4.3.5 (java 1.5)\r\n"
                                            ++ codes
                                                "Accept-Encoding: gzip,deflate\r\n\r\n"))))))))))

-- Tms_CreatePacket: the time is asked for twice. `none` is an overrun, of md5src or of the SENDPACKLEN
-- bytes of the packet.
unfoldable pub create_packet :
    Library → Bytes → Session → Device → File → Mode → Bytes → Bytes → Option Bytes
unfolding members sign header_lines
create_packet l host s d f m now later =
    let body : Bytes = l.print (members s d f m now) in
    elim (sign l body s.sn later) [
      | none ↦ none
      | some signature ↦
          let packet : Bytes =
            url_path s.kind
            ++ (codes " HTTP/1.1\r\n"
                ++ (header_lines signature later (length body) host ++ body)) in
          if leb 1500 (length packet) then none else some packet
    ]
