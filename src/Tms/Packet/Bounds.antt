-- ===== src/Tms/Packet/Bounds.antt =====
-- tms_tms.c, Tms_RecvPacket: the receives come to an end, within the buffer.
use service_payment_bridge.Prelude.{
  ℕ, zero, suc, ◌+◌, ◌<◌, ◌≤◌, ◌≡◌, refl, [], ◌++◌, Bytes, pos, negsuc, cstr, length, length-append,
  arith, Bool-cases, inl, inr, ltb, ◌==◌, false,
}
use service_payment_bridge.Http.Payload.{Device, Receives, Received, bytes, timed_out, broken}
use service_payment_bridge.Http.Reply.{room}
use service_payment_bridge.Tms.Packet.{
  ContentLen, no_contentlen, format_wrong, tmp_overrun, framed, get_content_len, Packet, packet,
  receive_error, overrun, waiting, judged, recv_packet,
}

-- An end that leaves a whole packet inside the buffer, or no packet.
abbrev pub Fits : Packet → Type 0
Fits (packet b i) = length b < 2048
Fits receive_error = Unit
Fits overrun = Unit
Fits waiting = ⊥

judged-Fits :
    (b : Bytes) (i : ℕ) (c : ContentLen) (more : Packet)
    → length b < 2048
    → Fits more
    → Fits (judged b i c more)
unfolding judged
judged-Fits b i no_contentlen more h f = f
judged-Fits b i format_wrong more h f = f
judged-Fits b i tmp_overrun more h f = tt
judged-Fits b i (framed (negsuc t)) more h f = tt
judged-Fits b i (framed (pos t)) more h f = elim (Bool-cases (ltb t (length b))) [
  | inl e ↦ rw e tt
  | inr e ↦ elim (Bool-cases (length b == t)) [ inl g ↦ rw (e, g) h | inr g ↦ rw (e, g) f ]
]

recv_packet_turn :
    (d : Device) (b : Bytes) (i fuel : ℕ) (x : Received)
    → Receives d
    → length b < 2048
    → 2048 ≤ length b + suc fuel
    → d.recv i (room b) ≡ x
    → ((r : Bytes)
        → length (b ++ r) < 2048
        → 2048 ≤ length (b ++ r) + fuel
        → Fits (recv_packet d (b ++ r) (suc i) fuel))
    → Fits (recv_packet d b i (suc fuel))
unfolding recv_packet
recv_packet_turn d b i fuel timed_out v h k e ih = rw (e, recv_packet) tt
recv_packet_turn d b i fuel broken v h k e ih = rw (e, recv_packet) tt
recv_packet_turn d b i fuel (bytes r) v h k e ih =
    let size = v i (room b) r e in
    let long = length-append b r in
    let some_bytes : (length r == 0) ≡ false = ground (arith, size.0) in
    let fits : length (b ++ r) < 2048 = omega (arith, size.1) in
    rw (e, recv_packet, some_bytes)
      (judged-Fits (b ++ r) (suc i) (get_content_len (cstr (b ++ r)))
        (recv_packet d (b ++ r) (suc i) fuel) fits (ih r fits (omega (arith, size.0))))

recv_packet_from :
    (d : Device) (b : Bytes) (i fuel : ℕ)
    → Receives d
    → length b < 2048
    → 2048 ≤ length b + fuel
    → Fits (recv_packet d b i fuel)
recv_packet_from d b i zero v h k = absurd (omega arith)
recv_packet_from d b i (suc fuel) v h k =
    recv_packet_turn d b i fuel (d.recv i (room b)) v h k refl
      (λ r f l. recv_packet_from d (b ++ r) (suc i) fuel v f l)

-- Where each receive that succeeds gives between one byte and the bytes asked for, 2048 receives are
-- enough for the loop to end, whatever the server sends, and a packet that it returns leaves room for a
-- NUL in 2048 bytes.
pub recv_packet-Fits : (d : Device) (i : ℕ) → Receives d → Fits (recv_packet d [] i 2048)
recv_packet-Fits d i v = recv_packet_from d [] i 2048 v (omega arith) (omega arith)
