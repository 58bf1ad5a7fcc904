-- ===== src/Tms/Packet/Fragments.antt =====
-- tms_tms.c, Tms_RecvPacket: a reply that arrives in fragments.
use service_payment_bridge.Prelude.{
  ℕ, zero, suc, ◌+◌, ◌<◌, ◌≤◌, ◌≡◌, refl, ap, ◌∙◌, false, List, [], ◌∷◌, ◌++◌, append_assoc,
  append-nil, Bytes, pos, cstr, length, length-append, ltb, ◌==◌, arith, Bool-cases, inl, inr,
}
use service_payment_bridge.Http.Payload.{Device, bytes}
use service_payment_bridge.Http.Reply.{room}
use service_payment_bridge.Tms.Packet.{framed, get_content_len, Packet, packet, judged, recv_packet}
use service_payment_bridge.Tms.Packet.Head.{Head, body_length, inside_head, behind_head}

-- The fragments that the receives from the i-th on give, after the bytes `b`.
abbrev pub Brings : Device → ℕ → Bytes → List Bytes → Type 0
Brings d i b [] = Unit
Brings d i b (f ∷ fs) =
    (0 < length f) × (d.recv i (room b) ≡ bytes f) × Brings d (suc i) (b ++ f) fs

abbrev pub join : List Bytes → Bytes
join [] = []
join (f ∷ fs) = f ++ join fs

-- One receive.
recv_packet_takes :
    (d : Device) (b f : Bytes) (i fuel : ℕ)
    → 0 < length f
    → d.recv i (room b) ≡ bytes f
    → recv_packet d b i (suc fuel)
      ≡ judged
          (b ++ f)
          (suc i)
          (get_content_len (cstr (b ++ f)))
          (recv_packet d (b ++ f) (suc i) fuel)
unfolding recv_packet
recv_packet_takes d b f i fuel h e =
    let some_bytes : (length f == 0) ≡ false = ground (arith, h) in
    rw (e, recv_packet, some_bytes) refl

judged_short :
    (b : Bytes) (i t : ℕ) (more : Packet) → length b < t → judged b i (framed (pos t)) more ≡ more
unfolding judged
judged_short b i t more h = ground arith

judged_whole :
    (b : Bytes) (i t : ℕ) (more : Packet)
    → length b ≡ t
    → judged b i (framed (pos t)) more ≡ packet b i
unfolding judged
judged_whole b i t more h = ground arith

-- A part of the message lets the loop go on.
goes_on :
    {head : Bytes} (h : Head head) (p rest body : Bytes) (i : ℕ) (more : Packet)
    → p ++ rest ≡ head ++ body
    → length p < length head + length body
    → body_length h ≡ pos (length body)
    → judged p i (get_content_len (cstr p)) more ≡ more
unfolding judged
goes_on {head} h p rest body i more e k l = elim (Bool-cases (ltb (length p) (length head))) [
  | inl early ↦ rw (inside_head h p rest body e (ground (arith, early))) refl
  | inr late ↦
      rw (behind_head h p rest body e (ground (arith, late)) l)
        (judged_short p i (h.end + 4 + length body) more (omega (arith, h.whole)))
]

recv_packet_rest :
    {head : Bytes} (h : Head head) (body b : Bytes) (d : Device) (i fuel : ℕ) (fs : List Bytes)
    → Brings d i b fs
    → b ++ join fs ≡ head ++ body
    → length b < length head + length body
    → body_length h ≡ pos (length body)
    → length fs ≤ fuel
    → recv_packet d b i fuel ≡ packet (head ++ body) (i + length fs)
recv_packet_rest {head} h body b d i fuel [] v e k l n =
    absurd (omega (arith, ap length e, length-append b [], length-append head body))
recv_packet_rest {head} h body b d i zero (f ∷ fs) v e k l n = absurd (omega arith)
recv_packet_rest {head} h body b d i (suc fuel) (f ∷ []) v e k l n =
    let all : b ++ f ≡ head ++ body = rw (append-nil f) at e in
    let size : length (b ++ f) ≡ h.end + 4 + length body =
      omega (arith, ap length all, length-append head body, h.whole) in
    let framing =
      behind_head h (b ++ f) [] body (append-nil (b ++ f) ∙ all) (omega (arith, size, h.whole)) l in
    rw
      (
        recv_packet_takes d b f i fuel v.0 v.1,
        framing,
        judged_whole (b ++ f) (suc i) (h.end + 4 + length body)
            (recv_packet d (b ++ f) (suc i) fuel) size,
        all,
      )
      (ap (λ j. packet (head ++ body) j) (omega arith))
recv_packet_rest {head} h body b d i (suc fuel) (f ∷ g ∷ fs) v e k l n =
    let regroup : (b ++ f) ++ join (g ∷ fs) ≡ head ++ body = append_assoc b f (join (g ∷ fs)) ∙ e in
    let more : length (b ++ f) < length head + length body = omega (
      arith,
      ap length regroup,
      length-append (b ++ f) (join (g ∷ fs)),
      length-append g (join fs),
      length-append head body,
      v.2.0,
    ) in
    let rest =
      recv_packet_rest h body (b ++ f) d (suc i) fuel (g ∷ fs) v.2 regroup more l (omega arith) in
    recv_packet_takes d b f i fuel v.0 v.1
    ∙ (goes_on h (b ++ f) (join (g ∷ fs)) body (suc i) (recv_packet d (b ++ f) (suc i) fuel) regroup
          more l
        ∙ (rest ∙ ap (λ j. packet (head ++ body) j) (omega arith)))

-- A reply that arrives in fragments of at least one byte each, cut anywhere, is received whole, after
-- as many receives as it has fragments, on fuel for as many: its head has no NUL, ends with its first
-- blank line, and its first "Content-Length:" stands on a line of its own with a value of at most 15
-- bytes that reads as the length of the body.
pub recv_packet-join :
    {head : Bytes} (h : Head head) (body : Bytes) (d : Device) (fuel : ℕ) (fs : List Bytes)
    → Brings d 0 [] fs
    → join fs ≡ head ++ body
    → body_length h ≡ pos (length body)
    → length fs ≤ fuel
    → recv_packet d [] 0 fuel ≡ packet (head ++ body) (length fs)
recv_packet-join {head} h body d fuel fs v e l n =
    recv_packet_rest h body [] d 0 fuel fs v e (omega (arith, h.whole)) l n
    ∙ ap (λ j. packet (head ++ body) j) (omega arith)
