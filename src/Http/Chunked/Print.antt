-- ===== src/Http/Chunked/Print.antt =====
-- httpDownload.c: chunks that a server sends are saved one after the other.
use service_payment_bridge.Prelude.{
  take-append, drop-append, ℕ, zero, suc, ◌+◌, ◌-◌, ◌<◌, ◌≡◌, ◌≢◌, refl, false, Option, some, List,
  [], ◌∷◌, ◌++◌, Bytes, length, length-append, ltb, min, ◌==◌, arith, Bool-cases, inl, inr,
}
use service_payment_bridge.Http.Payload.{
  Device, Receives, Received, bytes, timed_out, broken, Writes, receive_buf_size,
}
use service_payment_bridge.Http.Reply.Print.{Plain, find-crlf, drop_line}
use service_payment_bridge.Http.Chunked.{
  read_chunk, ends_line, behind_chunk, read_sized, read_turn, read_chunks, chunk_read,
  chunk_waiting, behind, chunked_total, last_chunk, next_chunk,
}

-- A chunk as a server sends it: the line with its size, and its data.
pub record Piece : Type 0 where
  pub line : Bytes
  pub content : Bytes

abbrev pub print_chunks : List Piece → Bytes → Bytes → Bytes
print_chunks [] last rest = last ++ 13 ∷ 10 ∷ rest
print_chunks (c ∷ cs) last rest =
    c.line ++ 13 ∷ 10 ∷ (c.content ++ 13 ∷ 10 ∷ print_chunks cs last rest)

-- Each line gives the size of its data, which is not empty.
abbrev pub ArePieces : (Bytes → Option ℕ) → List Piece → Type 0
ArePieces scan [] = Unit
ArePieces scan (c ∷ cs) =
    Plain c.line
    × (scan c.line ≡ some (length c.content))
    × (0 < length c.content)
    × ArePieces scan cs

-- The data one after the other, from an offset in the file on.
abbrev pub writes_of : ℕ → List Piece → Writes
writes_of at [] = []
writes_of at (c ∷ cs) = (at, c.content) ∷ writes_of (at + length c.content) cs

abbrev pub size_sum : List Piece → ℕ
size_sum [] = 0
size_sum (c ∷ cs) = length c.content + size_sum cs

read_chunk_there :
    (d : Device) (at i fuel : ℕ) (s t : Bytes)
    → 0 < fuel
    → read_chunk d at (length s) i (s ++ t) fuel ≡ ((at, s) ∷ [], chunk_read t (length s) i)
unfolding read_chunk
read_chunk_there d at i zero s t h = absurd (omega arith)
read_chunk_there d at i (suc fuel) s t h =
    let whole : ltb (length (s ++ t)) (length s) ≡ false = (ground (arith, length-append s t)) in
    rw (whole, take-append s t, drop-append s t, read_chunk) refl

read_chunk_ends :
    (d : Device) (at total i : ℕ) (p : Bytes) (fuel : ℕ) (x : Received)
    → Receives d
    → d.recv i (min (total - length p) (receive_buf_size - 1)) ≡ x
    → ((r : Bytes)
        → x ≡ bytes r
        → (read_chunk d (at + length p) (total - length p) (suc i) r fuel).1 ≢ chunk_waiting)
    → (read_chunk d at total i p (suc fuel)).1 ≢ chunk_waiting
unfolding read_chunk
read_chunk_ends d at total i p fuel timed_out v e h = rw (e, read_chunk) (λ w. ground (arith, w))
read_chunk_ends d at total i p fuel broken v e h = rw (e, read_chunk) (λ w. ground (arith, w))
read_chunk_ends d at total i p fuel (bytes r) v e h =
    let next = h r refl in
    elim (Bool-cases (ltb (length p) total)) [
      | inl t ↦ rw (t, read_chunk) (rw e next)
      | inr f ↦ rw (f, read_chunk) (λ w. ground (arith, w))
    ]

-- Of receives that return between one byte and the bytes asked for, one for each missing byte and one
-- more are enough to end the loop that reads the data of a chunk.
read_chunk-ne-chunk_waiting :
    (d : Device) (at total i : ℕ) (p : Bytes) (fuel : ℕ)
    → Receives d
    → total - length p < fuel
    → (read_chunk d at total i p fuel).1 ≢ chunk_waiting
unfolding read_chunk
read_chunk-ne-chunk_waiting d at total i p zero v h = absurd (omega arith)
read_chunk-ne-chunk_waiting d at total i p (suc fuel) v h =
    elim (Bool-cases (ltb (length p) total)) [
      | inl t ↦
          read_chunk_ends d at total i p fuel
            (d.recv i (min (total - length p) (receive_buf_size - 1))) v refl
            (λ r e.
              read_chunk-ne-chunk_waiting d (at + length p) (total - length p) (suc i) r fuel v
                (ground (arith, v i (min (total - length p) (receive_buf_size - 1)) r e, t)))
      | inr f ↦ rw (f, read_chunk) (λ w. ground (arith, w))
    ]

behind_chunk_there : (d : Device) (t : Bytes) (i : ℕ) → behind_chunk d (13 ∷ 10 ∷ t) i ≡ behind t i
unfolding behind_chunk ends_line
behind_chunk_there d t i = ground arith

read_sized_there :
    (d : Device) (at i : ℕ) (s q : Bytes)
    → 0 < length s
    → read_sized d at (length s) i (s ++ 13 ∷ 10 ∷ q)
      ≡ ((at, s) ∷ [], next_chunk q (length s) (length s) i)
unfolding read_sized
read_sized_there d at i s q k =
    let some_size : (length s == 0) ≡ false = (ground arith) in
    rw
      (
        some_size,
        read_chunk_there d at i (suc (length s)) s (13 ∷ 10 ∷ q) (omega arith),
        behind_chunk_there d q i,
        read_sized,
      )
      refl

read_turn_there :
    (d : Device) (scan : Bytes → Option ℕ) (at : ℕ) (c : Piece) (q : Bytes) (old i : ℕ)
    → Plain c.line
    → scan c.line ≡ some (length c.content)
    → 0 < length c.content
    → read_turn d scan at (c.line ++ 13 ∷ 10 ∷ (c.content ++ 13 ∷ 10 ∷ q)) old i
      ≡ ((at, c.content) ∷ [], next_chunk q (length c.content) (length c.content) i)
unfolding read_turn
read_turn_there d scan at c q old i h e k =
    let behind_line = c.content ++ 13 ∷ 10 ∷ q in
    rw (find-crlf c.line behind_line h, read_turn)
      (rw (take-append c.line (13 ∷ 10 ∷ behind_line), e, drop_line c.line 13 10 behind_line)
        (read_sized_there d at i c.content q k))

read_turn_last :
    (d : Device) (scan : Bytes → Option ℕ) (at : ℕ) (l rest : Bytes) (old i : ℕ)
    → Plain l
    → scan l ≡ some 0
    → read_turn d scan at (l ++ 13 ∷ 10 ∷ rest) old i ≡ ([], last_chunk)
unfolding read_turn read_sized
read_turn_last d scan at l rest old i h e =
    rw (find-crlf l rest h, read_turn) (rw (take-append l (13 ∷ 10 ∷ rest), e) refl)

-- Chunks that are in the buffer whole, each a line without carriage return and NUL that is read as
-- the size of its data, which is not empty, up to a line that is read as 0: their data is saved one
-- after the other from `start + offset` on, the result grows by the sum of their sizes, whatever
-- follows the last line, and no receive is made. Fuel for one turn more than the chunks is enough.
pub read_chunks-print :
    (d : Device) (scan : Bytes → Option ℕ) (start : ℕ) (cs : List Piece) (last rest : Bytes)
    (offset sum old i fuel : ℕ)
    → ArePieces scan cs
    → Plain last
    → scan last ≡ some 0
    → length cs < fuel
    → read_chunks d scan start (print_chunks cs last rest) offset sum old i fuel
      ≡ (writes_of (start + offset) cs, chunked_total (sum + size_sum cs))
unfolding read_chunks
read_chunks-print d scan start cs last rest offset sum old i zero h l z k = absurd (omega arith)
read_chunks-print d scan start [] last rest offset sum old i (suc fuel) h l z k =
    let same : sum + 0 ≡ sum = (omega arith) in
    rw (same, read_turn_last d scan (start + offset) last rest old i l z, read_chunks) refl
read_chunks-print d scan start (c ∷ cs) last rest offset sum old i (suc fuel) h l z k =
    let n = length c.content in
    let q = print_chunks cs last rest in
    let at : start + (offset + n) ≡ start + offset + n = (omega arith) in
    let total : sum + n + size_sum cs ≡ sum + (n + size_sum cs) = (omega arith) in
    let turn = read_turn_there d scan (start + offset) c q old i h.0 h.1 h.2 in
    let later =
      read_chunks-print d scan start cs last rest (offset + n) (sum + n) n i fuel h.3 l z
        (omega arith) in
    rw (turn, read_chunks) (rw (later, at, total) (rw turn refl))
