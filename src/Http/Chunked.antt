-- ===== src/Http/Chunked.antt =====
-- httpDownload.c, __httpDownload: the payload of a reply with "Transfer-Encoding: chunked". The size of
-- a chunk, below 2^31, is what sscanf("%x") reads of its line, which is a parameter (`none`: no number).
pub mod Print
use service_payment_bridge.Prelude.{
  ℕ, zero, suc, ◌+◌, ◌-◌, ◌<◌, ◌≡◌, ◌≢◌, refl, false, ◌&&◌, Option, none, some, List, [], ◌∷◌, ◌++◌,
  Bytes, cstr, length, length-append, take, drop, get_or, ltb, min, ◌==◌, if◌then◌else◌, arith,
  find, Bool-cases, inl, inr,
}
use service_payment_bridge.Http.Payload.{
  Device, Receives, Received, bytes, timed_out, broken, Writes, receive_buf_size,
}
use service_payment_bridge.Http.Reply.{crlf, room}

-- The data of one chunk: what is left in the buffer behind it, the last value of `total` and the
-- receives so far.
pub data Chunk : Type 0 where
  chunk_read : Bytes → ℕ → ℕ → Chunk
  chunk_broken chunk_waiting : Chunk

-- "while (length < total)", and the save behind it, at `at` in the file.
unfoldable pub read_chunk : Device → ℕ → ℕ → ℕ → Bytes → ℕ → Writes × Chunk
read_chunk d at total i p zero = ([], chunk_waiting)
read_chunk d at total i p (suc fuel) =
    let left = total - length p in
    if ltb (length p) total
    then elim (d.recv i (min left (receive_buf_size - 1))) [
      | timed_out ↦ ((at, p) ∷ [], chunk_broken)
      | broken ↦ ((at, p) ∷ [], chunk_broken)
      | bytes r ↦
          let (ws, c) = read_chunk d (at + length p) left (suc i) r fuel in ((at, p) ∷ ws, c)
    ]
    else ((at, take total p) ∷ [], chunk_read (drop total p) total i)

-- The end of line behind a chunk's data: one more receive if it is not there.
pub data Behind : Type 0 where
  behind : Bytes → ℕ → Behind
  not_behind : Behind

unfoldable pub ends_line : Bytes → ℕ → Behind
ends_line p i =
    if (get_or p 0 0 == 13) && (get_or p 1 0 == 10) then behind (drop 2 p) i else not_behind

unfoldable pub behind_chunk : Device → Bytes → ℕ → Behind
behind_chunk d p i =
    if ltb (length p) 2
    then elim (d.recv i (room p)) [
      | timed_out ↦ not_behind
      | broken ↦ not_behind
      | bytes r ↦ ends_line (p ++ r) (suc i)
    ]
    else ends_line p i

pub data Chunked : Type 0 where
  chunked_total : ℕ → Chunked
  chunked_error chunked_waiting : Chunked

abbrev size_of : Option ℕ → ℕ → ℕ
size_of none old = old
size_of (some n) old = n

-- A turn of the loop over the chunks: more of a line is received, the last chunk is met, or a chunk is
-- read, with its size, the value that `total` is left with, and the receives so far.
pub data Turn : Type 0 where
  more_received : Bytes → ℕ → Turn
  last_chunk : Turn
  next_chunk : Bytes → ℕ → ℕ → ℕ → Turn
  turn_broken turn_waiting : Turn

-- From the size on: the data and the end of line behind it.
unfoldable pub read_sized : Device → ℕ → ℕ → ℕ → Bytes → Writes × Turn
read_sized d at total i p =
    let (ws, chunk) = read_chunk d at total i p (suc total) in
    if total == 0 then ([], last_chunk) else (
      ws,
      elim chunk [
        | chunk_broken ↦ turn_broken
        | chunk_waiting ↦ turn_waiting
        | chunk_read rest left j ↦ elim (behind_chunk d rest j) [
          | not_behind ↦ turn_broken
          | behind q k ↦ next_chunk q total left k
        ]
      ],
    )

unfoldable pub read_turn : Device → (Bytes → Option ℕ) → ℕ → Bytes → ℕ → ℕ → Writes × Turn
read_turn d scan at p old i = elim (find crlf (cstr p)) [
  | none ↦ elim (d.recv i (room p)) [
    | timed_out ↦ ([], turn_broken)
    | broken ↦ ([], turn_broken)
    | bytes r ↦ ([], more_received (p ++ r) (suc i))
  ]
  | some n ↦ read_sized d at (size_of (scan (take n p)) old) i (drop (suc (suc n)) p)
]

-- The loop: `offset` bytes are saved, `sum` is chunked_total, `old` is `total`.
unfoldable pub read_chunks :
    Device → (Bytes → Option ℕ) → ℕ → Bytes → ℕ → ℕ → ℕ → ℕ → ℕ → Writes × Chunked
read_chunks d scan start p offset sum old i zero = ([], chunked_waiting)
read_chunks d scan start p offset sum old i (suc fuel) =
    let (ws, turn) = read_turn d scan (start + offset) p old i in
    elim turn [
      | more_received q k ↦ read_chunks d scan start q offset sum old k fuel
      | last_chunk ↦ ([], chunked_total sum)
      | turn_broken ↦ (ws, chunked_error)
      | turn_waiting ↦ (ws, chunked_waiting)
      | next_chunk q total left k ↦
          let (more, c) = read_chunks d scan start q (offset + total) (sum + total) left k fuel in
          (ws ++ more, c)
    ]
