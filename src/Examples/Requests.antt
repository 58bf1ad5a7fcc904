-- ===== src/Examples/Requests.antt =====
-- httpDownload.c at concrete inputs: a chunked reply, and a redirect.
use service_payment_bridge.Prelude.{
  ℕ, zero, suc, ◌+◌, ◌≡◌, refl, true, Option, some, List, [], ◌∷◌, ◌++◌, Bytes, codes, arith,
  str_eq, if◌then◌else◌,
}
use service_payment_bridge.Http.Chunked.{read_chunks, chunked_total}
use service_payment_bridge.Http.Chunked.Print.{
  Piece, print_chunks, writes_of, size_sum, read_chunks-print,
}
use service_payment_bridge.Http.Payload.{Device, Received, bytes, timed_out, Receives}
use service_payment_bridge.Http.Ranges.{World}
use service_payment_bridge.Http.Request.{Peer, get, request}
use service_payment_bridge.Http.Request.Sockets.{Leaks, request-Leaks}

abbrev scan : Bytes → Option ℕ
scan s = if str_eq s (codes "3") then some 3 else some 0

abbrev silent : Device
silent = record { recv = λ i max. timed_out }

abbrev pieces : List Piece
pieces =
    record { line = codes "3"; content = codes "abc" }
    ∷ record { line = codes "3"; content = codes "def" }
    ∷ []

read_chunks-print_example :
    read_chunks silent scan 2048 (print_chunks pieces (codes "0") []) 0 0 7 1 3
    ≡ (writes_of (2048 + 0) pieces, chunked_total (0 + size_sum pieces))
unfolding str_eq
read_chunks-print_example =
    read_chunks-print silent scan 2048 pieces (codes "0") [] 0 0 7 1 3 (ground arith) (ground arith)
      refl (omega arith)

abbrev slow_answer : ℕ → Received
slow_answer zero = timed_out
slow_answer (suc n) = bytes (b'x' ∷ [])

abbrev slow : Device
slow = record { recv = λ i max. slow_answer max }

slow-Receives : Receives slow
slow-Receives i zero b h = cc
slow-Receives i (suc n) b h = ground arith

abbrev moved : Bytes
moved = codes "HTTP/1.1 301 Moved" ++ (13 ∷ 10 ∷ (codes "Location: http://b/" ++ (13 ∷ 10 ∷ [])))

-- The first connection answers with a redirect, the others not at all.
abbrev moving : ℕ → Device
moving zero = record { recv = λ i max. bytes moved }
moving (suc k) = silent

abbrev peer : Peer
peer = record { connects = λ k. true; sends = λ k. true; device = moving }

request-Leaks_example : Leaks (request peer scan 0 get 0 (some 2047) 9 5 (codes "http://a/f"))
request-Leaks_example = request-Leaks peer scan 0 get 0 (some 2047) 9 5 (codes "http://a/f")

abbrev world : World
world = record { peer = λ i. peer; scan = scan; old = λ i. 0 }
