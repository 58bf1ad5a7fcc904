-- ===== src/Http/Payload.antt =====
-- httpDownload.c, __httpDownload: the payload of a reply with a Content-Length, from the end of the
-- headers on, and the trimming of a header's value.
use service_payment_bridge.Prelude.{
  ℕ, zero, suc, ◌+◌, ◌-◌, ◌≤◌, ◌<◌, ◌≡◌, ◌≢◌, refl, List, [], ◌∷◌, ◌++◌, Bytes, length,
  length-append, ltb, min, if◌then◌else◌, ◌==◌, arith,
}

abbrev pub receive_buf_size : ℕ
receive_buf_size = 2048

-- What dev_recv gives: bytes, nothing before the timeout, or a failure.
pub data Received : Type 0 where
  bytes : Bytes → Received
  timed_out broken : Received

-- The device: the answer to the i-th receive, for at most `max` bytes.
pub record Device : Type 0 where
  pub recv : ℕ → ℕ → Received

-- A receive returns between one byte and the bytes asked for.
abbrev pub Receives : Device → Type 0
Receives d = (i max : ℕ) (b : Bytes) → d.recv i max ≡ bytes b → (0 < length b) × (length b ≤ max)

-- The calls of dev_savefile, in order: the offset in the file and the bytes.
abbrev pub Writes : Type 0
Writes = List (ℕ × Bytes)

pub data Ended : Type 0 where
  receive_error out_of_fuel : Ended
  whole : ℕ → Ended

-- "while (offset < total)", from the i-th receive on.
unfoldable pub receive_rest : Device → ℕ → ℕ → ℕ → ℕ → ℕ → Writes × Ended
receive_rest d start total i offset zero =
    ([], if ltb offset total then out_of_fuel else whole total)
receive_rest d start total i offset (suc fuel) =
    let asked = min (total - offset) receive_buf_size in
    elim (d.recv i asked) [
      | timed_out ↦ if ltb offset total then ([], receive_error) else ([], whole total)
      | broken ↦ if ltb offset total then ([], receive_error) else ([], whole total)
      | bytes b ↦
          let rest : Writes × Ended = receive_rest d start total (suc i) (offset + length b) fuel in
          if ltb offset total
          then if length b == 0 then ([], receive_error) else ((start + offset, b) ∷ rest.0, rest.1)
          else ([], whole total)
    ]

-- "Save the already-received payload first", then the rest.
unfoldable pub receive_payload : Device → ℕ → ℕ → Bytes → ℕ → Writes × Ended
receive_payload d start total [] fuel = receive_rest d start total 0 0 fuel
receive_payload d start total (c ∷ cs) fuel =
    let rest = receive_rest d start total 0 (length (c ∷ cs)) fuel in
    ((start, c ∷ cs) ∷ rest.0, rest.1)

-- Writes that follow one another without a gap, from one offset to another.
abbrev pub Tiles : ℕ → Writes → ℕ → Type 0
Tiles a [] b = a ≡ b
Tiles a (w ∷ ws) b = (w.0 ≡ a) × (0 < length w.1) × Tiles (a + length w.1) ws b

-- What a run of the loop achieves.
record Rest (start total offset : ℕ) (r : Writes × Ended) : Type 0 where
  done : r.1 ≢ out_of_fuel
  tiled : (n : ℕ) → r.1 ≡ whole n → (n ≡ total) × Tiles (start + offset) r.0 (start + total)

Tiles-from : (a a' : ℕ) (ws : Writes) (b : ℕ) → a ≡ a' → Tiles a ws b → Tiles a' ws b
Tiles-from a a' ws b e t = rw e at t

Rest-cons :
    (start total offset : ℕ) (b : Bytes) (rest : Writes × Ended)
    → 0 < length b
    → Rest start total (offset + length b) rest
    → Rest start total offset ((start + offset, b) ∷ rest.0, rest.1)
Rest-cons start total offset b rest h next = record {
  done = next.done;
  tiled = λ n f.
      let t = next.tiled n f in
      (
        t.0,
        (
          refl,
          h,
          Tiles-from (start + (offset + length b)) (start + offset + length b) rest.0
              (start + total) (omega arith) t.1,
        ),
      );
}

turn_taken :
    (offset total n : ℕ) (a : Writes × Ended)
    → 0 < n
    → n ≤ total - offset
    → (if ltb offset total then if n == 0 then ([], receive_error) else a else ([], whole total))
      ≡ a
turn_taken offset total n a h k = ground arith

-- One more turn, with what the remaining fuel achieves.
receive_step :
    (d : Device) (start total i offset fuel : ℕ) (x : Received)
    → Receives d
    → offset ≤ total
    → total - offset ≤ suc fuel
    → d.recv i (min (total - offset) receive_buf_size) ≡ x
    → ((j o : ℕ)
        → o ≤ total
        → total - o ≤ fuel
        → Rest start total o (receive_rest d start total j o fuel))
    → Rest start total offset (receive_rest d start total i offset (suc fuel))
unfolding receive_rest
receive_step d start total i offset fuel timed_out v h k e ih =
    rw (e, receive_rest)
      (record { done = λ f. ground (arith, f); tiled = λ n f. ground (arith, f) })
receive_step d start total i offset fuel broken v h k e ih =
    rw (e, receive_rest)
      (record { done = λ f. ground (arith, f); tiled = λ n f. ground (arith, f) })
receive_step d start total i offset fuel (bytes b) v h k e ih =
    let size = v i (min (total - offset) receive_buf_size) b e in
    let next =
      ih (suc i) (offset + length b) (omega (arith, size.1)) (omega (arith, size.0, size.1)) in
    rw
      (
        e,
        receive_rest,
        turn_taken offset total (length b)
            (
              (start + offset, b) ∷ (receive_rest d start total (suc i) (offset + length b) fuel).0,
              (receive_rest d start total (suc i) (offset + length b) fuel).1,
            )
            size.0 (omega (arith, size.1)),
      )
      (Rest-cons start total offset b (receive_rest d start total (suc i) (offset + length b) fuel)
        size.0 next)

receive_rest-Rest :
    (d : Device) (start total i offset fuel : ℕ)
    → Receives d
    → offset ≤ total
    → total - offset ≤ fuel
    → Rest start total offset (receive_rest d start total i offset fuel)
unfolding receive_rest
receive_rest-Rest d start total i offset zero v h k = record {
  done = λ e. absurd (ground (arith, e));
  tiled = λ n e. ground (arith, e);
}
receive_rest-Rest d start total i offset (suc fuel) v h k =
    receive_step d start total i offset fuel (d.recv i (min (total - offset) receive_buf_size)) v h
      k refl (λ j o h' k'. receive_rest-Rest d start total j o fuel v h' k')

-- The bytes that the writes leave in the file.
abbrev pub contents : Writes → Bytes
contents [] = []
contents (w ∷ ws) = w.1 ++ contents ws

length-contents : (a : ℕ) (ws : Writes) (b : ℕ) → Tiles a ws b → a + length (contents ws) ≡ b
length-contents a [] b t = omega arith
length-contents a (w ∷ ws) b t =
    omega (arith, length-append w.1 (contents ws), length-contents (a + length w.1) ws b t.2)

whole_file :
    (start total : ℕ) (ws : Writes) (n : ℕ)
    → (n ≡ total) × Tiles start ws (start + total)
    → (n ≡ total) × Tiles start ws (start + total) × (length (contents ws) ≡ total)
whole_file start total ws n (e, t) =
    (e, t, omega (arith, length-contents start ws (start + total) t))

-- What an end of the download says of the writes.
abbrev pub Delivered : ℕ → ℕ → Writes → Ended → Type 0
Delivered start total ws (whole n) =
    (n ≡ total) × Tiles start ws (start + total) × (length (contents ws) ≡ total)
Delivered start total ws receive_error = Unit
Delivered start total ws out_of_fuel = ⊥

delivered :
    (start total : ℕ) (ws : Writes) (e : Ended)
    → e ≢ out_of_fuel
    → ((n : ℕ) → e ≡ whole n → (n ≡ total) × Tiles start ws (start + total))
    → Delivered start total ws e
delivered start total ws receive_error d t = tt
delivered start total ws out_of_fuel d t = d refl
delivered start total ws (whole n) d t = whole_file start total ws n (t n refl)

-- With at most `total` bytes behind the headers and receives that return between one byte and what
-- they are asked for, fuel for the missing bytes is enough. A run that ends without a receive error
-- ends with `total`, and its writes follow one another without a gap from `start` on and make up
-- `total` bytes.
pub receive_payload-Tiles :
    (d : Device) (start total : ℕ) (arrived : Bytes) (fuel : ℕ)
    → Receives d
    → length arrived ≤ total
    → total - length arrived ≤ fuel
    → Delivered start total
        (receive_payload d start total arrived fuel).0
        (receive_payload d start total arrived fuel).1
unfolding receive_payload
receive_payload-Tiles d start total [] fuel v h k =
    let r = receive_rest-Rest d start total 0 0 fuel v h k in
    delivered start total _ _ r.done (λ n e.
      let (f, t) = r.tiled n e in
      (f, Tiles-from (start + 0) start _ (start + total) (omega arith) t))
receive_payload-Tiles d start total (c ∷ cs) fuel v h k =
    let r = receive_rest-Rest d start total 0 (suc (length cs)) fuel v h k in
    delivered start total ((receive_payload d start total (c ∷ cs) fuel).0) _ r.done
      (λ n e. let (f, t) = r.tiled n e in (f, (refl, omega arith, t)))

-- trim: no space (32) at either end of a header's name or value.
unfoldable pub skip_spaces : Bytes → Bytes
skip_spaces [] = []
skip_spaces (c ∷ s) = if c == 32 then skip_spaces s else c ∷ s

unfoldable pub cut_spaces : Bytes → Bytes
cut_spaces [] = []
cut_spaces (c ∷ s) =
    let rest = cut_spaces s in if length rest == 0 then if c == 32 then [] else c ∷ [] else c ∷ rest

unfoldable pub trim : Bytes → Bytes
trim s = cut_spaces (skip_spaces s)
