-- ===== src/Http/Ranges.antt =====
-- httpDownload.c: httpDownload, which asks for 2048 bytes at a time.
use service_payment_bridge.Prelude.{
  ℕ, zero, suc, ◌+◌, ◌-◌, Bool, false, Option, none, some, [], ◌++◌, Bytes, ℤ, pos, negsuc, is,
  is_neg, pos_part, if◌then◌else◌, ◌==◌,
}
use service_payment_bridge.Http.Request.{Method, Peer, Outcome, request}

abbrev pub receive_range : ℕ
receive_range = 2048

-- The other side in each request, sscanf, and what the memory of `chunk_size` holds in each request.
pub record World : Type 0 where
  pub peer : ℕ → Peer
  pub scan : Bytes → Option ℕ
  pub old : ℕ → ℕ

-- -416
abbrev is_beyond_file : ℤ → Bool
is_beyond_file (pos n) = false
is_beyond_file (negsuc n) = n == 415

-- The acts and writes of a request before those of the next ones.
abbrev before : Outcome → Outcome → Outcome
before o rest = (o.0 ++ rest.0, o.1 ++ rest.1, rest.2)

-- What the result of a request lets the loop do: `rest` is what the next requests would do.
unfoldable pub ranged : ℕ → Outcome → Option ℤ → Outcome → Outcome
ranged total o none rest = (o.0, o.1, none)
ranged total o (some r) rest =
    if is_beyond_file r
    then (o.0, o.1, some (pos total))
    else if is_neg r
    then (o.0, o.1, some r)
    else if is receive_range r
    then before o rest
    else (o.0, o.1, some (pos (total + pos_part r)))

abbrev progress : Option ℤ → ℕ
progress none = 0
progress (some r) = pos_part r

-- The loop of httpDownload, from the i-th request on; `fuel` and `more` are those of __httpDownload.
unfoldable pub by_range : World → Method → Bytes → ℕ → ℕ → ℕ → ℕ → ℕ → Outcome
unfolding ranged request
by_range w m url fuel more i total zero = ([], [], none)
by_range w m url fuel more i total (suc turns) =
    let o =
      request (w.peer i) w.scan (w.old i) m total (some (total + receive_range - 1)) fuel more
        url in
    let rest = by_range w m url fuel more (suc i) (total + progress o.2) turns in
    ranged total o o.2 rest

-- httpDownload
unfoldable pub http_download : World → Method → Bytes → ℕ → ℕ → ℕ → Outcome
unfolding by_range
http_download w m url fuel more turns = by_range w m url fuel more 0 0 turns
