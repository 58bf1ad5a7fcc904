-- ===== src/Tms/Reply/Token.antt =====
-- tms_tms.c, Tms_ResolveHTTPPacket: when the terminal's token changes.
use service_payment_bridge.Prelude.{
  ℕ, zero, suc, ◌≡◌, refl, ap, sym, true, Option, none, some, Bytes, codes, cstr, find, length,
  take, drop, str_eq, leb, if◌then◌else◌, inl, inr, Bool-cases, ◌⊎◌,
}
use service_payment_bridge.Tms.Tasks.{Json, Listed, listed, crashed, overran, unsolve_get_term_task}
use service_payment_bridge.Tms.Trade.{
  Kind, device_auth, terminfo_upload, getterm_task, urlgetfile, notify, update, location_upload,
}
use service_payment_bridge.Tms.Reply.{
  Session, Answer, status_line, http_get_tran_result, member_text, agrees, text_into, new_token,
  with_tasks, by_kind, accepted, keep_response, responded, compared, un_pack_packet, resolved,
  resolve_http_packet,
}

-- What holds of an answer, if the code gives one.
abbrev pub After : Answer → (ℕ → Session → Type 0) → Type 0
After none q = Unit
After (some (c, s)) q = q c s

module _ {Node : Type 0} (j : Json Node) where
  -- A name in the reply is absent or the terminal's.
  abbrev pub Names : Node → Bytes → Bytes → Type 0
  Names root name own =
      (o : Option Bytes) × (member_text j root name ≡ some o) × (agrees j o own ≡ true)

  new_token-kept :
      (o : Option (Option Bytes)) (s : Session) (q : ℕ → Session → Type 0)
      → ((token : Bytes) → q 0 (record s { token = token }))
      → q 0 s
      → After (new_token j o s) q
  unfolding new_token
  new_token-kept none s q h k = tt
  new_token-kept (some none) s q h k = k
  new_token-kept (some (some t)) s q h k = elim (Bool-cases (leb 21 (length t))) [
    | inl e ↦ rw e tt
    | inr e ↦ rw e (h t)
  ]

  abbrev kept_or : Session → Option Session → Bytes × Kind
  kept_or s none = (s.token, s.kind)
  kept_or s (some t) = (t.token, t.kind)

  keep_response-kept :
      (a b : Option (Option Bytes)) (s : Session)
      → kept_or s (keep_response j a b s) ≡ (s.token, s.kind)
  unfolding keep_response
  keep_response-kept none b s = refl
  keep_response-kept (some a) none s = refl
  keep_response-kept (some a) (some b) s =
      go (text_into j 16 a s.resp_code) (text_into j 32 b s.resp_msg)
    where
      go :
          (c m : Option Bytes)
          → kept_or s (elim c [
            | none ↦ none
            | some x ↦ elim m [
              | none ↦ none
              | some y ↦ some (record s { resp_code = x; resp_msg = y })
            ]
          ])
            ≡ (s.token, s.kind)
      go none m = refl
      go (some x) none = refl
      go (some x) (some y) = refl

  -- The first line is accepted, or it is kept as the message.
  abbrev Head : Session → Answer → Type 0
  Head s none = Unit
  Head s (some (zero, t)) = t ≡ s
  Head s (some (suc c, t)) = t.token ≡ s.token

  status_line-Head : (s : Session) (line : Bytes) → Head s (status_line s line)
  unfolding status_line
  status_line-Head s line = go (find (codes "200") line)
    where
      go :
          (o : Option ℕ)
          → Head s (elim o [
            | none ↦ some (2, record s { resp_msg = take 31 line })
            | some k ↦ some (0, s)
          ])
      go none = refl
      go (some k) = refl

  http_get_tran_result-Head : (s : Session) (reply : Bytes) → Head s (http_get_tran_result s reply)
  unfolding http_get_tran_result
  http_get_tran_result-Head s reply = go (find (codes "\n") reply)
    where
      go :
          (o : Option ℕ)
          → Head s (elim o [
            | none ↦ some (8, s)
            | some zero ↦ none
            | some (suc k) ↦ if leb 64 k then none else status_line s (take k reply)
          ])
      go none = refl
      go (some zero) = tt
      go (some (suc k)) = elim (Bool-cases (leb 64 k)) [
        | inl q ↦ rw q tt
        | inr q ↦ rw q (status_line-Head s (take k reply))
      ]

  module _ (From : Node → Type 0) where
    -- The token is as before, or this is a reply to an authentication, for this terminal and its version, that
    -- the server accepted, in the document that `From` allows.
    abbrev pub TokenKept : Session → ℕ → Session → Type 0
    TokenKept s c t =
        (t.token ≡ s.token)
        ⊎ ((c ≡ 0)
            × (s.kind ≡ device_auth)
            × (str_eq t.resp_code (codes "00") ≡ true)
            × ((root : Node) × From root
                × Names root (codes "version") s.version
                × Names root (codes "sn") s.sn))

    with_tasks-kept :
        (l : Listed) (s t : Session) → t.token ≡ s.token → After (with_tasks j l t) (TokenKept s)
    unfolding with_tasks
    with_tasks-kept (listed fs c) s t u = inl u
    with_tasks-kept crashed s t u = tt
    with_tasks-kept overran s t u = tt

    module _ (s : Session) (root : Node) (from : From root)
        (v : Names root (codes "version") s.version) (n : Names root (codes "sn") s.sn) where
      by_kind-TokenKept :
          (k : Kind) (t : Session)
          → t.token ≡ s.token
          → s.kind ≡ k
          → str_eq t.resp_code (codes "00") ≡ true
          → After (by_kind j root k t) (TokenKept s)
      unfolding by_kind
      by_kind-TokenKept device_auth t u e h =
          new_token-kept (member_text j root (codes "token")) t (TokenKept s)
            (λ b. inr (refl, e, h, (root, from, v, n))) (inl u)
      by_kind-TokenKept terminfo_upload t u e h = inl u
      by_kind-TokenKept getterm_task t u e h =
          with_tasks-kept (unsolve_get_term_task j root t.files) s t u
      by_kind-TokenKept notify t u e h = inl u
      by_kind-TokenKept location_upload t u e h = inl u
      by_kind-TokenKept urlgetfile t u e h = inl u
      by_kind-TokenKept update t u e h = inl u

      accepted-TokenKept :
          (t : Session)
          → t.token ≡ s.token
          → s.kind ≡ t.kind
          → After (accepted j root t) (TokenKept s)
      unfolding accepted
      accepted-TokenKept t u e = elim (Bool-cases (str_eq t.resp_code (codes "00"))) [
        | inl q ↦ rw q (by_kind-TokenKept t.kind t u e q)
        | inr q ↦ rw q (inl u)
      ]

      responded-TokenKept : After (responded j root s) (TokenKept s)
      unfolding responded
      responded-TokenKept =
          go
            (keep_response j (member_text j root (codes "code"))
              (member_text j root (codes "message")) s)
            (keep_response-kept (member_text j root (codes "code"))
              (member_text j root (codes "message")) s)
        where
          go :
              (o : Option Session)
              → kept_or s o ≡ (s.token, s.kind)
              → After (elim o [ none ↦ none | some t ↦ accepted j root t ]) (TokenKept s)
          go none e = tt
          go (some t) e = accepted-TokenKept t (ap (λ x. x.0) e) (sym (ap (λ x. x.1) e))

    compared-TokenKept :
        (root : Node) (from : From root) (s : Session) (a b : Option (Option Bytes))
        → member_text j root (codes "version") ≡ a
        → member_text j root (codes "sn") ≡ b
        → After (compared j root a b s) (TokenKept s)
    unfolding compared
    compared-TokenKept root from s none b e f = tt
    compared-TokenKept root from s (some a) none e f = elim (Bool-cases (agrees j a s.version)) [
      | inl q ↦ rw q tt
      | inr q ↦ rw q (inl refl)
    ]
    compared-TokenKept root from s (some a) (some b) e f =
        elim (Bool-cases (agrees j a s.version)) [
          | inl q ↦ elim (Bool-cases (agrees j b s.sn)) [
            | inl g ↦ rw (q, g) (responded-TokenKept s root from (a, e, q) (b, f, g))
            | inr g ↦ rw (q, g) (inl refl)
          ]
          | inr q ↦ rw q (inl refl)
        ]

    un_pack_packet-TokenKept :
        (o : Option Node) (s : Session)
        → ((root : Node) → o ≡ some root → From root)
        → After (un_pack_packet j o s) (TokenKept s)
    unfolding un_pack_packet
    un_pack_packet-TokenKept none s from = inl refl
    un_pack_packet-TokenKept (some root) s from =
        compared-TokenKept root (from root refl) s (member_text j root (codes "version"))
          (member_text j root (codes "sn")) refl refl

    resolved-TokenKept :
        (parse : Bytes → Option Node) (reply : Bytes) (a : Answer) (s : Session)
        → ((k : ℕ) (root : Node)
            → find (codes "{") reply ≡ some k
            → parse (drop k reply) ≡ some root
            → From root)
        → Head s a
        → After (resolved j parse reply a) (TokenKept s)
    unfolding resolved
    resolved-TokenKept parse reply none s from h = tt
    resolved-TokenKept parse reply (some (suc c, t)) s from h = inl h
    resolved-TokenKept parse reply (some (zero, t)) s from h =
        rw h (go (find (codes "{") reply) refl)
      where
        go :
            (o : Option ℕ)
            → find (codes "{") reply ≡ o
            → After
                (elim o [ none ↦ some (8, s) | some k ↦ un_pack_packet j (parse (drop k reply)) s ])
                (TokenKept s)
        go none e = inl refl
        go (some k) e =
            un_pack_packet-TokenKept (parse (drop k reply)) s (λ root q. from k root e q)

  -- The document of a reply: what cJSON makes of the text from its first '{'.
  abbrev pub Parsed : (Bytes → Option Node) → Bytes → Node → Type 0
  Parsed parse reply root =
      (k : ℕ) × (find (codes "{") (cstr reply) ≡ some k) × (parse (drop k (cstr reply)) ≡ some root)

  -- Whatever bytes the server sends, the terminal's token changes only in a reply to an authentication that
  -- ends with 0 and the response code "00", and whose JSON document, which starts at the first '{' of the
  -- reply, carries this terminal's version and serial number where it names them: a document without one
  -- of the two is accepted.
  pub resolve_http_packet-TokenKept :
      (parse : Bytes → Option Node) (reply : Bytes) (s : Session)
      → After (resolve_http_packet j parse reply s) (TokenKept (Parsed parse reply) s)
  unfolding resolve_http_packet
  resolve_http_packet-TokenKept parse reply s =
      resolved-TokenKept (Parsed parse reply) parse (cstr reply)
        (http_get_tran_result s (cstr reply)) s (λ k root e q. (k, e, q))
        (http_get_tran_result-Head s (cstr reply))
