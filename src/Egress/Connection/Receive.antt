-- ===== src/Egress/Connection/Receive.antt =====
-- However the stream of a connection is cut into reads, the same datagrams leave the egress.
use udptun.Prelude.{
  ℕ, ◌-◌, ◌≤◌, ◌<◌, ◌≡◌, refl, sym, ap, subst, ◌∙◌, List, [], ◌∷◌, ◌++◌, none, some, arith, length,
  take, drop, min, ok, find, put, find-put, inl, inr, Option-cases, append-nil, append_assoc,
  length-drop, take-append-drop, true,
}
use udptun.Wire.{Bytes, IsBytes, Message, decode_message}
use udptun.Wire.Split.{
  Splits, split, Splits-append, Splits-rest, Splits-none, IsBytes-append, IsBytes-left,
  IsBytes-right, Splits-IsBytes,
}
use udptun.Egress.Connection.Parse.{serve_all}
use udptun.Egress.Connection.Space.{unfinished-lt-buffer_size}
use udptun.Egress.Connection.{
  Connection, ClientState, Outlets, Maker, deliver, serve, buffer_size, handle_fd, upto,
}
use udptun.Egress.Connection.Read.{
  receive, Reads, sends_of, all_sends, IsMade, Served, handle_fd_read, all_sends-append,
}

module _ (make : Maker) (outlets_of : ℕ → Outlets)
    (total : (clid : ℕ) → make clid ≡ ok (outlets_of clid)) where
  put-IsMade :
      (clid : ℕ) (st : ClientState) (clstats : List (ℕ × ClientState))
      → IsMade outlets_of clstats
      → st.outlets ≡ outlets_of clid
      → IsMade outlets_of (put clid st clstats)
  put-IsMade clid st clstats v e i s h = ground (arith, find-put i clid st clstats, v i s)

  -- The state of the client that serves the message.
  abbrev with_client : ℕ → Connection → Message → ClientState → Connection
  with_client now c m st =
      let r = deliver now m.label m.payload st in
      record c { clstats = put m.clid r.0 c.clstats; sent = c.sent ++ r.1 }

  deliver-outlets :
      (now : ℕ) (m : Message) (st : ClientState)
      → st.outlets ≡ outlets_of m.clid
      → ((deliver now m.label m.payload st).0.outlets ≡ outlets_of m.clid)
        × ((deliver now m.label m.payload st).1 ≡ sends_of outlets_of m)
  unfolding deliver
  deliver-outlets now m st e = elim (Option-cases (find m.label st.outlets)) [
    | inl p ↦ (rw (p, deliver) e, ground arith)
    | inr (outs, p) ↦ (rw (p, deliver) e, ground arith)
  ]

  with_client-Served :
      (now : ℕ) (c : Connection) (m : Message) (st : ClientState)
      → IsMade outlets_of c.clstats
      → st.outlets ≡ outlets_of m.clid
      → Served outlets_of c (m ∷ []) (with_client now c m st)
  with_client-Served now c m st v e =
      let (o, d) = deliver-outlets now m st e in
      record {
        sent_all = ap (◌++◌ c.sent) (d ∙ sym (append-nil (sends_of outlets_of m)));
        made = put-IsMade m.clid _ c.clstats v o;
        same_sock = refl;
        same_armed = refl;
      }

  serve-Served :
      (now : ℕ) (c : Connection) (m : Message)
      → IsMade outlets_of c.clstats
      → (c' : Connection) × (serve make now c m ≡ ok c') × Served outlets_of c (m ∷ []) c'
  unfolding serve
  serve-Served now c m v = elim (Option-cases (find m.clid c.clstats)) [
    | inl p ↦
        let st : ClientState = record { last_used = now; outlets = outlets_of m.clid } in
        (with_client now c m st, ground (arith, total m.clid), with_client-Served now c m st v refl)
    | inr (st, p) ↦
        (with_client now c m st, ground arith, with_client-Served now c m st v (v m.clid st p))
  ]

  Served-trans :
      {a b c : Connection} (m : Message) (ms : List Message)
      → Served outlets_of a (m ∷ []) b
      → Served outlets_of b ms c
      → Served outlets_of a (m ∷ ms) c
  Served-trans {a} m ms p q = record {
    sent_all =
        q.sent_all
        ∙ ap (λ x. x ++ all_sends outlets_of ms) p.sent_all
        ∙ rw (append-nil, append_assoc);
    made = q.made;
    same_sock = q.same_sock ∙ p.same_sock;
    same_armed = q.same_armed ∙ p.same_armed;
  }

  serve_all-Served :
      (now : ℕ) (c : Connection) (ms : List Message)
      → IsMade outlets_of c.clstats
      → (c' : Connection) × (serve_all make now c ms ≡ ok c') × Served outlets_of c ms c'
  unfolding serve_all
  serve_all-Served now c [] v = (
    c,
    refl,
    record { sent_all = sym (append-nil c.sent); made = v; same_sock = refl; same_armed = refl },
  )
  serve_all-Served now c (m ∷ ms) v =
      let (b, e, p) = serve-Served now c m v in
      let (d, f, q) = serve_all-Served now b ms p.made in (d, rw e f, Served-trans m ms p q)

  -- One read takes bytes off the stream, and leaves the rest of what has come in the buffer.
  handle_fd-Served :
      (now n fd : ℕ) (c : Connection) (b : ℕ) (bs : Bytes)
      → c.sock ≡ some fd
      → 0 < n
      → length c.buf < buffer_size
      → IsMade outlets_of c.clstats
      → (k : ℕ) × (c' : Connection) × (ms : List Message) × (0 < k)
        × Splits c'.buf (c.buf ++ take k (b ∷ bs)) ms
        × (handle_fd make now (upto n) c (b ∷ bs) ≡ ok (c', drop k (b ∷ bs)))
        × Served outlets_of (record c { armed = true }) ms c'
  handle_fd-Served now n fd c b bs e pos room v =
      let k = min n (buffer_size - length c.buf) in
      let (ms, r, s) = split (c.buf ++ take k (b ∷ bs)) in
      let (d, f, q) = serve_all-Served now (record c { armed = true }) ms v in
      (
        k,
        record d { buf = r },
        ms,
        omega arith,
        s,
        handle_fd_read make now n fd c b bs e pos room s f,
        record {
          sent_all = q.sent_all;
          made = q.made;
          same_sock = q.same_sock;
          same_armed = q.same_armed;
        },
      )

  -- What a run of events that takes in the whole stream has done.
  abbrev pub Received : Connection → List (ℕ × ℕ) → Bytes → Bytes → List Message → Type 0
  Received c es pending r ms =
      (c' : Connection) × (receive make c es pending ≡ ok (c', []))
      × (c'.buf ≡ r)
      × (c'.sent ≡ c.sent ++ all_sends outlets_of ms)

  receive_idle :
      (c : Connection) (es : List (ℕ × ℕ)) {r : Bytes} {ms : List Message}
      → decode_message c.buf ≡ none
      → Splits r (c.buf ++ []) ms
      → Received c es [] r ms
  unfolding receive
  receive_idle c [] h s =
      let (e, p) = Splits-none (rw append-nil at s) h in (c, refl, p, rw (e, append-nil))
  receive_idle c (e ∷ es) h s =
      let (e, p) = Splits-none (rw append-nil at s) h in (c, refl, p, rw (e, append-nil))

  Received-cons :
      (now n : ℕ) (es : List (ℕ × ℕ)) (c d : Connection) (b : ℕ) (bs : Bytes) (k : ℕ) (r : Bytes)
      (ms ms₁ ms₂ : List Message)
      → handle_fd make now (upto n) c (b ∷ bs) ≡ ok (d, drop k (b ∷ bs))
      → Served outlets_of (record c { armed = true }) ms₁ d
      → ms ≡ ms₁ ++ ms₂
      → Received d es (drop k (b ∷ bs)) r ms₂
      → Received c ((now, n) ∷ es) (b ∷ bs) r ms
  unfolding receive
  Received-cons now n es c d b bs k r ms ms₁ ms₂ e q f (c', g, keeps, sent) = (
    c',
    rw (e, receive) g,
    keeps,
    sent
        ∙ ap (λ x. x ++ all_sends outlets_of ms₂) q.sent_all
        ∙ rw (f, all_sends-append, append_assoc),
  )

  -- Let a connection be open, with bytes in its buffer that are no whole message, and client
  -- states from a constructor that always succeeds. Whatever the sizes of the reads, none of them
  -- zero, as many events as there are bytes to come send the datagrams of the messages that the
  -- buffer and these bytes split into, in order, and keep the unfinished rest.
  pub receive-Received :
      (es : List (ℕ × ℕ)) (c : Connection) (fd : ℕ) (pending r : Bytes) (ms : List Message)
      → c.sock ≡ some fd
      → decode_message c.buf ≡ none
      → IsBytes (c.buf ++ pending)
      → IsMade outlets_of c.clstats
      → Reads es
      → length pending ≤ length es
      → Splits r (c.buf ++ pending) ms
      → Received c es pending r ms
  receive-Received es c fd [] r ms o h bytes v reads enough s = receive_idle c es h s
  receive-Received [] c fd (b ∷ bs) r ms o h bytes v reads enough s = absurd (omega arith)
  receive-Received ((now, n) ∷ es) c fd (b ∷ bs) r ms o h bytes v reads enough s =
      let p = b ∷ bs in
      let room = unfinished-lt-buffer_size c.buf (IsBytes-left c.buf p bytes) h in
      let (k, d, ms₁, pos, s₁, e, q) = handle_fd-Served now n fd c b bs o reads.0 room v in
      let cut : c.buf ++ p ≡ (c.buf ++ take k p) ++ drop k p =
        rw append_assoc (ap (◌++◌ c.buf) (sym (take-append-drop k p))) in
      let (ms₂, f, s₂) = Splits-append (drop k p) s₁ (subst (λ x. Splits r x ms) cut s) in
      let old = IsBytes-left (c.buf ++ take k p) (drop k p) (subst IsBytes cut bytes) in
      let all_bytes =
        IsBytes-append d.buf (drop k p) (Splits-IsBytes s₁ old)
          (IsBytes-right (c.buf ++ take k p) (drop k p) (subst IsBytes cut bytes)) in
      let later =
        receive-Received es d fd (drop k p) r ms₂ (q.same_sock ∙ o) (Splits-rest s₁) all_bytes
          q.made reads.1 (omega (arith, length-drop k p)) s₂ in
      Received-cons now n es c d b bs k r ms ms₁ ms₂ e q f later
