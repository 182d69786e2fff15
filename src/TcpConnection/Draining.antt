-- ===== src/TcpConnection/Draining.antt =====
-- src/tcp_connection.cpp: the end of the output, while the kernel takes some bytes at every call.
use benet.Prelude.{
  ℕ, zero, suc, ◌≤◌, ◌<◌, ◌≡◌, ◌≢◌, inl, inr, refl, sym, ap, subst, ◌∙◌, [], ◌++◌, append-nil, Bool,
  true, false, ==_ne, ltb, if◌then◌else◌, length, length-drop, drop, SysResult, returned, Outcome,
  ok, ◌>>=◌, Returns, Returns->>=, Returns-both, Returns-mono, Returns-Whenever, Bool-cases, arith,
}
use benet.Memory.{slice}
use benet.Channel.{disable_write_event, is_write_event}
use benet.Channel.Mask.{events-ActsAsFlags, events_of}
use benet.Buffer.{readable_bytes, retrieve}
use benet.Buffer.Space.{contents}
use benet.Buffer.Refine.{retrieve_lem}
use benet.TcpConnection.{
  disconnected, disconnecting, is_disconnecting, Notice, write_complete, TcpConnection, notify_if,
  after_write, finish_write, handle_write, shutdown_in_loop,
}
use benet.TcpConnection.Stream.{InOrder, Kept}
use benet.TcpConnection.Sending.{readable_lem, empty_list}
use benet.TcpConnection.Writing.{handle_write-Kept, finish_write-output}

-- A number of rounds in which the channel is ready to write.
unfoldable pub drain : ℕ → (ℕ → SysResult ℕ) → TcpConnection → Outcome TcpConnection
drain zero kernel c = ok c
drain (suc k) kernel c =
    handle_write (kernel (readable_bytes c.output_buffer)) 0 c >>= λ c'. drain k kernel c'

-- What a write leaves alone, and the half-close that it brings when `left` is no more.
abbrev Goes : TcpConnection → TcpConnection → Type 0
Goes c c' =
    (c'.state ≡ c.state)
    × (c'.accepted ≡ c.accepted)
    × (c.shut ≡ true → c'.shut ≡ true)
    × (contents c'.output_buffer ≡ [] → c.state ≡ disconnecting → c'.shut ≡ true)

writes_off :
    (e : ℕ) (r w : Bool) → e ≡ events_of r w → is_write_event (disable_write_event e) ≡ false
writes_off e r w same =
    ap is_write_event (ap disable_write_event same ∙ (events-ActsAsFlags r w).disable_write)
    ∙ (events-ActsAsFlags r false).is_write

finishes :
    (bound : Bool) (n : Notice) (c : TcpConnection)
    → is_write_event c.events ≡ false
    → (let c' = notify_if bound n c in
        Goes c (if is_disconnecting c'.state then shutdown_in_loop c' else c'))
unfolding shutdown_in_loop
finishes bound n c off = elim (Bool-cases bound) [
  | inl b ↦ elim (Bool-cases (is_disconnecting c.state)) [
    | inl d ↦ rw (b, d, off) (refl, refl, λ _. refl, λ _ _. refl)
    | inr d ↦ rw (b, d) (refl, refl, λ s. s, λ _ s. absurd (ground arith))
  ]
  | inr b ↦ elim (Bool-cases (is_disconnecting c.state)) [
    | inl d ↦ rw (b, d, off) (refl, refl, λ _. refl, λ _ _. refl)
    | inr d ↦ rw (b, d) (refl, refl, λ s. s, λ _ s. absurd (ground arith))
  ]
]

finish_write-Goes :
    (c : TcpConnection) (r w : Bool) → c.events ≡ events_of r w → Goes c (finish_write c)
unfolding finish_write
finish_write-Goes c r w same =
    finishes c.write_complete_bound write_complete
      (record c { events = disable_write_event c.events }) (writes_off c.events r w same)

abbrev Written : ℕ → TcpConnection → TcpConnection → Type 0
Written n c c' = (contents c'.output_buffer ≡ drop n (contents c.output_buffer)) × Goes c c'

after_write-Written :
    (n : ℕ) (c : TcpConnection)
    → InOrder c
    → n ≤ readable_bytes c.output_buffer
    → Returns (Written n c) (after_write n c)
unfolding after_write
after_write-Written n c o small =
    let (r, w, same, _) = o.flags in
    let out = c.output_buffer in
    let size = readable_lem out o.out in
    Returns->>= _ _ (retrieve n out) _ (retrieve_lem n out o.out (subst (λ x. n ≤ x) size small))
      (λ b k. elim (Bool-cases (ltb 0 (readable_bytes b))) [
        | inl left ↦ rw left (
          k.1,
          (
            refl,
            refl,
            λ s. s,
            λ gone _. absurd (ground (arith, readable_lem b k.0, ap length gone)),
          ),
        )
        | inr none_left ↦
            let c₁ : TcpConnection = record c {
              output_buffer = b;
              sent = c.sent ++ slice out.buffer out.reader_index n;
            } in
            rw none_left (ap contents (finish_write-output c₁) ∙ k.1, finish_write-Goes c₁ r w same)
      ])

handle_write-Written :
    (n stale : ℕ) (c : TcpConnection)
    → InOrder c
    → is_write_event c.events ≡ true
    → 0 < n
    → n ≤ readable_bytes c.output_buffer
    → Returns (Written n c) (handle_write (returned n) stale c)
unfolding handle_write
handle_write-Written n stale c o on some small =
    rw (on, ==_ne n 0 (omega arith)) (after_write-Written n c o small)

-- The kernel takes some of the bytes that it is offered.
abbrev pub Proceeds : (ℕ → SysResult ℕ) → Type 0
Proceeds kernel = (len : ℕ) → 0 < len → (n : ℕ) × (kernel len ≡ returned n) × (0 < n) × (n ≤ len)

-- All is sent, the channel waits to write no more, and the connection is as open as it was; the
-- half-close has been sent if it was waiting for the last byte.
pub record Drained (c c' : TcpConnection) : Type 0 where
  pub empty : contents c'.output_buffer ≡ []
  pub state : c'.state ≡ c.state
  pub accepted : c'.accepted ≡ c.accepted
  pub sent : c'.sent ≡ c.accepted
  pub idle : is_write_event c'.events ≡ false
  pub stays : c.shut ≡ true → c'.shut ≡ true
  pub half_close : 0 < length (contents c.output_buffer) → c.state ≡ disconnecting → c'.shut ≡ true

write_event_lem :
    (c : TcpConnection)
    → InOrder c
    → c.state ≢ disconnected
    → is_write_event c.events ≡ ltb 0 (length (contents c.output_buffer))
write_event_lem c o connection =
    let (r, w, same, full) = o.flags in
    ap is_write_event same
    ∙ (events-ActsAsFlags r w).is_write
    ∙ elim full [ inl d ↦ absurd (connection d) | inr f ↦ f ]

nothing_to_send :
    (c : TcpConnection)
    → InOrder c
    → c.state ≢ disconnected
    → contents c.output_buffer ≡ []
    → Drained c c
nothing_to_send c o connection empty = record {
  empty = empty;
  state = refl;
  accepted = refl;
  sent =
      sym (append-nil c.sent)
      ∙ ap (◌++◌ c.sent) (sym empty)
      ∙ sym (append-nil (c.sent ++ contents c.output_buffer))
      ∙ o.stream;
  idle = write_event_lem c o connection ∙ ap (λ q. ltb 0 (length q)) empty;
  stays = λ s. s;
  half_close = λ some. absurd (omega (arith, ap length empty));
}

handle_write_idle :
    (result : SysResult ℕ) (c : TcpConnection)
    → is_write_event c.events ≡ false
    → handle_write result 0 c ≡ ok c
unfolding handle_write
handle_write_idle result c off = rw off refl

after_round : (n : ℕ) (c c' c'' : TcpConnection) → Written n c c' → Drained c' c'' → Drained c c''
after_round n c c' c'' (rest, went) d = record {
  empty = d.empty;
  state = d.state ∙ went.0;
  accepted = d.accepted ∙ went.1;
  sent = d.sent ∙ went.1;
  idle = d.idle;
  stays = λ s. d.stays (went.2 s);
  half_close = λ some ending. elim (Bool-cases (ltb 0 (length (contents c'.output_buffer)))) [
    | inl left ↦ d.half_close (ground arith) (went.0 ∙ ending)
    | inr none_left ↦
        d.stays (went.3 (empty_list (contents c'.output_buffer) (ground arith)) ending)
  ];
}

-- A connection that is not disconnected, while the kernel takes some bytes at every call of `send`:
-- as many rounds of room to write as bytes are in the output buffer, or more, are enough to send
-- them all. Then the channel waits to write no more, the bytes that the kernel took are exactly those
-- accepted, and if some bytes had kept the connection from its half-close, that has been sent.
pub drain-Drained :
    (k : ℕ) (kernel : ℕ → SysResult ℕ) (c : TcpConnection)
    → InOrder c
    → c.state ≢ disconnected
    → Proceeds kernel
    → length (contents c.output_buffer) ≤ k
    → Returns (Drained c) (drain k kernel c)
unfolding drain
drain-Drained zero kernel c o connection proceeds enough =
    nothing_to_send c o connection (empty_list (contents c.output_buffer) (omega arith))
drain-Drained (suc k) kernel c o connection proceeds enough =
    elim (Bool-cases (ltb 0 (length (contents c.output_buffer)))) [
      | inl left ↦
          let size = readable_lem c.output_buffer o.out in
          let offered = readable_bytes c.output_buffer in
          let (n, took, some, small) = proceeds offered (ground (arith, size)) in
          rw took (
            Returns->>= _ _ (handle_write (returned n) 0 c) (λ c'. drain k kernel c')
              (Returns-both (Kept 0 c) (Written n c) (handle_write (returned n) 0 c)
                (handle_write-Kept (returned n) 0 c o small)
                (Returns-Whenever (Written n c) (handle_write (returned n) 0 c) (
                  handle_write-Written n 0 c o (write_event_lem c o connection ∙ left) some small)))
              (λ c' (kept, written).
                Returns-mono _ _ (drain k kernel c')
                  (drain-Drained k kernel c' kept.0 (λ e. connection (sym written.1.0 ∙ e)) proceeds
                    (omega (arith, ap length written.0, length-drop n (contents c.output_buffer))))
                  (λ c'' d. after_round n c c' c'' written d)))
      | inr none_left ↦
          let empty = empty_list (contents c.output_buffer) (ground arith) in
          rw
            (handle_write_idle (kernel (readable_bytes c.output_buffer)) c
              (write_event_lem c o connection ∙ none_left))
            (drain-Drained k kernel c o connection proceeds (omega (arith, ap length empty)))
    ]
