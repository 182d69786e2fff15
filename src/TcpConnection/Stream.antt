-- ===== src/TcpConnection/Stream.antt =====
-- src/tcp_connection.cpp: the bytes accepted, in the output buffer and sent, and the half-close.
use benet.Prelude.{
  ℕ, suc, ◌+◌, ◌≤◌, ◌<◌, ◌≡◌, ◌⊎◌, inl, inr, refl, sym, ap, subst, ◌∙◌, List, [], ◌∷◌, ◌++◌,
  append_assoc, append-nil, Bool, true, false, not, ◌&&◌, ◌==◌, ltb, leb, ltb-true, if◌then◌else◌,
  length, size_add, max_size, Returns, Returns->>=, Returns-mono, Bool-cases, arith,
}
use benet.Channel.{enable_write_event, disable_all_event, is_write_event}
use benet.Channel.Mask.{events_of, events-ActsAsFlags}
use benet.Buffer.{readable_bytes, append}
use benet.Buffer.Space.{IsValid, contents}
use benet.Buffer.Write.{append-Appended}
use benet.TcpConnection.{
  State, disconnected, connected, disconnecting, is_connected, is_disconnecting, Notice,
  connection_changed, closed, high_water_mark, TcpConnection, notify, notify_if, handle_close,
  keep_all, keep_remaining,
}

-- The channel's flags: while the connection is open it waits to write exactly while bytes are left.
abbrev pub Flags : State → ℕ → List ℕ → Type 0
Flags s e q =
    (r : Bool) × (w : Bool) × (e ≡ events_of r w) × ((s ≡ disconnected) ⊎ (w ≡ ltb 0 (length q)))

-- The connection has ended, or is ending and has nothing left to write.
abbrev pub Over : State → List ℕ → Type 0
Over s q = (s ≡ disconnected) ⊎ ((s ≡ disconnecting) × (q ≡ []))

abbrev pub Ending : State → Type 0
Ending s = (s ≡ disconnected) ⊎ (s ≡ disconnecting)

-- The bytes that the kernel took, then those in the output buffer, then `bytes` are the bytes
-- accepted from the client, and the half-close has not been sent before the last of them.
pub record Owing (bytes : List ℕ) (c : TcpConnection) : Type 0 where
  pub out : IsValid c.output_buffer
  pub stream : (c.sent ++ contents c.output_buffer) ++ bytes ≡ c.accepted
  pub flags : Flags c.state c.events (contents c.output_buffer)
  pub late : c.shut ≡ true → Over c.state (contents c.output_buffer)
  pub tasks : 0 < c.shutdown_tasks → Ending c.state

abbrev pub InOrder : TcpConnection → Type 0
InOrder = Owing []

pub notify_if-Owing :
    (bytes : List ℕ) (b : Bool) (n : Notice) (c : TcpConnection)
    → Owing bytes c
    → Owing bytes (notify_if b n c)
notify_if-Owing bytes true n c o = record {
  out = o.out;
  stream = o.stream;
  flags = o.flags;
  late = o.late;
  tasks = o.tasks;
}
notify_if-Owing bytes false n c o = o

pub notify_if-state :
    (b : Bool) (n : Notice) (c : TcpConnection) → (notify_if b n c).state ≡ c.state
notify_if-state true n c = refl
notify_if-state false n c = refl

pub notify_if-output :
    (b : Bool) (n : Notice) (c : TcpConnection) → (notify_if b n c).output_buffer ≡ c.output_buffer
notify_if-output true n c = refl
notify_if-output false n c = refl

wants_write :
    (r w : Bool)
    → (if not (is_write_event (events_of r w))
        then enable_write_event (events_of r w)
        else events_of r w)
      ≡ events_of r true
wants_write r true = rw ((events-ActsAsFlags r true).is_write) refl
wants_write r false =
    rw ((events-ActsAsFlags r false).is_write) (events-ActsAsFlags r false).enable_write

-- What `EnableWriteEvent` and the buffer come to.
abbrev pub Kept : ℕ → TcpConnection → TcpConnection → Type 0
Kept grown c c' =
    InOrder c' × (c'.output_buffer.writer_index ≤ c.output_buffer.writer_index + grown)

some_bytes : (xs : List ℕ) (b : ℕ) (bs : List ℕ) → ltb 0 (length (xs ++ b ∷ bs)) ≡ true
some_bytes [] b bs = ltb-true 0 (suc (length bs)) (omega arith)
some_bytes (x ∷ xs) b bs = ltb-true 0 (suc (length (xs ++ b ∷ bs))) (omega arith)

pub open_has_more : (s : State) (q : List ℕ) → s ≡ connected → Over s q → ⊥
open_has_more s q e (inl d) = ground arith
open_has_more s q e (inr d) = let d' = d.0 in ground arith

pub open_goes_on : (s : State) → s ≡ connected → Ending s → ⊥
open_goes_on s e (inl d) = ground arith
open_goes_on s e (inr d) = ground arith

keep_all-Kept :
    (b : ℕ) (bs : List ℕ) (c : TcpConnection)
    → c.state ≡ connected
    → Owing (b ∷ bs) c
    → c.output_buffer.writer_index + length (b ∷ bs) ≤ max_size
    → Returns (Kept (length (b ∷ bs)) c) (keep_all (b ∷ bs) c)
unfolding keep_all
keep_all-Kept b bs c open_state o fits =
    let (r, w, same, _) = o.flags in
    Returns->>= _ _ (append (b ∷ bs) c.output_buffer) _
      (append-Appended (b ∷ bs) c.output_buffer o.out fits)
      (λ b' h. (
        record {
          out = h.valid;
          stream =
              append-nil (c.sent ++ contents b')
              ∙ ap (◌++◌ c.sent) h.holds
              ∙ sym (append_assoc c.sent (contents c.output_buffer) (b ∷ bs))
              ∙ o.stream;
          flags = (
            r,
            true,
            rw same (wants_write r w),
            inr (
                sym (
                  ap (λ q. ltb 0 (length q)) h.holds ∙ some_bytes (contents c.output_buffer) b bs)),
          );
          late = λ s. absurd (open_has_more c.state _ open_state (o.late s));
          tasks = λ s. absurd (open_goes_on c.state open_state (o.tasks s));
        },
        h.moved,
      ))

pub nonzero : (n : ℕ) → (suc n == 0) ≡ false
nonzero n = ground arith

pub keep_remaining-Kept :
    (bytes : List ℕ) (c : TcpConnection)
    → c.state ≡ connected
    → Owing bytes c
    → c.output_buffer.writer_index + length bytes ≤ max_size
    → Returns (Kept (length bytes) c) (keep_remaining bytes c)
unfolding keep_remaining
keep_remaining-Kept [] c open_state o fits = (o, omega arith)
keep_remaining-Kept (b ∷ bs) c open_state o fits =
    let total = size_add (readable_bytes c.output_buffer) (length (b ∷ bs)) in
    let cond =
      leb c.mark total
      && (ltb (readable_bytes c.output_buffer) c.mark && c.high_water_mark_bound) in
    let same = notify_if-output cond (high_water_mark total) c in
    rw (nonzero (length bs)) (
      Returns-mono _ _ (keep_all (b ∷ bs) (notify_if cond (high_water_mark total) c))
        (keep_all-Kept b bs (notify_if cond (high_water_mark total) c)
          (notify_if-state cond (high_water_mark total) c ∙ open_state)
          (notify_if-Owing (b ∷ bs) cond (high_water_mark total) c o)
          (subst (λ x. x.writer_index + length (b ∷ bs) ≤ max_size) (sym same) fits))
        (λ c' h. (
          h.0,
          subst (λ x. c'.output_buffer.writer_index ≤ x.writer_index + length (b ∷ bs)) same h.1,
        )))

disconnects :
    (c : TcpConnection)
    → InOrder c
    → InOrder (
        notify
          (connection_changed ∷ closed ∷ [])
          (record c { state = disconnected; events = disable_all_event c.events }))
unfolding disable_all_event
disconnects c o = record {
  out = o.out;
  stream = o.stream;
  flags = (false, false, refl, inl refl);
  late = λ s. inl refl;
  tasks = λ s. inl refl;
}

pub handle_close-InOrder : (c : TcpConnection) → InOrder c → InOrder (handle_close c)
unfolding handle_close
handle_close-InOrder c o =
    elim (Bool-cases (not (is_connected c.state) && not (is_disconnecting c.state))) [
      | inl t ↦ rw t o
      | inr t ↦ rw t (disconnects c o)
    ]

pub handle_close-output : (c : TcpConnection) → (handle_close c).output_buffer ≡ c.output_buffer
unfolding handle_close
handle_close-output c =
    elim (Bool-cases (not (is_connected c.state) && not (is_disconnecting c.state))) [
      | inl t ↦ rw t refl
      | inr t ↦ rw t refl
    ]
