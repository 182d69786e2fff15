-- ===== src/Reactor/Round/Safe.antt =====
-- src/eventloop.cpp, src/channel.cpp: rounds whose callbacks change or remove their own channels.
use benet.Prelude.{
  ℕ, ◌≡◌, ◌≢◌, refl, sym, ap, ap₂, ◌∙◌, Bool, true, Option, none, some, ==_iff, ==_ne, Outcome,
  ◌>>=◌, Returns, Returns->>=, Returns-mono, ℕ_discrete, if◌then◌else◌,
}
use benet.Channel.{Channel, new_channel, added_channel, invoke, invoke_read}
use benet.Reactor.{Reactor}
use benet.Reactor.Kernel.{Epoll}
use benet.Reactor.Registry.{Inv, armed_at}
use benet.Reactor.Equations.{put_self}
use benet.Reactor.Round.{Callbacks, set_handing, after, after_read}

module _ (k : Epoll) (here : ℕ) where
  open k use {State, interest}

  -- While the callbacks of the channel at `ptr` run.
  pub record Own (ptr : ℕ) (r : Reactor k) : Type 0 where
    pub inv : Inv k r
    pub loop : (r.chans ptr).loop ≡ r.loop_id
    pub thread : here ≡ r.thread_id
    pub fresh : (r.chans ptr).index ≡ new_channel → r.channels (r.chans ptr).fd ≡ none
    pub handing : r.event_handing ≡ true
    pub current : r.current_active_channel ≡ some ptr

  -- What the callbacks of one channel leave of the rest of the loop.
  pub record Apart (ptr : ℕ) (r r' : Reactor k) : Type 0 where
    pub others : (q : ℕ) → ptr ≢ q → r'.chans q ≡ r.chans q
    pub loop_id : r'.loop_id ≡ r.loop_id

  abbrev pub Goes : ℕ → Reactor k → Reactor k → Type 0
  Goes ptr r r' = Own ptr r' × Apart ptr r r'

  pub Apart-trans : (ptr : ℕ) (r s t : Reactor k) → Apart ptr r s → Apart ptr s t → Apart ptr r t
  Apart-trans ptr r s t a b = record {
    others = λ q ne. b.others q ne ∙ a.others q ne;
    loop_id = b.loop_id ∙ a.loop_id;
  }

  -- A callback that keeps to its own channel.
  abbrev pub KeepsTo : ℕ → (Reactor k → Outcome (Reactor k)) → Type 0
  KeepsTo ptr call = (r : Reactor k) → Own ptr r → Returns (Goes ptr r) (call r)

  abbrev pub IfBound : ℕ → Option (Reactor k → Outcome (Reactor k)) → Type 0
  IfBound ptr none = Unit
  IfBound ptr (some call) = KeepsTo ptr call

  abbrev pub IfRead : ℕ → Option (ℕ → Reactor k → Outcome (Reactor k)) → Type 0
  IfRead ptr none = Unit
  IfRead ptr (some call) = (time : ℕ) → KeepsTo ptr (call time)

  pub record AllKeep (cs : Callbacks k) : Type 0 where
    pub error : (p : ℕ) → IfBound p (cs.on_error p)
    pub close : (p : ℕ) → IfBound p (cs.on_close p)
    pub read : (p : ℕ) → IfRead p (cs.on_read p)
    pub write : (p : ℕ) → IfBound p (cs.on_write p)

  -- The channels of two memories differ in marks only that neither the poller nor the kernel reads.
  abbrev pub Marks : (ℕ → Channel) → (ℕ → Channel) → Type 0
  Marks f g =
      (q : ℕ) → ((g q).fd ≡ (f q).fd) × ((g q).index ≡ (f q).index) × ((g q).events ≡ (f q).events)

  armed_marked : (f g : ℕ → Channel) → Marks f g → (o : Option ℕ) → armed_at k f o ≡ armed_at k g o
  armed_marked f g same none = refl
  armed_marked f g same (some q) =
      let (_, i, e) = same q in
      ap₂ (λ i e. elim i [ added_channel ↦ some (e, q) | _ ↦ none ]) (sym i) (sym e)

  pub marked :
      (r r' : Reactor k)
      → Marks r.chans r'.chans
      → r'.channels ≡ r.channels
      → r'.epoll ≡ r.epoll
      → Inv k r
      → Inv k r'
  marked r r' same map epoll inv =
      let at : (fd : ℕ) → r'.channels fd ≡ r.channels fd = λ fd. ap (λ f. f fd) map in
      record {
        owner = λ p h.
            let (fd, i, _) = same p in
            at (r'.chans p).fd ∙ ap r.channels fd ∙ inv.owner p (λ e. h (i ∙ e));
        named = λ fd p h.
            let (f, i, _) = same p in
            let known = inv.named fd p (sym (at fd) ∙ h) in (f ∙ known.0, λ e. known.1 (sym i ∙ e));
        armed = λ fd.
            ap (λ s. interest s fd) epoll
            ∙ inv.armed fd
            ∙ ap (armed_at k r.chans) (sym (at fd))
            ∙ armed_marked r.chans r'.chans same (r'.channels fd);
      }

  set_handing-Marks :
      (ptr : ℕ) (b : Bool) (r : Reactor k) → Marks r.chans (set_handing k ptr b r).chans
  set_handing-Marks ptr b r q = elim (ℕ_discrete ptr q) [
    | yes e ↦
        rw ((==_iff ptr q).1 e) (
          ap (λ p. (r.chans p).fd) e,
          ap (λ p. (r.chans p).index) e,
          ap (λ p. (r.chans p).events) e,
        )
    | no ne ↦ rw (==_ne ptr q ne) (refl, refl, refl)
  ]

  pub sets_handing :
      (ptr : ℕ) (b : Bool) (r : Reactor k) → Own ptr r → Goes ptr r (set_handing k ptr b r)
  sets_handing ptr b r o =
      let self = put_self r.chans ptr (record (r.chans ptr) { event_handing = some b }) in
      (
        record {
          inv = marked r (set_handing k ptr b r) (set_handing-Marks ptr b r) refl refl o.inv;
          loop = ap (λ c. c.loop) self ∙ o.loop;
          thread = o.thread;
          fresh = λ e. ap (λ c. r.channels c.fd) self ∙ o.fresh (sym (ap (λ c. c.index) self) ∙ e);
          handing = o.handing;
          current = o.current;
        },
        record {
          others = λ q ne.
              ap (λ t. if t then record (r.chans ptr) { event_handing = some b } else r.chans q)
                (==_ne ptr q ne);
          loop_id = refl;
        },
      )

  -- Another call after some that kept to the channel.
  pub then_call :
      (ptr : ℕ) (r : Reactor k) (m : Outcome (Reactor k)) (call : Reactor k → Outcome (Reactor k))
      → KeepsTo ptr call
      → Returns (Goes ptr r) m
      → Returns (Goes ptr r) (m >>= call)
  then_call ptr r m call keeps h = Returns->>= (Goes ptr r) (Goes ptr r) m call h (λ s g.
      Returns-mono _ _ (call s) (keeps s g.0) (λ t g'. (g'.0, Apart-trans ptr r s t g.1 g'.1)))

  pub invoked :
      (ptr : ℕ) (r : Reactor k) (m : Outcome (Reactor k))
      (o : Option (Reactor k → Outcome (Reactor k)))
      → IfBound ptr o
      → Returns (Goes ptr r) m
      → Returns (Goes ptr r) (invoke (after k o) m)
  invoked ptr r m none keeps h = h
  invoked ptr r m (some call) keeps h = then_call ptr r m call keeps h

  pub invoked_read :
      (ptr time : ℕ) (r : Reactor k) (m : Outcome (Reactor k))
      (o : Option (ℕ → Reactor k → Outcome (Reactor k)))
      → IfRead ptr o
      → Returns (Goes ptr r) m
      → Returns (Goes ptr r) (invoke_read (after_read k o) time m)
  invoked_read ptr time r m none keeps h = h
  invoked_read ptr time r m (some call) keeps h = then_call ptr r m (call time) (keeps time) h
