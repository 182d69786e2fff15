-- ===== src/Channel/Dispatch.antt =====
-- src/channel.cpp: which callbacks HandleEvent runs, and in which order.
use benet.Prelude.{
  ℕ, ◌/◌, ◌%◌, ◌^◌, ◌≡◌, ap, List, [], ◌∷◌, ◌++◌, Bool, true, false, not, ◌&&◌, ◌||◌, ◌==◌, arith,
  if◌then◌else◌,
}
use Prim.Native.Nat.{bit_or}
use benet.Bits.{bit_and-of_bits}
use benet.Channel.{
  Channel, Handlers, epollin, epollpri, epollout, epollerr, epollhup, epollrdhup, has, invoke,
  invoke_read, conduct, handle_event,
}

pub data Event : Type 0 where
  error close read write : Event

-- The binary digit of a word at place `k`.
abbrev pub digit : ℕ → ℕ → Bool
digit k word = (word / 2 ^ k) % 2 == 1

-- The events that a word of the kernel stands for, in the order of their handling: errors are digit
-- 3; a hang-up (digit 4 or 13) closes unless input (digit 0) is left; input, priority input (digit
-- 1) and a peer that shut down (13) are read; digit 2 is room for output.
abbrev pub events_in : ℕ → List Event
events_in r =
    (if digit 3 r then error ∷ [] else [])
    ++ (if (digit 4 r || digit 13 r) && not (digit 0 r) then close ∷ [] else [])
    ++ (if digit 0 r || digit 1 r || digit 13 r then read ∷ [] else [])
    ++ (if digit 2 r then write ∷ [] else [])

module _ {S : Type 0} (h : Handlers S) (time : ℕ) where
  abbrev pub run_one : Event → S → S
  run_one error s = invoke h.on_error s
  run_one close s = invoke h.on_close s
  run_one read s = invoke_read h.on_read time s
  run_one write s = invoke h.on_write s

  abbrev pub run_all : List Event → S → S
  run_all [] s = s
  run_all (e ∷ es) s = run_all es (run_one e s)

has_err : (r : ℕ) → has r epollerr ≡ digit 3 r
has_err r = ground (arith, bit_and-of_bits r (0 ∷ 0 ∷ 0 ∷ 1 ∷ []) (omega arith))

has_in : (r : ℕ) → has r epollin ≡ digit 0 r
has_in r = ground (arith, bit_and-of_bits r (1 ∷ []) (omega arith))

has_out : (r : ℕ) → has r epollout ≡ digit 2 r
has_out r = ground (arith, bit_and-of_bits r (0 ∷ 0 ∷ 1 ∷ []) (omega arith))

has_hangup : (r : ℕ) → has r (bit_or epollhup epollrdhup) ≡ (digit 4 r || digit 13 r)
has_hangup r = ground (
  arith,
  bit_and-of_bits r (0 ∷ 0 ∷ 0 ∷ 0 ∷ 1 ∷ 0 ∷ 0 ∷ 0 ∷ 0 ∷ 0 ∷ 0 ∷ 0 ∷ 0 ∷ 1 ∷ []) (omega arith),
)

has_input :
    (r : ℕ)
    → has r (bit_or (bit_or epollin epollpri) epollrdhup) ≡ (digit 0 r || digit 1 r || digit 13 r)
has_input r = ground (
  arith,
  bit_and-of_bits r (1 ∷ 1 ∷ 0 ∷ 0 ∷ 0 ∷ 0 ∷ 0 ∷ 0 ∷ 0 ∷ 0 ∷ 0 ∷ 0 ∷ 0 ∷ 1 ∷ []) (omega arith),
)

-- Four tests in a row run the events whose tests pass.
run_tests :
    {S : Type 0} (h : Handlers S) (time : ℕ) (a b c d : Bool) (s : S)
    → (let s₁ = if a then invoke h.on_error s else s in
        let s₂ = if b then invoke h.on_close s₁ else s₁ in
        let s₃ = if c then invoke_read h.on_read time s₂ else s₂ in
        if d then invoke h.on_write s₃ else s₃)
      ≡ run_all h time
          ((if a then error ∷ [] else [])
            ++ (if b then close ∷ [] else [])
            ++ (if c then read ∷ [] else [])
            ++ (if d then write ∷ [] else []))
          s
run_tests h time a b c d s = ground arith

conduct_lem :
    {S : Type 0} (h : Handlers S) (r time : ℕ) (s : S)
    → conduct h r time s ≡ run_all h time (events_in r) s
unfolding conduct
conduct_lem h r time s =
    rw (has_err r, has_hangup r, has_in r, has_input r, has_out r)
      (run_tests h time (digit 3 r) ((digit 4 r || digit 13 r) && not (digit 0 r))
        (digit 0 r || digit 1 r || digit 13 r) (digit 2 r) s)

-- HandleEvent runs nothing if the object that the channel is tied to is gone. Else it runs exactly
-- the callbacks, where bound, of the events that `revents_` stands for, in the order error, close,
-- read, write, between setting and resetting `event_handing_`.
pub handle_event_lem :
    {S : Type 0} (h : Handlers S) (alive : Bool) (c : Channel) (time : ℕ) (s : S)
    → handle_event h alive c time s ≡ (
        if c.tied && not alive
        then s
        else h.set_handing false (run_all h time (events_in c.revents) (h.set_handing true s)))
unfolding handle_event
handle_event_lem h alive c time s =
    ap (λ t. if c.tied && not alive then s else h.set_handing false t)
      (conduct_lem h c.revents time (h.set_handing true s))
