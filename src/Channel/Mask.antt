-- ===== src/Channel/Mask.antt =====
-- src/channel.cpp: `events_` is a pair of flags, wants to read and wants to write.
use benet.Prelude.{ℕ, ◌≡◌, arith, Bool, true, false, not, ◌||◌}
use benet.Channel.{
  enable_read_event, disable_read_event, enable_write_event, disable_write_event, disable_all_event,
  is_none_event, is_read_event, is_write_event,
}

-- The word for a pair of flags.
abbrev pub events_of : Bool → Bool → ℕ
events_of false false = 0
events_of true false = 3
events_of false true = 4
events_of true true = 7

-- What the calls of a channel do to the two flags, and what its queries say of them.
pub record ActsAsFlags (r w : Bool) : Type 0 where
  pub enable_read : enable_read_event (events_of r w) ≡ events_of true w
  pub disable_read : disable_read_event (events_of r w) ≡ events_of false w
  pub enable_write : enable_write_event (events_of r w) ≡ events_of r true
  pub disable_write : disable_write_event (events_of r w) ≡ events_of r false
  pub disable_all : disable_all_event (events_of r w) ≡ events_of false false
  pub is_read : is_read_event (events_of r w) ≡ r
  pub is_write : is_write_event (events_of r w) ≡ w
  pub is_none : is_none_event (events_of r w) ≡ not (r || w)

-- For every pair of flags each event call of a channel sets its own flag and leaves the other, and
-- each query answers by the flags. (A new channel has both flags down.)
pub events-ActsAsFlags : (r w : Bool) → ActsAsFlags r w
unfolding enable_read_event disable_read_event enable_write_event disable_write_event
    disable_all_event is_read_event is_write_event is_none_event
events-ActsAsFlags false false = ground arith
events-ActsAsFlags false true = ground arith
events-ActsAsFlags true false = ground arith
events-ActsAsFlags true true = ground arith
