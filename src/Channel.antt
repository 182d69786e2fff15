-- ===== src/Channel.antt =====
-- src/channel.cpp, include/benet/channel.h: one file descriptor, the events that it asks for, and
-- the callbacks that its events run.
pub mod Dispatch
pub mod Mask
pub mod Names
mod Tests
use Prim.Native.Nat.{bit_and, bit_or}
use benet.Prelude.{ℕ, ◌-◌, Bool, true, false, not, ◌&&◌, Option, none, some, ◌==◌, if◌then◌else◌}

-- The bits of <sys/epoll.h>.
abbrev pub epollin : ℕ
epollin = 0x001

abbrev pub epollpri : ℕ
epollpri = 0x002

abbrev pub epollout : ℕ
epollout = 0x004

abbrev pub epollerr : ℕ
epollerr = 0x008

abbrev pub epollhup : ℕ
epollhup = 0x010

abbrev pub epollrdhup : ℕ
epollrdhup = 0x2000

abbrev pub none_event : ℕ
none_event = 0

abbrev pub read_event : ℕ
read_event = bit_or epollin epollpri

abbrev pub write_event : ℕ
write_event = epollout

-- What the poller keeps in `index_`: kNewChannel, kAddedChannel or kDeletedChannel.
pub data Index : Type 0 where
  new_channel added_channel deleted_channel : Index

-- The members but for the callbacks. `event_handing_` and `added_in_loop_` have no initialiser, so
-- they hold no value (`none`) until something is written.
pub record Channel : Type 0 where
  pub loop : ℕ
  pub fd : ℕ
  pub events : ℕ
  pub revents : ℕ
  pub index : Index
  pub tied : Bool
  pub event_handing : Option Bool
  pub added_in_loop : Option Bool

unfoldable pub init : ℕ → ℕ → Channel
init loop fd = record {
  loop = loop;
  fd = fd;
  events = 0;
  revents = 0;
  index = new_channel;
  tied = false;
  event_handing = none;
  added_in_loop = none;
}

-- A 32-bit `~mask`.
abbrev pub complement : ℕ → ℕ
complement mask = 0xffff_ffff - mask

abbrev pub has : ℕ → ℕ → Bool
has word mask = not (bit_and word mask == 0)

-- The changes that the event calls make to `events_`.
unfoldable pub enable_read_event : ℕ → ℕ
enable_read_event events = bit_or events read_event

unfoldable pub disable_read_event : ℕ → ℕ
disable_read_event events = bit_and events (complement read_event)

unfoldable pub enable_write_event : ℕ → ℕ
enable_write_event events = bit_or events write_event

unfoldable pub disable_write_event : ℕ → ℕ
disable_write_event events = bit_and events (complement write_event)

unfoldable pub disable_all_event : ℕ → ℕ
disable_all_event events = none_event

unfoldable pub is_none_event : ℕ → Bool
is_none_event events = events == none_event

unfoldable pub is_read_event : ℕ → Bool
is_read_event events = has events read_event

unfoldable pub is_write_event : ℕ → Bool
is_write_event events = has events write_event

-- The callbacks of a channel, over the state `S` that they change; `none` is an empty
-- `std::function`. `set_handing` is the write to `event_handing_`.
pub record Handlers (S : Type 0) : Type 0 where
  pub on_error : Option (S → S)
  pub on_close : Option (S → S)
  pub on_read : Option (ℕ → S → S)
  pub on_write : Option (S → S)
  pub set_handing : Bool → S → S

module _ {S : Type 0} where
  -- `if (on_x_) on_x_()`
  abbrev pub invoke : Option (S → S) → S → S
  invoke none s = s
  invoke (some call) s = call s

  abbrev pub invoke_read : Option (ℕ → S → S) → ℕ → S → S
  invoke_read none time s = s
  invoke_read (some call) time s = call time s

  -- The four tests of `HandleEvent`, in their order.
  unfoldable pub conduct : Handlers S → ℕ → ℕ → S → S
  conduct h revents recv_time s =
      let s₁ = if has revents epollerr then invoke h.on_error s else s in
      let s₂ =
        if has revents (bit_or epollhup epollrdhup) && not (has revents epollin)
        then invoke h.on_close s₁
        else s₁ in
      let s₃ =
        if has revents (bit_or (bit_or epollin epollpri) epollrdhup)
        then invoke_read h.on_read recv_time s₂
        else s₂ in
      if has revents epollout then invoke h.on_write s₃ else s₃

  -- `HandleEvent`. `alive` says whether the tied object can still be locked; the lock keeps it
  -- alive until the call ends.
  unfoldable pub handle_event : Handlers S → Bool → Channel → ℕ → S → S
  handle_event h alive c recv_time s =
      if c.tied && not alive
      then s
      else h.set_handing false (conduct h c.revents recv_time (h.set_handing true s))

-- What an `assert` on a member that may hold no value can do.
pub data Checked : Type 0 where
  passed refused indeterminate : Checked

abbrev check_false : Option Bool → Checked → Checked
check_false none rest = indeterminate
check_false (some true) rest = refused
check_false (some false) rest = rest

-- The asserts of the destructor; `in_loop_thread` and `known` are what the loop answers.
unfoldable pub destruct : Bool → Bool → Channel → Checked
destruct in_loop_thread known c =
    check_false c.event_handing
      (check_false c.added_in_loop (if in_loop_thread && known then refused else passed))
