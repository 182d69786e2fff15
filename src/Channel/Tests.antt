-- ===== src/Channel/Tests.antt =====
-- src/channel.cpp: runs of the dispatch, and its theorems at concrete words.
use benet.Prelude.{
  ◌≡◌, refl, List, [], ◌∷◌, ◌++◌, true, false, not, ◌&&◌, none, some, if◌then◌else◌,
}
use benet.Channel.{
  Channel, new_channel, Handlers, init, conduct, handle_event, destruct, indeterminate,
}
use benet.Channel.Dispatch.{Event, error, close, read, events_in, run_all, handle_event_lem}
use benet.Channel.Names.{tie, space, name_in, name_hup, name_err, events_as_string}
use benet.Channel.Mask.{ActsAsFlags, events-ActsAsFlags}

-- A state that keeps the events handled, the last first.
abbrev log_all : Handlers (List Event)
log_all = record {
  on_error = some (λ s. error ∷ s);
  on_close = some (λ s. close ∷ s);
  on_read = some (λ t s. read ∷ s);
  on_write = none;
  set_handing = λ b s. s;
}

abbrev hung_up : Channel
hung_up = record {
  loop = 1;
  fd = 5;
  events = 3;
  revents = 0x201c;
  index = new_channel;
  tied = true;
  event_handing = none;
  added_in_loop = some true;
}

hung_up_runs : handle_event log_all true hung_up 9 [] ≡ read ∷ close ∷ error ∷ []
unfolding handle_event conduct init
hung_up_runs = refl

-- The destructor of a channel that handled no event reads a member that holds no value.
new_destruct : destruct true false (init 1 5) ≡ indeterminate
unfolding destruct init
new_destruct = refl

handle_event_example : handle_event log_all true hung_up 9 [] ≡ (
    if hung_up.tied && not true
    then []
    else log_all.set_handing false
        (run_all log_all 9 (events_in hung_up.revents) (log_all.set_handing true [])))
handle_event_example = handle_event_lem log_all true hung_up 9 []

flags_of_reader : ActsAsFlags true false
flags_of_reader = events-ActsAsFlags true false

-- 0x19 is EPOLLIN, EPOLLERR and EPOLLHUP: "IN HUP ERR".
text_of_three : events_as_string 0x19 ≡ name_in ++ space ∷ (name_hup ++ space ∷ name_err)
unfolding events_as_string
text_of_three = refl

tied_later : (tie (init 1 5)).tied ≡ true
unfolding tie init
tied_later = refl
