-- ===== src/Buffer/Queue.antt =====
-- What class Buffer of include/benet/buffer.h promises its clients: a queue of bytes. A call that
-- asks for more bytes than there are has no result.
use benet.Prelude.{
  ℕ, ◌+◌, List, [], ◌∷◌, ◌++◌, Option, none, some, leb, if◌then◌else◌, length, take, drop,
}

pub data Call : Type 0 where
  appends : List ℕ → Call
  retrieves takes : ℕ → Call
  takes_all clears : Call

-- The bytes that the call hands out, and those that stay.
unfoldable pub step : Call → List ℕ → Option (List ℕ × List ℕ)
step (appends bytes) q = some ([], q ++ bytes)
step (retrieves n) q = if leb n (length q) then some ([], drop n q) else none
step (takes n) q = if leb n (length q) then some (take n q, drop n q) else none
step takes_all q = some (q, [])
step clears q = some ([], [])

-- The bytes handed out so far, before the result of the rest of a history.
abbrev pub before : List ℕ → Option (List ℕ × List ℕ) → Option (List ℕ × List ℕ)
before out none = none
before out (some (outs, q)) = some (out ++ outs, q)

-- All that a history of calls hands out, and what is left.
unfoldable pub run : List Call → List ℕ → Option (List ℕ × List ℕ)
run [] q = some ([], q)
run (c ∷ cs) q = elim (step c q) [ none ↦ none | some (out, q') ↦ before out (run cs q') ]

-- The bytes that a call appends, and that a history does.
abbrev pub grows : Call → ℕ
grows (appends bytes) = length bytes
grows (retrieves n) = 0
grows (takes n) = 0
grows takes_all = 0
grows clears = 0

abbrev pub appended : List Call → ℕ
appended [] = 0
appended (c ∷ cs) = grows c + appended cs
