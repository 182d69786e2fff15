-- ===== src/Buffer/Refine.antt =====
-- include/benet/buffer.h: a valid Buffer beside the byte queue of its content.
use benet.Prelude.{
  ℕ, zero, suc, ◌+◌, ◌-◌, ◌≤◌, ◌<◌, ◌≡◌, refl, ap, ap₂, ◌∙◌, sym, List, [], ◌∷◌, ◌++◌, Option, none,
  some, Outcome, ok, assert_failed, ◌>>=◌, Returns, Returns->>=, Returns-mono, arith, leb, max_size,
  size_add, leb-true, leb-false, length, take, drop, Bool-cases, take_all, drop_all, inl, inr,
}
use benet.Memory.{byte_at, slice, length-slice}
use benet.Buffer.{
  Buffer, readable_bytes, retrieve, retrieve_as_string, retrieve_all_as_string, retrieve_all,
  append,
}
use benet.Buffer.Space.{IsValid, contents}
use benet.Buffer.Write.{Appended, append-Appended}
use benet.Buffer.Queue
use benet.Buffer.Queue.{Call, appends, retrieves, takes, takes_all, clears, grows, appended}

-- One call of a client: the bytes handed out, and the buffer.
unfoldable pub step : Call → Buffer → Outcome (List ℕ × Buffer)
step (appends bytes) b = append bytes b >>= λ b'. ok ([], b')
step (retrieves n) b = retrieve n b >>= λ b'. ok ([], b')
step (takes n) b = retrieve_as_string n b
step takes_all b = retrieve_all_as_string b
step clears b = ok ([], retrieve_all b)

unfoldable pub run : List Call → Buffer → Outcome (List ℕ × Buffer)
run [] b = ok ([], b)
run (c ∷ cs) b = step c b >>= λ r. run cs r.1 >>= λ s. ok (r.0 ++ s.0, s.1)

drop-slice : (xs : List ℕ) (p n m : ℕ) → m ≤ n → drop m (slice xs p n) ≡ slice xs (p + m) (n - m)
drop-slice xs p n zero h = ap₂ (slice xs) (omega arith) (omega arith)
drop-slice xs p zero (suc m) h = absurd (omega arith)
drop-slice xs p (suc n) (suc m) h =
    drop-slice xs (p + 1) n m (omega arith) ∙ ap₂ (slice xs) (omega arith) (omega arith)

pub take-slice : (xs : List ℕ) (p n m : ℕ) → m ≤ n → take m (slice xs p n) ≡ slice xs p m
take-slice xs p n zero h = refl
take-slice xs p zero (suc m) h = absurd (omega arith)
take-slice xs p (suc n) (suc m) h =
    ap (◌∷◌ (byte_at xs p)) (take-slice xs (p + 1) n m (omega arith))

pub length-contents : (b : Buffer) → length (contents b) ≡ b.writer_index - b.reader_index
length-contents b = length-slice b.buffer b.reader_index (b.writer_index - b.reader_index)

-- How a call of the buffer matches the queue: the same bytes, the same failure, and the writer has
-- moved by no more than what was appended.
abbrev pub Matches : ℕ → Option (List ℕ × List ℕ) → Outcome (List ℕ × Buffer) → Type 0
Matches w none m = m ≡ assert_failed
Matches w (some (out, q)) m =
    Returns (λ r. (r.0 ≡ out) × IsValid r.1 × (contents r.1 ≡ q) × (r.1.writer_index ≤ w)) m

-- `Retrieve` drops bytes from the front, and asserts that there are as many.
pub retrieve_lem :
    (n : ℕ) (b : Buffer)
    → IsValid b
    → n ≤ length (contents b)
    → Returns
        (λ b'.
          IsValid b' × (contents b' ≡ drop n (contents b)) × (b'.writer_index ≡ b.writer_index))
        (retrieve n b)
unfolding retrieve
retrieve_lem n b v h = rw (leb-true n (readable_bytes b) (omega (arith, length-contents b))) (
  omega (arith, length-contents b),
  ap₂ (slice b.buffer) start rest
      ∙ sym (drop-slice b.buffer b.reader_index (b.writer_index - b.reader_index) n small),
  refl,
)
  where
    small : n ≤ b.writer_index - b.reader_index
    small = omega (arith, length-contents b)

    start : size_add b.reader_index n ≡ b.reader_index + n
    start = omega (arith, small)

    rest : b.writer_index - size_add b.reader_index n ≡ b.writer_index - b.reader_index - n
    rest = omega (arith, small)

retrieve_short :
    (n : ℕ) (b : Buffer) → IsValid b → length (contents b) < n → retrieve n b ≡ assert_failed
unfolding retrieve
retrieve_short n b v h = rw (leb-false n (readable_bytes b) (omega (arith, length-contents b))) refl

retrieve_as_string_lem :
    (n : ℕ) (b : Buffer)
    → IsValid b
    → n ≤ length (contents b)
    → Returns
        (λ r.
          (r.0 ≡ take n (contents b))
          × IsValid r.1
          × (contents r.1 ≡ drop n (contents b))
          × (r.1.writer_index ≤ b.writer_index))
        (retrieve_as_string n b)
unfolding retrieve_as_string
retrieve_as_string_lem n b v h =
    rw (leb-true n (readable_bytes b) (omega (arith, length-contents b))) (
      Returns->>=
        (λ b'.
          IsValid b' × (contents b' ≡ drop n (contents b)) × (b'.writer_index ≡ b.writer_index))
        _ (retrieve n b) _ (retrieve_lem n b v h)
        λ b' k. (
          sym (
              take-slice b.buffer b.reader_index (b.writer_index - b.reader_index) n
                (omega (arith, length-contents b))),
          k.0,
          k.1,
          omega (arith, k.2),
        ))

retrieve_as_string_short :
    (n : ℕ) (b : Buffer)
    → IsValid b
    → length (contents b) < n
    → retrieve_as_string n b ≡ assert_failed
unfolding retrieve_as_string
retrieve_as_string_short n b v h =
    rw (leb-false n (readable_bytes b) (omega (arith, length-contents b))) refl

-- `RetrieveAsString` and the rest do what the queue does, failures included.
pub step-Matches :
    (c : Call) (b : Buffer)
    → IsValid b
    → b.writer_index + grows c ≤ max_size
    → Matches (b.writer_index + grows c) (Queue.step c (contents b)) (step c b)
unfolding step Queue.step retrieve_all retrieve_all_as_string
step-Matches (appends bytes) b v h =
    Returns->>= (Appended b bytes) _ (append bytes b) _ (append-Appended bytes b v h)
      λ b' r. (refl, r.valid, r.holds, r.moved)
step-Matches (retrieves n) b v h = elim (Bool-cases (leb n (length (contents b)))) [
  | inl t ↦ rw t (
      Returns->>=
        (λ b'.
          IsValid b' × (contents b' ≡ drop n (contents b)) × (b'.writer_index ≡ b.writer_index))
        _ (retrieve n b) _ (retrieve_lem n b v (ground arith))
        λ b' k. (refl, k.0, k.1, omega (arith, k.2)))
  | inr t ↦ rw (t, retrieve_short n b v (ground arith)) refl
]
step-Matches (takes n) b v h = elim (Bool-cases (leb n (length (contents b)))) [
  | inl t ↦ rw t (
      Returns-mono _ _ (retrieve_as_string n b) (retrieve_as_string_lem n b v (ground arith))
        λ r k. (k.0, k.1, k.2, omega (arith, k.3)))
  | inr t ↦ rw (t, retrieve_as_string_short n b v (ground arith)) refl
]
step-Matches takes_all b v h =
    Returns-mono _ _ (retrieve_as_string (readable_bytes b) b)
      (retrieve_as_string_lem (readable_bytes b) b v (omega (arith, length-contents b)))
      λ r k. (
        k.0 ∙ take_all (readable_bytes b) (contents b) (omega (arith, length-contents b)),
        k.1,
        k.2 ∙ drop_all (readable_bytes b) (contents b) (omega (arith, length-contents b)),
        omega (arith, k.3),
      )
step-Matches clears b v h = (refl, omega arith, refl, omega (arith, v.behind))

-- How a history of the buffer matches one of the queue.
abbrev pub RunMatches : Option (List ℕ × List ℕ) → Outcome (List ℕ × Buffer) → Type 0
RunMatches none m = m ≡ assert_failed
RunMatches (some (out, q)) m = Returns (λ r. (r.0 ≡ out) × IsValid r.1 × (contents r.1 ≡ q)) m

RunMatches-before :
    (out : List ℕ) (s : Option (List ℕ × List ℕ)) (m : Outcome (List ℕ × Buffer))
    → RunMatches s m
    → RunMatches (Queue.before out s) (m >>= λ r. ok (out ++ r.0, r.1))
RunMatches-before out none m h = rw h refl
RunMatches-before out (some (outs, q)) m h =
    Returns->>= _ _ m _ h λ r k. (ap (◌++◌ out) k.0, k.1, k.2)

RunMatches-cons :
    (cs : List Call) (w : ℕ) (s : Option (List ℕ × List ℕ)) (m : Outcome (List ℕ × Buffer))
    → Matches w s m
    → ((b : Buffer)
        → IsValid b
        → b.writer_index ≤ w
        → RunMatches (Queue.run cs (contents b)) (run cs b))
    → RunMatches
        (elim s [ none ↦ none | some (out, q) ↦ Queue.before out (Queue.run cs q) ])
        (m >>= λ r. run cs r.1 >>= λ t. ok (r.0 ++ t.0, t.1))
RunMatches-cons cs w none m h ih = rw h refl
RunMatches-cons cs w (some (out, q)) (ok (o, b)) (same, v, holds, le) ih =
    rw (same, ← holds) (RunMatches-before out (Queue.run cs (contents b)) (run cs b) (ih b v le))
RunMatches-cons cs w (some (out, q)) _ h ih = absurd h

-- No history of `Append`, `Retrieve`, `RetrieveAsString`, `RetrieveAllAsString` and `RetrieveAll`
-- tells a valid buffer from the byte queue of its content: the same bytes come out, the same
-- content is left, and an assertion fails in the one exactly where the other has no result.
-- Condition: all the bytes appended fit behind the writer within `max_size`.
pub run_refines :
    (cs : List Call) (b : Buffer)
    → IsValid b
    → b.writer_index + appended cs ≤ max_size
    → RunMatches (Queue.run cs (contents b)) (run cs b)
unfolding run Queue.run
run_refines [] b v h = (refl, v, refl)
run_refines (c ∷ cs) b v h =
    RunMatches-cons cs (b.writer_index + grows c) (Queue.step c (contents b)) (step c b)
      (step-Matches c b v (omega arith)) λ b' v' le. run_refines cs b' v' (omega arith)
