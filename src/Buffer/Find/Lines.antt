-- ===== src/Buffer/Find/Lines.antt =====
-- include/benet/buffer.h: FindEOL and FindCRLF on the content, with RetrieveUntil.
use benet.Prelude.{
  ℕ, zero, suc, ◌+◌, ◌-◌, ◌≤◌, ◌≡◌, ◌≢◌, ap, ap₂, ◌∙◌, sym, List, [], ◌∷◌, ◌++◌, arith, length,
  length-append, drop, drop-append, Returns, Returns-mono, subst, false, leb-true, none, some,
  Option, Bool-cases, inl, inr, ◌==◌, ◌&&◌, size_sub, append_assoc,
}
use benet.Memory.{slice, byte_at}
use benet.Buffer.{Buffer, readable_bytes, peek, retrieve, retrieve_until}
use benet.Buffer.Space.{IsValid, contents}
use benet.Buffer.Refine.{length-contents, retrieve_lem}
use benet.Buffer.Find.{cr, lf, memchr, memmem, find_eol, find_crlf}

abbrev pub Lacks : ℕ → List ℕ → Type 0
Lacks c [] = Unit {0}
Lacks c (x ∷ xs) = (x ≢ c) × Lacks c xs

-- No '\r' stands directly before a '\n'.
abbrev pub LacksCrlf : List ℕ → Type 0
LacksCrlf [] = Unit {0}
LacksCrlf (x ∷ []) = Unit {0}
LacksCrlf (x ∷ y ∷ xs) = (¬ ((x ≡ cr) × (y ≡ lf))) × LacksCrlf (y ∷ xs)

-- The result of a search for '\n' in the bytes `s` that begin at `p`.
abbrev pub SplitsEol : List ℕ → ℕ → Option ℕ → Type 0
SplitsEol s p none = Lacks lf s
SplitsEol s p (some k) =
    (line : List ℕ) × (rest : List ℕ) × (s ≡ line ++ lf ∷ rest)
    × Lacks lf line
    × (k ≡ p + length line)

-- The same for "\r\n".
abbrev pub SplitsCrlf : List ℕ → ℕ → Option ℕ → Type 0
SplitsCrlf s p none = LacksCrlf s
SplitsCrlf s p (some k) =
    (line : List ℕ) × (rest : List ℕ) × (s ≡ line ++ cr ∷ lf ∷ rest)
    × LacksCrlf (line ++ cr ∷ [])
    × (k ≡ p + length line)

SplitsEol-cons :
    (x : ℕ) (s : List ℕ) (p : ℕ) (r : Option ℕ)
    → x ≢ lf
    → SplitsEol s (p + 1) r
    → SplitsEol (x ∷ s) p r
SplitsEol-cons x s p none h k = (h, k)
SplitsEol-cons x s p (some j) h (line, rest, e, free, at) =
    (x ∷ line, rest, ap (◌∷◌ x) e, (h, free), omega (arith, at))

memchr-SplitsEol : (xs : List ℕ) (p n : ℕ) → SplitsEol (slice xs p n) p (memchr xs p lf n)
unfolding memchr
memchr-SplitsEol xs p zero = tt
memchr-SplitsEol xs p (suc n) = elim (Bool-cases (byte_at xs p == lf)) [
  | inl t ↦
      rw t
        ([], slice xs (p + 1) n, ap (λ k. k ∷ slice xs (p + 1) n) (ground arith), tt, omega arith)
  | inr t ↦ rw t (
      SplitsEol-cons (byte_at xs p) (slice xs (p + 1) n) p (memchr xs (p + 1) lf n) (ground arith)
        (memchr-SplitsEol xs (p + 1) n))
]

LacksCrlf-cons :
    (x y : ℕ) (s : List ℕ) (line rest : List ℕ)
    → ¬ ((x ≡ cr) × (y ≡ lf))
    → y ∷ s ≡ line ++ cr ∷ lf ∷ rest
    → LacksCrlf (line ++ cr ∷ [])
    → LacksCrlf (x ∷ line ++ cr ∷ [])
LacksCrlf-cons x y s [] rest h e k = (λ q. absurd (grind (arith, q.1)), tt)
LacksCrlf-cons x y s (z ∷ line) rest h e k = (λ q. h (q.0, ground (arith, q.1)), k)

SplitsCrlf-cons :
    (x y : ℕ) (s : List ℕ) (p : ℕ) (r : Option ℕ)
    → ¬ ((x ≡ cr) × (y ≡ lf))
    → SplitsCrlf (y ∷ s) (p + 1) r
    → SplitsCrlf (x ∷ y ∷ s) p r
SplitsCrlf-cons x y s p none h k = (h, k)
SplitsCrlf-cons x y s p (some j) h (line, rest, e, free, at) =
    (x ∷ line, rest, ap (◌∷◌ x) e, LacksCrlf-cons x y s line rest h e free, omega (arith, at))

not_both : (x y : ℕ) → (x == cr && y == lf) ≡ false → ¬ ((x ≡ cr) × (y ≡ lf))
not_both x y t (p, q) = ground arith

memmem-SplitsCrlf : (xs : List ℕ) (p n : ℕ) → SplitsCrlf (slice xs p n) p (memmem xs p n)
unfolding memmem
memmem-SplitsCrlf xs p zero = tt
memmem-SplitsCrlf xs p (suc zero) = tt
memmem-SplitsCrlf xs p (suc (suc n)) =
    elim (Bool-cases (byte_at xs p == cr && byte_at xs (p + 1) == lf)) [
      | inl t ↦ rw t (
        [],
        slice xs (p + 1 + 1) n,
        ap₂ (λ j k. j ∷ k ∷ slice xs (p + 1 + 1) n) (ground arith) (ground arith),
        tt,
        omega arith,
      )
      | inr t ↦ rw t (
          SplitsCrlf-cons (byte_at xs p) (byte_at xs (p + 1)) (slice xs (p + 1 + 1) n) p
            (memmem xs (p + 1) (suc n)) (not_both (byte_at xs p) (byte_at xs (p + 1)) t)
            (memmem-SplitsCrlf xs (p + 1) (suc n)))
    ]

-- What is left to read, as the two searches compute it.
readable_lem : (b : Buffer) → IsValid b → readable_bytes b ≡ b.writer_index - b.reader_index
readable_lem b v = omega arith

-- FindEOL returns null exactly where the content has no '\n', and else the place of the first: the
-- content is a line without '\n', the '\n' found and the rest.
pub find_eol-SplitsEol :
    (b : Buffer) → IsValid b → SplitsEol (contents b) b.reader_index (find_eol b)
unfolding find_eol
find_eol-SplitsEol b v =
    rw (readable_lem b v)
      (memchr-SplitsEol b.buffer b.reader_index (b.writer_index - b.reader_index))

-- FindCRLF returns null exactly where the content has no "\r\n", and else the place of the first:
-- the content is a line, the "\r\n" found and the rest, and there is no earlier "\r\n".
pub find_crlf-SplitsCrlf :
    (b : Buffer) → IsValid b → SplitsCrlf (contents b) b.reader_index (find_crlf b)
unfolding find_crlf
find_crlf-SplitsCrlf b v =
    rw (readable_lem b v)
      (memmem-SplitsCrlf b.buffer b.reader_index (b.writer_index - b.reader_index))

retrieve_until_lem :
    (line rest : List ℕ) (end : ℕ) (b : Buffer)
    → IsValid b
    → contents b ≡ line ++ rest
    → end ≡ b.reader_index + length line
    → Returns (λ b'. IsValid b' × (contents b' ≡ rest)) (retrieve_until end b)
unfolding retrieve_until
retrieve_until_lem line rest end b v e at =
    rw
      (
        leb-true b.reader_index end (omega (arith, at)),
        leb-true end b.writer_index (omega (arith, at, short)),
        count,
      )
      (Returns-mono _ _ (retrieve (length line) b) (retrieve_lem (length line) b v whole)
        λ b' k. (k.0, k.1 ∙ ap (drop (length line)) e ∙ drop-append line rest))
  where
    whole : length line ≤ length (contents b)
    whole = omega (arith, ap length e, length-append line rest)

    short : length line ≤ b.writer_index - b.reader_index
    short = omega (arith, whole, length-contents b)

    count : size_sub end (peek b) ≡ length line
    count = omega (arith, at, short)

-- A client that finds a '\n' and retrieves up to and with it takes off exactly the first line.
pub retrieve_until-find_eol :
    (b : Buffer) (k : ℕ)
    → IsValid b
    → find_eol b ≡ some k
    → Returns
        (λ b'.
          IsValid b' × ((line : List ℕ) × (contents b ≡ line ++ lf ∷ contents b') × Lacks lf line))
        (retrieve_until (k + 1) b)
retrieve_until-find_eol b k v e =
    let (line, rest, split, free, at) =
      subst (SplitsEol (contents b) b.reader_index) e (find_eol-SplitsEol b v) in
    Returns-mono _ _ (retrieve_until (k + 1) b)
      (retrieve_until_lem (line ++ lf ∷ []) rest (k + 1) b v
        (split ∙ sym (append_assoc line (lf ∷ []) rest))
        (omega (arith, at, length-append line (lf ∷ []))))
      λ b' r. (r.0, (line, split ∙ ap (λ t. line ++ lf ∷ t) (sym r.1), free))

-- The same for "\r\n".
pub retrieve_until-find_crlf :
    (b : Buffer) (k : ℕ)
    → IsValid b
    → find_crlf b ≡ some k
    → Returns
        (λ b'.
          IsValid b'
          × ((line : List ℕ) × (contents b ≡ line ++ cr ∷ lf ∷ contents b')
              × LacksCrlf (line ++ cr ∷ [])))
        (retrieve_until (k + 2) b)
retrieve_until-find_crlf b k v e =
    let (line, rest, split, free, at) =
      subst (SplitsCrlf (contents b) b.reader_index) e (find_crlf-SplitsCrlf b v) in
    Returns-mono _ _ (retrieve_until (k + 2) b)
      (retrieve_until_lem (line ++ cr ∷ lf ∷ []) rest (k + 2) b v
        (split ∙ sym (append_assoc line (cr ∷ lf ∷ []) rest))
        (omega (arith, at, length-append line (cr ∷ lf ∷ []))))
      λ b' r. (r.0, (line, split ∙ ap (λ t. line ++ cr ∷ lf ∷ t) (sym r.1), free))
