-- ===== src/Channel/Names.antt =====
-- src/channel.cpp: events_as_string, the names of the events for the log, as bytes; and Tie.
use benet.Prelude.{
  ℕ, ◌≡◌, refl, sym, ap, ◌∙◌, List, [], ◌∷◌, ◌++◌, append_assoc, append-nil, Bool, true, false,
  ◌==◌, if◌then◌else◌,
}
use benet.Channel.{Channel, epollin, epollpri, epollout, epollerr, epollhup, epollrdhup, has}

-- `Tie`: the weak pointer is kept by the client here.
unfoldable pub tie : Channel → Channel
tie c = record c { tied = true }

abbrev pub space : ℕ
space = 0x20

-- "IN", "PRI", "OUT", "HUP", "RDHUP" and "ERR" in ASCII.
abbrev pub name_in : List ℕ
name_in = 73 ∷ 78 ∷ []

abbrev pub name_pri : List ℕ
name_pri = 80 ∷ 82 ∷ 73 ∷ []

abbrev pub name_out : List ℕ
name_out = 79 ∷ 85 ∷ 84 ∷ []

abbrev pub name_hup : List ℕ
name_hup = 72 ∷ 85 ∷ 80 ∷ []

abbrev pub name_rdhup : List ℕ
name_rdhup = 82 ∷ 68 ∷ name_hup

abbrev pub name_err : List ℕ
name_err = 69 ∷ 82 ∷ 82 ∷ []

-- `if (ev & mask) str.append(name and a space)`
abbrev pub append_if : Bool → List ℕ → List ℕ → List ℕ
append_if b name str = if b then str ++ (name ++ space ∷ []) else str

-- `if (!str.empty() && str.back() == ' ') str.pop_back()`
abbrev pub pop_space : List ℕ → List ℕ
pop_space [] = []
pop_space (x ∷ []) = if x == space then [] else x ∷ []
pop_space (x ∷ y ∷ ys) = x ∷ pop_space (y ∷ ys)

unfoldable pub events_as_string : ℕ → List ℕ
events_as_string ev =
    let s₁ = append_if (has ev epollin) name_in [] in
    let s₂ = append_if (has ev epollpri) name_pri s₁ in
    let s₃ = append_if (has ev epollout) name_out s₂ in
    let s₄ = append_if (has ev epollhup) name_hup s₃ in
    let s₅ = append_if (has ev epollrdhup) name_rdhup s₄ in
    let s₆ = append_if (has ev epollerr) name_err s₅ in pop_space s₆

abbrev pub named : Bool → List ℕ → List (List ℕ)
named b name = if b then name ∷ [] else []

-- The names of the events with these flags, and of those in a word.
abbrev pub names_of : (i p o h rh e : Bool) → List (List ℕ)
names_of i p o h rh e =
    ((((named i name_in ++ named p name_pri) ++ named o name_out) ++ named h name_hup)
      ++ named rh name_rdhup)
    ++ named e name_err

abbrev pub names_in : ℕ → List (List ℕ)
names_in ev =
    names_of (has ev epollin) (has ev epollpri) (has ev epollout) (has ev epollhup)
      (has ev epollrdhup) (has ev epollerr)

-- Words with one space between each two.
abbrev pub unwords : List (List ℕ) → List ℕ
unwords [] = []
unwords (w ∷ []) = w
unwords (w ∷ v ∷ vs) = w ++ space ∷ unwords (v ∷ vs)

-- Words with one space behind each.
abbrev spaced : List (List ℕ) → List ℕ
spaced [] = []
spaced (w ∷ ws) = (w ++ space ∷ []) ++ spaced ws

spaced-append : (vs ws : List (List ℕ)) → spaced (vs ++ ws) ≡ spaced vs ++ spaced ws
spaced-append [] ws = refl
spaced-append (v ∷ vs) ws =
    ap (◌++◌ (v ++ space ∷ [])) (spaced-append vs ws)
    ∙ sym (append_assoc (v ++ space ∷ []) (spaced vs) (spaced ws))

-- A step of the code puts the words of that step behind.
append_if_lem :
    (b : Bool) (name : List ℕ) (ws : List (List ℕ))
    → append_if b name (spaced ws) ≡ spaced (ws ++ named b name)
append_if_lem true name ws =
    ap (◌++◌ (spaced ws)) (sym (append-nil (name ++ space ∷ [])))
    ∙ sym (spaced-append ws (name ∷ []))
append_if_lem false name ws = ap spaced (sym (append-nil ws))

pop_space-append :
    (xs : List ℕ) (y : ℕ) (ys : List ℕ) → pop_space (xs ++ y ∷ ys) ≡ xs ++ pop_space (y ∷ ys)
pop_space-append [] y ys = refl
pop_space-append (x ∷ []) y ys = refl
pop_space-append (x ∷ z ∷ xs) y ys = ap (◌∷◌ x) (pop_space-append (z ∷ xs) y ys)

behind_space :
    (v rest : List ℕ)
    → pop_space (space ∷ (v ++ space ∷ []) ++ rest) ≡ space ∷ pop_space ((v ++ space ∷ []) ++ rest)
behind_space [] rest = refl
behind_space (x ∷ v) rest = refl

pop_space-spaced : (ws : List (List ℕ)) → pop_space (spaced ws) ≡ unwords ws
pop_space-spaced [] = refl
pop_space-spaced (w ∷ []) =
    ap pop_space (append-nil (w ++ space ∷ [])) ∙ pop_space-append w space [] ∙ append-nil w
pop_space-spaced (w ∷ v ∷ vs) =
    ap pop_space (append_assoc w (space ∷ []) (spaced (v ∷ vs)))
    ∙ pop_space-append w space (spaced (v ∷ vs))
    ∙ ap (◌++◌ w) (behind_space v (spaced vs) ∙ ap (◌∷◌ space) (pop_space-spaced (v ∷ vs)))

appended :
    (i p o h rh e : Bool)
    → append_if e name_err (
        append_if rh name_rdhup (
          append_if h name_hup
            (append_if o name_out (append_if p name_pri (append_if i name_in [])))))
      ≡ spaced (names_of i p o h rh e)
appended i p o h rh e =
    ap
      (λ s. append_if e name_err (
        append_if rh name_rdhup
          (append_if h name_hup (append_if o name_out (append_if p name_pri s)))))
      (append_if_lem i name_in [])
    ∙ ap
        (λ s.
          append_if e name_err
            (append_if rh name_rdhup (append_if h name_hup (append_if o name_out s))))
        (append_if_lem p name_pri _)
    ∙ ap (λ s. append_if e name_err (append_if rh name_rdhup (append_if h name_hup s)))
        (append_if_lem o name_out _)
    ∙ ap (λ s. append_if e name_err (append_if rh name_rdhup s)) (append_if_lem h name_hup _)
    ∙ ap (append_if e name_err) (append_if_lem rh name_rdhup _)
    ∙ append_if_lem e name_err _

-- The text for the log is the names of exactly the events in the word, in the order IN, PRI, OUT,
-- HUP, RDHUP, ERR, with one space between each two, and no other space.
pub events_as_string_lem : (ev : ℕ) → events_as_string ev ≡ unwords (names_in ev)
unfolding events_as_string
events_as_string_lem ev =
    ap pop_space (
      appended (has ev epollin) (has ev epollpri) (has ev epollout) (has ev epollhup)
        (has ev epollrdhup) (has ev epollerr))
    ∙ pop_space-spaced (names_in ev)
