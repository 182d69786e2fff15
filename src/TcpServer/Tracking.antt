-- ===== src/TcpServer/Tracking.antt =====
-- src/tcp_server.cpp: the keys of the map, beside the connections that are open or being removed.
use benet.Prelude.{
  ℕ, suc, ◌+◌, ◌^◌, ◌≤◌, ◌<◌, ◌≡◌, refl, List, [], ◌∷◌, ◌++◌, true, false, ◌==◌, ==_self,
  if◌then◌else◌, ltb, ok, assert, ◌>>=◌, Returns, Returns->>=, Bool-cases, inl, inr, arith,
}
use benet.TcpServer.{
  TcpServer, init, contains, erase_key, erased, new_connection, close, remove_connection, Step,
  accepts, removes, closes, step, run,
}

-- How often a number stands in a list.
abbrev pub copies : (key : ℕ) → List ℕ → ℕ
copies key [] = 0
copies key (k ∷ keys) = copies key keys + (if k == key then 1 else 0)

-- Every connection that is open or being removed is in the map, the map holds nothing else, each
-- stands there once, and numbers from the next one on are free. Every connection that was accepted is
-- in the map or its ConnectionDestroyed is queued, and not both.
pub record Tracked (s : TcpServer) : Type 0 where
  pub known : (x : ℕ) → copies x s.connections ≡ copies x s.opened + copies x s.removals
  pub once : (x : ℕ) → copies x s.connections ≤ 1
  pub free : (x : ℕ) → s.next_conn_id ≤ x → copies x s.connections ≡ 0
  pub accounted :
      (x : ℕ)
      → copies x s.connections + copies x s.destroys ≡ (if ltb x s.next_conn_id then 1 else 0)

pub copies-append :
    (key : ℕ) (old new : List ℕ) → copies key (old ++ new) ≡ copies key new + copies key old
copies-append key [] new = omega arith
copies-append key (k ∷ old) new = let ih = copies-append key old new in omega arith

missing_never_counted : (a : ℕ) (xs : List ℕ) → contains a xs ≡ false → copies a xs ≡ 0
missing_never_counted a [] h = refl
missing_never_counted a (x ∷ xs) h =
    let rest = missing_never_counted a xs (ground arith) in ground arith

uncounted_is_missing : (a : ℕ) (xs : List ℕ) → copies a xs ≡ 0 → contains a xs ≡ false
uncounted_is_missing a [] h = refl
uncounted_is_missing a (x ∷ xs) h = elim (Bool-cases (x == a)) [
  | inl e ↦ ground arith
  | inr e ↦ let rest = uncounted_is_missing a xs (ground arith) in ground arith
]

-- Erasing a key that is there takes one occurrence away.
copies-erase_key :
    (a x : ℕ) (xs : List ℕ)
    → contains a xs ≡ true
    → copies x (erase_key a xs) + (if a == x then 1 else 0) ≡ copies x xs
copies-erase_key a x [] h = ground arith
copies-erase_key a x (y ∷ ys) h = elim (Bool-cases (y == a)) [
  | inl e ↦ rw e (ground arith)
  | inr e ↦ let rest = copies-erase_key a x ys (ground arith) in rw e (omega arith)
]

new_connection-Tracked :
    (s : TcpServer) → s.next_conn_id + 1 < 2 ^ 64 → Tracked s → Tracked (new_connection s)
unfolding new_connection
new_connection-Tracked s small t =
    let out =
      uncounted_is_missing s.next_conn_id s.connections (t.free s.next_conn_id (omega arith)) in
    rw out (record {
      known = λ x. let k = t.known x in omega arith;
      once = λ x. elim (Bool-cases (s.next_conn_id == x)) [
        | inl e ↦ let f = t.free x (ground arith) in rw e (omega arith)
        | inr e ↦ let o = t.once x in rw e (omega arith)
      ];
      free = λ x h. let f = t.free x (omega arith) in ground arith;
      accounted = λ x. let a = t.accounted x in let f = t.free x in ground arith;
    })

close-Tracked : (id : ℕ) (s : TcpServer) → Tracked s → Tracked (close id s)
unfolding close
close-Tracked id s t = elim (Bool-cases (contains id s.opened)) [
  | inr e ↦ rw e t
  | inl e ↦ rw e (record {
    known = λ x.
        let moved = copies-erase_key id x s.opened e in
        let k = t.known x in omega (arith, copies-append x s.removals (id ∷ []));
    once = t.once;
    free = t.free;
    accounted = t.accounted;
  })
]

abbrev GoesOn : TcpServer → TcpServer → Type 0
GoesOn s s' = Tracked s' × (s'.next_conn_id ≡ s.next_conn_id)

remove_connection-Tracked : (s : TcpServer) → Tracked s → Returns (GoesOn s) (remove_connection s)
unfolding remove_connection
remove_connection-Tracked s t = go s.removals (λ x. t.known x)
  where
    there :
        (id : ℕ) (rest : List ℕ)
        → ((x : ℕ) → copies x s.connections ≡ copies x s.opened + copies x (id ∷ rest))
        → contains id s.connections ≡ true
    there id rest known = elim (Bool-cases (contains id s.connections)) [
      | inl e ↦ e
      | inr e ↦
          let none_there = missing_never_counted id s.connections e in
          let k = known id in let self = ==_self id in absurd (ground arith)
    ]

    go :
        (rs : List ℕ)
        → ((x : ℕ) → copies x s.connections ≡ copies x s.opened + copies x rs)
        → Returns (GoesOn s) (elim rs [
          | [] ↦ ok s
          | id ∷ rest ↦ assert (erased id s.connections == 1) >>= λ _. ok (record s {
            connections = erase_key id s.connections;
            removals = rest;
            destroys = s.destroys ++ id ∷ [];
          })
        ])
    go [] known = (t, refl)
    go (id ∷ rest) known =
        let e = there id rest known in
        rw e (
          (record {
            known = λ x.
                let gone = copies-erase_key id x s.connections e in let k = known x in omega arith;
            once = λ x.
                let gone = copies-erase_key id x s.connections e in let o = t.once x in omega arith;
            free = λ x h.
                let gone = copies-erase_key id x s.connections e in
                let f = t.free x h in omega arith;
            accounted = λ x.
                let gone = copies-erase_key id x s.connections e in
                let a = t.accounted x in omega (arith, copies-append x s.destroys (id ∷ []));
          }),
          refl,
        )

-- The connections that a history accepts.
abbrev pub accepted : List Step → ℕ
accepted [] = 0
accepted (accepts ∷ xs) = suc (accepted xs)
accepted (removes ∷ xs) = accepted xs
accepted (closes id ∷ xs) = accepted xs

close_next : (id : ℕ) (s : TcpServer) → (close id s).next_conn_id ≡ s.next_conn_id
unfolding close
close_next id s = elim (Bool-cases (contains id s.opened)) [ inl e ↦ rw e refl | inr e ↦ rw e refl ]

run_from :
    (xs : List Step) (s : TcpServer)
    → s.next_conn_id + accepted xs < 2 ^ 64
    → Tracked s
    → Returns Tracked (run xs s)
unfolding run step new_connection
run_from [] s small t = t
run_from (accepts ∷ xs) s small t =
    run_from xs (new_connection s) (omega arith) (new_connection-Tracked s (omega arith) t)
run_from (closes id ∷ xs) s small t =
    run_from xs (close id s) (let same = close_next id s in omega arith) (close-Tracked id s t)
run_from (removes ∷ xs) s small t =
    Returns->>= _ _ (remove_connection s) (λ s'. run xs s') (remove_connection-Tracked s t)
      (λ s' k. let same = k.1 in run_from xs s' (omega arith) k.0)

-- From the start of a server on, as long as it accepts fewer than 2^64 connections, no order of
-- accepted connections, closes and removals makes the assertion of remove_connection fail, and at
-- each end every connection that is open or being removed is in the map once, and nothing else is;
-- of every connection that was accepted and is not in the map, ConnectionDestroyed is queued once.
pub run-Tracked : (xs : List Step) → accepted xs < 2 ^ 64 → Returns Tracked (run xs init)
unfolding init
run-Tracked xs small = run_from xs init (omega arith) (record {
  known = λ x. refl;
  once = λ x. omega arith;
  free = λ x h. refl;
  accounted = λ x. ground arith;
})
