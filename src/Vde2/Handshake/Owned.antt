-- ===== src/Vde2/Handshake/Owned.antt =====
-- transport_vde2.c: every event belongs to a connection that is there, which has it in a field, so that
-- it is deleted with the connection.
use vde.Base.{
  ℕ, ◌≡◌, refl, ap, sym, ◌∙◌, Bool, true, false, Option, none, some, ◌==◌, ◌||◌, if◌then◌else◌,
  arith, Option-cases, Bool-cases, inl, inr,
}
use vde.Base.Int.{ℤ, pos, negsuc}
use vde.Vde2.Handshake.{
  Backend, Event, Sys, Handler, put_conn, event_add, event_del, close_fd, close_backend,
}

abbrev pub is_at : Option ℕ → ℕ → Bool
is_at none h = false
is_at (some k) h = k == h

-- The connection has the event in one of its fields.
abbrev pub owns : Option Backend → ℕ → Bool
owns none h = false
owns (some c) h = is_at c.ctl_ev h || (is_at c.data_ev_rd h || is_at c.sending.data_ev_wr h)

abbrev pub owned_by : (ℕ → Option Backend) → Option Event → ℕ → Bool
owned_by conns none h = true
owned_by conns (some e) h = owns (conns e.arg) h

-- The connection of an event is there, and has the event.
abbrev pub IsOwned : Sys → Type 0
IsOwned s = (h : ℕ) → owned_by s.conns (s.events h) h ≡ true

-- One event of a connection is deleted, and the connection forgets at most that one.
pub forget-IsOwned :
    (a : ℕ) (c d : Backend) (ev : Option ℕ) (s : Sys)
    → IsOwned s
    → s.conns a ≡ some c
    → ((h : ℕ) → is_at ev h ≡ false → owns (some c) h ≡ true → owns (some d) h ≡ true)
    → IsOwned (put_conn a (some d) (event_del ev s))
forget-IsOwned a c d none s o here keeps h = elim (Option-cases (s.events h)) [
  | inl quiet ↦ ground (arith, quiet)
  | inr (e, fires) ↦ elim (Bool-cases (a == e.arg)) [
    | inr other ↦ ground (arith, fires, other, o h)
    | inl mine ↦ ground (
      arith,
      fires,
      mine,
      o h,
      here,
      keeps h,
      ap s.conns {x = a} {y = e.arg} (ground (arith, mine)),
    )
  ]
]
forget-IsOwned a c d (some k) s o here keeps h = elim (Bool-cases (k == h)) [
  | inl gone ↦ ground (arith, gone)
  | inr left ↦ elim (Option-cases (s.events h)) [
    | inl quiet ↦ ground (arith, quiet, left)
    | inr (e, fires) ↦ elim (Bool-cases (a == e.arg)) [
      | inr other ↦ ground (arith, fires, other, left, o h)
      | inl mine ↦ ground (
        arith,
        fires,
        mine,
        left,
        o h,
        here,
        keeps h,
        ap s.conns {x = a} {y = e.arg} (ground (arith, mine)),
      )
    ]
  ]
]

-- An event is added for a connection that has it.
pub add-IsOwned :
    (a : ℕ) (c : Backend) (ev : Option ℕ) (fd : ℤ) (handler : Handler) (s : Sys)
    → IsOwned s
    → s.conns a ≡ some c
    → ((h : ℕ) → is_at ev h ≡ true → owns (some c) h ≡ true)
    → IsOwned (event_add ev (record { fd = fd; handler = handler; arg = a }) s)
add-IsOwned a c none fd handler s o here has h = o h
add-IsOwned a c (some k) fd handler s o here has h = elim (Bool-cases (k == h)) [
  | inl new ↦ ground (arith, new, here, has h)
  | inr old ↦ ground (arith, old, o h)
]

pub close_fd-IsOwned : (fd : ℤ) (s : Sys) → IsOwned s → IsOwned (close_fd fd s)
close_fd-IsOwned (pos n) s o = o
close_fd-IsOwned (negsuc n) s o = o

-- The event at `h` once that of a field is deleted.
abbrev pub dropped : Option ℕ → ℕ → Option Event → Option Event
dropped ev h e = if is_at ev h then none else e

pub events-del :
    (ev : Option ℕ) (s : Sys) (h : ℕ) → (event_del ev s).events h ≡ dropped ev h (s.events h)
events-del none s h = refl
events-del (some k) s h = refl

pub conns-del : (ev : Option ℕ) (s : Sys) → (event_del ev s).conns ≡ s.conns
conns-del none s = refl
conns-del (some k) s = refl

events-close : (fd : ℤ) (s : Sys) → (close_fd fd s).events ≡ s.events
events-close (pos n) s = refl
events-close (negsuc n) s = refl

conns-close : (fd : ℤ) (s : Sys) → (close_fd fd s).conns ≡ s.conns
conns-close (pos n) s = refl
conns-close (negsuc n) s = refl

-- The state when the descriptors are closed and the events deleted.
abbrev shut : Backend → Sys → Sys
shut c s = event_del c.ctl_ev (
    close_fd c.ctl_fd
      (event_del c.sending.data_ev_wr (event_del c.data_ev_rd (close_fd c.data_fd s))))

conns-shut : (c : Backend) (s : Sys) → (shut c s).conns ≡ s.conns
conns-shut c s =
    let s1 = close_fd c.data_fd s in
    let s2 = event_del c.data_ev_rd s1 in
    let s3 = event_del c.sending.data_ev_wr s2 in
    conns-del c.ctl_ev (close_fd c.ctl_fd s3)
    ∙ (conns-close c.ctl_fd s3
        ∙ (conns-del c.sending.data_ev_wr s2
            ∙ (conns-del c.data_ev_rd s1 ∙ conns-close c.data_fd s)))

events-shut :
    (c : Backend) (s : Sys) (h : ℕ)
    → (shut c s).events h ≡ (if owns (some c) h then none else s.events h)
events-shut c s h =
    let s1 = close_fd c.data_fd s in
    let s2 = event_del c.data_ev_rd s1 in
    let s3 = event_del c.sending.data_ev_wr s2 in
    let e1 = events-del c.ctl_ev (close_fd c.ctl_fd s3) h in
    let e2 = ap (λ (f : ℕ → Option Event). f h) (events-close c.ctl_fd s3) in
    let e3 = events-del c.sending.data_ev_wr s2 h in
    let e4 = events-del c.data_ev_rd s1 h in
    let e5 = ap (λ (f : ℕ → Option Event). f h) (events-close c.data_fd s) in
    e1
    ∙ (ap (dropped c.ctl_ev h)
          (e2 ∙ (e3 ∙ ap (dropped c.sending.data_ev_wr h) (e4 ∙ ap (dropped c.data_ev_rd h) e5)))
        ∙ merge (is_at c.ctl_ev h) (is_at c.data_ev_rd h) (is_at c.sending.data_ev_wr h)
            (s.events h))
  where
    merge :
        (p q r : Bool) (e : Option Event)
        → (if p then none else if r then none else if q then none else e)
          ≡ (if p || (q || r) then none else e)
    merge true q r e = refl
    merge false true true e = refl
    merge false true false e = refl
    merge false false true e = refl
    merge false false false e = refl

-- What is left of the tables when a connection is closed.
pub close_backend-conns :
    (a : ℕ) (c : Backend) (s : Sys) (b : ℕ)
    → (close_backend a c s).conns b ≡ (if a == b then none else s.conns b)
unfolding close_backend
close_backend-conns a c s b =
    ap (λ (f : ℕ → Option Backend). if a == b then none else f b) (conns-shut c s)

pub close_backend-events :
    (a : ℕ) (c : Backend) (s : Sys) (h : ℕ)
    → (close_backend a c s).events h ≡ (if owns (some c) h then none else s.events h)
unfolding close_backend
close_backend-events a c s h = events-shut c s h

-- Closing a connection leaves no event of it, and the events of the others.
pub close_backend-IsOwned :
    (a : ℕ) (c : Backend) (s : Sys) → IsOwned s → s.conns a ≡ some c → IsOwned (close_backend a c s)
close_backend-IsOwned a c s o here h =
    let events = close_backend-events a c s h in
    elim (Bool-cases (owns (some c) h)) [
      | inl mine ↦
          let none_left : (close_backend a c s).events h ≡ none =
            events ∙ ap (λ b. if b then none else s.events h) mine in
          rw none_left refl
      | inr others ↦
          let same : (close_backend a c s).events h ≡ s.events h =
            events ∙ ap (λ b. if b then none else s.events h) others in
          elim (Option-cases (s.events h)) [
            | inl quiet ↦ rw (same, quiet) refl
            | inr (e, fires) ↦ elim (Bool-cases (a == e.arg)) [
              | inl mine ↦
                  let path : s.conns e.arg ≡ some c =
                    sym (ap s.conns {x = a} {y = e.arg} (ground (arith, mine))) ∙ here in
                  absurd (ground (arith, fires, o h, path, others))
              | inr away ↦
                  let kept : (close_backend a c s).conns e.arg ≡ s.conns e.arg =
                    close_backend-conns a c s e.arg
                    ∙ ap (λ b. if b then none else s.conns e.arg) away in
                  rw (same, fires) (ap (λ x. owns x h) kept ∙ ground (arith, fires, o h))
            ]
          ]
    ]
