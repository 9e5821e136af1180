-- ===== src/Vde2/Handshake/Stages.antt =====
-- transport_vde2.c: the stage that a connection has come to, which decides the handlers of its events.
use vde.Base.{
  ℕ, ◌≡◌, ap, sym, ◌∙◌, Bool, true, false, Option, none, some, ◌==◌, ◌&&◌, not, is_some,
  if◌then◌else◌, arith, Option-cases, Bool-cases, inl, inr,
}
use vde.Base.Int.{ℤ}
use vde.Glib.{Glib}
use vde.Vde2.Handshake.{
  Backend, Event, Sys, Handler, get_request, send_request, read_ctl, read_data, write_data,
  put_conn, event_add, event_del, close_backend, vde2_conn_close, remove_pending, drop_conn,
}
use vde.Vde2.Handshake.Owned.{
  is_at, owns, dropped, events-del, conns-del, close_backend-conns, close_backend-events,
}

-- The field that an event of the handler is kept in. The handlers of the handshake wait on a connection
-- without an event of its data socket, and that which replies has a request to reply to.
abbrev pub fits : Handler → Backend → ℕ → Bool
fits get_request c h = is_at c.ctl_ev h && not (is_some c.data_ev_rd)
fits send_request c h = is_at c.ctl_ev h && (not (is_some c.data_ev_rd) && is_some c.remote_request)
fits read_ctl c h = is_at c.ctl_ev h
fits read_data c h = is_at c.data_ev_rd h
fits write_data c h = is_at c.sending.data_ev_wr h

abbrev pub held : Handler → Option Backend → ℕ → Bool
held k none h = false
held k (some c) h = fits k c h

abbrev pub staged_by : (ℕ → Option Backend) → Option Event → ℕ → Bool
staged_by conns none h = true
staged_by conns (some e) h = held e.handler (conns e.arg) h

abbrev pub IsStaged : Sys → Type 0
IsStaged s = (h : ℕ) → staged_by s.conns (s.events h) h ≡ true

-- The connection of an event that is set.
pub stage_of :
    (s : Sys) (h : ℕ) (e : Event)
    → IsStaged s
    → s.events h ≡ some e
    → (c : Backend) × (s.conns e.arg ≡ some c) × (fits e.handler c h ≡ true)
stage_of s h e o fires =
    let mine : held e.handler (s.conns e.arg) h ≡ true =
      sym (ap (λ x. staged_by s.conns x h) fires) ∙ o h in
    elim (Option-cases (s.conns e.arg)) [
      | inl absent ↦ absurd (ground (arith, mine, ap (λ x. held e.handler x h) absent))
      | inr (c, here) ↦ (c, here, sym (ap (λ x. held e.handler x h) here) ∙ mine)
    ]

pub fits-owns : (k : Handler) (c : Backend) (h : ℕ) → fits k c h ≡ true → owns (some c) h ≡ true
fits-owns get_request c h p = ground (arith, p)
fits-owns send_request c h p = ground (arith, p)
fits-owns read_ctl c h p = ground (arith, p)
fits-owns read_data c h p = ground (arith, p)
fits-owns write_data c h p = ground (arith, p)

-- The tables change, but a connection with an event keeps what the event needs.
pub step-IsStaged :
    (s s' : Sys)
    → IsStaged s
    → ((h : ℕ) (e : Event)
        → s'.events h ≡ some e
        → (s.events h ≡ some e)
          × ((c : Backend)
              → s.conns e.arg ≡ some c
              → fits e.handler c h ≡ true
              → held e.handler (s'.conns e.arg) h ≡ true))
    → IsStaged s'
step-IsStaged s s' o keeps h = elim (Option-cases (s'.events h)) [
  | inl quiet ↦ ap (λ x. staged_by s'.conns x h) quiet
  | inr (e, fires) ↦
      let (old, carries) = keeps h e fires in
      let (c, here, fit) = stage_of s h e o old in
      ap (λ x. staged_by s'.conns x h) fires ∙ carries c here fit
]

-- A connection is changed, and keeps what its event needs.
put_held :
    (a : ℕ) (c d : Backend) (s : Sys) (b : ℕ) (c' : Backend) (k : Handler) (h : ℕ)
    → s.conns a ≡ some c
    → (fits k c h ≡ true → fits k d h ≡ true)
    → s.conns b ≡ some c'
    → fits k c' h ≡ true
    → held k (if a == b then some d else s.conns b) h ≡ true
put_held a c d s b c' k h here keeps there fit = elim (Bool-cases (a == b)) [
  | inl mine ↦
      let same : some c ≡ some c' =
        sym here ∙ (ap s.conns {x = a} {y = b} (ground (arith, mine)) ∙ there) in
      ap (λ x. held k (if x then some d else s.conns b) h) mine
      ∙ keeps (ap (λ x. held k x h) same ∙ fit)
  | inr other ↦
      ap (λ x. held k (if x then some d else s.conns b) h) other
      ∙ (ap (λ x. held k x h) there ∙ fit)
]

-- An event that is left is none of those that are deleted.
left_over :
    (ev : Option ℕ) (h : ℕ) (x : Option Event) (e : Event)
    → dropped ev h x ≡ some e
    → (is_at ev h ≡ false) × (x ≡ some e)
left_over ev h x e left = elim (Bool-cases (is_at ev h)) [
  | inl gone ↦ absurd (ground (arith, left, gone))
  | inr kept ↦ (kept, sym (ap (λ b. if b then none else x) kept) ∙ left)
]

-- One event is deleted, and the connection keeps what its other events need.
pub forget-IsStaged :
    (a : ℕ) (c d : Backend) (ev : Option ℕ) (s : Sys)
    → IsStaged s
    → s.conns a ≡ some c
    → ((k : Handler) (h : ℕ) → is_at ev h ≡ false → fits k c h ≡ true → fits k d h ≡ true)
    → IsStaged (put_conn a (some d) (event_del ev s))
forget-IsStaged a c d ev s o here keeps =
    step-IsStaged s (put_conn a (some d) (event_del ev s)) o λ h e fires.
      let (kept, old) = left_over ev h (s.events h) e (sym (events-del ev s h) ∙ fires) in
      (
        old,
        λ c' there fit.
            ap
              (λ (f : ℕ → Option Backend).
                held e.handler (if a == e.arg then some d else f e.arg) h)
              (conns-del ev s)
            ∙ put_held a c d s e.arg c' e.handler h here (keeps e.handler h kept) there fit,
      )

-- An event is added for a connection that has come to its stage.
pub add-IsStaged :
    (a : ℕ) (c : Backend) (ev : Option ℕ) (fd : ℤ) (k : Handler) (s : Sys)
    → IsStaged s
    → s.conns a ≡ some c
    → ((h : ℕ) → is_at ev h ≡ true → fits k c h ≡ true)
    → IsStaged (event_add ev (record { fd = fd; handler = k; arg = a }) s)
add-IsStaged a c none fd k s o here has h = o h
add-IsStaged a c (some n) fd k s o here has h = elim (Bool-cases (n == h)) [
  | inl new ↦
      let e : Event = record { fd = fd; handler = k; arg = a } in
      ap (λ b. staged_by s.conns (if b then some e else s.events h) h) new
      ∙ (ap (λ x. held k x h) here ∙ has h new)
  | inr old ↦
      let e : Event = record { fd = fd; handler = k; arg = a } in
      ap (λ b. staged_by s.conns (if b then some e else s.events h) h) old ∙ o h
]

-- Closing a connection leaves no event of it.
pub close_backend-IsStaged :
    (a : ℕ) (c : Backend) (s : Sys)
    → IsStaged s
    → s.conns a ≡ some c
    → IsStaged (close_backend a c s)
close_backend-IsStaged a c s o here = step-IsStaged s (close_backend a c s) o λ h e fires.
    let (kept, old) = unowned h e (sym (close_backend-events a c s h) ∙ fires) in
    (
      old,
      λ c' there fit. elim (Bool-cases (a == e.arg)) [
        | inl mine ↦
            let same : some c' ≡ some c =
              sym there ∙ (sym (ap s.conns {x = a} {y = e.arg} (ground (arith, mine))) ∙ here) in
            absurd
              (ground (arith, kept, sym (ap (λ x. owns x h) same) ∙ fits-owns e.handler c' h fit))
        | inr other ↦
            ap (λ x. held e.handler x h)
              (close_backend-conns a c s e.arg
                ∙ (ap (λ b. if b then none else s.conns e.arg) other ∙ there))
            ∙ fit
      ],
    )
  where
    unowned :
        (h : ℕ) (e : Event)
        → (if owns (some c) h then none else s.events h) ≡ some e
        → (owns (some c) h ≡ false) × (s.events h ≡ some e)
    unowned h e left = elim (Bool-cases (owns (some c) h)) [
      | inl gone ↦ absurd (ground (arith, ap (λ b. if b then none else s.events h) gone, left))
      | inr kept ↦ (kept, sym (ap (λ b. if b then none else s.events h) kept) ∙ left)
    ]

-- A connection gets a place where there was none.
pub fresh-IsStaged :
    (a : ℕ) (d : Backend) (s : Sys)
    → IsStaged s
    → s.conns a ≡ none
    → IsStaged (put_conn a (some d) s)
fresh-IsStaged a d s o free = step-IsStaged s (put_conn a (some d) s) o λ h e fires. (
  fires,
  λ c' there fit. elim (Bool-cases (a == e.arg)) [
    | inl mine ↦
        absurd (ground (arith, there, free, ap s.conns {x = a} {y = e.arg} (ground (arith, mine))))
    | inr other ↦
        ap (λ b. held e.handler (if b then some d else s.conns e.arg) h) other
        ∙ (ap (λ x. held e.handler x h) there ∙ fit)
  ],
)

pub close-IsStaged :
    (a : ℕ) (c : Backend) (s : Sys)
    → IsStaged s
    → s.conns a ≡ some c
    → (s' : Sys) × (vde2_conn_close a s ≡ some s') × IsStaged s'
unfolding vde2_conn_close
close-IsStaged a c s o here =
    (close_backend a c s, ground (arith, here), close_backend-IsStaged a c s o here)

module _ ⦃g : Glib⦄ where
  pub drop_conn-IsStaged :
      (a : ℕ) (c : Backend) (s : Sys)
      → IsStaged s
      → s.conns a ≡ some c
      → (s' : Sys) × (drop_conn a s ≡ some s') × IsStaged s'
  unfolding drop_conn
  drop_conn-IsStaged a c s o here = close-IsStaged a c (remove_pending a s) o here
