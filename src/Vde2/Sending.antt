-- ===== src/Vde2/Sending.antt =====
-- Sending the packets that wait: the order in which they leave, and that sending ends.
use vde.Base.{
  ℕ, zero, suc, ◌+◌, ◌%◌, ◌^◌, ◌≤◌, ◌≡◌, refl, sym, ◌∙◌, ap, true, false, Option, none, some, List,
  [], ◌∷◌, ◌++◌, ltb, not, ◌||◌, if◌then◌else◌, is_some, length, length-append, arith, Bool-cases,
  inl, inr, ◌⊎◌, map, drop, backwards, backwards-snoc, backwards-backwards, length-backwards,
  append_assoc, append-nil,
}
use vde.Glib.{Glib}
use vde.Connection.{conn_write_closed, conn_write_delay}
use vde.Vde2.{
  maxqlen, Vde2Pkt, Vde2Conn, Outcome, complete, fatal, retry, outcome_of, is_epipe, Socket, Ended,
  err_close, goes_on, give_up, send_loop, vde2_conn_write_data_event,
}
use vde.Vde2.Laws.{is_nil, IsReady}
use vde.Vde2.Callbacks.{IsBounded, Extended, extended}

-- How the loop has ended: the connection is closed, or what waits is the newer part of what has waited
-- and of what was added, in its order.
abbrev Left : List Vde2Pkt → Ended → Type 0
Left ps err_close = Unit
Left ps (goes_on queue drained) =
    (k : ℕ) × (added : List Vde2Pkt) × (map (λ p. p.pkt) (backwards queue)
      ≡ drop k (map (λ p. p.pkt) (ps ++ added)))
    × ((not drained || is_nil queue) ≡ true)
    × (length queue ≤ maxqlen)

dropped-Left :
    (ps queue : List Vde2Pkt) (p : Vde2Pkt) (n m : ℕ)
    → Extended ps queue n m
    → Left (p ∷ ps) (goes_on queue false)
dropped-Left ps queue p n m (extra, same, used, fits) = (
  1,
  extra,
  ap (λ l. map (λ q. q.pkt) (backwards l)) same
      ∙ ap (map (λ q. q.pkt)) (backwards-backwards (ps ++ extra)),
  refl,
  omega (arith, ap length same, length-backwards (ps ++ extra), fits),
)

older-Left :
    (ps extra : List Vde2Pkt) (p : Vde2Pkt) (ended : Ended)
    → Left (ps ++ extra) ended
    → Left (p ∷ ps) ended
older-Left ps extra p err_close left = tt
older-Left ps extra p (goes_on queue drained) (k, added, same, empty, short) = (
  suc k,
  extra ++ added,
  same ∙ ap (λ l. drop k (map (λ q. q.pkt) l)) (append_assoc ps extra added),
  empty,
  short,
)

pub Outcome-cases : (o : Outcome) → (o ≡ complete) ⊎ ((o ≡ fatal) ⊎ (o ≡ retry))
Outcome-cases complete = inl refl
Outcome-cases fatal = inr (inl refl)
Outcome-cases retry = inr (inr refl)

-- A connection that is closed, or that is ready with the newer part of the packets that waited and of
-- those that were added.
abbrev pub Continues : Vde2Conn → Option Vde2Conn → Type 0
Continues v2_conn none = Unit
Continues v2_conn (some v2') =
    IsReady v2'
    × (k : ℕ) × (added : List Vde2Pkt) × (map (λ p. p.pkt) (backwards v2'.pkt_queue)
        ≡ drop k (map (λ p. p.pkt) (backwards v2_conn.pkt_queue ++ added)))

module _ ⦃g : Glib⦄ {S : Type 0} (sock : Socket S) (maxtries : ℕ) (left : S → ℕ)
    (ok : IsBounded sock left) where
  give_up-Left :
      (ps : List Vde2Pkt) (p : Vde2Pkt) (s : S)
      → length ps + 1 ≤ maxqlen
      → Left (p ∷ ps) (give_up sock maxtries (backwards ps) p s).1
  unfolding give_up
  give_up-Left ps p s short =
      let tries = (p.numtries + 1) % 2 ^ 32 in
      let again = g.push_tail_law (backwards ps) (record p { numtries = tries }) in
      let (queue, s', st) = sock.call_error p.pkt conn_write_delay (backwards ps) s in
      elim (Bool-cases (ltb maxtries tries)) [
        | inl over ↦ elim (Bool-cases (is_epipe st)) [
          | inl close ↦ rw (over, close, give_up) tt
          | inr stay ↦
              rw (over, stay, give_up)
                (dropped-Left ps queue p (left s) (left s') (
                  extended ps queue (left s) (left s') (omega (arith, short))
                    (ok.errors p.pkt conn_write_delay (backwards ps) s)))
        ]
        | inr under ↦
            rw (under, give_up, again)
              (
                0,
                [],
                ap (map (λ q. q.pkt))
                      (backwards-snoc (backwards ps) (record p { numtries = tries }))
                    ∙ (ap (λ l. p.pkt ∷ map (λ q. q.pkt) l) (backwards-backwards ps)
                        ∙ ap (λ l. p.pkt ∷ map (λ q. q.pkt) l) (sym (append-nil ps))),
                refl,
                omega (
                  arith,
                  short,
                  length-append (backwards ps) ((record p { numtries = tries }) ∷ []),
                  length-backwards ps,
                ),
              )
      ]

  send_loop-Left :
      (n : ℕ) (ps : List Vde2Pkt) (s : S)
      → length ps + left s + 1 ≤ n
      → length ps ≤ maxqlen
      → (s' : S) × (ended : Ended) × (send_loop sock maxtries n (backwards ps) s ≡ some (s', ended))
        × Left ps ended
  unfolding send_loop
  send_loop-Left zero ps s h short = absurd (omega (arith, h))
  send_loop-Left (suc n) [] s h short =
      (s, goes_on [] true, rw (g.pop_tail_nil Vde2Pkt, send_loop), (0, [], refl, refl, omega arith))
  send_loop-Left (suc n) (p ∷ ps) s h short =
      let pop = g.pop_tail_snoc (backwards ps) p in
      let (s1, len) = sock.sendto p.pkt s in
      let fits : length ps ≤ maxqlen = omega (arith, short) in
      elim (Outcome-cases (outcome_of len)) [
        | inl e ↦
            let (queue, s2, st) = sock.call_write p.pkt (backwards ps) s1 in
            let (extra, same, used, room) =
              extended ps queue (left s1) (left s2) fits (ok.writes p.pkt (backwards ps) s1) in
            elim (Bool-cases (is_epipe st)) [
              | inl close ↦ (s2, err_close, rw (pop, e, close, send_loop), tt)
              | inr stay ↦
                  let (s', ended, ran, rest) =
                    send_loop-Left n (ps ++ extra) s2
                      (omega (arith, h, used, ok.sends p.pkt s, length-append ps extra)) room in
                  (
                    s',
                    ended,
                    rw (pop, e, stay, send_loop)
                        (ap (λ q. send_loop sock maxtries n q s2) same ∙ ran),
                    older-Left ps extra p ended rest,
                  )
            ]
        | inr (inl e) ↦
            let (queue, s3, st) = sock.call_error p.pkt conn_write_closed (backwards ps) s1 in
            elim (Bool-cases (is_epipe st)) [
              | inl close ↦ (s3, err_close, rw (pop, e, close, send_loop), tt)
              | inr stay ↦ (
                s3,
                goes_on queue false,
                rw (pop, e, stay, send_loop),
                dropped-Left ps queue p (left s1) (left s3) (
                    extended ps queue (left s1) (left s3) fits
                      (ok.errors p.pkt conn_write_closed (backwards ps) s1)),
              )
            ]
        | inr (inr e) ↦
            let r = give_up sock maxtries (backwards ps) p s1 in
            (r.0, r.1, rw (pop, e, send_loop), give_up-Left ps p s1 (omega (arith, short)))
      ]

  handler_after :
      (n : ℕ) (v2_conn : Vde2Conn) (s s' : S) (ended : Ended)
      → is_some v2_conn.data_ev_wr ≡ true
      → send_loop sock maxtries n v2_conn.pkt_queue s ≡ some (s', ended)
      → Left (backwards v2_conn.pkt_queue) ended
      → (r : Option Vde2Conn) × (s' : S) × (vde2_conn_write_data_event sock maxtries n v2_conn s
          ≡ some (r, s'))
        × Continues v2_conn r
  unfolding vde2_conn_write_data_event
  handler_after n v2_conn s s' err_close event ran rest =
      (none, s', rw (ran, vde2_conn_write_data_event), tt)
  handler_after n v2_conn s s' (goes_on queue drained) event ran (k, added, same, empty, short) = (
    some (record { data_ev_wr = if drained then none else v2_conn.data_ev_wr; pkt_queue = queue }),
    s',
    rw (ran, vde2_conn_write_data_event),
    (record { bounded = short; watched = ground (arith, empty, event) }, k, added, same),
  )

  -- With a user that has a bound on what it still writes, the handler of the write event ends. It
  -- closes the connection, or the packets that wait are the newer part of those that waited and those
  -- that callbacks added, in their order; the queue is in its bound and, if there was an event, watched.
  pub vde2_conn_write_data_event_lem :
      (n : ℕ) (v2_conn : Vde2Conn) (s : S)
      → IsReady v2_conn
      → is_some v2_conn.data_ev_wr ≡ true
      → length v2_conn.pkt_queue + left s + 1 ≤ n
      → (r : Option Vde2Conn) × (s' : S) × (vde2_conn_write_data_event sock maxtries n v2_conn s
          ≡ some (r, s'))
        × Continues v2_conn r
  vde2_conn_write_data_event_lem n v2_conn s ready event enough =
      let queue = v2_conn.pkt_queue in
      let (s', ended, ran, rest) =
        send_loop-Left n (backwards queue) s (omega (arith, enough, length-backwards queue))
          (omega (arith, ready.bounded, length-backwards queue)) in
      handler_after n v2_conn s s' ended event
        (ap (λ q. send_loop sock maxtries n q s) (sym (backwards-backwards queue)) ∙ ran) rest
