-- ===== src/Vde2/Trace/Handler.antt =====
-- vde2_conn_write_data_event: what is sent and what is left in the queue.
use vde.Base.{
  ℕ, ◌+◌, ◌≤◌, ◌≡◌, subst, true, Option, none, some, List, if◌then◌else◌, arith, backwards,
  backwards-backwards, is_some, length,
}
use vde.Glib.{Glib}
use vde.Packet.{Pkt}
use vde.Vde2.{
  Vde2Pkt, Vde2Conn, Socket, Ended, err_close, goes_on, send_loop, vde2_conn_write_data_event,
}
use vde.Vde2.Laws.{IsReady}
use vde.Vde2.Callbacks.{IsBounded}
use vde.Vde2.Sending.{Continues, vde2_conn_write_data_event_lem}
use vde.Vde2.Trace.{names, IsRecorded, Split, Traced}
use vde.Vde2.Trace.Loop.{send_loop-Traced}

module _ ⦃g : Glib⦄ {S : Type 0} (sock : Socket S) (maxtries : ℕ) (tried wrote : S → List Pkt)
    (rec : IsRecorded sock tried wrote) where
  -- What is known of the packets of the connection, which `none` is when it is closed.
  abbrev pub Sends : Vde2Conn → S → Option Vde2Conn → S → Type 0
  Sends v2_conn s none s' =
      (left : List Pkt) × Split tried wrote (names (backwards v2_conn.pkt_queue)) left s s'
  Sends v2_conn s (some v) s' =
      IsReady v
      × Split tried wrote (names (backwards v2_conn.pkt_queue)) (names (backwards v.pkt_queue)) s s'

  ended-Sends :
      (v2_conn : Vde2Conn) (s s' : S) (r : Option Vde2Conn) (x : Option (S × Ended))
      → Traced tried wrote (names (backwards v2_conn.pkt_queue)) s x
      → ◌≡◌ {A = Option (Option Vde2Conn × S)}
          (elim x [
            | none ↦ none
            | some (u, ended) ↦ elim ended [
              | err_close ↦ some (none, u)
              | goes_on queue drained ↦ some (
                some (record {
                  data_ev_wr = if drained then none else v2_conn.data_ev_wr;
                  pkt_queue = queue;
                }),
                u,
              )
            ]
          ])
          (some (r, s'))
      → Continues v2_conn r
      → Sends v2_conn s r s'
  ended-Sends v2_conn s s' r none t e c = absurd (ground (arith, e))
  ended-Sends v2_conn s s' none (some (u, err_close)) (left, t) e c = (
    left,
    subst (λ (k : S). Split tried wrote (names (backwards v2_conn.pkt_queue)) left s k)
        (ground (arith, e)) t,
  )
  ended-Sends v2_conn s s' (some v) (some (u, err_close)) t e c = absurd (ground (arith, e))
  ended-Sends v2_conn s s' none (some (u, goes_on queue drained)) t e c = absurd (ground (arith, e))
  ended-Sends v2_conn s s' (some v) (some (u, goes_on queue drained)) t e c =
      let same_queue : queue ≡ v.pkt_queue = ground (arith, e) in
      let same_user : u ≡ s' = ground (arith, e) in
      (
        c.0,
        subst
            (λ (k : S).
              Split tried wrote (names (backwards v2_conn.pkt_queue))
                (names (backwards v.pkt_queue)) s k)
            same_user
            (subst
              (λ (q : List Vde2Pkt).
                Split tried wrote (names (backwards v2_conn.pkt_queue)) (names (backwards q)) s u)
              same_queue t),
      )

  -- The handler of the write event ends. The packets that waited, and behind them those that callbacks wrote
  -- meanwhile, are then split, in this order, in those that are gone and those that are left. The socket was
  -- given each packet that is gone, once and in this order, and at most one more, which is the first that
  -- is left. If the connection is not closed, its queue is what is left, in its bound and watched. It is
  -- assumed that callbacks put what they write behind the queue, and have a bound on what they still write, for
  -- which the fuel is enough; `tried` and `wrote` record what the socket was given and what callbacks wrote.
  pub write_data_event-Sends :
      (left : S → ℕ) (n : ℕ) (v2_conn : Vde2Conn) (s : S)
      → IsBounded sock left
      → IsReady v2_conn
      → is_some v2_conn.data_ev_wr ≡ true
      → length v2_conn.pkt_queue + left s + 1 ≤ n
      → (r : Option Vde2Conn) × (s' : S) × (vde2_conn_write_data_event sock maxtries n v2_conn s
          ≡ some (r, s'))
        × Sends v2_conn s r s'
  unfolding vde2_conn_write_data_event
  write_data_event-Sends left n v2_conn s bounded ready event enough =
      let (r, s', ran, c) =
        vde2_conn_write_data_event_lem sock maxtries left bounded n v2_conn s ready event enough in
      let traced =
        subst
          (λ q.
            Traced tried wrote (names (backwards v2_conn.pkt_queue)) s
              (send_loop sock maxtries n q s))
          (backwards-backwards v2_conn.pkt_queue)
          (send_loop-Traced sock maxtries tried wrote rec n (backwards v2_conn.pkt_queue) s) in
      (
        r,
        s',
        ran,
        ended-Sends v2_conn s s' r (send_loop sock maxtries n v2_conn.pkt_queue s) traced ran c,
      )
