-- ===== src/Vde2/Handshake/Writing.antt =====
-- transport_vde2.c: a write to a connection, the sending of its packets, and users that write keep the events
-- and the queues.
use vde.Base.{
  ℕ, ◌≡◌, refl, true, Option, some, ◌==◌, is_some, is_done, if◌then◌else◌, arith, ==_refl,
  Bool-cases, inl, inr, Status,
}
use vde.Glib.{Glib}
use vde.Packet.{Pkt}
use vde.Packet.Laws.{IsValid}
use vde.Vde2.{Vde2Conn, is_epipe, vde2_conn_write}
use vde.Vde2.Laws.{IsReady, vde2_conn_write_lem}
use vde.Vde2.Handshake.{
  Backend, Event, Sys, Handler, get_request, send_request, read_ctl, read_data, write_data,
  put_conn, vde2_conn_close,
}
use vde.Vde2.Handshake.Owned.{is_at}
use vde.Vde2.Handshake.Stages.{fits}
use vde.Vde2.Handshake.Steps.{
  IsSafe, put-IsSafe, forget-IsSafe, add-IsSafe, close-IsSafe, written_event,
}
use vde.Vde2.Handshake.Traffic.{write_at, sent_at, Writes, no_more, and_write}

-- The state is safe, and every connection is still there.
pub record Kept (s t : Sys) : Type 0 where
  pub safe : IsSafe t
  pub there : (b : ℕ) (c : Backend) → s.conns b ≡ some c → (d : Backend) × (t.conns b ≡ some d)

Kept-trans : {s t u : Sys} → Kept s t → Kept t u → Kept s u
Kept-trans st tu = record {
  safe = tu.safe;
  there = λ b c e. let (d, e') = st.there b c e in tu.there b d e';
}

-- Only the event for sending depends on the part of a connection that sending changes.
sending-fits :
    (k : Handler) (c : Backend) (v : Vde2Conn) (h : ℕ)
    → (is_at c.sending.data_ev_wr h ≡ true → is_at v.data_ev_wr h ≡ true)
    → fits k c h ≡ true
    → fits k (record c { sending = v }) h ≡ true
sending-fits get_request c v h keeps fit = fit
sending-fits send_request c v h keeps fit = fit
sending-fits read_ctl c v h keeps fit = fit
sending-fits read_data c v h keeps fit = fit
sending-fits write_data c v h keeps fit = keeps fit

put_there :
    (a : ℕ) (d : Backend) (s : Sys) (b : ℕ) (c : Backend)
    → s.conns b ≡ some c
    → (e : Backend) × ((put_conn a (some d) s).conns b ≡ some e)
put_there a d s b c here = elim (Bool-cases (a == b)) [
  | inl mine ↦ (d, ground (arith, mine))
  | inr other ↦ (c, ground (arith, other, here))
]

module _ ⦃g : Glib⦄ where
  write_at-Kept :
      (new : Option Pkt) (event a : ℕ) (c : Backend) (pkt : Pkt) (s : Sys)
      → IsSafe s
      → s.conns a ≡ some c
      → IsValid pkt
      → Kept s (write_at new (some event) a c pkt s).0
  unfolding write_at
  write_at-Kept new event a c pkt s o here valid =
      let (v, st) = vde2_conn_write new (some event) c.sending pkt in
      let after = written_event new event c.sending pkt in
      let d : Backend = record c { sending = v } in
      let fine : IsReady v =
        (vde2_conn_write_lem new event c.sending pkt (o.ready a c here) valid).0 in
      let put = put_conn a (some d) s in
      let safe : IsSafe put =
        put-IsSafe a c d s o here fine
          (λ k h. sending-fits k c v h (λ at. ground (arith, at, after))) in
      let now : put.conns a ≡ some d = ground (arith, ==_refl a) in
      let e : Event = record { fd = c.data_fd; handler = write_data; arg = a } in
      elim (Bool-cases (is_some c.sending.data_ev_wr)) [
        | inl watched ↦ rw watched (record { safe = safe; there = put_there a d s })
        | inr unwatched ↦ elim (Bool-cases (is_done st)) [
          | inr refused ↦ rw (unwatched, refused) (record { safe = safe; there = put_there a d s })
          | inl taken ↦
              rw (unwatched, taken)
                (record {
                  safe =
                      add-IsSafe a d (some event) c.data_fd write_data put safe now
                        (λ h at. ground (arith, at, after, unwatched, taken));
                  there = put_there a d s;
                })
        ]
      ]

  pub Writes-Kept : {s t : Sys} → Writes s t → IsSafe s → Kept s t
  Writes-Kept no_more o = record { safe = o; there = λ b c here. (c, here) }
  Writes-Kept (and_write {s} new event a c pkt here valid rest) o =
      let first = write_at-Kept new event a c pkt s o here valid in
      Kept-trans first (Writes-Kept rest first.safe)

  -- A user that writes is told, and the connection is closed where it answers with EPIPE.
  pub told-IsSafe :
      (call : Sys → Sys × Status) (a : ℕ) (c : Backend) (s : Sys)
      → Writes s (call s).0
      → IsSafe s
      → s.conns a ≡ some c
      → (s' : Sys) × (let (t, st) = call s in
          (if is_epipe st then vde2_conn_close a t else some t) ≡ some s')
        × IsSafe s'
  told-IsSafe call a c s wrote o here =
      let (t, st) = call s in
      let kept = Writes-Kept wrote o in
      let (d, still) = kept.there a c here in
      elim (Bool-cases (is_epipe st)) [
        | inl close ↦ rw close (close-IsSafe a d t kept.safe still)
        | inr stay ↦ rw stay (t, refl, kept.safe)
      ]

  pub sent_at-IsSafe :
      (v : Vde2Conn) (a : ℕ) (c : Backend) (s : Sys)
      → IsSafe s
      → s.conns a ≡ some c
      → IsReady v
      → (is_some v.data_ev_wr ≡ true → v.data_ev_wr ≡ c.sending.data_ev_wr)
      → IsSafe (sent_at (some v) a c s)
  unfolding sent_at
  sent_at-IsSafe v a c s o here fine same = elim (Bool-cases (is_some v.data_ev_wr)) [
    | inl watched ↦ rw watched (
        put-IsSafe a c (record c { sending = v }) s o here fine
          (λ k h. sending-fits k c v h (λ at. ground (arith, at, same watched))))
    | inr drained ↦ rw drained (
        forget-IsSafe a c (record c { sending = v }) c.sending.data_ev_wr s o here fine
          (λ k h other. sending-fits k c v h (λ at. ground (arith, at, other))))
  ]
