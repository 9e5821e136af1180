-- ===== src/Vde2/Handshake/Firing.antt =====
-- transport_vde2.c: each handler returns for the event that it is called for, and keeps the events and the
-- queues.
use vde.Base.{
  ℕ, ◌+◌, ◌%◌, ◌^◌, ◌≡◌, refl, ap, ◌∙◌, Bool, true, false, Option, none, some, ◌==◌, ◌&&◌,
  if◌then◌else◌, arith, ==_refl, Option-cases, Bool-cases, inl, inr, CString,
}
use vde.Base.Int.{pos, negsuc}
use vde.Glib.{Glib}
use vde.Vde2.{Vde2Conn}
use vde.Vde2.Laws.{IsReady}
use vde.Vde2.Handshake.{
  Backend, Event, Sys, Handler, get_request, send_request, read_ctl, read_data, write_data,
  put_conn, event_add, event_del, set_file, GotRequest, again, failed, end_of_file, request,
  Vde2Request, SendAnswers, may_bind, await_reply, remove_pending, zeroed_backend, after_read,
  take_request, vde2_srv_get_request, establish, vde2_srv_send_request, vde2_accept,
}
use vde.Vde2.Handshake.Owned.{is_at}
use vde.Vde2.Handshake.Outcomes.{is_servable}
use vde.Vde2.Handshake.Stages.{fits}
use vde.Vde2.Handshake.Steps.{
  IsSafe, forget-IsSafe, add-IsSafe, fresh-IsSafe, put-IsSafe, drop_conn-IsSafe, conns-add,
}
use vde.Vde2.Handshake.Writing.{Writes-Kept}
use vde.Vde2.Handshake.Traffic.{Writes}

-- The handler of the control socket has no event any more.
ctl_moved :
    (k : Handler) (c d : Backend) (h : ℕ)
    → is_at c.ctl_ev h ≡ false
    → (is_at c.data_ev_rd h ≡ true → is_at d.data_ev_rd h ≡ true)
    → d.sending ≡ c.sending
    → fits k c h ≡ true
    → fits k d h ≡ true
ctl_moved get_request c d h gone same sending fit = absurd (ground (arith, gone, fit))
ctl_moved send_request c d h gone same sending fit = absurd (ground (arith, gone, fit))
ctl_moved read_ctl c d h gone same sending fit = absurd (ground (arith, gone, fit))
ctl_moved read_data c d h gone same sending fit = same fit
ctl_moved write_data c d h gone same sending fit =
    ap (λ (v : Vde2Conn). is_at v.data_ev_wr h) sending ∙ fit

ctl_deleted :
    (a : ℕ) (c d : Backend) (s : Sys)
    → IsSafe s
    → s.conns a ≡ some c
    → ((h : ℕ) → is_at c.data_ev_rd h ≡ true → is_at d.data_ev_rd h ≡ true)
    → d.sending ≡ c.sending
    → IsReady d.sending
    → IsSafe (put_conn a (some d) (event_del c.ctl_ev s))
ctl_deleted a c d s o here same sending fine =
    forget-IsSafe a c d c.ctl_ev s o here fine (λ k h gone. ctl_moved k c d h gone (same h) sending)

module _ ⦃g : Glib⦄ where
  await_reply-IsSafe :
      (event : Option ℕ) (a : ℕ) (c : Backend) (req : Vde2Request) (s : Sys)
      → IsSafe s
      → s.conns a ≡ some c
      → c.ctl_ev ≡ none
      → c.data_ev_rd ≡ none
      → IsSafe (await_reply event a c req s)
  await_reply-IsSafe event a c req s o here quiet unread =
      let d : Backend = record c {
        ctl_ev = event;
        remote_request = some req;
        remote_path = req.sun_path;
      } in
      add-IsSafe a d event c.ctl_fd send_request (put_conn a (some d) s)
        (put-IsSafe a c d s o here (o.ready a c here)
          (λ k h. ctl_moved k c d h (ap (λ x. is_at x h) quiet) (λ at. at) refl))
        (ground (arith, ==_refl a)) (λ h at. ground (arith, at, unread))

  after_read-IsSafe :
      (got : GotRequest) (access : CString → Bool) (room : Bool) (event : Option ℕ) (a : ℕ)
      (c : Backend) (s : Sys)
      → IsSafe s
      → s.conns a ≡ some c
      → c.ctl_ev ≡ none
      → c.data_ev_rd ≡ none
      → (s' : Sys) × (after_read got access room event a c s ≡ some s') × IsSafe s'
  unfolding after_read take_request
  after_read-IsSafe again access room event a c s o here quiet unread = (s, refl, o)
  after_read-IsSafe failed access room event a c s o here quiet unread =
      drop_conn-IsSafe a c s o here
  after_read-IsSafe end_of_file access room event a c s o here quiet unread =
      drop_conn-IsSafe a c s o here
  after_read-IsSafe (request req) access room event a c s o here quiet unread =
      elim (Bool-cases (is_servable access room (request req))) [
        | inl fine ↦ rw fine (
          await_reply event a c req s,
          refl,
          await_reply-IsSafe event a c req s o here quiet unread,
        )
        | inr bad ↦ rw bad (drop_conn-IsSafe a c s o here)
      ]

  pub get_request-IsSafe :
      (got : GotRequest) (access : CString → Bool) (room : Bool) (event : Option ℕ) (a : ℕ)
      (c : Backend) (s : Sys)
      → IsSafe s
      → s.conns a ≡ some c
      → c.data_ev_rd ≡ none
      → (s' : Sys) × (vde2_srv_get_request got access room event a s ≡ some s') × IsSafe s'
  unfolding vde2_srv_get_request
  get_request-IsSafe got access room event a c s o here unread =
      let d : Backend = record c { ctl_ev = none } in
      let t = put_conn a (some d) (event_del c.ctl_ev s) in
      let safe : IsSafe t = ctl_deleted a c d s o here (λ h at. at) refl (o.ready a c here) in
      let (s', ran, still) =
        after_read-IsSafe got access room event a d t safe (ground (arith, ==_refl a)) refl
          unread in
      (s', ground (arith, here) ∙ ran, still)

  establish-IsSafe :
      (ans : SendAnswers) (a : ℕ) (c : Backend) (s : Sys)
      → IsSafe s
      → s.conns a ≡ some c
      → c.ctl_ev ≡ none
      → c.data_ev_rd ≡ none
      → IsSafe (establish ans a c s)
  unfolding establish
  establish-IsSafe ans a c s o here quiet unread =
      let d : Backend = record c { ctl_ev = ans.ctl_event; data_ev_rd = ans.data_event } in
      let t =
        remove_pending a
          (record s { tr = record s.tr { connections = (s.tr.connections + 1) % 2 ^ 32 } }) in
      let w = put_conn a (some d) t in
      let e : Event = record { fd = c.ctl_fd; handler = read_ctl; arg = a } in
      let put : IsSafe w =
        put-IsSafe a c d t (record { staged = o.staged; ready = o.ready }) here (o.ready a c here)
          (λ k h.
            ctl_moved k c d h (ap (λ x. is_at x h) quiet) (λ at. ground (arith, at, unread))
              refl) in
      let now : w.conns a ≡ some d = ground (arith, ==_refl a) in
      add-IsSafe a d ans.data_event c.data_fd read_data (event_add ans.ctl_event e w)
        (add-IsSafe a d ans.ctl_event c.ctl_fd read_ctl w put now (λ h at. at))
        (ap (λ (f : ℕ → Option Backend). f a) (conns-add ans.ctl_event e w) ∙ now) (λ h at. at)

  pub send_request-IsSafe :
      (ans : SendAnswers) (path_of : CString → ℕ → CString) (accept_cb : ℕ → Sys → Sys) (a : ℕ)
      (c : Backend) (s : Sys)
      → ((conn : ℕ) (t : Sys) → Writes t (accept_cb conn t))
      → IsSafe s
      → s.conns a ≡ some c
      → c.data_ev_rd ≡ none
      → (s' : Sys) × (vde2_srv_send_request ans path_of accept_cb a s ≡ some s') × IsSafe s'
  unfolding vde2_srv_send_request
  send_request-IsSafe ans path_of accept_cb a c s wrote o here unread =
      elim (Option-cases ans.socket) [
        | inl no_fd ↦
            let d : Backend = record c { ctl_ev = none; data_fd = negsuc 0 } in
            let (s', ran, still) =
              drop_conn-IsSafe a d (put_conn a (some d) (event_del c.ctl_ev s))
                (ctl_deleted a c d s o here (λ h at. at) refl (o.ready a c here))
                (ground (arith, ==_refl a)) in
            (s', ground (arith, here, no_fd) ∙ ran, still)
        | inr (fd, opened) ↦
            let c1 : Backend = record c { ctl_ev = none; data_fd = pos fd } in
            let c2 : Backend = record c1 {
              local_path = path_of s.tr.vdesock_dir s.tr.connections;
            } in
            let put = ctl_deleted a c c1 s o here (λ h at. at) refl (o.ready a c here) in
            let s1 = set_file fd true (put_conn a (some c1) (event_del c.ctl_ev s)) in
            let s2 = put_conn a (some c2) s1 in
            let safe1 : IsSafe s1 = record { staged = put.staged; ready = put.ready } in
            let now1 : s1.conns a ≡ some c1 = ground (arith, ==_refl a) in
            let safe2 : IsSafe s2 =
              put-IsSafe a c1 c2 s1 safe1 now1 (o.ready a c here)
                (λ k h. ctl_moved k c1 c2 h refl (λ at. at) refl) in
            let now2 : s2.conns a ≡ some c2 = ground (arith, ==_refl a) in
            elim (Bool-cases ans.nonblock) [
              | inr blocks ↦
                  let (s', ran, still) = drop_conn-IsSafe a c1 s1 safe1 now1 in
                  (s', ground (arith, here, opened, blocks) ∙ ran, still)
              | inl fine ↦ elim (Bool-cases (may_bind ans.unlink && (ans.bind && ans.write))) [
                | inr fails ↦
                    let (s', ran, still) = drop_conn-IsSafe a c2 s2 safe2 now2 in
                    (s', ground (arith, here, opened, fine, fails) ∙ ran, still)
                | inl all ↦
                    let before = establish ans a c2 s2 in
                    (
                      accept_cb c.conn before,
                      ground (arith, here, opened, fine, all),
                      (Writes-Kept (wrote c.conn before)
                          (establish-IsSafe ans a c2 s2 safe2 now2 refl unread)).safe,
                    )
              ]
            ]
      ]

  pub accept-IsSafe :
      (fd : Option ℕ) (nonblock : Bool) (conn new event : Option ℕ) (s : Sys)
      → IsSafe s
      → ((a : ℕ) → new ≡ some a → s.conns a ≡ none)
      → IsSafe (vde2_accept fd nonblock conn new event s)
  unfolding vde2_accept
  accept-IsSafe none nonblock conn new event s o fresh = o
  accept-IsSafe (some fd) false conn new event s o fresh = record {
    staged = o.staged;
    ready = o.ready;
  }
  accept-IsSafe (some fd) true none new event s o fresh = record {
    staged = o.staged;
    ready = o.ready;
  }
  accept-IsSafe (some fd) true (some conn) none event s o fresh = record {
    staged = o.staged;
    ready = o.ready;
  }
  accept-IsSafe (some fd) true (some conn) (some a) event s o fresh =
      let d : Backend = record zeroed_backend { ctl_fd = pos fd; conn = conn; ctl_ev = event } in
      let t : Sys = record s {
        files = λ k. if fd == k then true else s.files k;
        tr = record s.tr { pending_conns = g.list_prepend s.tr.pending_conns a };
      } in
      add-IsSafe a d event (pos fd) get_request (put_conn a (some d) t)
        (fresh-IsSafe a d t (record { staged = o.staged; ready = o.ready }) (fresh a refl)
          (record { bounded = omega arith; watched = refl }))
        (ground (arith, ==_refl a)) (λ h at. ground (arith, at))
