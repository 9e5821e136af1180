-- ===== src/Vde2/Handshake/Replies.antt =====
-- transport_vde2.c: what the reply to a request comes to, and an accepted connection.
use vde.Base.{
  sym, ◌||◌, ap, if◌then◌else◌, Bool-cases, Option-cases, inl, inr, ℕ, ◌+◌, ◌%◌, ◌^◌, ◌≡◌, refl,
  ◌∙◌, Bool, true, false, Option, none, some, ◌==◌, ◌&&◌, arith, ==_refl, CString, remove_first,
}
use vde.Base.Int.{pos, negsuc}
use vde.Glib.{Glib}
use vde.Vde2.Handshake.{
  get_request, zeroed_backend, vde2_accept, Vde2Tr, vde2_srv_send_request, event_del, set_file,
  establish, Backend, Sys, SendAnswers, may_bind, put_conn, establish,
}
use vde.Vde2.Handshake.Owned.{conns-del, IsOwned, forget-IsOwned, add-IsOwned}
use vde.Vde2.Handshake.Establishing.{establish-IsOwned, establish-rest}
use vde.Vde2.Handshake.Dropping.{is_fd, drop_conn-Dropped, ctl_forgotten, tr-del, Dropped}

module _ ⦃g : Glib⦄ where
  abbrev pub is_sent : SendAnswers → Bool
  is_sent ans = ans.nonblock && (may_bind ans.unlink && (ans.bind && ans.write))

  -- The connection is set up as it is given to the connection manager, by `accept_cb`.
  pub record Established (ans : SendAnswers) (path_of : CString → ℕ → CString)
      (accept_cb : ℕ → Sys → Sys) (fd a : ℕ) (c : Backend) (s s' : Sys) : Type 0 where
    pub before : Sys
    pub accepted : s' ≡ accept_cb c.conn before
    pub ready :
        before.conns a
        ≡ some (record c {
          data_fd = pos fd;
          local_path = path_of s.tr.vdesock_dir s.tr.connections;
          ctl_ev = ans.ctl_event;
          data_ev_rd = ans.data_event;
        })
    pub pending : before.tr.pending_conns ≡ remove_first (λ x. x == a) s.tr.pending_conns
    pub counted : before.tr.connections ≡ (s.tr.connections + 1) % 2 ^ 32
    pub open_fd : before.files fd ≡ true

  abbrev pub Replied :
      Option ℕ
      → Bool
      → SendAnswers
      → (CString → ℕ → CString)
      → (ℕ → Sys → Sys)
      → ℕ
      → Backend
      → Sys
      → Sys
      → Type 0
  Replied none sent ans path_of accept_cb a c s s' =
      Dropped a (record c { data_fd = negsuc 0 }) s s'
  Replied (some fd) false ans path_of accept_cb a c s s' =
      Dropped a (record c { data_fd = pos fd }) s s'
  Replied (some fd) true ans path_of accept_cb a c s s' =
      Established ans path_of accept_cb fd a c s s'

  as-Dropped :
      (a : ℕ) (d e : Backend) (t t' : Sys)
      → e.data_fd ≡ d.data_fd
      → e.ctl_fd ≡ d.ctl_fd
      → Dropped a d t t'
      → Dropped a e t t'
  as-Dropped a d e t t' p q gone = record {
    gone = gone.gone;
    pending = gone.pending;
    closed = λ n h. gone.closed n (
        ap (λ fd. is_fd fd n || is_fd d.ctl_fd n) (sym p)
        ∙ (ap (λ fd. is_fd e.data_fd n || is_fd fd n) (sym q) ∙ h));
    others = gone.others;
  }

  -- Replying to a request returns on every branch, for a connection that has no event of its data socket.
  -- Where all calls succeed, and the file of an old socket may be missing, the connection is not pending
  -- any more, has an open data socket with the path by the count of connections, which is one more, and
  -- is given to the connection manager; else it is dropped, with the data socket if it got one. Afterwards
  -- still every event is of a connection that is there, if the connection manager keeps it so.
  pub send_request-Replied :
      (ans : SendAnswers) (path_of : CString → ℕ → CString) (accept_cb : ℕ → Sys → Sys) (a : ℕ)
      (c : Backend) (s : Sys)
      → ((conn : ℕ) (t : Sys) → IsOwned t → IsOwned (accept_cb conn t))
      → IsOwned s
      → s.conns a ≡ some c
      → c.data_ev_rd ≡ none
      → (s' : Sys) × (vde2_srv_send_request ans path_of accept_cb a s ≡ some s')
        × IsOwned s'
        × Replied ans.socket (is_sent ans) ans path_of accept_cb a c s s'
  unfolding vde2_srv_send_request establish
  send_request-Replied ans path_of accept_cb a c s keeps o here unread =
      let quiet = event_del c.ctl_ev s in
      let away : (b : ℕ) → (a == b) ≡ false → quiet.conns b ≡ s.conns b =
        λ b other. ap (λ (f : ℕ → Option Backend). f b) (conns-del c.ctl_ev s) in
      elim (Option-cases ans.socket) [
        | inl failed ↦
            let d : Backend = record c { ctl_ev = none; data_fd = negsuc 0 } in
            let (s', e, owned, gone) =
              drop_conn-Dropped a d s (put_conn a (some d) quiet)
                (ctl_forgotten a c d s o here refl refl refl) (ground (arith, ==_refl a))
                (tr-del c.ctl_ev s) (λ b other. ground (arith, other, away b)) in
            (
              s',
              ground (arith, here, failed) ∙ e,
              owned,
              rw failed (as-Dropped a d (record c { data_fd = negsuc 0 }) s s' refl refl gone),
            )
        | inr (fd, opened) ↦
            let c1 : Backend = record c { ctl_ev = none; data_fd = pos fd } in
            let c2 : Backend = record c1 {
              local_path = path_of s.tr.vdesock_dir s.tr.connections;
            } in
            let s1 = set_file fd true (put_conn a (some c1) quiet) in
            let s2 = put_conn a (some c2) s1 in
            let owned1 : IsOwned s1 = ctl_forgotten a c c1 s o here refl refl refl in
            let owned2 : IsOwned s2 =
              forget-IsOwned a c1 c2 none s1 owned1 (ground (arith, ==_refl a))
                (λ h u has. ground (arith, has)) in
            elim (Bool-cases ans.nonblock) [
              | inr blocks ↦
                  let (s', e, owned, gone) =
                    drop_conn-Dropped a c1 s s1 owned1 (ground (arith, ==_refl a))
                      (tr-del c.ctl_ev s) (λ b other. ground (arith, other, away b)) in
                  (
                    s',
                    ground (arith, here, opened, blocks) ∙ e,
                    owned,
                    rw (opened, blocks)
                        (as-Dropped a c1 (record c { data_fd = pos fd }) s s' refl refl gone),
                  )
              | inl fine ↦ elim (Bool-cases (may_bind ans.unlink && (ans.bind && ans.write))) [
                | inr fails ↦
                    let (s', e, owned, gone) =
                      drop_conn-Dropped a c2 s s2 owned2 (ground (arith, ==_refl a))
                        (tr-del c.ctl_ev s) (λ b other. ground (arith, other, away b)) in
                    (
                      s',
                      ground (arith, here, opened, fine, fails) ∙ e,
                      owned,
                      rw (opened, fine, fails)
                          (as-Dropped a c2 (record c { data_fd = pos fd }) s s' refl refl gone),
                    )
                | inl all ↦
                    let before = establish ans a c2 s2 in
                    let (ready, pending, counted, files) = establish-rest ans a c2 s2 in
                    let same_tr : s2.tr ≡ s.tr = tr-del c.ctl_ev s in
                    let owned =
                      establish-IsOwned ans a c2 s2 owned2 (ground (arith, ==_refl a)) refl
                        unread in
                    (
                      accept_cb c.conn before,
                      ground (arith, here, opened, fine, all),
                      keeps c.conn before owned,
                      rw (opened, fine, all)
                          (record {
                            before = before;
                            accepted = refl;
                            ready = ready;
                            pending =
                                pending
                                ∙ ap (λ (t : Vde2Tr). remove_first (λ x. x == a) t.pending_conns)
                                    same_tr;
                            counted =
                                counted ∙ ap (λ (t : Vde2Tr). (t.connections + 1) % 2 ^ 32) same_tr;
                            open_fd =
                                ap (λ (f : ℕ → Bool). f fd) files ∙ ground (arith, ==_refl fd);
                          }),
                    )
              ]
            ]
      ]

  -- Accepting a connection keeps the ownership of events, if its backend is allocated at an address where
  -- no connection is.
  pub vde2_accept-IsOwned :
      (fd : Option ℕ) (nonblock : Bool) (conn new event : Option ℕ) (s : Sys)
      → IsOwned s
      → ((a : ℕ) → new ≡ some a → s.conns a ≡ none)
      → IsOwned (vde2_accept fd nonblock conn new event s)
  unfolding vde2_accept
  vde2_accept-IsOwned none nonblock conn new event s o fresh = o
  vde2_accept-IsOwned (some fd) false conn new event s o fresh = o
  vde2_accept-IsOwned (some fd) true none new event s o fresh = o
  vde2_accept-IsOwned (some fd) true (some conn) none event s o fresh = o
  vde2_accept-IsOwned (some fd) true (some conn) (some a) event s o fresh =
      let d : Backend = record zeroed_backend { ctl_fd = pos fd; conn = conn; ctl_ev = event } in
      let t : Sys = record s {
        files = λ k. if fd == k then true else s.files k;
        tr = record s.tr { pending_conns = g.list_prepend s.tr.pending_conns a };
      } in
      add-IsOwned a d event (pos fd) get_request (put_conn a (some d) t)
        (put_fresh d t o (fresh a refl)) (ground (arith, ==_refl a)) (λ h has. ground (arith, has))
    where
      put_fresh :
          (d : Backend) (t : Sys) → IsOwned t → t.conns a ≡ none → IsOwned (put_conn a (some d) t)
      put_fresh d t o free h = elim (Option-cases (t.events h)) [
        | inl quiet ↦ ground (arith, quiet)
        | inr (e, fires) ↦ elim (Bool-cases (a == e.arg)) [
          | inr other ↦ ground (arith, fires, other, o h)
          | inl mine ↦ absurd (
              ground
                (arith, fires, o h, free, ap t.conns {x = a} {y = e.arg} (ground (arith, mine))))
        ]
      ]
