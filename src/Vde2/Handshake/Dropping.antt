-- ===== src/Vde2/Handshake/Dropping.antt =====
-- transport_vde2.c: what is left of the tables when a connection is dropped.
use vde.Base.{
  ℕ, ◌≡◌, refl, ap, ◌∙◌, Bool, true, false, Option, none, some, ◌==◌, ◌||◌, if◌then◌else◌, arith,
  ==_refl, remove_first,
}
use vde.Base.Int.{ℤ, pos, negsuc}
use vde.Glib.{Glib}
use vde.Vde2.Handshake.{
  Backend, Sys, put_conn, event_del, close_fd, close_backend, vde2_conn_close, remove_pending,
  drop_conn,
}
use vde.Vde2.Handshake.Owned.{IsOwned, forget-IsOwned, close_backend-conns, close_backend-IsOwned}

abbrev pub is_fd : ℤ → ℕ → Bool
is_fd (pos m) n = m == n
is_fd (negsuc m) n = false

files-close :
    (fd : ℤ) (s : Sys) (n : ℕ) → (close_fd fd s).files n ≡ (if is_fd fd n then false else s.files n)
files-close (pos m) s n = refl
files-close (negsuc m) s n = refl

files-del : (ev : Option ℕ) (s : Sys) → (event_del ev s).files ≡ s.files
files-del none s = refl
files-del (some h) s = refl

close_backend-files :
    (a : ℕ) (c : Backend) (s : Sys) (n : ℕ)
    → (is_fd c.data_fd n || is_fd c.ctl_fd n) ≡ true
    → (close_backend a c s).files n ≡ false
unfolding close_backend
close_backend-files a c s n h =
    let s1 = close_fd c.data_fd s in
    let s2 = event_del c.data_ev_rd s1 in
    let s3 = event_del c.sending.data_ev_wr s2 in
    let at = λ (f : ℕ → Bool). f n in
    ap at (files-del c.ctl_ev (close_fd c.ctl_fd s3))
    ∙ (files-close c.ctl_fd s3 n
        ∙ ground (
          arith,
          h,
          ap at (files-del c.sending.data_ev_wr s2),
          ap at (files-del c.data_ev_rd s1),
          files-close c.data_fd s n,
        ))

pub tr-del : (ev : Option ℕ) (s : Sys) → (event_del ev s).tr ≡ s.tr
tr-del none s = refl
tr-del (some h) s = refl

tr-close : (fd : ℤ) (s : Sys) → (close_fd fd s).tr ≡ s.tr
tr-close (pos m) s = refl
tr-close (negsuc m) s = refl

close_backend-tr : (a : ℕ) (c : Backend) (s : Sys) → (close_backend a c s).tr ≡ s.tr
unfolding close_backend
close_backend-tr a c s =
    let s1 = close_fd c.data_fd s in
    let s2 = event_del c.data_ev_rd s1 in
    let s3 = event_del c.sending.data_ev_wr s2 in
    tr-del c.ctl_ev (close_fd c.ctl_fd s3)
    ∙ (tr-close c.ctl_fd s3
        ∙ (tr-del c.sending.data_ev_wr s2 ∙ (tr-del c.data_ev_rd s1 ∙ tr-close c.data_fd s)))

-- The connection is gone, with its descriptors, and the other connections are as they were.
pub record Dropped (a : ℕ) (c : Backend) (s s' : Sys) : Type 0 where
  pub gone : s'.conns a ≡ none
  pub pending : s'.tr.pending_conns ≡ remove_first (λ x. x == a) s.tr.pending_conns
  pub closed : (n : ℕ) → (is_fd c.data_fd n || is_fd c.ctl_fd n) ≡ true → s'.files n ≡ false
  pub others : (b : ℕ) → (a == b) ≡ false → s'.conns b ≡ s.conns b

module _ ⦃g : Glib⦄ where
  -- `v` is the state when the connection is dropped, which had become `c` in it.
  pub drop_conn-Dropped :
      (a : ℕ) (c : Backend) (s v : Sys)
      → IsOwned v
      → v.conns a ≡ some c
      → v.tr ≡ s.tr
      → ((b : ℕ) → (a == b) ≡ false → v.conns b ≡ s.conns b)
      → (s' : Sys) × (drop_conn a v ≡ some s') × IsOwned s' × Dropped a c s s'
  unfolding drop_conn vde2_conn_close
  drop_conn-Dropped a c s v o here same_tr others =
      let r = remove_pending a v in
      (
        close_backend a c r,
        ground (arith, here),
        close_backend-IsOwned a c r o here,
        record {
          gone = close_backend-conns a c r a ∙ ground (arith, ==_refl a);
          pending =
              ap (λ t. t.pending_conns) (close_backend-tr a c r)
              ∙ (g.remove_law (λ (x : ℕ). x) v.tr.pending_conns a
                  ∙ ap (λ t. remove_first (λ x. x == a) t.pending_conns) same_tr);
          closed = close_backend-files a c r;
          others = λ b h. close_backend-conns a c r b ∙ ground (arith, h, others b h);
        },
      )

  pub ctl_forgotten :
      (a : ℕ) (c d : Backend) (s : Sys)
      → IsOwned s
      → s.conns a ≡ some c
      → d.ctl_ev ≡ none
      → d.data_ev_rd ≡ c.data_ev_rd
      → d.sending ≡ c.sending
      → IsOwned (put_conn a (some d) (event_del c.ctl_ev s))
  ctl_forgotten a c d s o here e1 e2 e3 =
      forget-IsOwned a c d c.ctl_ev s o here (λ h other has. ground (arith, other, has, e2, e3))
