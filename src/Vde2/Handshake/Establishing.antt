-- ===== src/Vde2/Handshake/Establishing.antt =====
-- transport_vde2.c: what setting up a connection changes.
use vde.Base.{
  ap, ℕ, ◌+◌, ◌%◌, ◌^◌, ◌≡◌, refl, ◌∙◌, Option, none, some, ◌==◌, arith, ==_refl, remove_first,
}
use vde.Glib.{Glib}
use vde.Vde2.Handshake.{
  Event, Vde2Tr, establish, Backend, Sys, read_ctl, read_data, SendAnswers, put_conn, event_add,
  remove_pending, establish,
}
use vde.Vde2.Handshake.Owned.{IsOwned, forget-IsOwned, add-IsOwned}

module _ ⦃g : Glib⦄ where
  pub establish-IsOwned :
      (ans : SendAnswers) (a : ℕ) (c : Backend) (v : Sys)
      → IsOwned v
      → v.conns a ≡ some c
      → c.ctl_ev ≡ none
      → c.data_ev_rd ≡ none
      → IsOwned (establish ans a c v)
  unfolding establish
  establish-IsOwned ans a c v o here quiet unread =
      let d : Backend = record c { ctl_ev = ans.ctl_event; data_ev_rd = ans.data_event } in
      let w = put_conn a (some d) (
        remove_pending a
          (record v { tr = record v.tr { connections = (v.tr.connections + 1) % 2 ^ 32 } })) in
      let w1 = event_add ans.ctl_event (record { fd = c.ctl_fd; handler = read_ctl; arg = a }) w in
      let kept : IsOwned w =
        forget-IsOwned a c d none
          (remove_pending a
            (record v { tr = record v.tr { connections = (v.tr.connections + 1) % 2 ^ 32 } }))
          o here (λ h u has. ground (arith, has, quiet, unread)) in
      add-IsOwned a d ans.data_event c.data_fd read_data w1
        (add-IsOwned a d ans.ctl_event c.ctl_fd read_ctl w kept (ground (arith, ==_refl a))
          (λ h has. ground (arith, has)))
        (same_conns ans.ctl_event w ∙ ground (arith, ==_refl a)) (λ h has. ground (arith, has))
    where
      same_conns :
          (ev : Option ℕ) (w : Sys)
          → (event_add ev (record { fd = c.ctl_fd; handler = read_ctl; arg = a }) w).conns a
            ≡ w.conns a
      same_conns none w = refl
      same_conns (some h) w = refl

  add_rest :
      (ev : Option ℕ) (e : Event) (t : Sys)
      → ((event_add ev e t).conns ≡ t.conns)
        × ((event_add ev e t).tr ≡ t.tr)
        × ((event_add ev e t).files ≡ t.files)
  add_rest none e t = (refl, refl, refl)
  add_rest (some h) e t = (refl, refl, refl)

  -- What setting up a connection changes, but for the events.
  pub establish-rest :
      (ans : SendAnswers) (a : ℕ) (c : Backend) (v : Sys)
      → let t = establish ans a c v in
        (t.conns a ≡ some (record c { ctl_ev = ans.ctl_event; data_ev_rd = ans.data_event }))
        × (t.tr.pending_conns ≡ remove_first (λ x. x == a) v.tr.pending_conns)
        × (t.tr.connections ≡ (v.tr.connections + 1) % 2 ^ 32)
        × (t.files ≡ v.files)
  unfolding establish
  establish-rest ans a c v =
      let w = put_conn a (some (record c { ctl_ev = ans.ctl_event; data_ev_rd = ans.data_event })) (
        remove_pending a
          (record v { tr = record v.tr { connections = (v.tr.connections + 1) % 2 ^ 32 } })) in
      let e1 : Event = record { fd = c.ctl_fd; handler = read_ctl; arg = a } in
      let e2 : Event = record { fd = c.data_fd; handler = read_data; arg = a } in
      let (conns1, tr1, files1) = add_rest ans.ctl_event e1 w in
      let (conns2, tr2, files2) = add_rest ans.data_event e2 (event_add ans.ctl_event e1 w) in
      (
        ap (λ (f : ℕ → Option Backend). f a) (conns2 ∙ conns1) ∙ ground (arith, ==_refl a),
        ap (λ (t : Vde2Tr). t.pending_conns) (tr2 ∙ tr1)
            ∙ g.remove_law (λ (x : ℕ). x) v.tr.pending_conns a,
        ap (λ (t : Vde2Tr). t.connections) (tr2 ∙ tr1),
        files2 ∙ files1,
      )
