-- ===== src/Vde2/Handshake/Steps.antt =====
-- transport_vde2.c: what the handlers and the users of connections keep.
use vde.Base.{
  ℕ, ◌≡◌, refl, ap, sym, ◌∙◌, subst, true, false, Option, none, some, ◌==◌, is_some, is_done,
  if◌then◌else◌, arith, Option-cases, Bool-cases, inl, inr,
}
use vde.Base.Int.{ℤ}
use vde.Glib.{Glib}
use vde.Packet.{Pkt}
use vde.Vde2.{Vde2Conn, vde2_conn_write}
use vde.Vde2.Laws.{IsReady}
use vde.Vde2.Handshake.{
  Backend, Event, Sys, Handler, put_conn, event_add, event_del, close_backend, vde2_conn_close,
  remove_pending, drop_conn,
}
use vde.Vde2.Handshake.Owned.{is_at, conns-del, close_backend-conns}
use vde.Vde2.Handshake.Stages.{
  fits, IsStaged, forget-IsStaged, add-IsStaged, close_backend-IsStaged, fresh-IsStaged,
}

-- The events fit the stages of their connections, and the queues are in their bound and watched.
pub record IsSafe (s : Sys) : Type 0 where
  pub staged : IsStaged s
  pub ready : (a : ℕ) (c : Backend) → s.conns a ≡ some c → IsReady c.sending

put-IsReady :
    (a : ℕ) (d : Backend) (s : Sys) (f : ℕ → Option Backend)
    → IsSafe s
    → f ≡ s.conns
    → IsReady d.sending
    → (b : ℕ) (c : Backend) → (if a == b then some d else f b) ≡ some c
    → IsReady c.sending
put-IsReady a d s f o same fine b c e = elim (Bool-cases (a == b)) [
  | inl mine ↦
      subst (λ (v : Vde2Conn). IsReady v)
        (some-sending d c (sym (ap (λ x. if x then some d else f b) mine) ∙ e)) fine
  | inr other ↦ o.ready b c (
      sym (ap (λ (g : ℕ → Option Backend). g b) same)
      ∙ (sym (ap (λ x. if x then some d else f b) other) ∙ e))
]
  where
    some-sending : (d c : Backend) → some d ≡ some c → d.sending ≡ c.sending
    some-sending d c e = ap (λ x. elim x [ none ↦ d.sending | some y ↦ y.sending ]) e

pub forget-IsSafe :
    (a : ℕ) (c d : Backend) (ev : Option ℕ) (s : Sys)
    → IsSafe s
    → s.conns a ≡ some c
    → IsReady d.sending
    → ((k : Handler) (h : ℕ) → is_at ev h ≡ false → fits k c h ≡ true → fits k d h ≡ true)
    → IsSafe (put_conn a (some d) (event_del ev s))
forget-IsSafe a c d ev s o here fine keeps = record {
  staged = forget-IsStaged a c d ev s o.staged here keeps;
  ready = put-IsReady a d s (event_del ev s).conns o (conns-del ev s) fine;
}

pub conns-add : (ev : Option ℕ) (e : Event) (s : Sys) → (event_add ev e s).conns ≡ s.conns
conns-add none e s = refl
conns-add (some h) e s = refl

pub add-IsSafe :
    (a : ℕ) (c : Backend) (ev : Option ℕ) (fd : ℤ) (k : Handler) (s : Sys)
    → IsSafe s
    → s.conns a ≡ some c
    → ((h : ℕ) → is_at ev h ≡ true → fits k c h ≡ true)
    → IsSafe (event_add ev (record { fd = fd; handler = k; arg = a }) s)
add-IsSafe a c ev fd k s o here has = record {
  staged = add-IsStaged a c ev fd k s o.staged here has;
  ready = λ b d e. o.ready b d (
      sym (
        ap (λ (g : ℕ → Option Backend). g b)
          (conns-add ev (record { fd = fd; handler = k; arg = a }) s))
      ∙ e);
}

pub fresh-IsSafe :
    (a : ℕ) (d : Backend) (s : Sys)
    → IsSafe s
    → s.conns a ≡ none
    → IsReady d.sending
    → IsSafe (put_conn a (some d) s)
fresh-IsSafe a d s o free fine = record {
  staged = fresh-IsStaged a d s o.staged free;
  ready = put-IsReady a d s s.conns o refl fine;
}

pub close_backend-IsSafe :
    (a : ℕ) (c : Backend) (s : Sys) → IsSafe s → s.conns a ≡ some c → IsSafe (close_backend a c s)
close_backend-IsSafe a c s o here = record {
  staged = close_backend-IsStaged a c s o.staged here;
  ready = λ b d e. elim (Bool-cases (a == b)) [
    | inl mine ↦ absurd (ground (arith, mine, close_backend-conns a c s b, e))
    | inr other ↦
        o.ready b d
          (sym (close_backend-conns a c s b ∙ ap (λ x. if x then none else s.conns b) other) ∙ e)
  ];
}

pub close-IsSafe :
    (a : ℕ) (c : Backend) (s : Sys)
    → IsSafe s
    → s.conns a ≡ some c
    → (s' : Sys) × (vde2_conn_close a s ≡ some s') × IsSafe s'
unfolding vde2_conn_close
close-IsSafe a c s o here =
    (close_backend a c s, ground (arith, here), close_backend-IsSafe a c s o here)

-- Where nothing is deleted but a connection changes.
pub put-IsSafe :
    (a : ℕ) (c d : Backend) (s : Sys)
    → IsSafe s
    → s.conns a ≡ some c
    → IsReady d.sending
    → ((k : Handler) (h : ℕ) → fits k c h ≡ true → fits k d h ≡ true)
    → IsSafe (put_conn a (some d) s)
put-IsSafe a c d s o here fine keeps =
    forget-IsSafe a c d none s o here fine (λ k h u fit. keeps k h fit)

module _ ⦃g : Glib⦄ where
  pub drop_conn-IsSafe :
      (a : ℕ) (c : Backend) (s : Sys)
      → IsSafe s
      → s.conns a ≡ some c
      → (s' : Sys) × (drop_conn a s ≡ some s') × IsSafe s'
  unfolding drop_conn
  drop_conn-IsSafe a c s o here =
      close-IsSafe a c (remove_pending a s) (record { staged = o.staged; ready = o.ready }) here

  -- The event of a write, by the event before it.
  pub written_event :
      (new : Option Pkt) (event : ℕ) (v : Vde2Conn) (pkt : Pkt)
      → let (v', st) = vde2_conn_write new (some event) v pkt in
        v'.data_ev_wr ≡ (
          if is_some v.data_ev_wr
          then v.data_ev_wr
          else if is_done st
          then some event
          else v.data_ev_wr)
  unfolding vde2_conn_write
  written_event new event v pkt = ground (arith, Option-cases new, Option-cases v.data_ev_wr)
