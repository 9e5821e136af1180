-- ===== src/Vde2/Handshake/Reach.antt =====
-- transport_vde2.c: the states that a transport can come to, and that no handler meets a connection that is
-- gone.
use vde.Base.{
  ℕ, ◌+◌, ◌≤◌, ◌≡◌, subst, ap, Bool, true, Option, none, some, arith, Option-cases, inl, inr,
}
use vde.Glib.{Glib}
use vde.Vde2.{maxqlen}
use vde.Vde2.Handshake.{Backend, Event, Sys, vde2_accept, vde2_conn_close}
use vde.Vde2.Handshake.Stages.{fits, staged_by, stage_of}
use vde.Vde2.Handshake.Steps.{IsSafe, close-IsSafe}
use vde.Vde2.Handshake.Writing.{Writes-Kept}
use vde.Vde2.Handshake.Firing.{accept-IsSafe}
use vde.Vde2.Handshake.Fired.{IsUser, fire-IsSafe}
use vde.Vde2.Handshake.Traffic.{Surroundings, fire, Writes}

module _ ⦃g : Glib⦄ where
  -- A transport starts without connections and without events of them. Then it accepts connections, at
  -- addresses where none is; the handlers of events are called, in any order; and users write and close.
  pub data Reached (S : Type 0) : Sys → Type 0 where
    started : {s : Sys} → ((a : ℕ) → s.conns a ≡ none) → ((h : ℕ) → s.events h ≡ none) → Reached S s
    accepted :
        {s : Sys} (fd : Option ℕ) (nonblock : Bool) (conn new event : Option ℕ)
        → Reached S s
        → ((a : ℕ) → new ≡ some a → s.conns a ≡ none)
        → Reached S (vde2_accept fd nonblock conn new event s)
    fired :
        {s s' : Sys} (o : Surroundings S) (left : S → ℕ) (n h : ℕ) (e : Event)
        → Reached S s
        → IsUser o left
        → maxqlen + left o.user + 1 ≤ n
        → s.events h ≡ some e
        → fire o n e s ≡ some s'
        → Reached S s'
    wrote : {s s' : Sys} → Reached S s → Writes s s' → Reached S s'
    closed : {s s' : Sys} (a : ℕ) → Reached S s → vde2_conn_close a s ≡ some s' → Reached S s'

  still_there : (a : ℕ) (s s' : Sys) → s.conns a ≡ none → vde2_conn_close a s ≡ some s' → ⊥
  unfolding vde2_conn_close
  still_there a s s' absent gone = ground (arith, absent, gone)

  Reached-IsSafe : {S : Type 0} {s : Sys} → Reached S s → IsSafe s
  Reached-IsSafe (started {s} no_conns no_events) = record {
    staged = λ h. ap (λ x. staged_by s.conns x h) (no_events h);
    ready = λ a c here. absurd (ground (arith, here, no_conns a));
  }
  Reached-IsSafe (accepted {s} fd nonblock conn new event before fresh) =
      accept-IsSafe fd nonblock conn new event s (Reached-IsSafe before) fresh
  Reached-IsSafe (fired {s} {s'} o left n h e before user enough fires ran) =
      let (t, same, safe) = fire-IsSafe o left n h e s user enough (Reached-IsSafe before) fires in
      subst IsSafe {x = t} {y = s'} (ground (arith, ran, same)) safe
  Reached-IsSafe (wrote before writes) = (Writes-Kept writes (Reached-IsSafe before)).safe
  Reached-IsSafe (closed {s} {s'} a before gone) = elim (Option-cases (s.conns a)) [
    | inl absent ↦ absurd (still_there a s s' absent gone)
    | inr (c, here) ↦
        let (t, same, safe) = close-IsSafe a c s (Reached-IsSafe before) here in
        subst IsSafe {x = t} {y = s'} (ground (arith, gone, same)) safe
  ]

  -- A transport starts without connections; then it accepts some, the handlers of events are called, and users
  -- write to connections and close them, in any order. In every state that it comes to so, the connection of an
  -- event that is set is there, at the stage that the handler of the event needs: a reply is only sent by a
  -- connection whose request was read and that has no event of its data socket yet. The handler returns, and
  -- the state after it is again such a state. It is assumed that a connection is allocated where none is, that
  -- users answer a callback by writes of valid packets for which an event can be added, and that they have a
  -- bound on what they still write while packets are sent, for which the fuel is enough.
  pub fire-Reached :
      {S : Type 0} {s : Sys} (o : Surroundings S) (left : S → ℕ) (n h : ℕ) (e : Event)
      → Reached S s
      → IsUser o left
      → maxqlen + left o.user + 1 ≤ n
      → s.events h ≡ some e
      → (c : Backend) × (s.conns e.arg ≡ some c)
        × (fits e.handler c h ≡ true)
        × (s' : Sys) × (fire o n e s ≡ some s')
        × Reached S s'
  fire-Reached {S} {s} o left n h e reached user enough fires =
      let safe = Reached-IsSafe reached in
      let (c, here, fit) = stage_of s h e safe.staged fires in
      let (s', ran, still) = fire-IsSafe o left n h e s user enough safe fires in
      (c, here, fit, s', ran, fired o left n h e reached user enough fires ran)
