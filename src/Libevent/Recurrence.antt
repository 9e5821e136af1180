-- ===== src/Libevent/Recurrence.antt =====
-- A recurrent timeout comes again and again.
use vde.Base.{ℕ, zero, suc, ◌+◌, true, Option, none, some, ◌≡◌, refl, ◌∙◌, arith}
use vde.Connection.{Timeval}
use vde.Libevent.{
  arm, update, Libevent, Handler, timeout_setup, recurring, libevent_timeout_add, reschedule,
  rtimeout_cb, dispatch,
}

module _ ⦃le : Libevent⦄ {S : Type 0} where
  -- The time of the event comes `n` times, one after the other.
  pub dispatch_times : (ℕ → ℕ → Handler S → Handler S) → ℕ → ℕ → Handler S → Option (Handler S)
  dispatch_times call zero ev h = some h
  dispatch_times call (suc n) ev h = elim (dispatch call ev h) [
    | none ↦ none
    | some h' ↦ dispatch_times call n ev h'
  ]

  -- The timeout is there, with this callback, and its event has rtimeout_cb as callback.
  pub record Stands (ev rt tv cb arg : ℕ) (timeout : Timeval) (h : Handler S) : Type 0 where
    pub allocated : h.allocated ev ≡ some tt
    pub rtimeout :
        h.rtimeouts rt ≡ some (record { ev = ev; timeout = some tv; cb = some cb; arg = arg })
    pub copy : h.timevals tv ≡ some timeout
    pub setup : le.set_of h.loop ev ≡ some (timeout_setup recurring rt)

  -- The timeout will come: it is there, and its event is pending.
  pub record Comes (ev rt tv cb arg : ℕ) (timeout : Timeval) (h : Handler S) : Type 0 where
    pub stands : Stands ev rt tv cb arg timeout h
    pub pending : le.pending h.loop ev ≡ some (some timeout)

  -- The state when the timeout is added.
  abbrev pub added : ℕ → ℕ → ℕ → Timeval → ℕ → ℕ → Handler S → Handler S
  added ev rt tv timeout cb arg h = record h {
    loop = arm ev recurring rt timeout h.loop;
    allocated = update ev (some tt) h.allocated;
    rtimeouts =
        update rt (some (record { ev = ev; timeout = some tv; cb = some cb; arg = arg }))
          h.rtimeouts;
    timevals = update tv (some timeout) h.timevals;
  }

  pub timeout_add-Comes :
      (ev rt tv : ℕ) (timeout : Timeval) (cb arg : ℕ) (h : Handler S)
      → Comes ev rt tv cb arg timeout (added ev rt tv timeout cb arg h)
  timeout_add-Comes ev rt tv timeout cb arg h =
      let s = timeout_setup recurring rt in
      let l = le.event_set h.loop ev s in
      record {
        stands = record {
          allocated = ground arith;
          rtimeout = ground arith;
          copy = ground arith;
          setup =
              ground
                (arith, le.set-event_add l ev (some timeout) ev, le.set-event_set h.loop ev s ev);
        };
        pending = ground (arith, le.pending-event_add l ev (some timeout) ev);
      }

  module _ (call : ℕ → ℕ → Handler S → Handler S) (ev rt tv cb arg : ℕ) (timeout : Timeval) where
    -- The callback leaves the timeout where it is.
    abbrev pub Keeps : Type 0
    Keeps =
        (h : Handler S)
        → Stands ev rt tv cb arg timeout h
        → Stands ev rt tv cb arg timeout (call cb arg h)

    -- One more time: the callback of the user is called, and the event is pending again.
    once_more :
        (h : Handler S)
        → Keeps
        → Comes ev rt tv cb arg timeout h
        → let called = call cb arg (record h { loop = le.expire h.loop ev }) in
          let after : Handler S = record called {
            loop = le.event_add called.loop ev (some timeout);
          } in
          (dispatch call ev h ≡ some after) × Comes ev rt tv cb arg timeout after
    unfolding dispatch
    once_more h keeps c =
        let start : Handler S = record h { loop = le.expire h.loop ev } in
        let called = call cb arg start in
        let st : Stands ev rt tv cb arg timeout start = record {
          allocated = c.stands.allocated;
          rtimeout = c.stands.rtimeout;
          copy = c.stands.copy;
          setup = le.set-expire h.loop ev ev ∙ c.stands.setup;
        } in
        let kept = keeps start st in
        (
          rw (c.stands.setup, dispatch)
              (rw (c.stands.rtimeout, rtimeout_cb)
                (rw (kept.rtimeout, kept.allocated, kept.copy, reschedule) refl)),
          record {
            stands = record {
              allocated = kept.allocated;
              rtimeout = kept.rtimeout;
              copy = kept.copy;
              setup = le.set-event_add called.loop ev (some timeout) ev ∙ kept.setup;
            };
            pending = ground (arith, le.pending-event_add called.loop ev (some timeout) ev);
          },
        )

    -- A timeout that will come does so as often as its time comes, and each time the callback of the user is
    -- called once, and the event is pending again with the same timeout. It is assumed that the
    -- callback does not delete the timeout; `ticks` counts the calls.
    pub timeout_recurs :
        (ticks : S → ℕ) (n : ℕ) (h : Handler S)
        → ((k : Handler S) → ticks (call cb arg k).rest ≡ suc (ticks k.rest))
        → Keeps
        → Comes ev rt tv cb arg timeout h
        → (h' : Handler S) × (dispatch_times call n ev h ≡ some h')
          × Comes ev rt tv cb arg timeout h'
          × (ticks h'.rest ≡ n + ticks h.rest)
    unfolding dispatch_times
    timeout_recurs ticks zero h counts keeps c = (h, refl, c, omega arith)
    timeout_recurs ticks (suc n) h counts keeps c =
        let (ran, again) = once_more h keeps c in
        let start : Handler S = record h { loop = le.expire h.loop ev } in
        let called = call cb arg start in
        let after : Handler S = record called {
          loop = le.event_add called.loop ev (some timeout);
        } in
        let (h', ran', c', count) = timeout_recurs ticks n after counts keeps again in
        (h', rw (ran, dispatch_times) ran', c', omega (arith, count, counts start))

    -- A callback that has deleted its own timeout: rtimeout_cb follows a pointer to what is freed.
    pub dispatch-deleted :
        (h : Handler S)
        → Comes ev rt tv cb arg timeout h
        → (call cb arg (record h { loop = le.expire h.loop ev })).rtimeouts rt ≡ none
        → dispatch call ev h ≡ none
    unfolding dispatch
    dispatch-deleted h c gone =
        rw (c.stands.setup, dispatch)
          (rw (c.stands.rtimeout, rtimeout_cb) (rw (gone, reschedule) refl))

    -- A recurrent timeout that is added with memory comes as often as its time comes: each time the
    -- callback of the user is called once, and afterwards the event is pending again with the same
    -- timeout. It is assumed that the callback does not delete the timeout; `ticks` counts the calls.
    pub timeout_add-recurs :
        (ticks : S → ℕ) (n : ℕ) (h : Handler S)
        → ((k : Handler S) → ticks (call cb arg k).rest ≡ suc (ticks k.rest))
        → Keeps
        → (h1 h' : Handler S) × (libevent_timeout_add
              (some ev)
              (some rt)
              (some tv)
              timeout
              true
              cb
              arg
              h
            ≡ some (h1, some rt))
          × (dispatch_times call n ev h1 ≡ some h')
          × (le.pending h'.loop ev ≡ some (some timeout))
          × (ticks h'.rest ≡ n + ticks h.rest)
    unfolding libevent_timeout_add
    timeout_add-recurs ticks n h counts keeps =
        let h1 = added ev rt tv timeout cb arg h in
        let (h', ran, c, count) =
          timeout_recurs ticks n h1 counts keeps (timeout_add-Comes ev rt tv timeout cb arg h) in
        (h1, h', refl, ran, c.pending, count)
