-- ===== src/Libevent.antt =====
-- libevent_handler.c: the events and timeouts of an application that uses libevent, with timeouts that
-- come again and again. libevent is not part of the repository, so it is an interface; `Model` is an
-- instance, for the tests.
mod Model
pub mod Laws
pub mod Recurrence
pub mod Tests
use vde.Base.{
  ℕ, Bool, true, false, Option, none, some, ◌≡◌, ◌==◌, if◌then◌else◌, Status, Errno, enomem,
}
use vde.Base.Int.{ℤ, negsuc}
use vde.Connection.{Timeval}

-- What an event is for. `recurring` has the address of rtimeout_cb, `user` that of another function.
pub data Callback : Type 0 where
  recurring : Callback
  user : ℕ → Callback

-- What event_set stores; timeout_set stores -1 and 0.
pub record Setup : Type 0 where
  pub fd : ℤ
  pub events : ℕ
  pub cb : Callback
  pub arg : ℕ

-- The manual of libevent: event_set prepares an event, event_add makes it pending with a timeout that may
-- be NULL, event_del makes it not pending, and an event without EV_PERSIST is not pending any
-- more when its callback is called, which `expire` does.
pub record Libevent : Type 1 where
  pub Loop : Type 0
  pub set_of : Loop → ℕ → Option Setup
  pub pending : Loop → ℕ → Option (Option Timeval)
  pub event_set : Loop → ℕ → Setup → Loop
  pub event_add : Loop → ℕ → Option Timeval → Loop
  pub event_del : Loop → ℕ → Loop
  pub expire : Loop → ℕ → Loop
  pub set-event_set :
      (l : Loop) (e : ℕ) (s : Setup) (a : ℕ)
      → set_of (event_set l e s) a ≡ (if e == a then some s else set_of l a)
  pub pending-event_set :
      (l : Loop) (e : ℕ) (s : Setup) (a : ℕ)
      → pending (event_set l e s) a ≡ (if e == a then none else pending l a)
  pub set-event_add :
      (l : Loop) (e : ℕ) (t : Option Timeval) (a : ℕ) → set_of (event_add l e t) a ≡ set_of l a
  pub pending-event_add :
      (l : Loop) (e : ℕ) (t : Option Timeval) (a : ℕ)
      → pending (event_add l e t) a ≡ (if e == a then some t else pending l a)
  pub set-event_del : (l : Loop) (e a : ℕ) → set_of (event_del l e) a ≡ set_of l a
  pub pending-event_del :
      (l : Loop) (e a : ℕ) → pending (event_del l e) a ≡ (if e == a then none else pending l a)
  pub set-expire : (l : Loop) (e a : ℕ) → set_of (expire l e) a ≡ set_of l a
  pub pending-expire :
      (l : Loop) (e a : ℕ) → pending (expire l e) a ≡ (if e == a then none else pending l a)

-- struct rtimeout; `timeout` is the address of a copy of the time. A timeout that is not recurrent leaves all but `ev` as calloc does.
pub record Rtimeout : Type 0 where
  pub ev : ℕ
  pub timeout : Option ℕ
  pub cb : Option ℕ
  pub arg : ℕ

abbrev pub timeout_setup : Callback → ℕ → Setup
timeout_setup cb arg = record { fd = negsuc 0; events = 0; cb = cb; arg = arg }

-- `update a v m` is the store `m` but for address `a`.
abbrev pub update : {A : Type 0} → ℕ → Option A → (ℕ → Option A) → ℕ → Option A
update a v m b = if a == b then v else m b

module _ ⦃le : Libevent⦄ where
  -- The loop, which addresses hold an event, the rtimeouts, the copies of times, and the rest of the program.
  pub record Handler (S : Type 0) : Type 0 where
    pub loop : le.Loop
    pub allocated : ℕ → Option (Unit {0})
    pub rtimeouts : ℕ → Option Rtimeout
    pub timevals : ℕ → Option Timeval
    pub rest : S

  -- timeout_set and timeout_add
  abbrev pub arm : ℕ → Callback → ℕ → Timeval → le.Loop → le.Loop
  arm ev cb arg timeout loop =
      le.event_add (le.event_set loop ev (timeout_setup cb arg)) ev (some timeout)

  module _ {S : Type 0} where
    -- `new` is what malloc returns. NULL is returned with ENOMEM.
    unfoldable pub libevent_event_add :
        Option ℕ → ℤ → ℕ → Option Timeval → Callback → ℕ → Handler S → Handler S × Option ℕ
    libevent_event_add none fd events timeout cb arg h = (h, none)
    libevent_event_add (some ev) fd events timeout cb arg h = (
      record h {
        loop =
            le.event_add
              (le.event_set h.loop ev (record { fd = fd; events = events; cb = cb; arg = arg })) ev
              timeout;
        allocated = update ev (some tt) h.allocated;
      },
      some ev,
    )

    -- `none` is a pointer to an event that is not there.
    unfoldable pub libevent_event_del : ℕ → Handler S → Option (Handler S)
    libevent_event_del event h = elim (h.allocated event) [
      | none ↦ none
      | some u ↦
          some (record h {
            loop = le.event_del h.loop event;
            allocated = update event none h.allocated;
          })
    ]

    -- Whether `events & VDE_EV_PERSIST` is not 0 is given. A recurrent timeout has rtimeout_cb as its callback.
    -- Where the time gets no memory, it is copied to NULL, which is `none`.
    unfoldable pub libevent_timeout_add :
        Option ℕ
        → Option ℕ
        → Option ℕ
        → Timeval
        → Bool
        → ℕ
        → ℕ
        → Handler S
        → Option (Handler S × Option ℕ)
    libevent_timeout_add none new_rt new_tv timeout persist cb arg h = some (h, none)
    libevent_timeout_add (some ev) none new_tv timeout persist cb arg h = some (h, none)
    libevent_timeout_add (some ev) (some rt) none timeout true cb arg h = none
    libevent_timeout_add (some ev) (some rt) (some tv) timeout true cb arg h = some (
      record h {
        loop = arm ev recurring rt timeout h.loop;
        allocated = update ev (some tt) h.allocated;
        rtimeouts =
            update rt (some (record { ev = ev; timeout = some tv; cb = some cb; arg = arg }))
              h.rtimeouts;
        timevals = update tv (some timeout) h.timevals;
      },
      some rt,
    )
    libevent_timeout_add (some ev) (some rt) new_tv timeout false cb arg h = some (
      record h {
        loop = arm ev (user cb) arg timeout h.loop;
        allocated = update ev (some tt) h.allocated;
        rtimeouts =
            update rt (some (record { ev = ev; timeout = none; cb = none; arg = 0 })) h.rtimeouts;
      },
      some rt,
    )

    -- free(rt->timeout), if it is not NULL
    unfoldable pub free_timeval : Option ℕ → Handler S → Option (Handler S)
    free_timeval none h = some h
    free_timeval (some tv) h = elim (h.timevals tv) [
      | none ↦ none
      | some t ↦ some (record h { timevals = update tv none h.timevals })
    ]

    unfoldable pub libevent_timeout_del : ℕ → Handler S → Option (Handler S)
    unfolding free_timeval
    libevent_timeout_del timeout h = elim (h.rtimeouts timeout) [
      | none ↦ none
      | some rt ↦ elim (h.allocated rt.ev) [
        | none ↦ none
        | some u ↦ free_timeval rt.timeout (record h {
          loop = le.event_del h.loop rt.ev;
          allocated = update rt.ev none h.allocated;
          rtimeouts = update timeout none h.rtimeouts;
        })
      ]
    ]

    -- What the callbacks of the application do, by address and argument.
    module _ (call : ℕ → ℕ → Handler S → Handler S) where
      -- The end of rtimeout_cb: the rtimeout is read again.
      unfoldable pub reschedule : ℕ → Handler S → Option (Handler S)
      reschedule arg h = elim (h.rtimeouts arg) [
        | none ↦ none
        | some rt ↦ elim (h.allocated rt.ev) [
          | none ↦ none
          | some u ↦ elim rt.timeout [
            | none ↦ some (record h { loop = le.event_add h.loop rt.ev none })
            | some tv ↦ elim (h.timevals tv) [
              | none ↦ none
              | some t ↦ some (record h { loop = le.event_add h.loop rt.ev (some t) })
            ]
          ]
        ]
      ]

      unfoldable pub rtimeout_cb : ℕ → Handler S → Option (Handler S)
      unfolding reschedule
      rtimeout_cb arg h = elim (h.rtimeouts arg) [
        | none ↦ none
        | some rt ↦ elim rt.cb [ none ↦ none | some cb ↦ reschedule arg (call cb rt.arg h) ]
      ]

      -- libevent calls the callback of a pending event whose time has come.
      unfoldable pub dispatch : ℕ → Handler S → Option (Handler S)
      unfolding rtimeout_cb
      dispatch ev h =
          let h' : Handler S = record h { loop = le.expire h.loop ev } in
          elim (le.set_of h.loop ev) [
            | none ↦ none
            | some s ↦ elim s.cb [
              | recurring ↦ rtimeout_cb s.arg h'
              | user cb ↦ some (call cb s.arg h')
            ]
          ]
