-- ===== src/Libevent/Laws.antt =====
-- Adding and deleting a timeout.
use vde.Base.{ℕ, Bool, true, false, Option, none, some, ◌≡◌, refl, ap, arith}
use vde.Connection.{Timeval}
use vde.Libevent.{
  Libevent, Handler, Rtimeout, free_timeval, update, libevent_timeout_add, libevent_timeout_del,
  timeout_setup, recurring, user, arm, Callback,
}

-- The same loop and memory, as far as the program can tell.
pub record Same ⦃le : Libevent⦄ {S : Type 0} (h h' : Handler S) : Type 0 where
  pub pending : (a : ℕ) → le.pending h'.loop a ≡ le.pending h.loop a
  pub allocated : (a : ℕ) → h'.allocated a ≡ h.allocated a
  pub rtimeouts : (a : ℕ) → h'.rtimeouts a ≡ h.rtimeouts a
  pub timevals : (a : ℕ) → h'.timevals a ≡ h.timevals a
  pub rest : h'.rest ≡ h.rest

update_back :
    {A : Type 0} (a : ℕ) (v : Option A) (m : ℕ → Option A)
    → m a ≡ none
    → (b : ℕ) → update a none (update a v m) b ≡ m b
update_back a v m e b = ground (arith, e, ap m {x = a} {y = b})

module _ ⦃le : Libevent⦄ where
  disarm :
      (ev : ℕ) (c : Callback) (arg : ℕ) (timeout : Timeval) (l : le.Loop)
      → le.pending l ev ≡ none
      → (a : ℕ) → le.pending (le.event_del (arm ev c arg timeout l) ev) a ≡ le.pending l a
  disarm ev c arg timeout l e a =
      let s = timeout_setup c arg in
      ground (
        arith,
        e,
        le.pending-event_del (arm ev c arg timeout l) ev a,
        le.pending-event_add (le.event_set l ev s) ev (some timeout) a,
        le.pending-event_set l ev s a,
        ap (le.pending l) {x = ev} {y = a},
      )

module _ ⦃le : Libevent⦄ {S : Type 0} where
  -- A timeout, recurrent or not, that gets memory and is deleted again leaves the pending events and the
  -- memory as they were, also that of the copy of its time. Where the event or the rtimeout gets no memory,
  -- NULL is returned and nothing changes; where the copy of a recurrent timeout gets none, it is written to NULL.
  -- The memory is new, and its event is not pending.
  pub timeout_del-add :
      (ev rt tv : ℕ) (timeout : Timeval) (persist : Bool) (cb arg : ℕ) (h : Handler S)
      → h.allocated ev ≡ none
      → h.rtimeouts rt ≡ none
      → h.timevals tv ≡ none
      → le.pending h.loop ev ≡ none
      → (h1 h2 : Handler S) × (libevent_timeout_add
            (some ev)
            (some rt)
            (some tv)
            timeout
            persist
            cb
            arg
            h
          ≡ some (h1, some rt))
        × (libevent_timeout_del rt h1 ≡ some h2)
        × Same h h2
        × (libevent_timeout_add none (some rt) (some tv) timeout persist cb arg h ≡ some (h, none))
        × (libevent_timeout_add (some ev) none (some tv) timeout persist cb arg h ≡ some (h, none))
        × (libevent_timeout_add (some ev) (some rt) none timeout true cb arg h ≡ none)
  unfolding libevent_timeout_add libevent_timeout_del free_timeval
  timeout_del-add ev rt tv timeout true cb arg h ne nr nt np =
      let new : Rtimeout = record { ev = ev; timeout = some tv; cb = some cb; arg = arg } in
      let h1 : Handler S = record h {
        loop = arm ev recurring rt timeout h.loop;
        allocated = update ev (some tt) h.allocated;
        rtimeouts = update rt (some new) h.rtimeouts;
        timevals = update tv (some timeout) h.timevals;
      } in
      (
        h1,
        record h1 {
          loop = le.event_del h1.loop ev;
          allocated = update ev none h1.allocated;
          rtimeouts = update rt none h1.rtimeouts;
          timevals = update tv none h1.timevals;
        },
        refl,
        ground arith,
        record {
          pending = disarm ev recurring rt timeout h.loop np;
          allocated = update_back ev (some tt) h.allocated ne;
          rtimeouts = update_back rt (some new) h.rtimeouts nr;
          timevals = update_back tv (some timeout) h.timevals nt;
          rest = refl;
        },
        refl,
        refl,
        refl,
      )
  timeout_del-add ev rt tv timeout false cb arg h ne nr nt np =
      let new : Rtimeout = record { ev = ev; timeout = none; cb = none; arg = 0 } in
      let h1 : Handler S = record h {
        loop = arm ev (user cb) arg timeout h.loop;
        allocated = update ev (some tt) h.allocated;
        rtimeouts = update rt (some new) h.rtimeouts;
      } in
      (
        h1,
        record h1 {
          loop = le.event_del h1.loop ev;
          allocated = update ev none h1.allocated;
          rtimeouts = update rt none h1.rtimeouts;
        },
        refl,
        ground arith,
        record {
          pending = disarm ev (user cb) arg timeout h.loop np;
          allocated = update_back ev (some tt) h.allocated ne;
          rtimeouts = update_back rt (some new) h.rtimeouts nr;
          timevals = λ a. refl;
          rest = refl;
        },
        refl,
        refl,
        refl,
      )
