-- ===== src/Libevent/Model.antt =====
-- A loop that keeps what it is told in two functions: an instance of the interface.
use vde.Base.{ℕ, Option, none, some, refl}
use vde.Connection.{Timeval}
use vde.Libevent.{Setup, Libevent, update}

pub record Tables : Type 0 where
  pub sets : ℕ → Option Setup
  pub armed : ℕ → Option (Option Timeval)

instance abbrev pub tables : Libevent
tables = record {
  Loop = Tables;
  set_of = λ l a. l.sets a;
  pending = λ l a. l.armed a;
  event_set = λ l e s. record { sets = update e (some s) l.sets; armed = update e none l.armed };
  event_add = λ l e t. record l { armed = update e (some t) l.armed };
  event_del = λ l e. record l { armed = update e none l.armed };
  expire = λ l e. record l { armed = update e none l.armed };
  set-event_set = λ l e s a. refl;
  pending-event_set = λ l e s a. refl;
  set-event_add = λ l e t a. refl;
  pending-event_add = λ l e t a. refl;
  set-event_del = λ l e a. refl;
  pending-event_del = λ l e a. refl;
  set-expire = λ l e a. refl;
  pending-expire = λ l e a. refl;
}
