-- ===== src/Signal.antt =====
-- signal.c and include/vde3/signal.h: the callbacks of a signal. Functions, private data and list
-- elements are addresses. A callback is code of its owner: what `vde_signal_raise` and
-- `vde_signal_fini` call is returned as a list, in the order of the calls, and a callback that
-- changes the list of the signal while it is walked is not modelled.
pub mod Registered
pub mod Calls
use vde.Base.{
  ℕ, Bool, Option, none, some, List, [], ◌∷◌, ◌&&◌, ◌==◌, if◌then◌else◌, CString, Errno, Status,
  done, fail, eexist, enoent, enomem,
}
use vde.Glib.{Glib}

-- vde_argument of include/vde3/command.h
pub record Argument : Type 0 where
  pub name : CString
  pub description : CString
  pub type : CString

-- A signal_cb, with the address it is allocated at.
pub record SignalCb : Type 0 where
  pub addr : ℕ
  pub cb : ℕ
  pub destroy_cb : ℕ
  pub priv_data : ℕ

pub record Signal : Type 0 where
  pub name : CString
  pub description : CString
  pub args : List Argument
  pub callbacks : List SignalCb

-- A call of a callback: the function, and the arguments it is given.
pub record Call (I : Type 0) : Type 0 where
  pub callee : ℕ
  pub component : ℕ
  pub signal : CString
  pub info : I
  pub priv_data : ℕ

abbrev pub same_cb : SignalCb → ℕ → ℕ → ℕ → Bool
same_cb e cb destroy_cb priv_data =
    (e.cb == cb) && ((e.destroy_cb == destroy_cb) && (e.priv_data == priv_data))

-- The loop of `vde_signal_attach` and `vde_signal_detach`: the first entry with these fields.
pub find_cb : List SignalCb → ℕ → ℕ → ℕ → Option SignalCb
find_cb [] cb destroy_cb priv_data = none
find_cb (e ∷ es) cb destroy_cb priv_data =
    if same_cb e cb destroy_cb priv_data then some e else find_cb es cb destroy_cb priv_data

pub vde_signal_get_name : Option Signal → Option CString
vde_signal_get_name none = none
vde_signal_get_name (some signal) = some signal.name

module _ ⦃g : Glib⦄ where
  -- `new` is what vde_calloc returns, `none` for NULL.
  pub vde_signal_attach : Option ℕ → Signal → ℕ → ℕ → ℕ → Signal × Status
  vde_signal_attach new signal cb destroy_cb priv_data =
      elim (find_cb signal.callbacks cb destroy_cb priv_data) [
        | some e ↦ (signal, fail eexist)
        | none ↦ elim new [
          | none ↦ (signal, fail enomem)
          | some a ↦ (
            record signal {
              callbacks =
                  g.list_prepend signal.callbacks
                    (record { addr = a; cb = cb; destroy_cb = destroy_cb; priv_data = priv_data });
            },
            done,
          )
        ]
      ]

  pub vde_signal_detach : Signal → ℕ → ℕ → ℕ → Signal × Status
  vde_signal_detach signal cb destroy_cb priv_data =
      elim (find_cb signal.callbacks cb destroy_cb priv_data) [
        | none ↦ (signal, fail enoent)
        | some e ↦ (
          record signal { callbacks = g.list_remove (λ x. x.addr) signal.callbacks e.addr },
          done,
        )
      ]

raise_loop : {I : Type 0} → List SignalCb → CString → I → ℕ → List (Call I)
raise_loop [] name info component = []
raise_loop (e ∷ es) name info component =
    record {
      callee = e.cb;
      component = component;
      signal = name;
      info = info;
      priv_data = e.priv_data;
    }
    ∷ raise_loop es name info component

-- The calls, in order.
pub vde_signal_raise : {I : Type 0} → Signal → I → ℕ → List (Call I)
unfolding raise_loop
vde_signal_raise signal info component = raise_loop signal.callbacks signal.name info component

-- `none` where vde_calloc returns NULL.
unfoldable pub vde_signal_dup : Option ℕ → Signal → Option Signal
vde_signal_dup none signal = none
vde_signal_dup (some a) signal = some (record signal { callbacks = [] })

call_destroys : List SignalCb → CString → ℕ → List (Call (Unit {0})) × List ℕ
call_destroys [] name component = ([], [])
call_destroys (e ∷ es) name component =
    let (calls, freed) = call_destroys es name component in
    (
      record {
        callee = e.destroy_cb;
        component = component;
        signal = name;
        info = tt;
        priv_data = e.priv_data;
      }
          ∷ calls,
      e.addr ∷ freed,
    )

-- The calls of the destroy callbacks, in order, and the addresses that are freed.
pub vde_signal_fini : Signal → ℕ → List (Call (Unit {0})) × List ℕ
unfolding call_destroys
vde_signal_fini signal component = call_destroys signal.callbacks signal.name component
