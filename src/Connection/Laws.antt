-- ===== src/Connection/Laws.antt =====
-- Which functions a connection reaches once it has been set up.
use vde.Base.{Bool, false, ℕ, ◌<◌, ◌≡◌, refl, true, Option, none, some, done, arith, ltb}
use vde.Packet.{Pkt}
use vde.Connection.{
  Connection, ConnError, conn_ok, conn_read_closed, conn_read_delay, conn_write_closed,
  conn_write_delay, Runner, vde_connection_init, vde_connection_set_callbacks, vde_connection_fini,
  vde_connection_write, vde_connection_call_read, vde_connection_call_write,
  vde_connection_call_error, vde_connection_max_payload,
}

-- Errors other than a delayed write are fatal.
abbrev pub is_fatal : ConnError → Bool
is_fatal conn_write_delay = false
is_fatal conn_ok = true
is_fatal conn_read_closed = true
is_fatal conn_read_delay = true
is_fatal conn_write_closed = true

-- A connection that its backend and its user have set up.
abbrev pub set_up :
    Connection
    → Option ℕ
    → ℕ
    → Option ℕ
    → Option ℕ
    → Option ℕ
    → Option ℕ
    → Option ℕ
    → Option ℕ
    → Option ℕ
    → Option Connection
set_up conn ctx size write close priv read_cb write_cb error_cb arg =
    elim (vde_connection_init conn ctx size write close priv) [
      | none ↦ none
      | some c ↦ vde_connection_set_callbacks c read_cb write_cb error_cb arg
    ]

-- A connection with a payload size above 0 is set up with any functions, and then each call goes to
-- the one that was given for it, with the pointer of its side; only the callback for writes may be
-- absent, and then the call is done without a change.
pub set_up-reaches :
    {S : Type 0} (run : Runner S) (conn : Connection)
    (ctx size write close priv read_cb error_cb : ℕ) (write_cb arg : Option ℕ) (pkt : Pkt)
    (why : ConnError) (s : S)
    → 0 < size
    → (c : Connection) × (set_up conn
          (some ctx)
          size
          (some write)
          (some close)
          (some priv)
          (some read_cb)
          write_cb
          (some error_cb)
          arg
        ≡ some c)
      × (vde_connection_max_payload c ≡ size)
      × (vde_connection_write run c pkt s ≡ some (run.run_write write (some priv) pkt s))
      × (vde_connection_fini run c s ≡ some (run.run_close close (some priv) s))
      × (vde_connection_call_read run c pkt s ≡ some (run.run_read_cb read_cb arg pkt s))
      × (vde_connection_call_error run c (some pkt) why s
          ≡ some (run.run_error_cb error_cb arg (some pkt) why s))
      × (vde_connection_call_write run c pkt s
          ≡ elim write_cb [ none ↦ some (s, done) | some f ↦ some (run.run_write_cb f arg pkt s) ])
unfolding vde_connection_init vde_connection_set_callbacks vde_connection_max_payload
    vde_connection_write vde_connection_fini vde_connection_call_read vde_connection_call_error
    vde_connection_call_write
set_up-reaches run conn ctx size write close priv read_cb error_cb write_cb arg pkt why s h =
    let positive : ltb 0 size ≡ true = ground (arith, h) in
    (
      record conn {
        context = some ctx;
        max_pload = size;
        be_write = some write;
        be_close = some close;
        be_priv = some priv;
        read_cb = some read_cb;
        write_cb = write_cb;
        error_cb = some error_cb;
        cb_priv = arg;
      },
      rw (positive, set_up, vde_connection_init),
      refl,
      refl,
      refl,
      refl,
      refl,
      refl,
    )
