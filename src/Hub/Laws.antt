-- ===== src/Hub/Laws.antt =====
-- Which ports a packet reaches, and how the ports change.
use vde.Base.{
  ℕ, suc, ◌+◌, ◌≡◌, refl, ◌∙◌, ap, Bool, true, false, none, some, List, [], ◌∷◌, ◌==◌, ltb, leb,
  not, ◌&&◌, ◌||◌, if◌then◌else◌, Status, done, fail, epipe, mem, Distinct, length, mem-removed,
  Distinct-removed, arith, Bool-cases, inl, inr,
}
use vde.Glib.{Glib}
use vde.Packet.{Pkt}
use vde.Signal.{Call}
use vde.Component.{Component}
use vde.Component.Signals.{vde_component_signal_raise}
use vde.Connection.{
  Connection, ConnError, conn_ok, conn_read_closed, conn_read_delay, conn_write_closed,
  conn_write_delay, vde_connection_set_callbacks, vde_connection_max_payload,
  vde_connection_set_send_properties, vde_connection_set_pkt_properties,
}
use vde.Connection.Laws.{is_fatal}
use vde.Hub.{
  HubEngine, Addresses, eth_frame_sz, write_loop, hub_engine_readcb, remove_port,
  hub_engine_errorcb, hub_engine_newconn, port_new,
}

-- A write that logs the port, whatever it returns.
abbrev pub logging : (ℕ → Status) → ℕ → Pkt → List ℕ → List ℕ × Status
logging answer port pkt log = (port ∷ log, answer port)

abbrev pub count : ℕ → List ℕ → ℕ
count p [] = 0
count p (x ∷ xs) = if x == p then suc (count p xs) else count p xs

write_loop-count :
    (answer : ℕ → Status) (ports : List ℕ) (conn p : ℕ) (pkt : Pkt) (log : List ℕ)
    → Distinct ports
    → count p (write_loop (logging answer) ports conn pkt log)
      ≡ (if mem p ports && not (p == conn) then suc (count p log) else count p log)
unfolding write_loop
write_loop-count answer [] conn p pkt log d = refl
write_loop-count answer (x ∷ xs) conn p pkt log (fresh, d) = elim (Bool-cases (x == conn)) [
  | inl e ↦ rw e (ground (arith, e, write_loop-count answer xs conn p pkt log d))
  | inr e ↦ rw e (elim (Bool-cases (x == p)) [
    | inl same ↦ ground (
      arith,
      e,
      same,
      fresh,
      ap (λ y. mem y xs) {x = x} {y = p} (ground (arith, same)),
      write_loop-count answer xs conn p pkt (x ∷ log) d,
    )
    | inr other ↦ ground (arith, e, other, write_loop-count answer xs conn p pkt (x ∷ log) d)
  ])
]

-- Where no port is twice in the hub, a packet is written once to every port but the one that it was
-- read on, to no other connection, and whatever the writes return.
pub hub_engine_readcb-once :
    (answer : ℕ → Status) (hub : HubEngine) (conn p : ℕ) (pkt : Pkt)
    → Distinct hub.ports
    → count p (hub_engine_readcb (logging answer) hub conn pkt []).0
      ≡ (if mem p hub.ports && not (p == conn) then 1 else 0)
unfolding hub_engine_readcb
hub_engine_readcb-once answer hub conn p pkt d = write_loop-count answer hub.ports conn p pkt [] d

module _ ⦃g : Glib⦄ where
  remove_port_lem :
      (q : g.Quarks) (c : Component) (hub : HubEngine) (conn : ℕ)
      → Distinct hub.ports
      → let (hub', calls, st) = remove_port q c hub conn in
        Distinct hub'.ports
        × (st ≡ fail epipe)
        × ((p : ℕ) → mem p hub'.ports ≡ (mem p hub.ports && not (p == conn)))
  unfolding remove_port
  remove_port_lem q c hub conn d =
      rw (g.remove_law (λ p. p) hub.ports conn)
        (Distinct-removed hub.ports conn d, refl, λ p. mem-removed hub.ports conn p d)

  -- The ports stay distinct when a connection has an error. A delayed write changes nothing, raises no
  -- signal and is done; after any other error, which is EPIPE, the ports are those other than the
  -- connection.
  pub hub_engine_errorcb_lem :
      (q : g.Quarks) (c : Component) (hub : HubEngine) (conn : ℕ) (err : ConnError)
      → Distinct hub.ports
      → let (hub', calls, st) = hub_engine_errorcb q c hub conn err in
        Distinct hub'.ports
        × (st ≡ (if is_fatal err then fail epipe else done))
        × ((p : ℕ) → mem p hub'.ports ≡ (mem p hub.ports && not (is_fatal err && (p == conn))))
  unfolding hub_engine_errorcb
  hub_engine_errorcb_lem q c hub conn conn_write_delay d = (d, refl, λ p. ground arith)
  hub_engine_errorcb_lem q c hub conn conn_ok d = remove_port_lem q c hub conn d
  hub_engine_errorcb_lem q c hub conn conn_read_closed d = remove_port_lem q c hub conn d
  hub_engine_errorcb_lem q c hub conn conn_read_delay d = remove_port_lem q c hub conn d
  hub_engine_errorcb_lem q c hub conn conn_write_closed d = remove_port_lem q c hub conn d

  -- A new connection is accepted exactly where its payload is unlimited (0) or holds a full frame. It
  -- is then a port, with the callbacks of the hub, no callback for writes, and the send properties of
  -- the hub, and "port_new" is raised with the number of the ports; a refusal changes nothing and
  -- raises nothing. The ports stay distinct if the connection was none of them.
  pub hub_engine_newconn_lem :
      (at : Addresses) (q : g.Quarks) (c : Component) (hub : HubEngine) (conn_at : ℕ)
      (conn : Connection)
      → Distinct hub.ports
      → mem conn_at hub.ports ≡ false
      → (hub' : HubEngine) × (conn' : Connection) × (calls : List (Call ℕ)) × (ok : Bool)
        × (hub_engine_newconn at q c hub conn_at conn ≡ some (hub', conn', calls, ok))
        × (ok ≡ ((conn.max_pload == 0) || leb eth_frame_sz conn.max_pload))
        × Distinct hub'.ports
        × (hub'.ports ≡ (if ok then conn_at ∷ hub.ports else hub.ports))
        × (calls ≡ (
            if ok
            then vde_component_signal_raise q hub.component c port_new (length hub.ports + 1)
            else []))
        × (conn' ≡ (
            if ok
            then record conn {
              read_cb = some at.readcb;
              write_cb = none;
              error_cb = some at.errorcb;
              cb_priv = some at.hub;
              pkt_head_sz = 0;
              pkt_tail_sz = 0;
              send_maxtries = 10;
              send_maxtimeout = record { tv_sec = 5; tv_usec = 0 };
            }
            else conn))
  unfolding hub_engine_newconn vde_connection_max_payload vde_connection_set_callbacks
      vde_connection_set_pkt_properties vde_connection_set_send_properties
  hub_engine_newconn_lem at q c hub conn_at conn d fresh =
      elim (Bool-cases (not (conn.max_pload == 0) && ltb conn.max_pload eth_frame_sz)) [
        | inl small ↦ (
          hub,
          conn,
          [],
          false,
          rw (small, hub_engine_newconn),
          ground (arith, small),
          d,
          refl,
          refl,
          refl,
        )
        | inr large ↦
            let same : g.list_length (g.list_prepend hub.ports conn_at) ≡ length hub.ports + 1 =
              ap g.list_length (g.prepend_law hub.ports conn_at)
              ∙ (g.length_law (conn_at ∷ hub.ports) ∙ omega arith) in
            (
              record hub { ports = g.list_prepend hub.ports conn_at },
              _,
              _,
              true,
              rw (large, hub_engine_newconn),
              ground (arith, large),
              rw (g.prepend_law hub.ports conn_at) (fresh, d),
              g.prepend_law hub.ports conn_at,
              ap (vde_component_signal_raise q hub.component c port_new) same,
              refl,
            )
      ]
