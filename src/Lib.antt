-- ===== src/Lib.antt =====
-- Verification of vde3, the library of Virtual Distributed Ethernet, version 3.
--
-- A vde3 program keeps a context with modules and named components. A component is an engine, a
-- transport or a connection manager; it has commands, and signals to which callbacks attach. A
-- transport makes connections, and an engine serves them, by packets and by callbacks. The control
-- engine serves JSON-RPC calls of the commands of all components, and forwards their signals.
--
-- The files and the code:
--   OrdHash       src/vde_ordhash.c: a hash table with the order of insertion
--   Signal        src/signal.c, src/include/vde3/signal.h: callbacks of a signal
--   Component     src/component.c, src/include/vde3/command.h: commands, signals, references; Kinds is the calls of
--                 engines, transports and connection managers
--   Context       src/context.c: Modules is the modules it knows, with src/module.c in Modules.Load,
--                 Life is a component from its creation to its deletion, with src/component.c, and
--                 Fini is the end of a context
--   ConnManager   src/conn_manager.c: Init is conn_manager_init and conn_manager_fini
--   Packet        src/include/vde3/packet.h: packets as memory with offsets
--   Connection    src/connection.c, src/include/vde3/connection.h
--   Ctrl          src/engine_ctrl.c: Split is ctrl_split_payload, Write is ctrl_engine_conn_write
--                 and ctrl_engine_writecb, Paths is check_split_path and build_signal_path, Rpc is
--                 the messages, Calls is ctrl_engine_deserialize_string, Subscribe is
--                 engine_ctrl_notify_add and engine_ctrl_notify_del, and the end of subscriptions,
--                 Notices is signal_callback and signal_destroy_callback, Life is the callbacks
--                 of a connection, its start and its end, and the init and fini of the engine
--   Hub           src/engine_hub.c: the callbacks of a hub, its new ports, its init and fini
--   Vde2          src/transport_vde2.c: vde2_conn_write and vde2_conn_write_data_event, and in Trace
--                 the packets that are sent, in Handshake the requests of peers and, in
--                 Handshake/Reach, all handlers in any order, in Reading the frames that are read,
--                 in Listen the listening socket and the init of the transport
--   Sobj          the objects of json-c, as src/include/vde3.h names them by macros
--   Local         src/localconnection.c: writing to and closing an end; Connect is
--                 vde_connect_engines_unqueued
--   Libevent      src/libevent_handler.c: events, timeouts and recurrent timeouts
--   Glib          the interface of GLib, as src/include/vde3/common.h names it by macros
--   Base          shared types, tests and lemmas; Base.Int is the C type int of reference counts
-- A definition has the name of its C function; a loop or a part of a long function is a definition
-- of its own.
--
-- State. A table, a list or a queue of GLib is a value of the interface Glib, of which only
-- what its manual says is known; Glib.Instance shows that the interface has an instance.
-- Objects of json-c are values of the interface Sobj. A component is an address in a heap,
-- since the context, its creator and its module share it; a signal belongs to one component, so
-- it is a value in its table. Functions reached through pointers are parameters: Plugin for the
-- init and fini of a module, Runner for the functions of a connection, Socket for sendto and
-- the callbacks around it, Surroundings for what the handlers of a vde2 transport read and call,
-- Outside for the parser of json-c and the commands, Environment for what a connection manager
-- calls, Dl and Fts for the dynamic linker and directories. Where a theorem relies on what such
-- functions leave alone, it says so by a hypothesis, as IsTame, IsGentle, ArePolite, LeaveEnds,
-- BehavesWell, IsUser, IsBounded and IsRecorded are. An operation returns `none` where the C code
-- follows a pointer that is NULL or dangling, or divides by 0. Allocations are parameters: GLib
-- aborts where its memory ends, so a hypothesis that each succeeds is what a running program sees;
-- malloc and strndup, of timeouts and of the two names of a path, may fail.
--
-- Numbers. Sizes of type unsigned int and uint16_t keep their wrap-around. Reference counts are
-- unbounded integers.
--
-- Fuel. vde_ordhash_remove_all has the length of its list as fuel, split_loop the length of the
-- payload plus one, flush_loop the length of the queue plus one; send_loop has as much as the
-- queue and what callbacks still write need, load_loop as much as the bound of the directory
-- that is read, and the loops of vde_context_fini the length of the table plus one. That this
-- is enough is shown.
--
-- Not modelled: the release of memory, but for components, the ends of local connections, ctrl_conns
-- and rtimeouts with their times; logging; the reference counts of json objects; the files of sockets; the generated
-- wrappers of commands; notices that a command causes while it runs; the command engine_hub_printport;
-- the getters of single fields, which are fields of the records. libevent is an interface.
pub mod Base
pub mod Glib
pub mod OrdHash
pub mod Signal
pub mod Component
pub mod Context
pub mod Packet
pub mod Sobj
pub mod Ctrl
pub mod Connection
pub mod Hub
pub mod Vde2
pub mod Libevent
pub mod Local
pub mod ConnManager
