-- ===== src/Ctrl/Notices/Laws.antt =====
-- What a subscriber is told of a signal.
use vde.Base.{
  ℕ, ◌≡◌, ◌<◌, ◌+◌, ◌^◌, refl, true, false, Option, none, some, List, [], ◌∷◌, ◌++◌, Bool, length,
  All, CString, Status, arith, backwards,
}
use vde.Glib.{Glib}
use vde.Sobj.{Sobj, string_type, array_type}
use vde.Packet.{Pkt}
use vde.Ctrl.Paths.{build_signal_path}
use vde.Ctrl.Rpc.{rpc_10_sobj_validate_call}
use vde.Ctrl.Rpc.Key
use vde.Ctrl.Rpc.Replies.{rpc_10_build_notice_lem}
use vde.Ctrl.Write.Queue.{send_all}
use vde.Ctrl.Write.Chunks.{carried, IsSmall}
use vde.Ctrl.Write.Delivery.{ctrl_engine_conn_write-delivers}
use vde.Ctrl.Notices.{signal_callback}

module _ ⦃g : Glib⦄ where
  module _ ⦃s : Sobj⦄ (to_string : s.Obj → Option CString) {C : Type 0}
      (send : Pkt → C → C × Status) (alloc : ℕ → Bool) (payload_sz : ℕ) where
    -- Each object is printed, as less than 2 ^ 32 bytes with the NUL.
    abbrev pub Prints : Type 0
    Prints = (o : s.Obj) → (str : CString) × (to_string o ≡ some str) × (length str + 1 < 2 ^ 32)

    -- A signal that is raised with an array makes one notice, with the path of the signal as its method and the
    -- array as its parameters, and no id, so it is not a call. It is printed into packets that
    -- are offered to the connection behind those that were queued, until one is refused; that one and those
    -- behind it are the new queue. It is assumed that objects can be printed, that there is memory, and that
    -- the payload size is from 1 to 2 ^ 16 - 1.
    pub signal_callback-delivers :
        (component_name signal_path : CString) (info : s.Obj) (queue : List Pkt) (c : C)
        → Prints
        → ((n : ℕ) → alloc n ≡ true)
        → 0 < payload_sz
        → payload_sz < 2 ^ 16
        → s.is_type info array_type ≡ true
        → (notice method : s.Obj) × (str : CString) × (new : List Pkt) × (s.hash_lookup notice
              Key.method
            ≡ some method)
          × (s.get_string method ≡ build_signal_path component_name signal_path)
          × (s.hash_lookup notice Key.params ≡ some info)
          × (s.hash_lookup notice Key.id ≡ none)
          × (rpc_10_sobj_validate_call notice ≡ false)
          × (to_string notice ≡ some str)
          × (carried new ≡ str ++ (0 ∷ []))
          × All (IsSmall payload_sz) new
          × (signal_callback to_string send alloc payload_sz component_name signal_path
                (some info)
                queue
                c
              ≡ (let (left, c') = send_all send (backwards queue ++ new) c in
                  some (backwards left, c')))
    unfolding signal_callback
    signal_callback-delivers component_name signal_path info queue c prints enough some_sz small
          many =
        let path = build_signal_path component_name signal_path in
        let method = s.new_string path in
        let (notice, built, no_id, has_method, has_params, no_call) =
          rpc_10_build_notice_lem method info (ground (arith, s.new_string_type path string_type))
            many in
        let (str, printed, short) = prints notice in
        let (new, whole, fits, ran) =
          ctrl_engine_conn_write-delivers send alloc payload_sz str queue c enough short some_sz
            small in
        (
          notice,
          method,
          str,
          new,
          has_method,
          s.get_new_string path,
          has_params,
          no_id,
          no_call,
          printed,
          whole,
          fits,
          rw (built, signal_callback) (rw (printed, ran) refl),
        )
