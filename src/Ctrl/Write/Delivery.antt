-- ===== src/Ctrl/Write/Delivery.antt =====
-- A message goes out behind those that were queued before it.
use vde.Base.{
  backwards, ℕ, ◌+◌, ◌^◌, ◌<◌, ◌≡◌, ap, ◌∙◌, Bool, true, Option, some, List, [], ◌∷◌, ◌++◌, length,
  All, CString, Status,
}
use vde.Glib.{Glib}
use vde.Packet.{Pkt}
use vde.Ctrl.Write.{ctrl_engine_writecb, ctrl_engine_conn_write}
use vde.Ctrl.Write.Queue.{send_all, flushed, ctrl_engine_writecb-send_all}
use vde.Ctrl.Write.Chunks.{carried, IsSmall, queue_message-carried}

-- The result of ctrl_engine_conn_write after sending.
abbrev pub sent_all : {S : Type 0} → List Pkt × S → Option (List Pkt × S × Bool)
sent_all (ps, s) = some (backwards ps, s, true)

module _ ⦃g : Glib⦄ {S : Type 0} (send : Pkt → S → S × Status) (alloc : ℕ → Bool) where
  -- Where each allocation succeeds, for a message shorter than 2 ^ 32 bytes with its NUL and a payload
  -- size from 1 to 2 ^ 16 - 1: the message becomes packets, none longer than the payload size, whose
  -- payloads together are its bytes and one NUL. They are offered to the connection behind the packets
  -- of the queue until one is refused; that one and those behind it are the new queue. 0 is returned.
  pub ctrl_engine_conn_write-delivers :
      (payload_sz : ℕ) (out_str : CString) (queue : List Pkt) (s : S)
      → ((n : ℕ) → alloc n ≡ true)
      → length out_str + 1 < 2 ^ 32
      → 0 < payload_sz
      → payload_sz < 2 ^ 16
      → (new : List Pkt) × (carried new ≡ out_str ++ (0 ∷ []))
        × All (IsSmall payload_sz) new
        × (ctrl_engine_conn_write send alloc payload_sz (some out_str) queue s
            ≡ sent_all (send_all send (backwards queue ++ new) s))
  unfolding ctrl_engine_conn_write
  ctrl_engine_conn_write-delivers payload_sz out_str queue s enough short some_sz small =
      let (queue', new, made, back, whole, fits) =
        queue_message-carried alloc enough payload_sz out_str queue short some_sz small in
      let ran : ctrl_engine_writecb send queue' s
          ≡ flushed (send_all send (backwards queue ++ new) s) =
        ctrl_engine_writecb-send_all send queue' s ∙ ap (λ q. flushed (send_all send q s)) back in
      (new, whole, fits, rw (made, ran, ctrl_engine_conn_write))
