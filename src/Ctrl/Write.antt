-- ===== src/Ctrl/Write.antt =====
-- ctrl_engine_conn_write and ctrl_engine_writecb of engine_ctrl.c: a message is cut into packets that
-- the connection can carry, which wait in a queue until the connection takes them.
pub mod Chunks
pub mod Queue
pub mod Delivery
pub mod Tests
use vde.Base.{
  ℕ, zero, suc, ◌+◌, ◌-◌, ◌*◌, ◌/◌, ◌%◌, ◌^◌, Bool, true, false, Option, none, some, List, [], ◌∷◌,
  ◌++◌, ◌==◌, ltb, if◌then◌else◌, length, CString, Status, done, fail, einval, is_done, ◌&&◌, not,
  Errno,
}
use vde.Glib.{Glib}
use vde.Packet.{Pkt, Hdr, bytes, memcpy, hdr_sz, vde_pkt_new}

-- The packet of a chunk: pkt_len is of the type uint16_t. `none` is a call through NULL, where
-- vde_pkt_new finds no memory.
pub chunk : (ℕ → Bool) → List ℕ → ℕ → ℕ → Option Pkt
unfolding vde_pkt_new
chunk alloc str from cpy_sz = elim (vde_pkt_new alloc cpy_sz 0 0) [
  | none ↦ none
  | some pkt ↦ some (record pkt {
    hdr = record pkt.hdr { pkt_len = cpy_sz % 2 ^ 16 };
    memory = memcpy pkt.memory (pkt.payload - hdr_sz) (bytes str) from cpy_sz;
  })
]

module _ ⦃g : Glib⦄ where
  -- The loop that makes the packets; `n` is num_chunks - sent_chunks. `str` is the string with its
  -- NUL.
  pub chunk_loop : (ℕ → Bool) → List ℕ → ℕ → ℕ → ℕ → ℕ → List Pkt → Option (List Pkt)
  unfolding chunk
  chunk_loop alloc str payload_sz last_chunk_sz zero sent_chunks queue = some queue
  chunk_loop alloc str payload_sz last_chunk_sz (suc n) sent_chunks queue =
      let cpy_sz = if (n == 0) && not (last_chunk_sz == 0) then last_chunk_sz else payload_sz in
      elim (chunk alloc str ((sent_chunks * payload_sz) % 2 ^ 32) cpy_sz) [
        | none ↦ none
        | some pkt ↦
            chunk_loop alloc str payload_sz last_chunk_sz n (suc sent_chunks)
              (g.queue_push_head queue pkt)
      ]

  -- ctrl_engine_conn_write up to the loop that sends. out_len is of the type unsigned int; a payload
  -- size of 0 divides by 0, which is undefined.
  pub queue_message : (ℕ → Bool) → ℕ → CString → List Pkt → Option (List Pkt)
  unfolding chunk_loop
  queue_message alloc payload_sz out_str queue =
      let out_len = (length out_str + 1) % 2 ^ 32 in
      let last_chunk_sz = out_len % payload_sz in
      let num_chunks =
        if last_chunk_sz == 0 then out_len / payload_sz else out_len / payload_sz + 1 in
      if payload_sz == 0
      then none
      else chunk_loop alloc (out_str ++ (0 ∷ [])) payload_sz last_chunk_sz num_chunks 0 queue

  -- The loop of ctrl_engine_writecb, which also ends ctrl_engine_conn_write. `send` writes to the
  -- connection. The fuel is a bound on the number of packets.
  pub flush_loop : {S : Type 0} → (Pkt → S → S × Status) → ℕ → List Pkt → S → Option (List Pkt × S)
  flush_loop send zero queue s = none
  flush_loop send (suc n) queue s = elim (g.queue_pop_tail queue) [
    | none ↦ some (queue, s)
    | some (pkt, queue') ↦
        let (s', st) = send pkt s in
        let rest = flush_loop send n queue' s' in
        if is_done st then rest else some (g.queue_push_tail queue' pkt, s')
  ]

  pub ctrl_engine_writecb :
      {S : Type 0} → (Pkt → S → S × Status) → List Pkt → S → Option (List Pkt × S)
  unfolding flush_loop
  ctrl_engine_writecb send queue s = flush_loop send (suc (g.queue_get_length queue)) queue s

  -- `out_str` is what vde_sobj_to_string makes of the message; without it nothing is sent.
  pub ctrl_engine_conn_write :
      {S : Type 0}
      → (Pkt → S → S × Status)
      → (ℕ → Bool)
      → ℕ
      → Option CString
      → List Pkt
      → S
      → Option (List Pkt × S × Bool)
  unfolding queue_message ctrl_engine_writecb
  ctrl_engine_conn_write send alloc payload_sz none queue s = some (queue, s, false)
  ctrl_engine_conn_write send alloc payload_sz (some out_str) queue s =
      elim (queue_message alloc payload_sz out_str queue) [
        | none ↦ none
        | some queue' ↦ elim (ctrl_engine_writecb send queue' s) [
          | none ↦ none
          | some (left, s') ↦ some (left, s', true)
        ]
      ]
