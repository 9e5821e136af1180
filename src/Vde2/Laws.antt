-- ===== src/Vde2/Laws.antt =====
-- The queue of a connection: its bound, its order, and the event that empties it.
use vde.Base.{
  ℕ, ◌+◌, ◌≤◌, ◌≡◌, refl, Bool, true, false, Option, some, List, [], ◌∷◌, ltb, leb, ◌&&◌, ◌||◌,
  if◌then◌else◌, is_some, is_done, length, arith, Bool-cases, Option-cases, inl, inr, map,
}
use vde.Glib.{Glib}
use vde.Packet.{hdr_sz, Pkt, payload_of, vde_pkt_compact_cpy}
use vde.Packet.Laws.{IsValid, vde_pkt_compact_cpy-same}
use vde.Vde2.{maxqlen, pkt_data_sz, Vde2Pkt, Vde2Conn, vde2_conn_write}

abbrev pub is_nil : List Vde2Pkt → Bool
is_nil [] = true
is_nil (p ∷ ps) = false

-- The queue is not longer than MAXQLEN, and while a packet waits there is an event to send it.
pub record IsReady (v2_conn : Vde2Conn) : Type 0 where
  pub bounded : length v2_conn.pkt_queue ≤ maxqlen
  pub watched : (is_some v2_conn.data_ev_wr || is_nil v2_conn.pkt_queue) ≡ true

module _ ⦃g : Glib⦄ where
  -- Where an event can be added, a write keeps the queue in its bound and watched. A valid packet is
  -- taken exactly where there is room in the queue, its memory fits in a vde2_pkt, and there is
  -- memory; its copy has the same payload, within PKT_DATA_SZ, and waits behind the other packets.
  -- Otherwise nothing changes.
  pub vde2_conn_write_lem :
      (new : Option Pkt) (event : ℕ) (v2_conn : Vde2Conn) (pkt : Pkt)
      → IsReady v2_conn
      → IsValid pkt
      → let (v2', st) = vde2_conn_write new (some event) v2_conn pkt in
        let copied = map (λ p. payload_of p.pkt) v2'.pkt_queue in
        let before = map (λ p. payload_of p.pkt) v2_conn.pkt_queue in
        IsReady v2'
        × (is_done st ≡ (
            ltb (length v2_conn.pkt_queue) maxqlen
            && (leb pkt.data_size pkt_data_sz && is_some new)))
        × (copied ≡ (if is_done st then payload_of pkt ∷ before else before))
        × (v2' ≡ (if is_done st then v2' else v2_conn))
        × ((is_done st && ltb pkt_data_sz (hdr_sz + pkt.hdr.pkt_len)) ≡ false)
  unfolding vde2_conn_write
  vde2_conn_write_lem new event v2_conn pkt ready valid =
      let q = v2_conn.pkt_queue in
      let len = g.queue_length_law q in
      elim (Bool-cases (leb maxqlen (g.queue_get_length q))) [
        | inl full ↦ rw (full, vde2_conn_write) (ready, ground (arith, full, len), refl, refl, refl)
        | inr room ↦ elim (Bool-cases (ltb pkt_data_sz pkt.data_size)) [
          | inl large ↦
              rw (room, large, vde2_conn_write)
                (ready, ground (arith, room, large, len), refl, refl, refl)
          | inr fits ↦ elim (Option-cases new) [
            | inl e ↦
                rw (room, fits, e, vde2_conn_write) (ready, ground (arith, e), refl, refl, refl)
            | inr (m, e) ↦
                let copy = vde_pkt_compact_cpy m pkt in
                let (ok, same, hdr, at) = vde_pkt_compact_cpy-same m pkt valid in
                rw (room, fits, e, vde2_conn_write)
                  (
                    record {
                      bounded =
                          rw (g.push_head_law q (record { numtries = 0; pkt = copy }))
                            (ground (arith, room, len));
                      watched = ground (arith, ready.watched);
                    },
                    ground (arith, room, fits, e, len),
                    rw (g.push_head_law q (record { numtries = 0; pkt = copy }), same),
                    refl,
                    ground (
                      arith, fits, valid.payload_at, valid.head_at, valid.tail_at, valid.size_at,
                    ),
                  )
          ]
        ]
      ]
