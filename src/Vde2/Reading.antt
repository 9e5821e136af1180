-- ===== src/Vde2/Reading.antt =====
-- vde2_conn_read_data_event of transport_vde2.c: a frame is read from the data socket and given to the user
-- of the connection. What recvfrom returns is a parameter, as an int; it is compared with the size of a
-- header, an unsigned number of 64 bits, to which it is converted.
use vde.Base.{
  ap, ◌∙◌, ℕ, suc, ◌-◌, ◌%◌, ◌≤◌, ◌<◌, ◌≡◌, true, Option, some, ◌&&◌, leb, if◌then◌else◌, Status,
  arith,
}
use vde.Base.Int.{ℤ, pos, negsuc}
use vde.Vde2.{is_epipe}
use vde.Vde2.Handshake.{Sys, vde2_conn_close}

-- sizeof(struct eth_hdr)
abbrev pub eth_hdr_sz : ℕ
eth_hdr_sz = 14

-- An int as a size_t, and as the uint16_t of the header of the packet.
unfoldable pub to_size : ℤ → ℕ
to_size (pos n) = n
to_size (negsuc n) = 18446744073709551616 - suc n

unfoldable pub to_pkt_len : ℤ → ℕ
to_pkt_len (pos n) = n % 65536
to_pkt_len (negsuc n) = (65536 - suc n % 65536) % 65536

-- `call_read` is the callback of the connection, by the length in the header of the packet. The
-- connection is closed where it answers with EPIPE.
unfoldable pub tell_read : (ℕ → Sys → Sys × Status) → ℕ → ℕ → Sys → Option Sys
unfolding vde2_conn_close
tell_read call_read n a s =
    let (s', st) = call_read n s in if is_epipe st then vde2_conn_close a s' else some s'

unfoldable pub vde2_conn_read_data_event :
    ℕ → ℕ → ℤ → (ℕ → Sys → Sys × Status) → ℕ → Sys → Option Sys
unfolding to_size to_pkt_len tell_read
vde2_conn_read_data_event head_sz tail_sz len call_read a s =
    if leb head_sz 4 && leb tail_sz 0
    then (if leb eth_hdr_sz (to_size len) then tell_read call_read (to_pkt_len len) a s else some s)
    else some s

-- Where the connection asks for at most 4 bytes of head space and no tail space, its user is given a frame
-- exactly when at least a header was read. But where recvfrom fails with -1 the user is called too, with
-- a packet that claims 65535 bytes: -1 is compared as the greatest size_t.
pub read_data_event_lem :
    (head_sz tail_sz : ℕ) (call_read : ℕ → Sys → Sys × Status) (a : ℕ) (s : Sys)
    → head_sz ≤ 4
    → tail_sz ≡ 0
    → ((n : ℕ)
        → n < 65536
        → vde2_conn_read_data_event head_sz tail_sz (pos n) call_read a s
          ≡ (if leb 14 n then tell_read call_read n a s else some s))
      × (vde2_conn_read_data_event head_sz tail_sz (negsuc 0) call_read a s
          ≡ tell_read call_read 65535 a s)
unfolding vde2_conn_read_data_event to_size to_pkt_len
read_data_event_lem head_sz tail_sz call_read a s small none_behind =
    let fits : (leb head_sz 4 && leb tail_sz 0) ≡ true = ground (arith, small, none_behind) in
    (
      λ n short.
          ap
            (λ b.
              if b
              then (if leb 14 n then tell_read call_read (n % 65536) a s else some s)
              else some s)
            fits
          ∙ ap (λ m. if leb 14 n then tell_read call_read m a s else some s) (omega (arith, short)),
      ap (λ b. if b then tell_read call_read 65535 a s else some s) fits,
    )
