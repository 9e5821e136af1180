-- ===== src/Packet.antt =====
-- include/vde3/packet.h: the packets that connections and engines exchange. A pointer into the memory
-- of a packet is an offset from its start, where the header is; `memory` is that memory from the end
-- of the header on, so that a byte at offset `i` is `memory (i - 4)`.
pub mod Laws
pub mod Tests
use vde.Base.{
  ℕ, zero, suc, ◌+◌, ◌-◌, ◌^◌, ◌%◌, Bool, ◌&&◌, Option, none, some, List, [], ◌∷◌, leb, ltb,
  if◌then◌else◌, length,
}

-- sizeof(vde_hdr), and sizeof(vde_pkt) where a pointer has eight bytes
abbrev pub hdr_sz : ℕ
hdr_sz = 4

abbrev pub vde_pkt_sz : ℕ
vde_pkt_sz = 40

abbrev pub Memory : Type 0
Memory = ℕ → ℕ

pub record Hdr : Type 0 where
  pub version : ℕ
  pub type : ℕ
  pub pkt_len : ℕ

pub record Pkt : Type 0 where
  pub hdr : Hdr
  pub head : ℕ
  pub payload : ℕ
  pub tail : ℕ
  pub data_size : ℕ
  pub memory : Memory

-- memcpy of `n` bytes, from one offset to another
abbrev pub memcpy : Memory → ℕ → Memory → ℕ → ℕ → Memory
memcpy dst to src from n i = if leb to i && ltb i (to + n) then src (from + (i - to)) else dst i

-- A string in memory of its own.
abbrev pub bytes : List ℕ → Memory
bytes [] i = 0
bytes (x ∷ xs) zero = x
bytes (x ∷ xs) (suc i) = bytes xs i

-- The `n` bytes from an offset on.
abbrev pub read : Memory → ℕ → ℕ → List ℕ
read m from zero = []
read m from (suc n) = m from ∷ read m (suc from) n

-- The payload, as long as the header says it is.
abbrev pub payload_of : Pkt → List ℕ
payload_of pkt = read pkt.memory (pkt.payload - hdr_sz) pkt.hdr.pkt_len

-- Only the fields change: the header and the memory are the packet's.
unfoldable pub vde_pkt_init : Pkt → ℕ → ℕ → ℕ → Pkt
vde_pkt_init pkt size head tail = record pkt {
  head = hdr_sz;
  payload = hdr_sz + head;
  tail = size - tail;
  data_size = size;
}

-- What vde_calloc leaves.
abbrev pub zeroed_pkt : Pkt
zeroed_pkt = record {
  hdr = record { version = 0; type = 0; pkt_len = 0 };
  head = 0;
  payload = 0;
  tail = 0;
  data_size = 0;
  memory = λ i. 0;
}

-- `alloc` says whether an allocation of so many bytes succeeds. Sizes are of the type unsigned int.
unfoldable pub vde_pkt_new : (ℕ → Bool) → ℕ → ℕ → ℕ → Option Pkt
unfolding vde_pkt_init
vde_pkt_new alloc payload_sz head tail =
    let data_sz = (hdr_sz + head + payload_sz + tail) % 2 ^ 32 in
    if alloc ((vde_pkt_sz + data_sz) % 2 ^ 32)
    then some (vde_pkt_init zeroed_pkt data_sz head tail)
    else none

-- The copy of data_size bytes is that of the header and of what follows it.
pub vde_pkt_cpy : Pkt → Pkt → Pkt
unfolding vde_pkt_init
vde_pkt_cpy dst src =
    let d = vde_pkt_init dst src.data_size (src.payload - src.head) (src.data_size - src.tail) in
    record d { hdr = src.hdr; memory = memcpy dst.memory 0 src.memory 0 (src.data_size - hdr_sz) }

unfoldable pub vde_pkt_compact_cpy : Pkt → Pkt → Pkt
unfolding vde_pkt_init
vde_pkt_compact_cpy dst src =
    let d = vde_pkt_init dst src.data_size 0 0 in
    record d {
      hdr = src.hdr;
      memory =
          memcpy dst.memory (d.payload - hdr_sz) src.memory (src.payload - hdr_sz) src.hdr.pkt_len;
    }
