-- ===== src/Packet/Laws.antt =====
-- What a copy of a packet keeps.
use vde.Base.{
  ℕ, zero, suc, ◌+◌, ◌-◌, ◌≤◌, ◌<◌, ◌≡◌, refl, ap, ◌∙◌, List, [], ◌∷◌, length, arith, take, drop,
}
use vde.Packet.{
  Memory, Pkt, hdr_sz, memcpy, bytes, read, payload_of, vde_pkt_cpy, vde_pkt_compact_cpy,
  vde_pkt_init,
}

-- The pointers of a packet lie in its memory in their order, and the payload is in front of the tail.
pub record IsValid (pkt : Pkt) : Type 0 where
  pub head_at : pkt.head ≡ hdr_sz
  pub payload_at : pkt.head ≤ pkt.payload
  pub tail_at : pkt.payload + pkt.hdr.pkt_len ≤ pkt.tail
  pub size_at : pkt.tail ≤ pkt.data_size

read-same :
    (m m' : Memory) (a b n : ℕ)
    → ((i : ℕ) → i < n → m (a + i) ≡ m' (b + i))
    → read m a n ≡ read m' b n
read-same m m' a b zero h = refl
read-same m m' a b (suc n) h = ground (
  arith,
  h 0 (omega arith),
  read-same m m' (suc a) (suc b) n
      (λ i l. ap m (omega arith) ∙ (h (suc i) (omega arith) ∙ ap m' (omega arith))),
)

-- What was copied is read back.
pub read-memcpy :
    (dst src : Memory) (to from n : ℕ) → read (memcpy dst to src from n) to n ≡ read src from n
read-memcpy dst src to from n =
    read-same (memcpy dst to src from n) src to from n
      (λ i l. ground (arith, ap src {x = from + (to + i - to)} {y = from + i} (omega arith)))

bytes-suc : (x : ℕ) (xs : List ℕ) (a n : ℕ) → read (bytes (x ∷ xs)) (suc a) n ≡ read (bytes xs) a n
bytes-suc x xs a n =
    read-same (bytes (x ∷ xs)) (bytes xs) (suc a) a n
      (λ i l. ap (bytes (x ∷ xs)) {x = suc a + i} {y = suc (a + i)} (omega arith))

-- Reading a string gives its part from the offset on.
pub read-bytes :
    (xs : List ℕ) (a n : ℕ) → a + n ≤ length xs → read (bytes xs) a n ≡ take n (drop a xs)
read-bytes xs a zero h = refl
read-bytes [] a (suc n) h = absurd (omega (arith, h))
read-bytes (x ∷ xs) zero (suc n) h =
    ground (arith, bytes-suc x xs 0 n, read-bytes xs 0 n (omega (arith, h)))
read-bytes (x ∷ xs) (suc a) (suc n) h =
    bytes-suc x xs a (suc n) ∙ read-bytes xs a (suc n) (omega (arith, h))

-- A copy is valid, has the payload, the size and the space on both sides of the original.
pub vde_pkt_cpy-same :
    (dst src : Pkt)
    → IsValid src
    → let pkt = vde_pkt_cpy dst src in
      IsValid pkt
      × (payload_of pkt ≡ payload_of src)
      × (pkt.hdr ≡ src.hdr)
      × (pkt.payload ≡ src.payload)
      × (pkt.tail ≡ src.tail)
unfolding vde_pkt_cpy vde_pkt_init
vde_pkt_cpy-same dst src v = (
  record {
    head_at = refl;
    payload_at = omega arith;
    tail_at = omega (arith, v.tail_at, v.size_at, v.payload_at, v.head_at);
    size_at = omega arith;
  },
  read-same _ src.memory _ (src.payload - hdr_sz) src.hdr.pkt_len
      (λ i l. ground (arith, l, v.tail_at, v.size_at, v.payload_at, v.head_at)),
  refl,
  omega (arith, v.payload_at, v.head_at),
  omega (arith, v.size_at),
)

-- A compact copy of a valid packet is valid and has its payload, directly after the header.
pub vde_pkt_compact_cpy-same :
    (dst src : Pkt)
    → IsValid src
    → let pkt = vde_pkt_compact_cpy dst src in
      IsValid pkt × (payload_of pkt ≡ payload_of src) × (pkt.hdr ≡ src.hdr) × (pkt.payload ≡ hdr_sz)
unfolding vde_pkt_compact_cpy vde_pkt_init
vde_pkt_compact_cpy-same dst src v = (
  record {
    head_at = refl;
    payload_at = omega arith;
    tail_at = omega (arith, v.tail_at, v.size_at, v.payload_at, v.head_at);
    size_at = omega arith;
  },
  read-memcpy dst.memory src.memory 0 (src.payload - hdr_sz) src.hdr.pkt_len,
  refl,
  refl,
)
