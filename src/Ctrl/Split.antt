-- ===== src/Ctrl/Split.antt =====
-- ctrl_split_payload of engine_ctrl.c: the payloads of successive packets are cut at the NUL bytes.
-- `inbuf` holds the valid bytes of the buffer of a connection, of `inbuf_sz` bytes. `alloc` says
-- whether an allocation of so many bytes succeeds.
pub mod Laws
pub mod Tests
use vde.Base.{
  ℕ, zero, suc, ◌+◌, Bool, true, false, Option, none, some, List, [], ◌∷◌, ◌++◌, ◌==◌, ltb,
  if◌then◌else◌, length, Status, done, fail, enomem, enospc,
}
use vde.Packet.{Pkt, payload_of}

abbrev pub max_inbuf_sz : ℕ
max_inbuf_sz = 8192

-- The argument of the callback: the bytes that the string is meant to have, and whether a NUL
-- follows them in memory. The temporary buffer has room for the bytes alone.
pub record Passed : Type 0 where
  pub string : List ℕ
  pub terminated : Bool

-- The bytes in front of the first NUL and those behind it: what memchr finds.
unfoldable pub cut : List ℕ → Option (List ℕ × List ℕ)
cut [] = none
cut (x ∷ xs) =
    if x == 0 then some ([], xs) else elim (cut xs) [ none ↦ none | some (a, b) ↦ some (x ∷ a, b) ]

abbrev pub is_empty : List ℕ → Bool
is_empty [] = true
is_empty (x ∷ xs) = false

-- The end of ctrl_split_payload: the bytes behind the last NUL are kept for the next packet.
pub keep_partial : List ℕ → List ℕ → ℕ → List ℕ × Status
keep_partial [] inbuf inbuf_sz = (inbuf, done)
keep_partial (x ∷ xs) inbuf inbuf_sz =
    if ltb inbuf_sz (length (x ∷ xs) + length inbuf)
    then ([], fail enospc)
    else (inbuf ++ (x ∷ xs), done)

module _ {S : Type 0} (alloc : ℕ → Bool) (func : Passed → S → S) where
  -- The loop, on fuel: `none` is only returned without it.
  pub split_loop : ℕ → List ℕ → List ℕ → ℕ → S → Option (List ℕ × S × Status)
  unfolding keep_partial
  split_loop zero buf inbuf inbuf_sz s = none
  split_loop (suc n) buf inbuf inbuf_sz s = elim (cut buf) [
    | none ↦ (let (inbuf', st) = keep_partial buf inbuf inbuf_sz in some (inbuf', s, st))
    | some (token, next) ↦
        let first =
          split_loop n next inbuf inbuf_sz
            (func (record { string = token; terminated = true }) s) in
        let joined =
          split_loop n next [] inbuf_sz
            (func (record { string = inbuf ++ token; terminated = false }) s) in
        if is_empty inbuf
        then first
        else if alloc (length inbuf + length token)
        then joined
        else some (inbuf, s, fail enomem)
  ]

  -- Each cycle takes a byte at least off the payload.
  pub ctrl_split_payload : Pkt → List ℕ → ℕ → S → Option (List ℕ × S × Status)
  unfolding split_loop
  ctrl_split_payload pkt inbuf inbuf_sz s =
      split_loop (suc (length (payload_of pkt))) (payload_of pkt) inbuf inbuf_sz s
