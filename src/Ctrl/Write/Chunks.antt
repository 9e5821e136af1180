-- ===== src/Ctrl/Write/Chunks.antt =====
-- The packets of a message carry it from its first byte to its NUL.
use vde.Base.{
  backwards, ℕ, zero, suc, ◌+◌, ◌-◌, ◌*◌, ◌/◌, ◌%◌, ◌^◌, ◌≤◌, ◌<◌, ◌≡◌, refl, ap, sym, ◌∙◌, Bool,
  true, false, Option, none, some, List, [], ◌∷◌, ◌++◌, ◌==◌, if◌then◌else◌, length, length-append,
  take, drop, All, append_assoc, append-nil, CString, arith, Bool-cases, inl, inr, not, ◌&&◌,
}
use vde.Glib.{Glib}
use vde.Packet.{Pkt, bytes, memcpy, payload_of, vde_pkt_new, vde_pkt_init, zeroed_pkt}
use vde.Packet.Laws.{read-memcpy, read-bytes}
use vde.Ctrl.Write.{chunk, chunk_loop, queue_message}

-- The payloads of packets, one after the other.
abbrev pub carried : List Pkt → List ℕ
carried [] = []
carried (p ∷ ps) = payload_of p ++ carried ps

abbrev pub IsSmall : ℕ → Pkt → Type 0
IsSmall payload_sz pkt = pkt.hdr.pkt_len ≤ payload_sz

-- The bytes that are in `n` chunks.
abbrev pub left_in : ℕ → ℕ → ℕ → ℕ
left_in payload_sz last zero = 0
left_in payload_sz last (suc n) = n * payload_sz + (if last == 0 then payload_sz else last)

left_in-div : (p q r : ℕ) → left_in p r (if r == 0 then q else q + 1) ≡ q * p + r
left_in-div p q r = elim (Bool-cases (r == 0)) [
  | inl z ↦ ap (λ b. left_in p r (if b then q else q + 1)) z ∙ even q (ground (arith, z))
  | inr z ↦
      ap (λ b. left_in p r (if b then q else q + 1)) z
      ∙ (ap (left_in p r) {x = q + 1} {y = suc q} (omega arith) ∙ ground (arith, z))
]
  where
    even : (n : ℕ) → r ≡ 0 → left_in p r n ≡ n * p + r
    even zero e = omega (arith, e)
    even (suc n) e = ground (arith, e)

left_in-all :
    (len payload_sz : ℕ)
    → 0 < payload_sz
    → len
      ≡ 0 * payload_sz
        + left_in payload_sz
            (len % payload_sz)
            (if len % payload_sz == 0 then len / payload_sz else len / payload_sz + 1)
left_in-all len payload_sz h =
    omega (arith, h, left_in-div payload_sz (len / payload_sz) (len % payload_sz))

take-drop : (c : ℕ) (xs : List ℕ) → take c xs ++ drop c xs ≡ xs
take-drop zero xs = refl
take-drop (suc c) [] = refl
take-drop (suc c) (x ∷ xs) = ap (λ l. x ∷ l) (take-drop c xs)

drop-length : (xs : List ℕ) (a : ℕ) → length xs ≤ a → drop a xs ≡ []
drop-length [] zero h = refl
drop-length [] (suc a) h = refl
drop-length (x ∷ xs) zero h = absurd (omega (arith, h))
drop-length (x ∷ xs) (suc a) h = drop-length xs a (omega (arith, h))

drop-drop : (a c : ℕ) (xs : List ℕ) → drop c (drop a xs) ≡ drop (a + c) xs
drop-drop zero c xs = ap (λ n. drop n xs) {x = c} {y = 0 + c} (omega arith)
drop-drop (suc a) zero [] = sym (drop-length [] (suc a + zero) (omega arith))
drop-drop (suc a) (suc c) [] = sym (drop-length [] (suc a + suc c) (omega arith))
drop-drop (suc a) c (x ∷ xs) =
    drop-drop a c xs ∙ ap (λ n. drop n (x ∷ xs)) {x = suc (a + c)} {y = suc a + c} (omega arith)

take-next : (str : List ℕ) (a c : ℕ) → take c (drop a str) ++ drop (a + c) str ≡ drop a str
take-next str a c =
    ap (λ q. take c (drop a str) ++ q) (sym (drop-drop a c str)) ∙ take-drop c (drop a str)

take-rest : (str : List ℕ) (a c : ℕ) → a + c ≡ length str → take c (drop a str) ≡ drop a str
take-rest str a c e =
    sym (append-nil (take c (drop a str)))
    ∙ (ap (λ q. take c (drop a str) ++ q) (sym (drop-length str (a + c) (omega (arith, e))))
        ∙ take-next str a c)

module _ (alloc : ℕ → Bool) (enough : (n : ℕ) → alloc n ≡ true) where
  chunk_lem :
      (str : List ℕ) (from c : ℕ)
      → from + c ≤ length str
      → c < 2 ^ 16
      → (pkt : Pkt) × (chunk alloc str from c ≡ some pkt)
        × (payload_of pkt ≡ take c (drop from str))
        × (pkt.hdr.pkt_len ≡ c)
  unfolding chunk vde_pkt_new vde_pkt_init
  chunk_lem str from c h small =
      let len : c % 2 ^ 16 ≡ c = omega (arith, small) in
      (
        record zeroed_pkt {
          hdr = record { version = 0; type = 0; pkt_len = c % 2 ^ 16 };
          head = 4;
          payload = 4;
          tail = (4 + 0 + c + 0) % 2 ^ 32 - 0;
          data_size = (4 + 0 + c + 0) % 2 ^ 32;
          memory = memcpy (λ i. 0) 0 (bytes str) from c;
        },
        rw (enough _, chunk),
        rw len (read-memcpy (λ i. 0) (bytes str) 0 from c ∙ read-bytes str from c h),
        len,
      )

module _ ⦃g : Glib⦄ (alloc : ℕ → Bool) (enough : (n : ℕ) → alloc n ≡ true) where
  -- One cycle of the loop.
  chunk_loop-step :
      (str : List ℕ) (payload_sz last n sent from c : ℕ) (queue : List Pkt) (pkt : Pkt)
      → (sent * payload_sz) % 2 ^ 32 ≡ from
      → (if (n == 0) && not (last == 0) then last else payload_sz) ≡ c
      → chunk alloc str from c ≡ some pkt
      → chunk_loop alloc str payload_sz last (suc n) sent queue
        ≡ chunk_loop alloc str payload_sz last n (suc sent) (g.queue_push_head queue pkt)
  unfolding chunk_loop
  chunk_loop-step str payload_sz last n sent from c queue pkt at size made =
      let go : Option Pkt → Option (List Pkt) = λ o. elim o [
        | none ↦ none
        | some q ↦ chunk_loop alloc str payload_sz last n (suc sent) (g.queue_push_head queue q)
      ] in
      let cpy = if (n == 0) && not (last == 0) then last else payload_sz in
      ap (λ a. go (chunk alloc str a cpy)) at
      ∙ (ap (λ b. go (chunk alloc str from b)) size ∙ ap go made)

  chunk_loop-carried :
      (str : List ℕ) (payload_sz last n sent : ℕ) (queue : List Pkt)
      → length str < 2 ^ 32
      → payload_sz < 2 ^ 16
      → last < payload_sz
      → length str ≡ sent * payload_sz + left_in payload_sz last n
      → (queue' : List Pkt) × (new : List Pkt) × (chunk_loop alloc str payload_sz last n sent queue
          ≡ some queue')
        × (backwards queue' ≡ backwards queue ++ new)
        × (carried new ≡ drop (sent * payload_sz) str)
        × All (IsSmall payload_sz) new
  unfolding chunk_loop
  chunk_loop-carried str payload_sz last zero sent queue h small l e = (
    queue,
    [],
    refl,
    sym (append-nil (backwards queue)),
    sym (drop-length str (sent * payload_sz) (omega (arith, e))),
    tt,
  )
  chunk_loop-carried str payload_sz last (suc zero) sent queue h small l e =
      let c = if last == 0 then payload_sz else last in
      let at : (sent * payload_sz) % 2 ^ 32 ≡ sent * payload_sz = omega (arith, h, e) in
      let ends : sent * payload_sz + c ≡ length str = ground (arith, e) in
      let size : (if not (last == 0) then last else payload_sz) ≡ c = ground arith in
      let (pkt, made, pays, len) =
        chunk_lem alloc enough str (sent * payload_sz) c (omega (arith, ends))
          (ground (arith, small, l)) in
      (
        g.queue_push_head queue pkt,
        pkt ∷ [],
        chunk_loop-step str payload_sz last zero sent (sent * payload_sz) c queue pkt at size made,
        ap backwards (g.push_head_law queue pkt),
        append-nil (payload_of pkt) ∙ (pays ∙ take-rest str (sent * payload_sz) c ends),
        (ground (arith, len, l), tt),
      )
  chunk_loop-carried str payload_sz last (suc (suc n)) sent queue h small l e =
      let at : (sent * payload_sz) % 2 ^ 32 ≡ sent * payload_sz = omega (arith, h, e) in
      let next : suc sent * payload_sz ≡ sent * payload_sz + payload_sz = omega arith in
      let rest : length str ≡ suc sent * payload_sz + left_in payload_sz last (suc n) =
        omega (arith, e) in
      let (pkt, made, pays, len) =
        chunk_lem alloc enough str (sent * payload_sz) payload_sz (omega (arith, rest, next))
          small in
      let (queue', new, ran, back, whole, fits) =
        chunk_loop-carried str payload_sz last (suc n) (suc sent) (g.queue_push_head queue pkt) h
          small l rest in
      (
        queue',
        pkt ∷ new,
        chunk_loop-step str payload_sz last (suc n) sent (sent * payload_sz) payload_sz queue pkt at
              (ground arith) made
            ∙ ran,
        back
            ∙ (ap (λ q. backwards q ++ new) (g.push_head_law queue pkt)
                ∙ append_assoc (backwards queue) (pkt ∷ []) new),
        ap (λ q. q ++ carried new) pays
            ∙ (ap (λ q. take payload_sz (drop (sent * payload_sz) str) ++ q)
                  (whole ∙ ap (λ a. drop a str) next)
                ∙ take-next str (sent * payload_sz) payload_sz),
        (omega (arith, len), fits),
      )

  queue_message-loop :
      (payload_sz len : ℕ) (out_str : CString) (queue : List Pkt)
      → 0 < payload_sz
      → (length out_str + 1) % 2 ^ 32 ≡ len
      → queue_message alloc payload_sz out_str queue
        ≡ chunk_loop alloc
            (out_str ++ (0 ∷ []))
            payload_sz
            (len % payload_sz)
            (if len % payload_sz == 0 then len / payload_sz else len / payload_sz + 1)
            0
            queue
  unfolding queue_message
  queue_message-loop payload_sz len out_str queue h size =
      let positive : (payload_sz == 0) ≡ false = ground (arith, h) in
      rw (positive, size, queue_message)

  -- Where each allocation succeeds, for a message shorter than 2 ^ 32 bytes and a payload size from 1
  -- to 2 ^ 16 - 1, all chunks are made: their payloads together are the message and its NUL, none is
  -- longer than the payload size, and they wait behind the packets of the queue in their order.
  pub queue_message-carried :
      (payload_sz : ℕ) (out_str : CString) (queue : List Pkt)
      → length out_str + 1 < 2 ^ 32
      → 0 < payload_sz
      → payload_sz < 2 ^ 16
      → (queue' : List Pkt) × (new : List Pkt) × (queue_message alloc payload_sz out_str queue
          ≡ some queue')
        × (backwards queue' ≡ backwards queue ++ new)
        × (carried new ≡ out_str ++ (0 ∷ []))
        × All (IsSmall payload_sz) new
  unfolding queue_message
  queue_message-carried payload_sz out_str queue h some_sz small =
      let size : (length out_str + 1) % 2 ^ 32 ≡ length (out_str ++ (0 ∷ [])) =
        omega (arith, h, length-append out_str (0 ∷ [])) in
      let len = length (out_str ++ (0 ∷ [])) in
      let n = if len % payload_sz == 0 then len / payload_sz else len / payload_sz + 1 in
      let all : len ≡ 0 * payload_sz + left_in payload_sz (len % payload_sz) n =
        left_in-all len payload_sz some_sz in
      let (queue', new, ran, back, whole, fits) =
        chunk_loop-carried (out_str ++ (0 ∷ [])) payload_sz (len % payload_sz) n 0 queue
          (omega (arith, h, length-append out_str (0 ∷ []))) small (omega (arith, some_sz)) all in
      (
        queue',
        new,
        queue_message-loop payload_sz len out_str queue some_sz size ∙ ran,
        back,
        whole ∙ ap (λ a. drop a (out_str ++ (0 ∷ []))) {x = 0 * payload_sz} {y = 0} (omega arith),
        fits,
      )
