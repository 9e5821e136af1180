-- ===== src/Ctrl/Split/Laws.antt =====
-- The strings that a stream of packets carries.
use vde.Base.{
  ℕ, zero, suc, ◌+◌, ◌≤◌, ◌≡◌, refl, ap, ◌∙◌, Bool, true, false, Option, none, some, List, [], ◌∷◌,
  ◌++◌, ◌==◌, ltb, if◌then◌else◌, length, length-append, append-nil, Status, done, fail, enomem,
  enospc, arith, Option-cases, Bool-cases, inl, inr,
}
use vde.Packet.{Pkt, payload_of}
use vde.Ctrl.Split.{Passed, cut, is_empty, keep_partial, split_loop, ctrl_split_payload}

-- The bytes of a string that is not complete, before those of a stream.
abbrev pub glue : List ℕ → List (List ℕ) × List ℕ → List (List ℕ) × List ℕ
glue a ([], r) = ([], a ++ r)
glue a (t ∷ ts, r) = ((a ++ t) ∷ ts, r)

-- The strings that NULs end in a stream, and the bytes behind the last NUL.
abbrev pub strings : List ℕ → List (List ℕ) × List ℕ
strings [] = ([], [])
strings (x ∷ xs) =
    if x == 0 then ([] ∷ (strings xs).0, (strings xs).1) else glue (x ∷ []) (strings xs)

-- What the callback is called with: only the first string may have its beginning in the buffer.
abbrev pub passed : Bool → List (List ℕ) → List Passed
passed b [] = []
passed b (t ∷ ts) = record { string = t; terminated = b } ∷ passed true ts

abbrev pub call_all : {S : Type 0} → (Passed → S → S) → List Passed → S → S
call_all f [] s = s
call_all f (p ∷ ps) s = call_all f ps (f p s)

pub cut-length :
    (buf token next : List ℕ) → cut buf ≡ some (token, next) → length next + 1 ≤ length buf
unfolding cut
cut-length [] token next h = absurd cc
cut-length (x ∷ xs) token next h = elim (Bool-cases (x == 0)) [
  | inl z ↦ ground (arith, z, h)
  | inr z ↦ elim (Option-cases (cut xs)) [
    | inl e ↦ ground (arith, z, h, e)
    | inr ((a, b), e) ↦ ground (arith, z, h, e, cut-length xs a b e)
  ]
]

cut-none : (buf : List ℕ) → cut buf ≡ none → strings buf ≡ ([], buf)
unfolding cut
cut-none [] h = refl
cut-none (x ∷ xs) h = elim (Bool-cases (x == 0)) [
  | inl z ↦ ground (arith, z, h)
  | inr z ↦ elim (Option-cases (cut xs)) [
    | inl e ↦ rw (z, cut-none xs e)
    | inr ((a, b), e) ↦ ground (arith, z, h, e)
  ]
]

cut-some :
    (buf token next : List ℕ)
    → cut buf ≡ some (token, next)
    → strings buf ≡ (token ∷ (strings next).0, (strings next).1)
unfolding cut
cut-some [] token next h = absurd cc
cut-some (x ∷ xs) token next h = elim (Bool-cases (x == 0)) [
  | inl z ↦ ground (arith, z, h)
  | inr z ↦ elim (Option-cases (cut xs)) [
    | inl e ↦ ground (arith, z, h, e)
    | inr ((a, b), e) ↦ rw (z, cut-some xs a b e) (ground (arith, z, h, e))
  ]
]

-- What ctrl_split_payload leaves in the buffer, and what it returns.
abbrev pub kept : List ℕ → ℕ → List ℕ × Status
kept r inbuf_sz = if ltb inbuf_sz (length r) then ([], fail enospc) else (r, done)

keep_partial-kept :
    (buf inbuf : List ℕ) (inbuf_sz : ℕ)
    → length inbuf ≤ inbuf_sz
    → keep_partial buf inbuf inbuf_sz ≡ kept (inbuf ++ buf) inbuf_sz
unfolding keep_partial
keep_partial-kept [] inbuf inbuf_sz f = rw (append-nil inbuf) (ground (arith, f))
keep_partial-kept (x ∷ xs) inbuf inbuf_sz f = ground (arith, length-append inbuf (x ∷ xs))

glue_nil : (p : List (List ℕ) × List ℕ) → glue [] p ≡ p
glue_nil ([], r) = refl
glue_nil (t ∷ ts, r) = refl

-- The buffer, the state of the callback and the result after a stream with these strings.
abbrev pub outcome :
    {S : Type 0}
    → (Passed → S → S)
    → List ℕ
    → ℕ
    → S
    → List (List ℕ) × List ℕ
    → Option (List ℕ × S × Status)
outcome func inbuf inbuf_sz s (ts, r) =
    let (left, st) = kept r inbuf_sz in
    some (left, call_all func (passed (is_empty inbuf) ts) s, st)

module _ {S : Type 0} (alloc : ℕ → Bool) (func : Passed → S → S)
    (enough : (n : ℕ) → alloc n ≡ true) where
  cycle :
      (n : ℕ) (inbuf token next : List ℕ) (inbuf_sz : ℕ) (s : S)
      → ((s' : S)
          → split_loop alloc func n next [] inbuf_sz s'
            ≡ outcome func [] inbuf_sz s' (strings next))
      → (if is_empty inbuf
          then split_loop alloc func n next inbuf inbuf_sz
              (func (record { string = token; terminated = true }) s)
          else if alloc (length inbuf + length token)
          then split_loop alloc func n next [] inbuf_sz
              (func (record { string = inbuf ++ token; terminated = false }) s)
          else some (inbuf, s, fail enomem))
        ≡ outcome func inbuf inbuf_sz s ((inbuf ++ token) ∷ (strings next).0, (strings next).1)
  cycle n [] token next inbuf_sz s ih = ih (func (record { string = token; terminated = true }) s)
  cycle n (x ∷ xs) token next inbuf_sz s ih =
      rw (enough (length (x ∷ xs) + length token))
        (ih (func (record { string = (x ∷ xs) ++ token; terminated = false }) s))

  split_loop-strings :
      (n : ℕ) (buf inbuf : List ℕ) (inbuf_sz : ℕ) (s : S)
      → length buf + 1 ≤ n
      → length inbuf ≤ inbuf_sz
      → split_loop alloc func n buf inbuf inbuf_sz s
        ≡ outcome func inbuf inbuf_sz s (glue inbuf (strings buf))
  unfolding split_loop keep_partial
  split_loop-strings zero buf inbuf inbuf_sz s h f = absurd (omega (arith, h))
  split_loop-strings (suc n) buf inbuf inbuf_sz s h f = elim (Option-cases (cut buf)) [
    | inl e ↦ rw (e, cut-none buf e, keep_partial-kept buf inbuf inbuf_sz f, split_loop)
    | inr ((token, next), e) ↦
        rw (e, cut-some buf token next e, split_loop)
          (cycle n inbuf token next inbuf_sz s (λ s'.
            split_loop-strings n next [] inbuf_sz s' (omega (arith, h, cut-length buf token next e))
              (omega arith)
            ∙ ap (outcome func [] inbuf_sz s') (glue_nil (strings next))))
  ]

  -- Each NUL-terminated string of what the buffer and the payload hold together is passed to the
  -- callback once, in order, and the bytes behind the last NUL become the buffer. If they do not fit
  -- it is emptied, with ENOSPC. The bytes of a string that began in the buffer are passed without a
  -- NUL behind them. This is where each allocation succeeds, and the loop ends.
  pub ctrl_split_payload-strings :
      (pkt : Pkt) (inbuf : List ℕ) (inbuf_sz : ℕ) (s : S)
      → length inbuf ≤ inbuf_sz
      → ctrl_split_payload alloc func pkt inbuf inbuf_sz s
        ≡ outcome func inbuf inbuf_sz s (glue inbuf (strings (payload_of pkt)))
  unfolding ctrl_split_payload
  ctrl_split_payload-strings pkt inbuf inbuf_sz s f =
      split_loop-strings (suc (length (payload_of pkt))) (payload_of pkt) inbuf inbuf_sz s
        (omega arith) f
