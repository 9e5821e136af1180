-- ===== src/ConnManager/Pending.antt =====
-- Lists of pending connections: how functions add to them, and what keeps them well-formed.
use vde.Base.{
  ℕ, ◌≡◌, refl, sym, ap, ◌∙◌, true, false, some, List, [], ◌∷◌, ◌++◌, ◌==◌, ==_refl, ◌||◌, map, mem,
  Distinct, All, remove_first, arith, Bool-cases, inl, inr, append_assoc,
}
use vde.ConnManager.{ConnState, PendingConn, lookup_pending_conn, set_state, connect_wait}

-- The addresses of pending connections.
abbrev pub addresses : List PendingConn → List ℕ
addresses pcs = map (λ p. p.addr) pcs

abbrev pub IsWaiting : PendingConn → Type 0
IsWaiting pc = pc.state ≡ connect_wait

-- No two pending connections are at one address, and all wait to be connected.
pub record AreValid (pcs : List PendingConn) : Type 0 where
  pub distinct : Distinct (addresses pcs)
  pub waiting : All IsWaiting pcs

-- None of the first is at an address of the second.
abbrev pub Apart : List PendingConn → List PendingConn → Type 0
Apart added before = All (λ p. mem p.addr (addresses before) ≡ false) added

-- Connections that wait were added, at addresses that were not in use, in front of those that there
-- were.
pub record Adds (before after : List PendingConn) : Type 0 where
  pub added : List PendingConn
  pub front : after ≡ added ++ before
  pub valid : AreValid added
  pub apart : Apart added before

pub mem-append : (a : ℕ) (xs ys : List ℕ) → mem a (xs ++ ys) ≡ (mem a xs || mem a ys)
mem-append a [] ys = refl
mem-append a (x ∷ xs) ys = ground (arith, mem-append a xs ys)

addresses-append :
    (a : ℕ) (xs ys : List PendingConn)
    → mem a (addresses (xs ++ ys)) ≡ (mem a (addresses xs) || mem a (addresses ys))
addresses-append a [] ys = refl
addresses-append a (x ∷ xs) ys = ground (arith, addresses-append a xs ys)

All-append :
    (P : PendingConn → Type 0) (xs ys : List PendingConn) → All P xs → All P ys → All P (xs ++ ys)
All-append P [] ys h k = k
All-append P (x ∷ xs) ys (p, h) k = (p, All-append P xs ys h k)

pub AreValid-append :
    (xs ys : List PendingConn) → AreValid xs → AreValid ys → Apart xs ys → AreValid (xs ++ ys)
AreValid-append xs ys v w apart = record {
  distinct = distinct xs v.distinct apart;
  waiting = All-append IsWaiting xs ys v.waiting w.waiting;
}
  where
    distinct :
        (xs : List PendingConn)
        → Distinct (addresses xs)
        → Apart xs ys
        → Distinct (addresses (xs ++ ys))
    distinct [] d a = w.distinct
    distinct (x ∷ xs) (fresh, d) (away, a) =
        (ground (arith, addresses-append x.addr xs ys, fresh, away), distinct xs d a)

pub Adds-AreValid :
    (before after : List PendingConn) → Adds before after → AreValid before → AreValid after
Adds-AreValid before after adds v =
    rw (adds.front) (AreValid-append adds.added before adds.valid v adds.apart)

Apart-append : (zs xs ys : List PendingConn) → Apart zs (xs ++ ys) → Apart zs xs × Apart zs ys
Apart-append [] xs ys h = (tt, tt)
Apart-append (z ∷ zs) xs ys (away, h) =
    let (p, q) = Apart-append zs xs ys h in
    (
      (ground (arith, addresses-append z.addr xs ys, away), p),
      (ground (arith, addresses-append z.addr xs ys, away), q),
    )

pub Adds-refl : (l : List PendingConn) → Adds l l
Adds-refl l = record {
  added = [];
  front = refl;
  valid = record { distinct = tt; waiting = tt };
  apart = tt;
}

pub Adds-trans : (a b c : List PendingConn) → Adds a b → Adds b c → Adds a c
Adds-trans a b c p q =
    let (near, far) = Apart-append q.added p.added a (rw (← p.front) (q.apart)) in
    record {
      added = q.added ++ p.added;
      front = q.front ∙ (ap (λ l. q.added ++ l) p.front ∙ sym (append_assoc q.added p.added a));
      valid = AreValid-append q.added p.added q.valid p.valid near;
      apart = All-append (λ p. mem p.addr (addresses a) ≡ false) q.added p.added far p.apart;
    }

-- The list without the pending connection at an address.
abbrev pub without : ℕ → List PendingConn → List PendingConn
without a l = remove_first (λ p. p.addr == a) l

pub mem-lookup_pending_conn :
    (l : List PendingConn) (conn : ℕ) (pc : PendingConn)
    → lookup_pending_conn l conn ≡ some pc
    → (mem pc.addr (addresses l) ≡ true) × (pc.conn ≡ conn)
unfolding lookup_pending_conn
mem-lookup_pending_conn [] conn pc e = absurd cc
mem-lookup_pending_conn (x ∷ xs) conn pc e = elim (Bool-cases (x.conn == conn)) [
  | inl hit ↦ ground (arith, hit, e)
  | inr miss ↦ ground (arith, miss, e, mem-lookup_pending_conn xs conn pc)
]

-- Those that were added do not have an address of those before.
not-added :
    (added before : List PendingConn) (a : ℕ)
    → Apart added before
    → mem a (addresses before) ≡ true
    → mem a (addresses added) ≡ false
not-added [] before a apart m = refl
not-added (x ∷ xs) before a (away, apart) m = elim (Bool-cases (x.addr == a)) [
  | inl e ↦ absurd (
      ground (
        arith,
        m,
        away,
        ap (λ y. mem y (addresses before)) {x = x.addr} {y = a} (ground (arith, e)),
      ))
  | inr e ↦ ground (arith, e, not-added xs before a apart m)
]

without-append :
    (xs ys : List PendingConn) (a : ℕ)
    → mem a (addresses xs) ≡ false
    → without a (xs ++ ys) ≡ xs ++ without a ys
without-append [] ys a h = refl
without-append (x ∷ xs) ys a h = ground (arith, h, without-append xs ys a)

map_set_other :
    (l : List PendingConn) (a : ℕ) (st : ConnState)
    → mem a (addresses l) ≡ false
    → map (set_state a st) l ≡ l
map_set_other [] a st h = refl
map_set_other (x ∷ xs) a st h = ground (arith, h, map_set_other xs a st)

without-set_state :
    (l : List PendingConn) (a : ℕ) (st : ConnState)
    → Distinct (addresses l)
    → without a (map (set_state a st) l) ≡ without a l
without-set_state [] a st d = refl
without-set_state (x ∷ xs) a st (fresh, d) = elim (Bool-cases (x.addr == a)) [
  | inl e ↦ ground (
    arith,
    e,
    map_set_other xs a st
        (ap (λ y. mem y (addresses xs)) {x = a} {y = x.addr} (ground (arith, e)) ∙ fresh),
  )
  | inr e ↦ ground (arith, e, without-set_state xs a st d)
]

addresses-set_state :
    (l : List PendingConn) (a : ℕ) (st : ConnState)
    → addresses (map (set_state a st) l) ≡ addresses l
addresses-set_state [] a st = refl
addresses-set_state (x ∷ xs) a st = ground (arith, addresses-set_state xs a st)

mem-without :
    (a : ℕ) (l : List PendingConn) (b : ℕ)
    → mem b (addresses l) ≡ false
    → mem b (addresses (without a l)) ≡ false
mem-without a [] b h = refl
mem-without a (x ∷ xs) b h = ground (arith, h, mem-without a xs b)

pub without-AreValid :
    (l : List PendingConn) (a : ℕ)
    → AreValid l
    → AreValid (without a l) × (mem a (addresses (without a l)) ≡ false)
without-AreValid l a v =
    let (d, w, m) = parts l v.distinct v.waiting in (record { distinct = d; waiting = w }, m)
  where
    parts :
        (l : List PendingConn)
        → Distinct (addresses l)
        → All IsWaiting l
        → Distinct (addresses (without a l))
          × All IsWaiting (without a l)
          × (mem a (addresses (without a l)) ≡ false)
    parts [] d w = (tt, tt, refl)
    parts (x ∷ xs) (fresh, d) (p, w) = elim (Bool-cases (x.addr == a)) [
      | inl e ↦
          rw e
            (d, w, ap (λ y. mem y (addresses xs)) {x = a} {y = x.addr} (ground (arith, e)) ∙ fresh)
      | inr e ↦
          let (d', w', m) = parts xs d w in
          rw e ((mem-without a xs x.addr fresh, d'), (p, w'), ground (arith, e, m))
    ]

-- What the list is after functions have added to it and the connection at `a`, whose state was set, is
-- taken out.
pub Adds-without :
    (l after : List PendingConn) (a : ℕ) (st : ConnState)
    → AreValid l
    → mem a (addresses l) ≡ true
    → Adds (map (set_state a st) l) after
    → Adds (without a l) (without a after)
Adds-without l after a st v m adds =
    let there : mem a (addresses (map (set_state a st) l)) ≡ true =
      ap (mem a) (addresses-set_state l a st) ∙ m in
    record {
      added = adds.added;
      front =
          ap (without a) adds.front
          ∙ (without-append adds.added (map (set_state a st) l) a
                (not-added adds.added (map (set_state a st) l) a adds.apart there)
              ∙ ap (λ q. adds.added ++ q) (without-set_state l a st v.distinct));
      valid = adds.valid;
      apart = away adds.added adds.apart;
    }
  where
    away :
        (added : List PendingConn)
        → Apart added (map (set_state a st) l)
        → Apart added (without a l)
    away [] h = tt
    away (x ∷ xs) (p, h) =
        (mem-without a l x.addr (sym (ap (mem x.addr) (addresses-set_state l a st)) ∙ p), away xs h)

pub Adds-prepend :
    (l : List PendingConn) (pc : PendingConn)
    → pc.state ≡ connect_wait
    → mem pc.addr (addresses l) ≡ false
    → Adds l (pc ∷ l)
Adds-prepend l pc waits fresh = record {
  added = pc ∷ [];
  front = refl;
  valid = record { distinct = (refl, tt); waiting = (waits, tt) };
  apart = (fresh, tt);
}

pub without-fresh : (l : List PendingConn) (pc : PendingConn) → without pc.addr (pc ∷ l) ≡ l
without-fresh l pc = ground (arith, ==_refl pc.addr)
