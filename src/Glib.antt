-- ===== src/Glib.antt =====
-- The part of GLib that include/vde3/common.h names by macros (GList, GHashTable, GQueue, GQuark).
-- GLib is not part of the repository, so it is an interface: its operations, and what its manual
-- says of them. `Glib.Model` is an instance, for the tests.
pub mod Model
pub mod Instance
use vde.Base.{
  ℕ, ◌+◌, ◌-◌, ◌≡◌, ◌≢◌, Bool, Option, none, some, List, [], ◌∷◌, ◌++◌, ◌==◌, ◌==s◌, if◌then◌else◌,
  is_some, length, remove_first, rev_append, CString,
}

-- A node of a GList: its data, and the lists on both sides of it, nearest element first.
pub record Node (A : Type 0) : Type 0 where
  pub before : List A
  pub element : A
  pub after : List A

-- A GList is the sequence of its elements; the data of an element is a pointer, which `list_remove`
-- compares: `at` gives the pointer of an element. A GQueue is a sequence from its head to its tail.
-- A `Quarks` is the global table of interned strings.
pub record Glib : Type 1 where
  pub list_prepend : {A : Type 0} → List A → A → List A
  pub list_append : {A : Type 0} → List A → A → List A
  pub list_remove : {A : Type 0} → (A → ℕ) → List A → ℕ → List A
  pub list_length : {A : Type 0} → List A → ℕ
  pub list_first : {A : Type 0} → List A → Option (Node A)
  pub list_last : {A : Type 0} → List A → Option (Node A)
  pub list_next : {A : Type 0} → Node A → Option (Node A)
  pub list_prev : {A : Type 0} → Node A → Option (Node A)
  pub prepend_law : {A : Type 0} (l : List A) (a : A) → list_prepend l a ≡ a ∷ l
  pub append_law : {A : Type 0} (l : List A) (a : A) → list_append l a ≡ l ++ (a ∷ [])
  pub remove_law :
      {A : Type 0} (at : A → ℕ) (l : List A) (p : ℕ)
      → list_remove at l p ≡ remove_first (λ x. at x == p) l
  pub length_law : {A : Type 0} (l : List A) → list_length l ≡ length l
  pub first_nil : (A : Type 0) → list_first {A = A} [] ≡ none
  pub first_cons :
      {A : Type 0} (x : A) (l : List A)
      → list_first (x ∷ l) ≡ some (record { before = []; element = x; after = l })
  pub last_nil : (A : Type 0) → list_last {A = A} [] ≡ none
  pub last_snoc :
      {A : Type 0} (l : List A) (x : A)
      → list_last (l ++ (x ∷ []))
        ≡ some (record { before = rev_append l []; element = x; after = [] })
  pub next_nil :
      {A : Type 0} (b : List A) (x : A)
      → list_next (record { before = b; element = x; after = [] }) ≡ none
  pub next_cons :
      {A : Type 0} (b : List A) (x y : A) (l : List A)
      → list_next (record { before = b; element = x; after = y ∷ l })
        ≡ some (record { before = x ∷ b; element = y; after = l })
  pub prev_nil :
      {A : Type 0} (x : A) (l : List A)
      → list_prev (record { before = []; element = x; after = l }) ≡ none
  pub prev_cons :
      {A : Type 0} (b : List A) (x y : A) (l : List A)
      → list_prev (record { before = y ∷ b; element = x; after = l })
        ≡ some (record { before = b; element = y; after = x ∷ l })
  pub queue_push_head : {A : Type 0} → List A → A → List A
  pub queue_push_tail : {A : Type 0} → List A → A → List A
  pub queue_pop_tail : {A : Type 0} → List A → Option (A × List A)
  pub queue_get_length : {A : Type 0} → List A → ℕ
  pub push_head_law : {A : Type 0} (q : List A) (a : A) → queue_push_head q a ≡ a ∷ q
  pub push_tail_law : {A : Type 0} (q : List A) (a : A) → queue_push_tail q a ≡ q ++ (a ∷ [])
  pub pop_tail_nil : (A : Type 0) → queue_pop_tail {A = A} [] ≡ none
  pub pop_tail_snoc :
      {A : Type 0} (q : List A) (a : A) → queue_pop_tail (q ++ (a ∷ [])) ≡ some (a, q)
  pub queue_length_law : {A : Type 0} (q : List A) → queue_get_length q ≡ length q
  pub Hash : Type 0 → Type 0
  pub hash_init : {V : Type 0} → Hash V
  pub hash_insert : {V : Type 0} → Hash V → ℕ → V → Hash V
  pub hash_remove : {V : Type 0} → Hash V → ℕ → Hash V × Bool
  pub hash_lookup : {V : Type 0} → Hash V → ℕ → Option V
  pub hash_size : {V : Type 0} → Hash V → ℕ
  pub lookup_init : (V : Type 0) (j : ℕ) → hash_lookup {V = V} hash_init j ≡ none
  pub lookup_insert :
      {V : Type 0} (t : Hash V) (k : ℕ) (v : V) (j : ℕ)
      → hash_lookup (hash_insert t k v) j ≡ (if k == j then some v else hash_lookup t j)
  pub lookup_remove :
      {V : Type 0} (t : Hash V) (k j : ℕ)
      → hash_lookup (hash_remove t k).0 j ≡ (if k == j then none else hash_lookup t j)
  pub remove_found :
      {V : Type 0} (t : Hash V) (k : ℕ) → (hash_remove t k).1 ≡ is_some (hash_lookup t k)
  pub size_init : (V : Type 0) → hash_size {V = V} hash_init ≡ 0
  pub size_insert :
      {V : Type 0} (t : Hash V) (k : ℕ) (v : V)
      → hash_size (hash_insert t k v)
        ≡ (if is_some (hash_lookup t k) then hash_size t else hash_size t + 1)
  pub size_remove :
      {V : Type 0} (t : Hash V) (k : ℕ)
      → hash_size (hash_remove t k).0
        ≡ (if is_some (hash_lookup t k) then hash_size t - 1 else hash_size t)
  pub Quarks : Type 0
  pub quark_from_string : Quarks → CString → ℕ × Quarks
  pub quark_try_string : Quarks → CString → ℕ
  pub from_nonzero : (q : Quarks) (s : CString) → (quark_from_string q s).0 ≢ 0
  pub from_known :
      (q : Quarks) (s : CString)
      → quark_try_string q s ≢ 0
      → (quark_from_string q s).0 ≡ quark_try_string q s
  pub try_from :
      (q : Quarks) (s t : CString)
      → quark_try_string (quark_from_string q s).1 t
        ≡ (if s ==s t then (quark_from_string q s).0 else quark_try_string q t)
  pub try_injective :
      (q : Quarks) (s t : CString)
      → quark_try_string q s ≢ 0
      → quark_try_string q s ≡ quark_try_string q t
      → s ≡ t
