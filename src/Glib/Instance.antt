-- ===== src/Glib/Instance.antt =====
-- The interface at the concrete lists, tables and interned strings.
use vde.Base.{
  ℕ, ◌≡◌, refl, Option, none, some, List, [], ◌∷◌, ◌++◌, ◌==◌, is_some, length, remove_first,
  rev_append, CString,
}
use vde.Glib.{Glib, Node}
use vde.Glib.Model.{
  unsnoc, unsnoc-append, assoc, without, size, assoc-without, size-without, try_quark, from_quark,
  from_nonzero_lem, from_known_lem, try_from_lem, try_injective_lem,
}

module _ {A : Type 0} where
  abbrev first : List A → Option (Node A)
  first [] = none
  first (x ∷ l) = some (record { before = []; element = x; after = l })

  abbrev last : List A → Option (Node A)
  last l = elim (unsnoc l) [
    | none ↦ none
    | some (x, b) ↦ some (record { before = rev_append b []; element = x; after = [] })
  ]

  abbrev next_of : List A → A → List A → Option (Node A)
  next_of b x [] = none
  next_of b x (y ∷ l) = some (record { before = x ∷ b; element = y; after = l })

  abbrev prev_of : List A → A → List A → Option (Node A)
  prev_of [] x l = none
  prev_of (y ∷ b) x l = some (record { before = b; element = y; after = x ∷ l })

pub last-snoc :
    {A : Type 0} (l : List A) (x : A)
    → last (l ++ (x ∷ [])) ≡ some (record { before = rev_append l []; element = x; after = [] })
last-snoc l x = rw (unsnoc-append l x, last)

instance abbrev pub glib : Glib
glib = record {
  list_prepend = λ l a. a ∷ l;
  list_append = λ l a. l ++ (a ∷ []);
  list_remove = λ at l p. remove_first (λ x. at x == p) l;
  list_length = length;
  list_first = first;
  list_last = last;
  list_next = λ n. next_of n.before n.element n.after;
  list_prev = λ n. prev_of n.before n.element n.after;
  prepend_law = λ l a. refl;
  append_law = λ l a. refl;
  remove_law = λ at l p. refl;
  length_law = λ l. refl;
  first_nil = λ A. refl;
  first_cons = λ x l. refl;
  last_nil = λ A. refl;
  last_snoc = last-snoc;
  next_nil = λ b x. refl;
  next_cons = λ b x y l. refl;
  prev_nil = λ x l. refl;
  prev_cons = λ b x y l. refl;
  queue_push_head = λ q a. a ∷ q;
  queue_push_tail = λ q a. q ++ (a ∷ []);
  queue_pop_tail = unsnoc;
  queue_get_length = length;
  push_head_law = λ q a. refl;
  push_tail_law = λ q a. refl;
  pop_tail_nil = λ A. refl;
  pop_tail_snoc = unsnoc-append;
  queue_length_law = λ q. refl;
  Hash = λ V. List (ℕ × V);
  hash_init = [];
  hash_insert = λ t k v. (k, v) ∷ t;
  hash_remove = λ t k. (without t k, is_some (assoc t k));
  hash_lookup = assoc;
  hash_size = size;
  lookup_init = λ V j. refl;
  lookup_insert = λ t k v j. refl;
  lookup_remove = assoc-without;
  remove_found = λ t k. refl;
  size_init = λ V. refl;
  size_insert = λ t k v. refl;
  size_remove = size-without;
  Quarks = List CString;
  quark_from_string = from_quark;
  quark_try_string = try_quark;
  from_nonzero = from_nonzero_lem;
  from_known = from_known_lem;
  try_from = try_from_lem;
  try_injective = try_injective_lem;
}
