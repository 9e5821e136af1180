-- ===== src/Sobj/Instance.antt =====
-- Objects that meet the interface, for the tests: integers, strings, arrays, and hashes, which grow by
-- an entry that is an object or NULL.
use vde.Base.{false, Bool, Bool, Option, none, some, ◌≡◌, refl, ◌==s◌, if◌then◌else◌, CString, []}
use vde.Base.Int.{ℤ, pos}
use vde.Sobj.{bool_type, Sobj, SobjType, int_type, string_type, array_type, hash_type, same_type}

pub data Json : Type 0 where
  array : Json
  number : ℤ → Json
  text : CString → Json
  hash : Json
  entry : CString → Json → Json → Json
  null_entry : CString → Json → Json
  truth : Bool → Json

abbrev type_of : Json → SobjType → Bool
type_of (truth b) t = same_type bool_type t
type_of array t = same_type array_type t
type_of (number i) t = same_type int_type t
type_of (text s) t = same_type string_type t
type_of hash t = same_type hash_type t
type_of (entry k v o) t = type_of o t
type_of (null_entry k o) t = type_of o t

abbrev insert : Json → CString → Option Json → Json
insert o k none = null_entry k o
insert o k (some v) = entry k v o

abbrev find : Json → CString → Option Json
find array j = none
find (number i) j = none
find (text s) j = none
find hash j = none
find (truth b) j = none
find (entry k v o) j = if k ==s j then some v else find o j
find (null_entry k o) j = if k ==s j then none else find o j

abbrev number_of : Json → ℤ
number_of (number i) = i
number_of _ = pos 0

abbrev truth_of : Json → Bool
truth_of (truth b) = b
truth_of _ = false

abbrev text_of : Json → CString
text_of (text s) = s
text_of _ = []

pub insert-type :
    (o : Json) (k : CString) (v : Option Json) (t : SobjType)
    → type_of (insert o k v) t ≡ type_of o t
insert-type o k none t = refl
insert-type o k (some v) t = refl

pub find-insert :
    (o : Json) (k : CString) (v : Option Json) (j : CString)
    → find (insert o k v) j ≡ (if k ==s j then v else find o j)
find-insert o k none j = refl
find-insert o k (some v) j = refl

instance abbrev pub sobj : Sobj
sobj = record {
  Obj = Json;
  is_type = type_of;
  new_hash = hash;
  hash_insert = insert;
  hash_lookup = find;
  new_int = number;
  get_int = number_of;
  new_string = text;
  get_string = text_of;
  get_bool = truth_of;
  new_hash_type = λ t. refl;
  insert_type = insert-type;
  lookup_new = λ k. refl;
  lookup_insert = λ o k v j h. find-insert o k v j;
  new_int_type = λ i t. refl;
  get_new_int = λ i. refl;
  new_string_type = λ s t. refl;
  get_new_string = λ s. refl;
}
