-- ===== src/Sobj.antt =====
-- The objects of type vde_sobj, as include/vde3.h names them by macros. They are those of json-c, which
-- is not part of the repository, so they are an interface. Reference counts of objects are not
-- modelled: an object is a value. `Sobj.Instance` is an instance, for the tests.
pub mod Instance
use vde.Base.{
  ℕ, Bool, true, false, Option, none, some, ◌≡◌, ◌==s◌, if◌then◌else◌, CString, List, [], ◌∷◌,
}
use vde.Base.Int.{ℤ}

-- The types that the sources ask for; vde_sobj_type_hash is json_type_object.
pub data SobjType : Type 0 where
  int_type double_type bool_type string_type array_type hash_type : SobjType

abbrev pub same_type : SobjType → SobjType → Bool
same_type int_type int_type = true
same_type double_type double_type = true
same_type bool_type bool_type = true
same_type string_type string_type = true
same_type array_type array_type = true
same_type hash_type hash_type = true
same_type _ _ = false

-- What include/vde3.h names by macros, and what json-c documents of it: a NULL that was inserted is
-- found as NULL, and inserting does not change the type.
pub record Sobj : Type 1 where
  pub Obj : Type 0
  pub is_type : Obj → SobjType → Bool
  pub new_hash : Obj
  pub hash_insert : Obj → CString → Option Obj → Obj
  pub hash_lookup : Obj → CString → Option Obj
  pub new_int : ℤ → Obj
  pub get_int : Obj → ℤ
  pub new_string : CString → Obj
  pub get_string : Obj → CString
  pub get_bool : Obj → Bool
  pub new_hash_type : (t : SobjType) → is_type new_hash t ≡ same_type hash_type t
  pub insert_type :
      (o : Obj) (k : CString) (v : Option Obj) (t : SobjType)
      → is_type (hash_insert o k v) t ≡ is_type o t
  pub lookup_new : (k : CString) → hash_lookup new_hash k ≡ none
  pub lookup_insert :
      (o : Obj) (k : CString) (v : Option Obj) (j : CString)
      → is_type o hash_type ≡ true
      → hash_lookup (hash_insert o k v) j ≡ (if k ==s j then v else hash_lookup o j)
  pub new_int_type : (i : ℤ) (t : SobjType) → is_type (new_int i) t ≡ same_type int_type t
  pub get_new_int : (i : ℤ) → get_int (new_int i) ≡ i
  pub new_string_type :
      (s : CString) (t : SobjType) → is_type (new_string s) t ≡ same_type string_type t
  pub get_new_string : (s : CString) → get_string (new_string s) ≡ s

module _ ⦃s : Sobj⦄ where
  -- An object that is there and has the type.
  abbrev pub present : Option s.Obj → SobjType → Bool
  present none t = false
  present (some o) t = s.is_type o t

  -- NULL, or an object of the type.
  abbrev pub absent_or : Option s.Obj → SobjType → Bool
  absent_or none t = true
  absent_or (some o) t = s.is_type o t
