-- ===== src/Compiler/Symbols/Types.antt =====
-- TypeInfo of compiler/symbols.py and the functions on it. The fields of a struct, which nothing in
-- that file reads, are left out.
use poodillion.Prelude.{
  ℕ, Bool, true, false, not, ◌&&◌, ◌≡◌, ◌↔◌, refl, ap, subst, Option, none, some, List, [], ◌∷◌,
  ◌++◌, Text, text_of, if◌then◌else◌, ◌==◌, nat_eq, text_eq, contains, ==_iff, arith,
}
use poodillion.Prelude.Decimal.{decimal}

-- The fields but for the type of the elements.
pub record Shape : Type 0 where
  pub name : Text
  pub is_pointer : Bool
  pub is_array : Bool
  pub is_slice : Bool
  pub array_size : Option ℕ

-- A type with no element type, and one with.
pub data TypeInfo : Type 0 where
  plain : Shape → TypeInfo
  with_element : Shape → TypeInfo → TypeInfo

abbrev bool_eq : Bool → Bool → Bool
bool_eq true b = b
bool_eq false b = not b

abbrev size_eq : Option ℕ → Option ℕ → Bool
size_eq none none = true
size_eq none (some n) = false
size_eq (some m) none = false
size_eq (some m) (some n) = m == n

unfoldable pub shape_eq : Shape → Shape → Bool
shape_eq a b =
    a.name == b.name
    && (bool_eq a.is_pointer b.is_pointer
        && (bool_eq a.is_array b.is_array
            && (bool_eq a.is_slice b.is_slice && size_eq a.array_size b.array_size)))

-- TypeInfo.__eq__
unfoldable pub type_eq : TypeInfo → TypeInfo → Bool
unfolding shape_eq
type_eq (plain a) (plain b) = shape_eq a b
type_eq (plain a) (with_element b t) = false
type_eq (with_element a s) (plain b) = false
type_eq (with_element a s) (with_element b t) = shape_eq a b && type_eq s t

-- str(self.array_size) if self.array_size else ""
abbrev pub size_text : Option ℕ → Text
size_text none = []
size_text (some n) = if n == 0 then [] else decimal n

-- TypeInfo.__str__
unfoldable pub type_text : TypeInfo → Text
type_text (plain a) = a.name
type_text (with_element a t) =
    let inner = type_text t in
    if a.is_pointer
    then b'*' ∷ inner
    else if a.is_array
    then b'[' ∷ (inner ++ (b';' ∷ b' ' ∷ (size_text a.array_size ++ b']' ∷ [])))
    else if a.is_slice
    then b'[' ∷ b']' ∷ inner
    else a.name

abbrev pub shape_of : TypeInfo → Shape
shape_of (plain a) = a
shape_of (with_element a t) = a

abbrev named : Text → Shape
named name = record {
  name = name;
  is_pointer = false;
  is_array = false;
  is_slice = false;
  array_size = none;
}

unfoldable pub create_builtin_type : Text → TypeInfo
create_builtin_type name = plain (named name)

unfoldable pub create_pointer_type : TypeInfo → TypeInfo
create_pointer_type t =
    with_element (record (named (b'*' ∷ (shape_of t).name)) { is_pointer = true }) t

unfoldable pub create_array_type : TypeInfo → Option ℕ → TypeInfo
create_array_type t size =
    with_element
      (record (named
        (b'[' ∷ ((shape_of t).name ++ (b';' ∷ b' ' ∷ (size_text size ++ b']' ∷ []))))) {
          is_array = true;
          array_size = size;
        })
      t

unfoldable pub create_slice_type : TypeInfo → TypeInfo
create_slice_type t =
    with_element (record (named (b'[' ∷ b']' ∷ (shape_of t).name)) { is_slice = true }) t

unfoldable pub create_list_type : TypeInfo → TypeInfo
create_list_type t =
    with_element
      (record (named (text_of "List[" ++ ((shape_of t).name ++ b']' ∷ []))) { is_array = true }) t

unfoldable pub create_any_type : TypeInfo
create_any_type = plain (named (text_of "any"))

abbrev signed_names : List Text
signed_names = text_of "i8" ∷ text_of "i16" ∷ text_of "i32" ∷ text_of "i64" ∷ []

abbrev unsigned_names : List Text
unsigned_names = text_of "u8" ∷ text_of "u16" ∷ text_of "u32" ∷ text_of "u64" ∷ []

abbrev float_names : List Text
float_names = text_of "f32" ∷ text_of "f64" ∷ []

unfoldable pub is_numeric_type : TypeInfo → Bool
is_numeric_type t = contains (signed_names ++ (unsigned_names ++ float_names)) (shape_of t).name

unfoldable pub is_integer_type : TypeInfo → Bool
is_integer_type t = contains (signed_names ++ unsigned_names) (shape_of t).name

unfoldable pub is_float_type : TypeInfo → Bool
is_float_type t = contains float_names (shape_of t).name

unfoldable pub is_signed_type : TypeInfo → Bool
is_signed_type t = contains signed_names (shape_of t).name

unfoldable pub is_unsigned_type : TypeInfo → Bool
is_unsigned_type t = contains unsigned_names (shape_of t).name

bool_eq-eq : (a b : Bool) → bool_eq a b ≡ true → a ≡ b
bool_eq-eq a b h = ground arith

size_eq-eq : (a b : Option ℕ) → size_eq a b ≡ true → a ≡ b
size_eq-eq a b h = ground arith

and_both : (a b : Bool) → (a && b) ≡ true → (a ≡ true) × (b ≡ true)
and_both a b h = ground arith

shape_eq-eq : (a b : Shape) → shape_eq a b ≡ true → a ≡ b
unfolding shape_eq
shape_eq-eq a b h =
    let (n, h1) = and_both _ _ h in
    let (p, h2) = and_both _ _ h1 in
    let (q, h3) = and_both _ _ h2 in
    let (r, o) = and_both _ _ h3 in
    λ i. record {
      name = (==_iff a.name b.name).0 n i;
      is_pointer = bool_eq-eq a.is_pointer b.is_pointer p i;
      is_array = bool_eq-eq a.is_array b.is_array q i;
      is_slice = bool_eq-eq a.is_slice b.is_slice r i;
      array_size = size_eq-eq a.array_size b.array_size o i;
    }

bool_eq_self : (a : Bool) → bool_eq a a ≡ true
bool_eq_self true = refl
bool_eq_self false = refl

size_eq_self : (a : Option ℕ) → size_eq a a ≡ true
size_eq_self none = refl
size_eq_self (some n) = (==_iff n n).1 refl

shape_eq_self : (a : Shape) → shape_eq a a ≡ true
unfolding shape_eq
shape_eq_self a =
    rw
      (
        (==_iff a.name a.name).1 refl,
        bool_eq_self a.is_pointer,
        bool_eq_self a.is_array,
        bool_eq_self a.is_slice,
        size_eq_self a.array_size,
      )
      refl

type_eq-eq : (s t : TypeInfo) → type_eq s t ≡ true → s ≡ t
unfolding type_eq
type_eq-eq (plain a) (plain b) h = ap plain (shape_eq-eq a b h)
type_eq-eq (plain a) (with_element b t) h = cc
type_eq-eq (with_element a s) (plain b) h = cc
type_eq-eq (with_element a s) (with_element b t) h =
    let (p, q) = and_both _ _ h in λ i. with_element (shape_eq-eq a b p i) (type_eq-eq s t q i)

type_eq_self : (t : TypeInfo) → type_eq t t ≡ true
unfolding type_eq
type_eq_self (plain a) = shape_eq_self a
type_eq_self (with_element a t) = rw (shape_eq_self a, type_eq_self t) refl

-- `==` on types holds exactly for types with the same fields, all the way down.
pub type_eq_iff : (s t : TypeInfo) → (type_eq s t ≡ true) ↔ (s ≡ t)
type_eq_iff s t =
    (type_eq-eq s t, λ e. subst (λ (u : TypeInfo). type_eq s u ≡ true) e (type_eq_self s))
