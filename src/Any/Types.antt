-- ===== src/Any/Types.antt =====
-- struct CORBA_TypeCode_struct and the C values that a TypeCode describes.
use mate_corba.Prelude.{ℕ, suc, List, [], ◌∷◌, Bool, true, false, Option}

-- The kinds that have no parts. The kind of a long double is among the others: on the wire the
-- code aligns it to sixteen bytes, a boundary that the buffers are not modelled for.
pub data Kind : Type 0 where
  tk_null tk_void tk_short tk_long tk_ushort tk_ulong tk_float tk_double : Kind
  tk_boolean tk_char tk_octet tk_any tk_TypeCode tk_Principal tk_objref : Kind
  tk_enum tk_string tk_longlong tk_ulonglong tk_wchar tk_wstring tk_fixed : Kind
  tk_other : Kind

-- A TypeCode with its `kind`, `subtypes` and `length`. Of a union: the discriminator, the
-- `sublabels` (CORBA_long each, on 32 bits), the `subtypes`, and `default_index`, which is none
-- where the field is negative. `sub_parts` is the length of the `subtypes`.
mutual
  pub data TypeCode : Type 0 where
    basic : Kind → TypeCode
    tk_struct : TypeCodes → TypeCode
    tk_except : TypeCodes → TypeCode
    tk_union : TypeCode → List ℕ → TypeCodes → Option ℕ → TypeCode
    tk_sequence : TypeCode → TypeCode
    tk_array : TypeCode → ℕ → TypeCode
    tk_alias : TypeCode → TypeCode

  pub data TypeCodes : Type 0 where
    end : TypeCodes
    part : TypeCode → TypeCodes → TypeCodes

-- SKIP_ALIAS
unfoldable pub skip_alias : TypeCode → TypeCode
skip_alias (tk_alias t) = skip_alias t
skip_alias (basic k) = basic k
skip_alias (tk_struct ts) = tk_struct ts
skip_alias (tk_except ts) = tk_except ts
skip_alias (tk_union d ls ts i) = tk_union d ls ts i
skip_alias (tk_sequence t) = tk_sequence t
skip_alias (tk_array t n) = tk_array t n

abbrev pub sub_parts : TypeCodes → ℕ
sub_parts end = 0
sub_parts (part t ts) = suc (sub_parts ts)

-- The values, as the code finds them in memory: a number for each word, the text of a string
-- before its NUL, the characters of a wide string before its zero, a sequence of octets, the
-- address of what other files of the ORB marshal, and values of parts. A sequence and an array hold
-- their elements.
mutual
  pub data Value : Type 0 where
    nothing : Value
    number : ℕ → Value
    text : List ℕ → Value
    wide : List ℕ → Value
    octets : List ℕ → Value
    address : ℕ → Value
    fields : Values → Value
    union : Value → Value → Value
    items : Values → Value

  pub data Values : Type 0 where
    nil : Values
    cons : Value → Values → Values

abbrev pub size : Values → ℕ
size nil = 0
size (cons v vs) = suc (size vs)

-- What memory that is read as a value of some form holds.
abbrev pub number_of : Value → ℕ
number_of (number n) = n
number_of _ = 0

abbrev pub text_of : Value → List ℕ
text_of (text s) = s
text_of _ = []

abbrev pub wide_of : Value → List ℕ
wide_of (wide cs) = cs
wide_of _ = []

abbrev pub octets_of : Value → List ℕ
octets_of (octets xs) = xs
octets_of _ = []

abbrev pub address_of : Value → ℕ
address_of (address n) = n
address_of _ = 0

abbrev pub fields_of : Value → Values
fields_of (fields vs) = vs
fields_of _ = nil

abbrev pub items_of : Value → Values
items_of (items vs) = vs
items_of _ = nil

abbrev pub discriminator_of : Value → Value
discriminator_of (union d v) = d
discriminator_of _ = nothing

abbrev pub body_of : Value → Value
body_of (union d v) = v
body_of _ = nothing

abbrev pub first : Values → Value
first nil = nothing
first (cons v vs) = v

abbrev pub others : Values → Values
others nil = nil
others (cons v vs) = vs

-- The numbers of a sequence of octets, characters or Booleans.
abbrev pub octets_in : Values → List ℕ
octets_in nil = []
octets_in (cons v vs) = number_of v ∷ octets_in vs

abbrev pub numbers : List ℕ → Values
numbers [] = nil
numbers (x ∷ xs) = cons (number x) (numbers xs)

-- How corba-any.c groups the kinds that have no parts, the same way when it marshals, demarshals
-- and copies.
pub data Form : Type 0 where
  as_void as_short as_long as_float as_double as_octet as_foreign as_principal : Form
  as_string as_wstring as_unknown : Form

unfoldable pub form : Kind → Form
form tk_null = as_void
form tk_void = as_void
form tk_short = as_short
form tk_long = as_long
form tk_ushort = as_short
form tk_ulong = as_long
form tk_float = as_float
form tk_double = as_double
form tk_boolean = as_octet
form tk_char = as_octet
form tk_octet = as_octet
form tk_any = as_foreign
form tk_TypeCode = as_foreign
form tk_Principal = as_principal
form tk_objref = as_foreign
form tk_enum = as_long
form tk_string = as_string
form tk_longlong = as_double
form tk_ulonglong = as_double
form tk_wchar = as_short
form tk_wstring = as_wstring
form tk_fixed = as_unknown
form tk_other = as_unknown

-- tc->kind is CORBA_tk_octet, CORBA_tk_boolean or CORBA_tk_char; an alias is none of them.
abbrev pub is_octet_form : Form → Bool
is_octet_form as_octet = true
is_octet_form _ = false

abbrev pub is_octet : TypeCode → Bool
is_octet (basic k) = is_octet_form (form k)
is_octet _ = false
