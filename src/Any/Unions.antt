-- ===== src/Any/Unions.antt =====
-- MateCORBA_get_union_switch and MateCORBA_get_union_tag: which member a discriminator selects.
pub mod Selection
use mate_corba.Prelude.{
  ℕ, zero, suc, ◌+◌, ◌-◌, ◌%◌, ◌<◌, ◌≤◌, List, [], ◌∷◌, Bool, true, false, Option, none, some, ltb,
  ◌==◌, if◌then◌else◌, u32_mod, u64_mod, ◌≡◌, ◌≢◌, length, get_elem?,
}
use mate_corba.Any.Types.{
  Kind, TypeCode, basic, skip_alias, tk_short, tk_long, tk_ushort, tk_ulong, tk_boolean, tk_char,
  tk_octet, tk_enum,
}

-- (glong) of a CORBA_long and of a CORBA_short, on 64 bits.
unfoldable pub glong_of_long : ℕ → ℕ
glong_of_long n =
    if ltb (n % u32_mod) 0x80000000 then n % u32_mod else n % u32_mod + (u64_mod - u32_mod)

unfoldable pub glong_of_short : ℕ → ℕ
glong_of_short n = if ltb (n % 65536) 0x8000 then n % 65536 else n % 65536 + (u64_mod - 65536)

-- The discriminator's value as a glong; none where the code stops with g_error.
unfoldable pub switch_of_kind : Kind → ℕ → Option ℕ
switch_of_kind tk_ulong n = some (glong_of_long n)
switch_of_kind tk_long n = some (glong_of_long n)
switch_of_kind tk_enum n = some (glong_of_long n)
switch_of_kind tk_ushort n = some (glong_of_short n)
switch_of_kind tk_short n = some (glong_of_short n)
switch_of_kind tk_char n = some (n % 256)
switch_of_kind tk_boolean n = some (n % 256)
switch_of_kind tk_octet n = some (n % 256)
switch_of_kind _ n = none

abbrev switch_of_type : TypeCode → ℕ → Option ℕ
switch_of_type (basic k) n = switch_of_kind k n
switch_of_type _ n = none

-- MateCORBA_get_union_switch
unfoldable pub get_union_switch : TypeCode → ℕ → Option ℕ
get_union_switch tc n = switch_of_type (skip_alias tc) n

-- if (i == union_tc->default_index) continue
abbrev pub is_default : ℕ → Option ℕ → Bool
is_default i none = false
is_default i (some d) = i == d

-- The loop over the labels, from the member `i` on: the first that is not the default and has the
-- label, if there is one.
unfoldable pub find_label : ℕ → List ℕ → Option ℕ → ℕ → Option ℕ
find_label i [] default_index discrim = none
find_label i (l ∷ ls) default_index discrim =
    let rest = find_label (suc i) ls default_index discrim in
    if is_default i default_index then rest else if glong_of_long l == discrim then some i else rest

-- What follows the loop: the member found, the default one, or none for TC_null.
abbrev pub or_default : Option ℕ → Option ℕ → Option ℕ
or_default (some i) default_index = some i
or_default none default_index = default_index

-- The member for the value of the switch.
unfoldable pub tag_of_switch : List ℕ → Option ℕ → Option ℕ → Option (Option ℕ)
tag_of_switch labels default_index none = none
tag_of_switch labels default_index (some discrim) =
    some (or_default (find_label 0 labels default_index discrim) default_index)

-- MateCORBA_get_union_tag of a value of the discriminator: the index of the member, none for
-- TC_null. The outer Option is none where the code stops with g_error.
unfoldable pub get_union_tag : TypeCode → List ℕ → Option ℕ → ℕ → Option (Option ℕ)
get_union_tag discriminator labels default_index n =
    tag_of_switch labels default_index (get_union_switch discriminator n)
