-- ===== src/Corbaloc/Parse.antt =====
-- MateCORBA_corbaloc_parse and what it calls.
use mate_corba.Prelude.{
  ℕ, ◌+◌, ◌-◌, ◌*◌, List, [], ◌∷◌, Bool, true, false, ◌&&◌, ◌||◌, ltb, leb, ◌==◌, if◌then◌else◌,
  Option, none, some,
}
use mate_corba.Giop.Types.{Version, giop_1_0, giop_1_1, giop_1_2, version_minor}
use mate_corba.Corbaloc.Texts.{
  unless_null, starts_with, strchr, strrchr, contains, is_empty, strsplit, is_digit, is_xdigit,
  all_digits, atoi,
}

-- A component of a profile: IOP_TAG_SSL_SEC_TRANS_info with its port, or another.
pub data Component : Type 0 where
  ssl_sec_trans : ℕ → Component
  other_component : Component

-- IOP_TAG_INTERNET_IOP_info
pub record InternetIop : Type 0 where
  pub iiop_version : Version
  pub host : List ℕ
  pub port : ℕ
  pub object_key : List ℕ
  pub components : List Component

-- IOP_TAG_MATECORBA_SPECIFIC_info
pub record MateCorbaSpecific : Type 0 where
  pub unix_sock_path : List ℕ
  pub ipv6_port : ℕ
  pub object_key : List ℕ

-- IOP_Profile_info
pub data Profile : Type 0 where
  internet_iop : InternetIop → Profile
  matecorba_specific : MateCorbaSpecific → Profile
  other_profile : Profile

-- What corbaloc_profile_iiop_parse assigns.
pub record IiopParts : Type 0 where
  pub ver : Version
  pub host : List ℕ
  pub port : ℕ
  pub ssl : Bool

-- ":" or "iiop:", "iiops:" or "ssliop:".
unfoldable pub scheme : List ℕ → Option Bool
scheme prof =
    if starts_with (58 ∷ []) prof || starts_with (105 ∷ 105 ∷ 111 ∷ 112 ∷ 58 ∷ []) prof
    then some false
    else if starts_with (105 ∷ 105 ∷ 111 ∷ 112 ∷ 115 ∷ 58 ∷ []) prof
        || starts_with (115 ∷ 115 ∷ 108 ∷ 105 ∷ 111 ∷ 112 ∷ 58 ∷ []) prof
    then some true
    else none

-- Skipping '/'.
unfoldable pub skip_slashes : List ℕ → List ℕ
skip_slashes [] = []
skip_slashes (c ∷ cs) = let rest = skip_slashes cs in if c == 47 then rest else c ∷ cs

-- What stands before a '@', or the default "1.1" or "1.0".
unfoldable pub version_part : Bool → List ℕ → Option (List ℕ × List ℕ) → List ℕ × List ℕ
version_part ssl token none = (if ssl then 49 ∷ 46 ∷ 49 ∷ [] else 49 ∷ 46 ∷ 48 ∷ [], token)
version_part ssl token (some (ver, rest)) = (ver, rest)

-- What stands behind a ':', or OMG_LOCATOR.
unfoldable pub port_part : List ℕ → Option (List ℕ × List ℕ) → List ℕ × List ℕ
port_part token none = (token, 50 ∷ 56 ∷ 48 ∷ 57 ∷ [])
port_part token (some (host, port)) = (host, port)

-- The test that a port is an unsigned short of digits only.
unfoldable pub port_of : List ℕ → Option ℕ
port_of text =
    if ltb 65535 (atoi text) then none else if all_digits text then some (atoi text) else none

unfoldable pub version_of : List ℕ → Option Version
version_of text =
    if starts_with (49 ∷ 46 ∷ 48 ∷ []) text
    then some giop_1_0
    else if starts_with (49 ∷ 46 ∷ 49 ∷ []) text
    then some giop_1_1
    else if starts_with (49 ∷ 46 ∷ 50 ∷ []) text
    then some giop_1_2
    else none

unfoldable pub iiop_parts : Bool → List ℕ → List ℕ × List ℕ → Option IiopParts
iiop_parts ssl ver (host, port) =
    if is_empty ver || (is_empty host || is_empty port)
    then none
    else unless_null (port_of port) (λ n.
      unless_null (version_of ver)
        (λ v. some (record { ver = v; host = host; port = n; ssl = ssl })))

unfoldable pub iiop_versioned : Bool → List ℕ × List ℕ → Option IiopParts
iiop_versioned ssl (ver, rest) = iiop_parts ssl ver (port_part rest (strchr 58 rest))

unfoldable pub iiop_token : Bool → List ℕ → Option IiopParts
iiop_token ssl token = iiop_versioned ssl (version_part ssl token (strchr 64 token))

-- corbaloc_profile_iiop_parse
unfoldable pub profile_iiop_parse : List ℕ → Option IiopParts
profile_iiop_parse profile =
    unless_null (scheme profile)
      (λ ssl. unless_null (strchr 58 profile) (λ (_, token). iiop_token ssl (skip_slashes token)))

-- The profile for what was parsed; there is no SSL before GIOP 1.1.
unfoldable pub iiop_profile : List ℕ → IiopParts → Option Profile
iiop_profile objkey i =
    if i.ssl && ltb (version_minor i.ver) 1
    then none
    else some (
        internet_iop (record {
          iiop_version = i.ver;
          host = i.host;
          port = if i.ssl then 0 else i.port;
          object_key = objkey;
          components = if i.ssl then ssl_sec_trans i.port ∷ [] else [];
        }))

-- corbaloc_profile_iiop
unfoldable pub profile_iiop : List ℕ → List ℕ → Option Profile
profile_iiop token objkey = unless_null (profile_iiop_parse token) (λ i. iiop_profile objkey i)

-- Skipping '/' and stepping back by one, to the last of them, or to what stands in front.
unfoldable pub last_slash : ℕ → List ℕ → List ℕ
last_slash front [] = front ∷ []
last_slash front (c ∷ cs) = let rest = last_slash c cs in if c == 47 then rest else front ∷ c ∷ cs

unfoldable pub uiop_port : List ℕ → Option ℕ
uiop_port [] = some 0
uiop_port (c ∷ cs) = port_of (c ∷ cs)

-- corbaloc_profile_uiop_parse gives the path and the port.
unfoldable pub profile_uiop_parse : List ℕ → Option (List ℕ × ℕ)
profile_uiop_parse profile =
    if starts_with (117 ∷ 105 ∷ 111 ∷ 112 ∷ 58 ∷ []) profile
    then unless_null (strchr 58 profile) (λ (_, rest).
      unless_null (strrchr 58 (last_slash 58 rest)) (λ (socket_path, port).
        unless_null (uiop_port port)
          (λ n. if is_empty socket_path then none else some (socket_path, n))))
    else none

-- corbaloc_profile_uiop
unfoldable pub profile_uiop : List ℕ → List ℕ → Option Profile
profile_uiop token objkey = unless_null (profile_uiop_parse token) (λ (socket_path, ipv6_port).
    some (
      matecorba_specific
        (record { unix_sock_path = socket_path; ipv6_port = ipv6_port; object_key = objkey })))

-- matecorba_from_xdigit of a hexadecimal digit.
unfoldable pub from_xdigit : ℕ → ℕ
from_xdigit c = if is_digit c then c - 48 else if leb 97 c then c - 87 else c - 55

abbrev pub decoded : ℕ → Option (List ℕ) → Option (List ℕ)
decoded c none = none
decoded c (some cs) = some (c ∷ cs)

-- matecorba_url_decode. The text ends where a character behind '%' is missing, which is no
-- hexadecimal digit.
unfoldable pub url_decode : List ℕ → Option (List ℕ)
url_decode [] = some []
url_decode (c ∷ []) = if c == 37 then none else some (c ∷ [])
url_decode (c ∷ d ∷ []) = elim (c == 37) [ true ↦ none | false ↦ decoded c (url_decode (d ∷ [])) ]
url_decode (c ∷ d ∷ e ∷ rest) = elim (c == 37) [
  | true ↦ elim (is_xdigit d && is_xdigit e) [
    | true ↦ decoded (from_xdigit d * 16 + from_xdigit e) (url_decode rest)
    | false ↦ none
  ]
  | false ↦ decoded c (url_decode (d ∷ e ∷ rest))
]

-- The switch on the first character of a token.
unfoldable pub profile_of : List ℕ → List ℕ → Option Profile
profile_of [] objkey = none
profile_of (c ∷ cs) objkey =
    if (c == 58) || ((c == 105) || (c == 115))
    then profile_iiop (c ∷ cs) objkey
    else if c == 117
    then profile_uiop (c ∷ cs) objkey
    else none

-- The loop over the tokens; none where it goes to ret_error.
unfoldable pub profiles_of : List (List ℕ) → List ℕ → Option (List Profile)
profiles_of [] objkey = some []
profiles_of (t ∷ ts) objkey =
    unless_null (profile_of t objkey)
      (λ p. unless_null (profiles_of ts objkey) (λ ps. some (p ∷ ps)))

-- What follows the split at the last '/'.
unfoldable pub located : List ℕ × List ℕ → Option (List Profile)
located (loc, okey) =
    if is_empty okey
    then none
    else unless_null (url_decode okey) (λ objkey. profiles_of (strsplit 44 loc) objkey)

abbrev pub corbaloc_prefix : List ℕ
corbaloc_prefix = 99 ∷ 111 ∷ 114 ∷ 98 ∷ 97 ∷ 108 ∷ 111 ∷ 99 ∷ 58 ∷ []

-- "corbaloc:" in front, which may be missing.
unfoldable pub without_prefix : List ℕ → List ℕ
without_prefix (_ ∷ _ ∷ _ ∷ _ ∷ _ ∷ _ ∷ _ ∷ _ ∷ _ ∷ rest) = rest
without_prefix text = text

unfoldable pub stripped : List ℕ → List ℕ
stripped text = if starts_with corbaloc_prefix text then without_prefix text else text

-- The list NULL, which is empty, stands for failure.
abbrev pub or_empty : Option (List Profile) → List Profile
or_empty none = []
or_empty (some ps) = ps

-- MateCORBA_corbaloc_parse
unfoldable pub corbaloc_parse : List ℕ → List Profile
corbaloc_parse corbaloc =
    if contains 47 corbaloc
    then or_empty (unless_null (strrchr 47 (stripped corbaloc)) (λ split. located split))
    else []
