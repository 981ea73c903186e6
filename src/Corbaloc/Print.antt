-- ===== src/Corbaloc/Print.antt =====
-- MateCORBA_corbaloc_from and what it calls.
use mate_corba.Prelude.{
  ℕ, List, [], ◌∷◌, ◌++◌, Bool, true, false, ◌==◌, if◌then◌else◌, Option, none, some,
}
use mate_corba.Giop.Types.{Version, giop_1_0, giop_1_1, giop_1_2}
use mate_corba.Corbaloc.Texts.{decimal, hex}
use mate_corba.Corbaloc.Parse.{
  Component, ssl_sec_trans, other_component, InternetIop, MateCorbaSpecific, Profile, internet_iop,
  matecorba_specific, other_profile, corbaloc_prefix,
}

-- A text, NULL, or a failed assertion.
pub data Printed : Type 0 where
  printed : List ℕ → Printed
  null aborted : Printed

-- as_corbaloc
unfoldable pub as_corbaloc : List Profile → Bool
as_corbaloc [] = false
as_corbaloc (internet_iop p ∷ ps) = true
as_corbaloc (matecorba_specific p ∷ ps) = true
as_corbaloc (other_profile ∷ ps) = as_corbaloc ps

-- get_ssl_component gives the port of the component.
unfoldable pub get_ssl_component : List Component → Option ℕ
get_ssl_component [] = none
get_ssl_component (ssl_sec_trans port ∷ cs) = some port
get_ssl_component (other_component ∷ cs) = get_ssl_component cs

-- giop_version_str
unfoldable pub giop_version_str : Version → List ℕ
giop_version_str giop_1_0 = 49 ∷ 46 ∷ 48 ∷ []
giop_version_str giop_1_1 = 49 ∷ 46 ∷ 49 ∷ []
giop_version_str giop_1_2 = 49 ∷ 46 ∷ 50 ∷ []

-- A port has at most five digits.
abbrev pub port_text : ℕ → List ℕ
port_text port = decimal 5 port

-- "%s@%s:%d"
unfoldable pub address_text : Version → List ℕ → ℕ → List ℕ
address_text v host port = giop_version_str v ++ (64 ∷ (host ++ (58 ∷ port_text port)))

-- "iiop:" or "ssliop:" in front, none where the port of the ssl component is zero.
unfoldable pub iiop_text : InternetIop → Option ℕ → Option (List ℕ)
iiop_text p none =
    some ((105 ∷ 105 ∷ 111 ∷ 112 ∷ 58 ∷ []) ++ address_text p.iiop_version p.host p.port)
iiop_text p (some port) =
    if port == 0
    then none
    else some
        ((115 ∷ 115 ∷ 108 ∷ 105 ∷ 111 ∷ 112 ∷ 58 ∷ []) ++ address_text p.iiop_version p.host port)

-- "uiop:%s:%d" or "uiop:%s:".
unfoldable pub uiop_text : MateCorbaSpecific → List ℕ
uiop_text p =
    (117 ∷ 105 ∷ 111 ∷ 112 ∷ 58 ∷ [])
    ++ (p.unix_sock_path ++ (58 ∷ (if p.ipv6_port == 0 then [] else port_text p.ipv6_port)))

-- The loop that encodes the key.
unfoldable pub url_encode : List ℕ → List ℕ
url_encode [] = []
url_encode (c ∷ cs) = 37 ∷ (hex c ++ url_encode cs)

abbrev pub profile_text : Option (List ℕ) → Bool → List ℕ → Printed → Printed
profile_text none first_profile key rest = aborted
profile_text (some text) first_profile key (printed rest) =
    printed ((if first_profile then [] else 44 ∷ []) ++ (text ++ (47 ∷ (url_encode key ++ rest))))
profile_text (some text) first_profile key rest = rest

-- The loop over the profiles: what it appends.
unfoldable pub profiles_text : Bool → List Profile → List ℕ → Printed
profiles_text first_profile [] key = printed []
profiles_text first_profile (internet_iop p ∷ ps) key =
    profile_text (iiop_text p (get_ssl_component p.components)) first_profile key
      (profiles_text false ps key)
profiles_text first_profile (matecorba_specific p ∷ ps) key =
    profile_text (some (uiop_text p)) first_profile key (profiles_text false ps key)
profiles_text first_profile (other_profile ∷ ps) key = profiles_text first_profile ps key

abbrev pub with_prefix : Printed → Printed
with_prefix (printed text) = printed (corbaloc_prefix ++ text)
with_prefix null = null
with_prefix aborted = aborted

-- MateCORBA_corbaloc_from
unfoldable pub corbaloc_from : List Profile → List ℕ → Printed
corbaloc_from profile_list object_key =
    if as_corbaloc profile_list
    then with_prefix (profiles_text true profile_list object_key)
    else null
