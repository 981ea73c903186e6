-- ===== src/Examples/References.antt =====
-- References at concrete inputs: a host with SSL, and a local socket.
use mate_corba.Prelude.{ℕ, ◌≡◌, refl, arith, List, [], ◌∷◌}
use mate_corba.Giop.Types.{giop_1_2}
use mate_corba.Corbaloc.Parse.{corbaloc_parse}
use mate_corba.Corbaloc.Print.{printed, corbaloc_from}
use mate_corba.Corbaloc.Texts.{starts_with}
use mate_corba.Corbaloc.Several.{corbaloc_parse-both}
use mate_corba.Corbaloc.Tokens.{Reference, secure, local, profile, IsPrintable}
use mate_corba.Corbaloc.RoundTrip.{corbaloc_parse-corbaloc_from}

-- "host" with port 2809, and a key of three octets.
abbrev host_reference : Reference
host_reference = secure giop_1_2 (104 ∷ 111 ∷ 115 ∷ 116 ∷ []) 2809

abbrev key_octets : List ℕ
key_octets = 0 ∷ 65 ∷ 255 ∷ []

host_reference-IsPrintable : IsPrintable host_reference
host_reference-IsPrintable = (
  (refl, (refl, (refl, (refl, (refl, tt)))), (refl, (refl, (refl, (refl, tt))))),
  omega arith,
  omega arith,
  omega arith,
)

corbaloc_parse-corbaloc_from_example :
    (text : List ℕ) × (corbaloc_from (profile host_reference key_octets ∷ []) key_octets
      ≡ printed text)
    × (corbaloc_parse text ≡ profile host_reference key_octets ∷ [])
corbaloc_parse-corbaloc_from_example =
    corbaloc_parse-corbaloc_from host_reference key_octets host_reference-IsPrintable refl
      (omega arith, (omega arith, (omega arith, tt)))

-- "/tmp/s" without a port.
abbrev local_reference : Reference
local_reference = local (116 ∷ 109 ∷ 112 ∷ 47 ∷ 115 ∷ []) 0

local_reference-IsPrintable : IsPrintable local_reference
unfolding starts_with
local_reference-IsPrintable = ((refl, (refl, (refl, (refl, (refl, tt))))), refl, omega arith)

corbaloc_parse-both_example :
    (text : List ℕ) × (corbaloc_from
        (profile host_reference key_octets ∷ profile local_reference key_octets ∷ [])
        key_octets
      ≡ printed text)
    × (corbaloc_parse text ≡ [])
corbaloc_parse-both_example =
    corbaloc_parse-both host_reference local_reference key_octets host_reference-IsPrintable
      local_reference-IsPrintable refl (omega arith, (omega arith, (omega arith, tt)))
