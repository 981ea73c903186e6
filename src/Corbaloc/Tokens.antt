-- ===== src/Corbaloc/Tokens.antt =====
-- References, and the token of a reference, which is parsed to its profile.
use mathlib.Core.Bool.{true≢false}
use mate_corba.Prelude.{
  ℕ, ◌<◌, ◌≡◌, refl, ap, ◌∙◌, arith, List, [], ◌∷◌, ◌++◌, Bool, Bool-cases, true, false, inl, inr,
  ◌||◌, ltb, ◌==◌, if◌then◌else◌, Option, none, some,
}
use mate_corba.Giop.Types.{Version, giop_1_0, giop_1_1, giop_1_2, version_minor}
use mate_corba.Corbaloc.Texts.{
  unless_null, starts_with, strchr, strrchr, is_empty, all_digits, atoi, decimal,
}
use mate_corba.Corbaloc.Parse.{
  ssl_sec_trans, Profile, internet_iop, matecorba_specific, scheme, skip_slashes, version_part,
  port_part, port_of, version_of, iiop_parts, iiop_versioned, iiop_token, profile_iiop_parse,
  iiop_profile, profile_iiop, last_slash, uiop_port, profile_uiop_parse, profile_uiop, profile_of,
}
use mate_corba.Corbaloc.Print.{giop_version_str, port_text, address_text, url_encode}
use mate_corba.Corbaloc.Pieces.{
  Lacks, strchr-append, strrchr-append, decimal-IsDigits, IsDigits-Lacks, all_digits-IsDigits,
  atoi-decimal,
}

-- What a corbaloc can say: a host and a port, with SSL or without, or the path of a local socket
-- and a port, behind the path's first '/'.
pub data Reference : Type 0 where
  plain secure : Version → List ℕ → ℕ → Reference
  local : List ℕ → ℕ → Reference

abbrev pub profile : Reference → List ℕ → Profile
profile (plain v host port) key =
    internet_iop
      (record { iiop_version = v; host = host; port = port; object_key = key; components = [] })
profile (secure v host port) key = internet_iop (record {
  iiop_version = v;
  host = host;
  port = 0;
  object_key = key;
  components = ssl_sec_trans port ∷ [];
})
profile (local path port) key =
    matecorba_specific (record { unix_sock_path = 47 ∷ path; ipv6_port = port; object_key = key })

abbrev pub IsHost : List ℕ → Type 0
IsHost host = (is_empty host ≡ false) × Lacks 58 host × Lacks 44 host

abbrev pub IsPrintable : Reference → Type 0
IsPrintable (plain v host port) = IsHost host × (port < 65536)
IsPrintable (secure v host port) = IsHost host × (port < 65536) × (0 < port) × (0 < version_minor v)
IsPrintable (local path port) =
    Lacks 44 path × (starts_with (47 ∷ []) path ≡ false) × (port < 65536)

-- Its text, without the key.
abbrev pub loc_text : Reference → List ℕ
loc_text (plain v host port) = (105 ∷ 105 ∷ 111 ∷ 112 ∷ 58 ∷ []) ++ address_text v host port
loc_text (secure v host port) =
    (115 ∷ 115 ∷ 108 ∷ 105 ∷ 111 ∷ 112 ∷ 58 ∷ []) ++ address_text v host port
loc_text (local path port) =
    (117 ∷ 105 ∷ 111 ∷ 112 ∷ 58 ∷ [])
    ++ ((47 ∷ path) ++ (58 ∷ (if port == 0 then [] else port_text port)))

port_of-port_text : (port : ℕ) → port < 65536 → port_of (port_text port) ≡ some port
unfolding port_of
port_of-port_text port h =
    let value : atoi (port_text port) ≡ port = atoi-decimal 4 port (omega (arith, h)) h in
    let small : ltb 65535 (atoi (port_text port)) ≡ false = ground arith in
    ap
      (λ b.
        if b
        then none
        else (if all_digits (port_text port) then some (atoi (port_text port)) else none))
      small
    ∙ ap (λ b. if b then some (atoi (port_text port)) else none)
        (all_digits-IsDigits (port_text port) (decimal-IsDigits 5 port))
    ∙ ap (λ n. some n) value

is_empty-append : (a : List ℕ) (c : ℕ) → is_empty (a ++ (c ∷ [])) ≡ false
is_empty-append [] c = refl
is_empty-append (x ∷ a) c = refl

port_text-full : (port : ℕ) → is_empty (port_text port) ≡ false
unfolding decimal
port_text-full port = is_empty-append _ _

pub encoded : (key : List ℕ) → is_empty key ≡ false → is_empty (url_encode key) ≡ false
unfolding url_encode
encoded [] e = e
encoded (c ∷ cs) e = refl

version_of-giop_version_str : (v : Version) → version_of (giop_version_str v) ≡ some v
unfolding version_of giop_version_str starts_with
version_of-giop_version_str giop_1_0 = refl
version_of-giop_version_str giop_1_1 = refl
version_of-giop_version_str giop_1_2 = refl

split_address :
    (ssl : Bool) (v : Version) (host : List ℕ) (port : ℕ)
    → iiop_token ssl (skip_slashes (address_text v host port))
      ≡ iiop_parts ssl
          (giop_version_str v)
          (port_part (host ++ (58 ∷ port_text port)) (strchr 58 (host ++ (58 ∷ port_text port))))
unfolding iiop_token iiop_versioned version_part skip_slashes address_text giop_version_str strchr
split_address ssl giop_1_0 host port = refl
split_address ssl giop_1_1 host port = refl
split_address ssl giop_1_2 host port = refl

pub version_full : (v : Version) → is_empty (giop_version_str v) ≡ false
unfolding giop_version_str
version_full giop_1_0 = refl
version_full giop_1_1 = refl
version_full giop_1_2 = refl

iiop_parts-port_text :
    (ssl : Bool) (v : Version) (host : List ℕ) (port : ℕ)
    → is_empty host ≡ false
    → port < 65536
    → iiop_parts ssl (giop_version_str v) (host, port_text port)
      ≡ some (record { ver = v; host = host; port = port; ssl = ssl })
unfolding iiop_parts unless_null
iiop_parts-port_text ssl v host port full small =
    let tests : (is_empty (giop_version_str v) || (is_empty host || is_empty (port_text port)))
        ≡ false =
      ap (λ b. b || (is_empty host || is_empty (port_text port))) (version_full v)
      ∙ ap (λ b. b || is_empty (port_text port)) full
      ∙ port_text-full port in
    ap
      (λ b.
        if b
        then none
        else unless_null (port_of (port_text port)) (λ n.
          unless_null (version_of (giop_version_str v))
            (λ w. some (record { ver = w; host = host; port = n; ssl = ssl }))))
      tests
    ∙ ap
        (λ m. unless_null m (λ n.
          unless_null (version_of (giop_version_str v))
            (λ w. some (record { ver = w; host = host; port = n; ssl = ssl }))))
        (port_of-port_text port small)
    ∙ ap (λ m. unless_null m (λ w. some (record { ver = w; host = host; port = port; ssl = ssl })))
        (version_of-giop_version_str v)

-- The version, the host and the port of an address.
iiop_token-address_text :
    (ssl : Bool) (v : Version) (host : List ℕ) (port : ℕ)
    → IsHost host
    → port < 65536
    → iiop_token ssl (skip_slashes (address_text v host port))
      ≡ some (record { ver = v; host = host; port = port; ssl = ssl })
unfolding port_part
iiop_token-address_text ssl v host port (full, no_colon, _) small =
    split_address ssl v host port
    ∙ ap (λ m. iiop_parts ssl (giop_version_str v) (port_part (host ++ (58 ∷ port_text port)) m))
        (strchr-append 58 host (port_text port) no_colon)
    ∙ iiop_parts-port_text ssl v host port full small

-- A local socket's path and port.
pub last_slash-path :
    (path port : List ℕ)
    → starts_with (47 ∷ []) path ≡ false
    → last_slash 58 ((47 ∷ path) ++ (58 ∷ port)) ≡ (47 ∷ path) ++ (58 ∷ port)
unfolding last_slash starts_with
last_slash-path [] port h = refl
last_slash-path (c ∷ path) port h = elim (Bool-cases (c == 47)) [
  | inl e ↦ absurd (true≢false (rw e at h))
  | inr e ↦ rw e refl
]

uiop_port-port_text :
    (port : ℕ) → port < 65536 → uiop_port (if port == 0 then [] else port_text port) ≡ some port
unfolding uiop_port
uiop_port-port_text port h = elim (Bool-cases (port == 0)) [
  | inl e ↦ rw e (ap (λ n. some n) (ground arith))
  | inr e ↦ rw e (not_empty (port_text port) (port_text-full port) ∙ port_of-port_text port h)
]
  where
    not_empty : (s : List ℕ) → is_empty s ≡ false → uiop_port s ≡ port_of s
    not_empty [] e = absurd (true≢false e)
    not_empty (x ∷ s) e = refl

pub colon_free : (port : ℕ) → Lacks 58 (if port == 0 then [] else port_text port)
colon_free port = elim (Bool-cases (port == 0)) [
  | inl e ↦ rw e tt
  | inr e ↦ rw e (IsDigits-Lacks 58 (port_text port) (inr (omega arith)) (decimal-IsDigits 5 port))
]

profile_uiop_parse-text :
    (path : List ℕ) (port : ℕ)
    → IsPrintable (local path port)
    → profile_uiop_parse (loc_text (local path port)) ≡ some (47 ∷ path, port)
unfolding profile_uiop_parse starts_with strchr unless_null
profile_uiop_parse-text path port (_, single, small) =
    let p = if port == 0 then [] else port_text port in
    let k : List ℕ × List ℕ → Option (List ℕ × ℕ) = λ (socket_path, port).
      unless_null (uiop_port port)
        (λ n. if is_empty socket_path then none else some (socket_path, n)) in
    ap (λ s. unless_null (strrchr 58 s) k) (last_slash-path path p single)
    ∙ ap (λ m. unless_null m k) (strrchr-append 58 (47 ∷ path) p (colon_free port))
    ∙ ap (λ m. unless_null m (λ n. some (47 ∷ path, n))) (uiop_port-port_text port small)

-- The profile of a token.
pub profile_of-loc_text :
    (r : Reference) (key : List ℕ)
    → IsPrintable r
    → profile_of (loc_text r) key ≡ some (profile r key)
unfolding profile_of profile_iiop profile_iiop_parse profile_uiop scheme starts_with strchr
    unless_null iiop_profile
profile_of-loc_text (plain v host port) key (h, small) =
    ap (λ m. unless_null m (λ i. iiop_profile key i))
      (iiop_token-address_text false v host port h small)
profile_of-loc_text (secure v host port) key (h, small, pos, new) =
    let late : ltb (version_minor v) 1 ≡ false = ground arith in
    ap (λ m. unless_null m (λ i. iiop_profile key i))
      (iiop_token-address_text true v host port h small)
    ∙ ap (λ b. if b then none else some (profile (secure v host port) key)) late
profile_of-loc_text (local path port) key h =
    ap
      (λ m. unless_null m (λ (socket_path, ipv6_port). some (
        matecorba_specific
          (record { unix_sock_path = socket_path; ipv6_port = ipv6_port; object_key = key }))))
      (profile_uiop_parse-text path port h)
