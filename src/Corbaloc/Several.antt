-- ===== src/Corbaloc/Several.antt =====
-- The text of two references is refused: the key stands behind each of them, but only the last
-- '/' is taken for the start of a key.
use mate_corba.Prelude.{
  ℕ, ◌<◌, ◌≡◌, refl, sym, ap, ◌∙◌, arith, List, [], ◌∷◌, ◌++◌, Bool, true, false, inl, inr, ◌&&◌,
  ◌==◌, if◌then◌else◌, Option, none, some, All, All-append, append_assoc, append-nil,
}
use mate_corba.Giop.Types.{Version, giop_1_0, giop_1_1, giop_1_2}
use mate_corba.Corbaloc.Texts.{
  unless_null, starts_with, strchr, strrchr, is_empty, strsplit, pieces, is_digit, all_digits, atoi,
}
use mate_corba.Corbaloc.Parse.{
  IiopParts, Profile, matecorba_specific, scheme, skip_slashes, version_part, port_part, port_of,
  version_of, iiop_parts, iiop_versioned, iiop_token, profile_iiop_parse, iiop_profile,
  profile_iiop, uiop_port, profile_uiop_parse, profile_uiop, url_decode, profile_of, profiles_of,
  located, corbaloc_prefix, or_empty, corbaloc_parse,
}
use mate_corba.Corbaloc.Print.{
  printed, as_corbaloc, get_ssl_component, giop_version_str, port_text, address_text, iiop_text,
  uiop_text, url_encode, profile_text, profiles_text, with_prefix, corbaloc_from,
}
use mate_corba.Corbaloc.Pieces.{
  Lacks, strchr-append, strrchr-append, strsplit-append, url_decode-url_encode, url_encode-Lacks,
}
use mate_corba.Corbaloc.Tokens.{
  Reference, plain, secure, local, profile, IsPrintable, loc_text, encoded, last_slash-path,
  colon_free,
}
use mate_corba.Corbaloc.RoundTrip.{loc_text-Lacks, split-loc_text}

if_same : (b : Bool) {A : Type 0} (x : Option A) → x ≡ none → (if b then none else x) ≡ none
if_same true x e = refl
if_same false x e = e

-- A port with a '/' in it is none.
all_digits-slash : (d tail : List ℕ) → all_digits (d ++ (47 ∷ tail)) ≡ false
unfolding all_digits
all_digits-slash [] tail = refl
all_digits-slash (c ∷ d) tail =
    ap (λ b. is_digit c && b) (all_digits-slash d tail) ∙ and_false (is_digit c)
  where
    and_false : (b : Bool) → (b && false) ≡ false
    and_false true = refl
    and_false false = refl

port_of-slash : (d tail : List ℕ) → port_of (d ++ (47 ∷ tail)) ≡ none
unfolding port_of
port_of-slash d tail =
    if_same _ _
      (ap (λ b. if b then some (atoi (d ++ (47 ∷ tail))) else none) (all_digits-slash d tail))

iiop_parts-slash :
    (ssl : Bool) (ver host d tail : List ℕ) → iiop_parts ssl ver (host, d ++ (47 ∷ tail)) ≡ none
unfolding iiop_parts unless_null
iiop_parts-slash ssl ver host d tail =
    let k : ℕ → Option IiopParts = λ n.
      unless_null (version_of ver)
        (λ v. some (record { ver = v; host = host; port = n; ssl = ssl })) in
    if_same _ _ (ap (λ m. unless_null m k) (port_of-slash d tail))

-- An address with more behind it than the port.
address_followed :
    (ssl : Bool) (v : Version) (host d tail : List ℕ)
    → Lacks 58 host
    → iiop_token ssl
        (skip_slashes (giop_version_str v ++ (64 ∷ (host ++ (58 ∷ (d ++ (47 ∷ tail)))))))
      ≡ none
unfolding iiop_token iiop_versioned version_part skip_slashes giop_version_str strchr port_part
address_followed ssl v host d tail h = by_version v
  where
    found :
        (ver : List ℕ)
        → iiop_parts ssl ver (
            port_part
              (host ++ (58 ∷ (d ++ (47 ∷ tail))))
              (strchr 58 (host ++ (58 ∷ (d ++ (47 ∷ tail))))))
          ≡ none
    found ver =
        ap (λ m. iiop_parts ssl ver (port_part (host ++ (58 ∷ (d ++ (47 ∷ tail)))) m))
          (strchr-append 58 host (d ++ (47 ∷ tail)) h)
        ∙ iiop_parts-slash ssl ver host d tail

    by_version :
        (v : Version)
        → iiop_token ssl
            (skip_slashes (giop_version_str v ++ (64 ∷ (host ++ (58 ∷ (d ++ (47 ∷ tail)))))))
          ≡ none
    by_version giop_1_0 = found _
    by_version giop_1_1 = found _
    by_version giop_1_2 = found _

uiop_port-slash : (d tail : List ℕ) → uiop_port (d ++ (47 ∷ tail)) ≡ none
unfolding uiop_port
uiop_port-slash [] tail = port_of-slash [] tail
uiop_port-slash (c ∷ d) tail = port_of-slash (c ∷ d) tail

uiop_followed :
    (path p tail : List ℕ)
    → starts_with (47 ∷ []) path ≡ false
    → Lacks 58 p
    → Lacks 58 tail
    → profile_uiop_parse
        ((117 ∷ 105 ∷ 111 ∷ 112 ∷ 58 ∷ []) ++ ((47 ∷ path) ++ (58 ∷ (p ++ (47 ∷ tail)))))
      ≡ none
unfolding profile_uiop_parse starts_with strchr unless_null
uiop_followed path p tail single h k =
    let port = p ++ (47 ∷ tail) in
    let after : List ℕ × List ℕ → Option (List ℕ × ℕ) = λ (socket_path, port).
      unless_null (uiop_port port)
        (λ n. if is_empty socket_path then none else some (socket_path, n)) in
    ap (λ s. unless_null (strrchr 58 s) after) (last_slash-path path port single)
    ∙ ap (λ m. unless_null m after)
        (strrchr-append 58 (47 ∷ path) port
          (All-append (λ x. (x == 58) ≡ false) p (47 ∷ tail) h (refl, k)))
    ∙ ap (λ m. unless_null m (λ n. some (47 ∷ path, n))) (uiop_port-slash p tail)

address_text-followed :
    (v : Version) (host : List ℕ) (port : ℕ) (tail : List ℕ)
    → address_text v host port ++ tail
      ≡ giop_version_str v ++ (64 ∷ (host ++ (58 ∷ (port_text port ++ tail))))
unfolding address_text
address_text-followed v host port tail =
    append_assoc (giop_version_str v) (64 ∷ (host ++ (58 ∷ port_text port))) tail
    ∙ ap (λ s. giop_version_str v ++ (64 ∷ s)) (append_assoc host (58 ∷ port_text port) tail)

pub profile_of-followed :
    (r : Reference) (tail key : List ℕ)
    → IsPrintable r
    → Lacks 58 tail
    → profile_of (loc_text r ++ (47 ∷ tail)) key ≡ none
unfolding profile_of profile_iiop profile_iiop_parse profile_uiop scheme starts_with strchr
    unless_null giop_version_str
profile_of-followed (plain v host port) tail key ((_, h, _), _) k =
    ap (λ s. unless_null (iiop_token false (skip_slashes s)) (λ i. iiop_profile key i))
      (address_text-followed v host port (47 ∷ tail))
    ∙ ap (λ m. unless_null m (λ i. iiop_profile key i))
        (address_followed false v host (port_text port) tail h)
profile_of-followed (secure v host port) tail key ((_, h, _), _, _, _) k =
    ap (λ s. unless_null (iiop_token true (skip_slashes s)) (λ i. iiop_profile key i))
      (address_text-followed v host port (47 ∷ tail))
    ∙ ap (λ m. unless_null m (λ i. iiop_profile key i))
        (address_followed true v host (port_text port) tail h)
profile_of-followed (local path port) tail key (_, single, _) k =
    let p = if port == 0 then [] else port_text port in
    ap (λ s. profile_uiop ((117 ∷ 105 ∷ 111 ∷ 112 ∷ 58 ∷ []) ++ s) key)
      (append_assoc (47 ∷ path) (58 ∷ p) (47 ∷ tail))
    ∙ ap
        (λ m. unless_null m (λ (socket_path, ipv6_port). some (
          matecorba_specific
            (record { unix_sock_path = socket_path; ipv6_port = ipv6_port; object_key = key }))))
        (uiop_followed path p tail single (colon_free port) k)

-- What is printed of a reference in a list.
profiles_text-cons :
    (r : Reference) (key : List ℕ) (b : Bool) (ps : List Profile)
    → IsPrintable r
    → profiles_text b (profile r key ∷ ps) key
      ≡ profile_text (some (loc_text r)) b key (profiles_text false ps key)
unfolding profiles_text iiop_text get_ssl_component uiop_text
profiles_text-cons (plain v host port) key b ps h = refl
profiles_text-cons (secure v host port) key b ps (_, _, pos, _) =
    let some_port : (port == 0) ≡ false = ground arith in
    ap
      (λ x.
        profile_text (if x then none else some (loc_text (secure v host port))) b key
          (profiles_text false ps key))
      some_port
profiles_text-cons (local path port) key b ps h = refl

-- The text in front of the last '/': the first reference with its key, and the second.
abbrev both : Reference → Reference → List ℕ → List ℕ
both r s enc = (loc_text r ++ (47 ∷ enc)) ++ (44 ∷ loc_text s)

corbaloc_from-both :
    (r s : Reference) (key : List ℕ)
    → IsPrintable r
    → IsPrintable s
    → corbaloc_from (profile r key ∷ profile s key ∷ []) key
      ≡ printed (corbaloc_prefix ++ (both r s (url_encode key) ++ (47 ∷ url_encode key)))
unfolding corbaloc_from as_corbaloc profiles_text
corbaloc_from-both r s key h k =
    let enc = url_encode key in
    first r
    ∙ ap (λ t. with_prefix t) (profiles_text-cons r key true (profile s key ∷ []) h)
    ∙ ap (λ t. with_prefix (profile_text (some (loc_text r)) true key t))
        (profiles_text-cons s key false [] k)
    ∙ empty_rest
    ∙ ap
        (λ x.
          printed
            (corbaloc_prefix ++ (loc_text r ++ (47 ∷ (enc ++ (44 ∷ (loc_text s ++ (47 ∷ x))))))))
        (append-nil enc)
    ∙ ap (λ x. printed (corbaloc_prefix ++ x))
        (sym (append_assoc (loc_text r) (47 ∷ enc) (44 ∷ (loc_text s ++ (47 ∷ enc))))
          ∙ sym (append_assoc (loc_text r ++ (47 ∷ enc)) (44 ∷ loc_text s) (47 ∷ enc)))
  where
    first :
        (q : Reference)
        → corbaloc_from (profile q key ∷ profile s key ∷ []) key
          ≡ with_prefix (profiles_text true (profile q key ∷ profile s key ∷ []) key)
    first (plain v host port) = refl
    first (secure v host port) = refl
    first (local path port) = refl

    empty_rest :
        with_prefix (
          profile_text
            (some (loc_text r))
            true
            key
            (profile_text (some (loc_text s)) false key (profiles_text false [] key)))
        ≡ printed (
            corbaloc_prefix
            ++ (loc_text r
                ++ (47 ∷ (url_encode key ++ (44 ∷ (loc_text s ++ (47 ∷ (url_encode key ++ []))))))))
    empty_rest = refl

tokens-both :
    (r s : Reference) (enc : List ℕ)
    → IsPrintable r
    → Lacks 44 enc
    → strsplit 44 (both r s enc) ≡ (loc_text r ++ (47 ∷ enc)) ∷ pieces 44 (loc_text s)
tokens-both r s enc h k =
    by_reference r
      (All-append (λ x. (x == 44) ≡ false) (loc_text r) (47 ∷ enc) (loc_text-Lacks r h) (refl, k))
  where
    by_reference :
        (q : Reference)
        → Lacks 44 (loc_text q ++ (47 ∷ enc))
        → strsplit 44 ((loc_text q ++ (47 ∷ enc)) ++ (44 ∷ loc_text s))
          ≡ (loc_text q ++ (47 ∷ enc)) ∷ pieces 44 (loc_text s)
    by_reference (plain v host port) l = strsplit-append 44 _ _ (loc_text s) l
    by_reference (secure v host port) l = strsplit-append 44 _ _ (loc_text s) l
    by_reference (local path port) l = strsplit-append 44 _ _ (loc_text s) l

located-both :
    (r s : Reference) (key : List ℕ)
    → IsPrintable r
    → is_empty key ≡ false
    → All (λ c. c < 256) key
    → located (both r s (url_encode key), url_encode key) ≡ none
unfolding located unless_null profiles_of
located-both r s key h full bytes =
    let enc = url_encode key in
    let no_comma = url_encode-Lacks 44 key (omega arith) (omega arith) (inl (omega arith)) bytes in
    let no_colon = url_encode-Lacks 58 key (omega arith) (omega arith) (inr (omega arith)) bytes in
    ap
      (λ b.
        if b
        then none
        else unless_null (url_decode enc)
            (λ objkey. profiles_of (strsplit 44 (both r s enc)) objkey))
      (encoded key full)
    ∙ ap (λ m. unless_null m (λ objkey. profiles_of (strsplit 44 (both r s enc)) objkey))
        (url_decode-url_encode key bytes)
    ∙ ap (λ ts. profiles_of ts key) (tokens-both r s enc h no_comma)
    ∙ ap
        (λ m.
          unless_null m
            (λ p. unless_null (profiles_of (pieces 44 (loc_text s)) key) (λ ps. some (p ∷ ps))))
        (profile_of-followed r enc key h no_colon)

-- For any two references that corbaloc_from prints and whose single texts are read back, with a
-- key that is not empty, corbaloc_from prints a text for both, and corbaloc_parse of that text
-- fails, with no profile.
pub corbaloc_parse-both :
    (r s : Reference) (key : List ℕ)
    → IsPrintable r
    → IsPrintable s
    → is_empty key ≡ false
    → All (λ c. c < 256) key
    → (text : List ℕ) × (corbaloc_from (profile r key ∷ profile s key ∷ []) key ≡ printed text)
      × (corbaloc_parse text ≡ [])
corbaloc_parse-both r s key h k full bytes =
    let slash_free =
      url_encode-Lacks 47 key (omega arith) (omega arith) (inl (omega arith)) bytes in
    (
      corbaloc_prefix ++ (both r s (url_encode key) ++ (47 ∷ url_encode key)),
      corbaloc_from-both r s key h k,
      split-loc_text (both r s (url_encode key)) (url_encode key) slash_free
          ∙ ap (λ ps. or_empty ps) (located-both r s key h full bytes),
    )
