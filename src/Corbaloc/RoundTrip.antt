-- ===== src/Corbaloc/RoundTrip.antt =====
-- The text of a reference is read back to its profile.
use mate_corba.Prelude.{
  ℕ, ◌<◌, ◌≡◌, refl, ap, ◌∙◌, arith, List, [], ◌∷◌, ◌++◌, Bool-cases, true, false, inl, inr, ◌==◌,
  if◌then◌else◌, none, some, All, All-append, append-nil,
}
use mate_corba.Giop.Types.{Version, giop_1_0, giop_1_1, giop_1_2}
use mate_corba.Corbaloc.Texts.{unless_null, starts_with, strrchr, contains, is_empty, strsplit}
use mate_corba.Corbaloc.Parse.{
  url_decode, profiles_of, located, corbaloc_prefix, without_prefix, stripped, or_empty,
  corbaloc_parse,
}
use mate_corba.Corbaloc.Print.{
  printed, as_corbaloc, get_ssl_component, giop_version_str, port_text, address_text, iiop_text,
  uiop_text, url_encode, profile_text, profiles_text, with_prefix, corbaloc_from,
}
use mate_corba.Corbaloc.Pieces.{
  Lacks, strrchr-append, contains-append, strsplit-Lacks, decimal-IsDigits, IsDigits-Lacks,
  url_decode-url_encode, url_encode-Lacks,
}
use mate_corba.Corbaloc.Tokens.{
  Reference, plain, secure, local, profile, IsHost, IsPrintable, loc_text, encoded,
  profile_of-loc_text,
}

-- No text of a reference has a comma.
pub port_text-Lacks : (port : ℕ) → Lacks 44 (port_text port)
port_text-Lacks port =
    IsDigits-Lacks 44 (port_text port) (inl (omega arith)) (decimal-IsDigits 5 port)

address_text-Lacks :
    (v : Version) (host : List ℕ) (port : ℕ) → IsHost host → Lacks 44 (address_text v host port)
unfolding address_text giop_version_str
address_text-Lacks v host port (_, _, h) =
    All-append (λ x. (x == 44) ≡ false) (giop_version_str v) _ (version v)
      (refl, All-append (λ x. (x == 44) ≡ false) host _ h (refl, port_text-Lacks port))
  where
    version : (v : Version) → Lacks 44 (giop_version_str v)
    version giop_1_0 = (refl, (refl, (refl, tt)))
    version giop_1_1 = (refl, (refl, (refl, tt)))
    version giop_1_2 = (refl, (refl, (refl, tt)))

pub loc_text-Lacks : (r : Reference) → IsPrintable r → Lacks 44 (loc_text r)
loc_text-Lacks (plain v host port) (h, _) =
    (refl, (refl, (refl, (refl, (refl, address_text-Lacks v host port h)))))
loc_text-Lacks (secure v host port) (h, _, _, _) =
    (refl, (refl, (refl, (refl, (refl, (refl, (refl, address_text-Lacks v host port h)))))))
loc_text-Lacks (local path port) (h, _, _) = (
  refl,
  (
    refl,
    (refl, (refl, (refl, (refl, All-append (λ x. (x == 44) ≡ false) path _ h (refl, no_comma))))),
  ),
)
  where
    no_comma : Lacks 44 (if port == 0 then [] else port_text port)
    no_comma = elim (Bool-cases (port == 0)) [
      | inl e ↦ rw e tt
      | inr e ↦ rw e (port_text-Lacks port)
    ]

tokens-loc_text : (r : Reference) → IsPrintable r → strsplit 44 (loc_text r) ≡ loc_text r ∷ []
tokens-loc_text (plain v host port) h = strsplit-Lacks 44 _ _ (loc_text-Lacks (plain v host port) h)
tokens-loc_text (secure v host port) h =
    strsplit-Lacks 44 _ _ (loc_text-Lacks (secure v host port) h)
tokens-loc_text (local path port) h = strsplit-Lacks 44 _ _ (loc_text-Lacks (local path port) h)

-- What is printed of a reference.
corbaloc_from-loc_text :
    (r : Reference) (key : List ℕ)
    → IsPrintable r
    → corbaloc_from (profile r key ∷ []) key
      ≡ printed (corbaloc_prefix ++ (loc_text r ++ (47 ∷ url_encode key)))
unfolding corbaloc_from as_corbaloc profiles_text iiop_text get_ssl_component uiop_text
corbaloc_from-loc_text (plain v host port) key h =
    ap (λ s. printed (corbaloc_prefix ++ (loc_text (plain v host port) ++ (47 ∷ s))))
      (append-nil (url_encode key))
corbaloc_from-loc_text (secure v host port) key (_, _, pos, _) =
    let some_port : (port == 0) ≡ false = ground arith in
    ap
      (λ b. with_prefix (
        profile_text (if b then none else some (loc_text (secure v host port))) true key
          (printed [])))
      some_port
    ∙ ap (λ s. printed (corbaloc_prefix ++ (loc_text (secure v host port) ++ (47 ∷ s))))
        (append-nil (url_encode key))
corbaloc_from-loc_text (local path port) key h =
    ap (λ s. printed (corbaloc_prefix ++ (loc_text (local path port) ++ (47 ∷ s))))
      (append-nil (url_encode key))

located-loc_text :
    (r : Reference) (key : List ℕ)
    → IsPrintable r
    → is_empty key ≡ false
    → All (λ c. c < 256) key
    → located (loc_text r, url_encode key) ≡ some (profile r key ∷ [])
unfolding located unless_null profiles_of
located-loc_text r key h full bytes =
    ap
      (λ b.
        if b
        then none
        else unless_null (url_decode (url_encode key))
            (λ objkey. profiles_of (strsplit 44 (loc_text r)) objkey))
      (encoded key full)
    ∙ ap (λ m. unless_null m (λ objkey. profiles_of (strsplit 44 (loc_text r)) objkey))
        (url_decode-url_encode key bytes)
    ∙ ap (λ ts. profiles_of ts key) (tokens-loc_text r h)
    ∙ ap (λ m. unless_null m (λ p. some (p ∷ []))) (profile_of-loc_text r key h)

pub split-loc_text :
    (loc enc : List ℕ)
    → Lacks 47 enc
    → corbaloc_parse (corbaloc_prefix ++ (loc ++ (47 ∷ enc))) ≡ or_empty (located (loc, enc))
unfolding corbaloc_parse stripped starts_with without_prefix unless_null contains
split-loc_text loc enc h =
    ap
      (λ b.
        if b
        then or_empty (unless_null (strrchr 47 (loc ++ (47 ∷ enc))) (λ split. located split))
        else [])
      (contains-append 47 loc enc)
    ∙ ap (λ m. or_empty (unless_null m (λ split. located split))) (strrchr-append 47 loc enc h)

-- For a reference to a host and a port, with SSL or without, or to a local socket, and a key of
-- octets that is not empty, corbaloc_from prints a text, and corbaloc_parse of that text gives
-- back the one profile with its version, host or path, port, SSL component and key. The host is
-- not empty and has no colon and no comma; the path starts with exactly one '/' and has no
-- comma; the port fits an unsigned short; with SSL it is not zero and the version is 1.1 or
-- later.
pub corbaloc_parse-corbaloc_from :
    (r : Reference) (key : List ℕ)
    → IsPrintable r
    → is_empty key ≡ false
    → All (λ c. c < 256) key
    → (text : List ℕ) × (corbaloc_from (profile r key ∷ []) key ≡ printed text)
      × (corbaloc_parse text ≡ profile r key ∷ [])
corbaloc_parse-corbaloc_from r key h full bytes = (
  corbaloc_prefix ++ (loc_text r ++ (47 ∷ url_encode key)),
  corbaloc_from-loc_text r key h,
  split-loc_text (loc_text r) (url_encode key)
        (url_encode-Lacks 47 key (omega arith) (omega arith) (inl (omega arith)) bytes)
      ∙ ap (λ ps. or_empty ps) (located-loc_text r key h full bytes),
)
