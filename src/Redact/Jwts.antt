-- ===== src/Redact/Jwts.antt =====
-- crates/rb-secrets/src/redact.rs: the JWTs are gone.
use rustacean.Common.{
  append_assoc, ℕ, suc, ◌+◌, ◌≡◌, refl, sym, ap, ◌∙◌, subst, inl, inr, Bool, true, false, ◌&&◌,
  some, List, [], ◌∷◌, ◌++◌, all, length, arith, Bool-cases, true_not_false, &&-true, ||-false,
  ◌==◌, ==_iff,
}
use rustacean.Common.Bytes.{codes, has_byte, starts_with, has_substring}
use rustacean.Redact.{
  redacted_jwt, redacted_bearer, redacted_secret, is_b64url_byte, split_dot, count_while,
  signed_span, payload_span, header_span, jwt_span,
}
use rustacean.Redact.Cuts.{Apart}

-- Three parts of base64url bytes between dots, the first of which begins with `eyJ`.
pub record IsJwt (t : List ℕ) : Type 0 where
  pub header : List ℕ
  pub payload : ℕ
  pub more : List ℕ
  pub sig : ℕ
  pub rest : List ℕ
  pub splits : t ≡ codes "eyJ" ++ (header ++ (b'.' ∷ payload ∷ (more ++ (b'.' ∷ sig ∷ rest))))
  pub header_b64 : all is_b64url_byte header ≡ true
  pub payload_b64 : is_b64url_byte payload ≡ true
  pub more_b64 : all is_b64url_byte more ≡ true
  pub sig_b64 : is_b64url_byte sig ≡ true
  pub rest_b64 : all is_b64url_byte rest ≡ true

b64_not : (b : ℕ) → is_b64url_byte b ≡ true → ((b == b'.') ≡ false) × ((b == b'<') ≡ false)
b64_not b h = (ground (arith, h), ground (arith, h))

split_dot-append :
    (xs ys : List ℕ) → all is_b64url_byte xs ≡ true → split_dot (xs ++ (b'.' ∷ ys)) ≡ some (xs, ys)
split_dot-append [] ys h = refl
split_dot-append (x ∷ xs) ys h =
    let (b, r) = &&-true (is_b64url_byte x) (all is_b64url_byte xs) h in
    rw ((b64_not x b).0, split_dot-append xs ys r) refl

signed_span-some :
    (header payload : List ℕ) (c : ℕ) (cs : List ℕ)
    → is_b64url_byte c ≡ true
    → (n : ℕ) × (signed_span header payload (c ∷ cs) ≡ some n)
signed_span-some header payload c cs h = (
  length header + 1 + length payload + 1 + suc (count_while is_b64url_byte cs),
  rw (h, positive (count_while is_b64url_byte cs)) refl,
)
  where
    positive : (n : ℕ) → (suc n == 0) ≡ false
    positive n = ground arith

-- Where a JWT begins, the line has a span.
jwt_span-some :
    (header : List ℕ) (payload : ℕ) (more : List ℕ) (sig : ℕ) (rest : List ℕ)
    → all is_b64url_byte header ≡ true
    → is_b64url_byte payload ≡ true
    → all is_b64url_byte more ≡ true
    → is_b64url_byte sig ≡ true
    → (n : ℕ) × (jwt_span
          (codes "eyJ" ++ (header ++ (b'.' ∷ payload ∷ (more ++ (b'.' ∷ sig ∷ rest)))))
        ≡ some n)
unfolding jwt_span
jwt_span-some header payload more sig rest h p m s =
    let first : List ℕ = codes "eyJ" ++ header in
    let (n, e) = signed_span-some first (payload ∷ more) sig rest s in
    let behind : List ℕ = payload ∷ (more ++ (b'.' ∷ sig ∷ rest)) in
    let q = split_dot-append first behind h in
    let all_b64 : all is_b64url_byte (payload ∷ more) ≡ true = both p m in
    let r = split_dot-append (payload ∷ more) (sig ∷ rest) all_b64 in
    (
      n,
      ap header_span q
          ∙ header_b64url header behind h
          ∙ ap (payload_span first) r
          ∙ payload_b64url first payload more (sig ∷ rest) all_b64
          ∙ e,
    )
  where
    both : {x y : Bool} → x ≡ true → y ≡ true → (x && y) ≡ true
    both a b = ground (arith, a, b)

    header_b64url :
        (header after : List ℕ)
        → all is_b64url_byte (codes "eyJ" ++ header) ≡ true
        → header_span (some (codes "eyJ" ++ header, after))
          ≡ payload_span (codes "eyJ" ++ header) (split_dot after)
    header_b64url header after e = rw e refl

    payload_b64url :
        (header : List ℕ) (x : ℕ) (xs sig : List ℕ)
        → all is_b64url_byte (x ∷ xs) ≡ true
        → payload_span header (some (x ∷ xs, sig)) ≡ signed_span header (x ∷ xs) sig
    payload_b64url header x xs sig e = rw e refl

starts_with-append : (t s : List ℕ) → starts_with t s ≡ true → (rest : List ℕ) × (s ≡ t ++ rest)
starts_with-append [] s h = (s, refl)
starts_with-append (x ∷ t) [] h = cc
starts_with-append (x ∷ t) (b ∷ s) h =
    let (q, k) = &&-true (x == b) (starts_with t s) h in
    let (rest, e) = starts_with-append t s k in
    (rest, ap (λ b. b ∷ s) (sym ((==_iff x b).0 q)) ∙ ap (λ s. x ∷ s) e)

has_byte-append :
    (c : ℕ) (xs ys : List ℕ)
    → has_byte c xs ≡ false
    → has_byte c ys ≡ false
    → has_byte c (xs ++ ys) ≡ false
has_byte-append c [] ys h k = k
has_byte-append c (x ∷ xs) ys h k =
    let (p, q) = ||-false (x == c) (has_byte c xs) h in
    let r = has_byte-append c xs ys q k in ground (arith, p, r)

b64-has_byte : (xs : List ℕ) → all is_b64url_byte xs ≡ true → has_byte b'<' xs ≡ false
b64-has_byte [] h = refl
b64-has_byte (x ∷ xs) h =
    let (p, q) = &&-true (is_b64url_byte x) (all is_b64url_byte xs) h in
    rw ((b64_not x p).1, b64-has_byte xs q) refl

module _ (t : List ℕ) (jwt : IsJwt t) where
  -- The bytes behind `eyJ`.
  tail : List ℕ
  tail = jwt.header ++ (b'.' ∷ jwt.payload ∷ (jwt.more ++ (b'.' ∷ jwt.sig ∷ jwt.rest)))

  tail-has_byte : has_byte b'<' tail ≡ false
  unfolding tail
  tail-has_byte = has_byte-append b'<' jwt.header _ (b64-has_byte jwt.header jwt.header_b64) (
      rw ((b64_not jwt.payload jwt.payload_b64).1) (
        has_byte-append b'<' jwt.more _ (b64-has_byte jwt.more jwt.more_b64)
          (rw ((b64_not jwt.sig jwt.sig_b64).1) (b64-has_byte jwt.rest jwt.rest_b64))))

  -- No placeholder has anything of a JWT.
  Apart-of : (p : List ℕ) → Apart p (codes "eyJ" ++ tail) → Apart p t
  unfolding tail
  Apart-of p a = subst (Apart p) (sym jwt.splits) a

  pub redacted_jwt-Apart : Apart redacted_jwt t
  redacted_jwt-Apart = Apart-of redacted_jwt (record {
    first = b'<';
    rest = codes "redacted:jwt>";
    splits = refl;
    absent = tail-has_byte;
    passes = λ u. refl;
  })

  pub redacted_bearer-Apart : Apart redacted_bearer t
  redacted_bearer-Apart = Apart-of redacted_bearer (record {
    first = b'<';
    rest = codes "redacted:bearer>";
    splits = refl;
    absent = tail-has_byte;
    passes = λ u. refl;
  })

  pub redacted_secret-Apart : Apart redacted_secret t
  redacted_secret-Apart = Apart-of redacted_secret (record {
    first = b'<';
    rest = codes "redacted:secret>";
    splits = refl;
    absent = tail-has_byte;
    passes = λ u. refl;
  })

  -- Where the JWT begins, the line has a span.
  pub jwt_span-starts_with : (s : List ℕ) → starts_with t s ≡ true → (n : ℕ) × (jwt_span s ≡ some n)
  jwt_span-starts_with s h =
      let (rest, e) = starts_with-append t s h in
      let (n, q) =
        jwt_span-some jwt.header jwt.payload jwt.more jwt.sig (jwt.rest ++ rest) jwt.header_b64
          jwt.payload_b64 jwt.more_b64 jwt.sig_b64 in
      (n, ap jwt_span (e ∙ ap (λ t. t ++ rest) jwt.splits ∙ shape rest) ∙ q)
    where
      shape :
          (rest : List ℕ)
          → (codes "eyJ"
                ++ (jwt.header ++ (b'.' ∷ jwt.payload ∷ (jwt.more ++ (b'.' ∷ jwt.sig ∷ jwt.rest)))))
              ++ rest
            ≡ codes "eyJ"
              ++ (jwt.header
                  ++ (b'.' ∷ jwt.payload ∷ (jwt.more ++ (b'.' ∷ jwt.sig ∷ (jwt.rest ++ rest)))))
      shape rest =
          ap (λ xs. codes "eyJ" ++ xs)
            (append_assoc jwt.header _ rest
              ∙ ap (λ xs. jwt.header ++ (b'.' ∷ jwt.payload ∷ xs)) (append_assoc jwt.more _ rest))

  pub eyj-starts_with : (s : List ℕ) → starts_with t s ≡ true → starts_with (codes "eyJ") s ≡ true
  eyj-starts_with s h = go s (subst (λ t. starts_with t s ≡ true) jwt.splits h)
    where
      go :
          (s : List ℕ)
          → starts_with
              (codes "eyJ"
                ++ (jwt.header ++ (b'.' ∷ jwt.payload ∷ (jwt.more ++ (b'.' ∷ jwt.sig ∷ jwt.rest)))))
              s
            ≡ true
          → starts_with (codes "eyJ") s ≡ true
      go [] h = cc
      go (a ∷ []) h = ground (arith, h)
      go (a ∷ b ∷ []) h = ground (arith, h)
      go (a ∷ b ∷ c ∷ s) h = ground (arith, h)

  pub eyj-has_substring :
      (s : List ℕ) → has_substring (codes "eyJ") s ≡ false → has_substring t s ≡ false
  eyj-has_substring [] h = elim (Bool-cases (starts_with t [])) [
    | inl e ↦ absurd (true_not_false (eyj-starts_with [] e) h)
    | inr e ↦ e
  ]
  eyj-has_substring (b ∷ s) h =
      let (p, q) = ||-false (starts_with (codes "eyJ") (b ∷ s)) (has_substring (codes "eyJ") s) h in
      elim (Bool-cases (starts_with t (b ∷ s))) [
        | inl e ↦ absurd (true_not_false (eyj-starts_with (b ∷ s) e) p)
        | inr e ↦ rw e (eyj-has_substring s q)
      ]

  -- Behind an `eyJ` that is copied a JWT could only begin at its first byte.
  pub copied_eyj :
      (u : List ℕ)
      → starts_with t (codes "eyJ" ++ u) ≡ false
      → has_substring t u ≡ false
      → has_substring t (codes "eyJ" ++ u) ≡ false
  copied_eyj u h k =
      subst (λ t. has_substring t (codes "eyJ" ++ u) ≡ false) (sym jwt.splits)
        (rw (subst (λ t. starts_with t (codes "eyJ" ++ u) ≡ false) jwt.splits h)
          (subst (λ t. has_substring t u ≡ false) jwt.splits k))
