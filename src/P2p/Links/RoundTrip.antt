-- ===== src/P2p/Links/RoundTrip.antt =====
-- A link that one side builds is read by the other.
use mathlib.Core.List.{append-nil}
use filenymous.Prelude.{
  ℕ, ◌^◌, All-all, all-All, ◌≤◌, ◌<◌, ◌≡◌, refl, ap, ◌∙◌, inl, inr, Bool, true, false, ◌&&◌, ◌||◌,
  not, Bool-cases, Option, none, some, [], ◌∷◌, ◌++◌, reverse, le→leb, ◌==◌, arith, Text, codes,
  length, All, All-append, All-reverse, All-imply, is_space, trim, trim_start,
}
use mathlib.Core.List.{reverse-reverse}
use filenymous.Prelude.Options.{Each}
use filenymous.Wall.Collab.{after_prefix, is_digit, is_word_unit}
use filenymous.P2p.Links.{
  is_capital, in_code, normalize_share_code, Share, before_hash, base36_digits, expiry_part,
  secret_part, build_share_link, to_base36, after_hash, fragment_of, split_slash, next_part,
  in_base36, is_secret, expiry_of, with_secret, without_scheme, share_of, decoded,
  parse_share_input,
}
use filenymous.P2p.Links.Numerals.{pow36, from_base36-to_base36, to_base36-All, length-to_base36}

-- Not white space, nor a percent sign, nor what parts a link.
unfoldable pub is_plain : ℕ → Bool
is_plain c = not (is_space c) && not (c == b'%') && not (c == b'#')

unfoldable pub is_part : ℕ → Bool
is_part c = is_plain c && not (c == b'/')

abbrev pub IsPart : Text → Type 0
IsPart s = All (λ c. is_part c ≡ true) s

trim_start_none : (s : Text) → All (λ c. is_space c ≡ false) s → trim_start s ≡ s
unfolding trim_start
trim_start_none [] h = refl
trim_start_none (c ∷ s) (p, h) = rw p refl

trim_none : (s : Text) → All (λ c. is_space c ≡ false) s → trim s ≡ s
unfolding trim
trim_none s h =
    ap (λ t. reverse (trim_start (reverse t))) (trim_start_none s h)
    ∙ ap reverse (trim_start_none (reverse s) (All-reverse (λ c. is_space c ≡ false) s h))
    ∙ reverse-reverse s

split_slash-append : (s rest : Text) → IsPart s → split_slash (s ++ (b'/' ∷ rest)) ≡ (s, some rest)
unfolding split_slash is_part
split_slash-append [] rest h = refl
split_slash-append (c ∷ s) rest (p, h) = rw (split_slash-append s rest h) (ground arith)

split_slash_part : (s : Text) → IsPart s → split_slash s ≡ (s, none)
unfolding split_slash is_part
split_slash_part [] h = refl
split_slash_part (c ∷ s) (p, h) = rw (split_slash_part s h) (ground arith)

pub word_unit-IsPart : (c : ℕ) → is_word_unit c ≡ true → is_part c ≡ true
unfolding is_word_unit is_digit is_part is_plain is_space
word_unit-IsPart c h = ground arith

pub in_base36-IsPart : (c : ℕ) → in_base36 c ≡ true → is_part c ≡ true
unfolding in_base36 is_digit is_part is_plain is_space
in_base36-IsPart c h = ground arith

in_code-IsPart : (c : ℕ) → (in_code c || c == b'-') ≡ true → is_part c ≡ true
unfolding in_code is_capital is_digit is_part is_plain is_space
in_code-IsPart c h = ground arith

-- What a link can carry: a code of digits, capitals and dashes that is normal as it stands, a secret
-- of its form, and with a secret an expiry of at most ten digits of base 36.
pub record IsShareable (upper : Text → Text) (p : Share) : Type 0 where
  pub spelled : All (λ c. (in_code c || c == b'-') ≡ true) p.code
  pub normal : normalize_share_code upper p.code ≡ some p.code
  pub secret : Each (λ s. is_secret s ≡ true) p.secret
  pub expires : Each (λ n. (1 ≤ n) × (n < 36 ^ 10)) p.expires
  pub kept : p.secret ≡ none → p.expires ≡ none

secret-IsPart : (s : Text) → is_secret s ≡ true → IsPart s
unfolding is_secret
secret-IsPart s h =
    All-imply (λ c. is_word_unit c ≡ true) (λ c. is_part c ≡ true) s word_unit-IsPart
      (All-all is_word_unit s (ground arith))

expiry_of_back :
    (n : ℕ) → 1 ≤ n → n < 36 ^ 10 → expiry_of (b'e' ∷ to_base36 base36_digits n) ≡ some n
unfolding expiry_of
expiry_of_back n l h =
    let sized = length-to_base36 base36_digits 9 n (unfold pow36 in h) (omega arith) in
    rw
      (
        all-All in_base36 (to_base36 base36_digits n) (to_base36-All base36_digits n),
        from_base36-to_base36 base36_digits n (unfold pow36 in omega (arith, h)),
        le→leb 1 (length (to_base36 base36_digits n)) sized.0,
        le→leb (length (to_base36 base36_digits n)) 10 sized.1,
      )
      (ground arith)

expiry-IsPart : (n : ℕ) → IsPart (b'e' ∷ to_base36 base36_digits n)
unfolding is_part is_plain is_space
expiry-IsPart n = (
  refl,
  All-imply (λ c. in_base36 c ≡ true) (λ c. is_part c ≡ true) (to_base36 base36_digits n)
      in_base36-IsPart (to_base36-All base36_digits n),
)

module _ (upper : Text → Text) (decode_uri : Text → Option Text) where
  share_of_parts :
      (code : Text) (secret : Option Text) (expires : Option ℕ)
      → IsPart code
      → normalize_share_code upper code ≡ some code
      → Each (λ s. is_secret s ≡ true) secret
      → Each (λ n. (1 ≤ n) × (n < 36 ^ 10)) expires
      → (secret ≡ none → expires ≡ none)
      → share_of upper decode_uri (code ++ secret_part secret expires)
        ≡ some (record { code = code; secret = secret; expires = expires })
  unfolding share_of secret_part expiry_part next_part with_secret
  share_of_parts code none none plain normal s e k =
      rw (append-nil code, split_slash_part code plain, normal) (unfold is_secret in refl)
  share_of_parts code none (some n) plain normal s e k = ground (arith, k refl)
  share_of_parts code (some []) expires plain normal s e k = unfold is_secret in ground arith
  share_of_parts code (some (c ∷ s)) none plain normal h e k =
      rw
        (
          append-nil s,
          split_slash-append code (c ∷ s) plain,
          split_slash_part (c ∷ s) (secret-IsPart (c ∷ s) h),
          normal,
          h,
        )
        (unfold expiry_of in refl)
  share_of_parts code (some (c ∷ s)) (some n) plain normal h e k =
      rw
        (
          positive n e.0,
          split_slash-append code (c ∷ s ++ (b'/' ∷ b'e' ∷ to_base36 base36_digits n)) plain,
          split_slash-append (c ∷ s) (b'e' ∷ to_base36 base36_digits n) (secret-IsPart (c ∷ s) h),
          split_slash_part (b'e' ∷ to_base36 base36_digits n) (expiry-IsPart n),
          normal,
          h,
          expiry_of_back n e.0 e.1,
        )
        refl
    where
      positive : (n : ℕ) → 1 ≤ n → (n == 0) ≡ false
      positive n l = ground arith

after_hash-build : (base body : Text) → after_hash (before_hash base ++ (b'#' ∷ body)) ≡ some body
unfolding after_hash before_hash
after_hash-build [] body = refl
after_hash-build (c ∷ base) body = elim (Bool-cases (c == b'#')) [
  | inl e ↦ rw e refl
  | inr e ↦ rw (e, e) (after_hash-build base body)
]

abbrev pub IsSolid : Text → Type 0
IsSolid s = All (λ c. is_space c ≡ false) s

before_hash-IsSolid : (base : Text) → IsSolid base → IsSolid (before_hash base)
unfolding before_hash
before_hash-IsSolid [] h = tt
before_hash-IsSolid (c ∷ base) h = elim (Bool-cases (c == b'#')) [
  | inl e ↦ rw e tt
  | inr e ↦ rw e (h.0, before_hash-IsSolid base h.1)
]

abbrev pub IsPlain : Text → Type 0
IsPlain s = All (λ c. is_plain c ≡ true) s

pub part-IsPlain : (s : Text) → IsPart s → IsPlain s
part-IsPlain s h =
    All-imply (λ c. is_part c ≡ true) (λ c. is_plain c ≡ true) s
      (λ c e. unfold is_part in ground arith) h

-- A part behind its slash.
pub slash-IsPlain : (s : Text) → IsPlain s → IsPlain (b'/' ∷ s)
unfolding is_plain is_space
slash-IsPlain s h = (refl, h)

expiry_part-IsPlain : (expires : Option ℕ) → IsPlain (expiry_part expires)
unfolding expiry_part
expiry_part-IsPlain none = tt
expiry_part-IsPlain (some n) = elim (Bool-cases (n == 0)) [
  | inl e ↦ rw e tt
  | inr e ↦ rw e (
      slash-IsPlain (b'e' ∷ to_base36 base36_digits n)
        (part-IsPlain (b'e' ∷ to_base36 base36_digits n) (expiry-IsPart n)))
]

secret_part-IsPlain :
    (secret : Option Text) (expires : Option ℕ)
    → Each (λ s. is_secret s ≡ true) secret
    → IsPlain (secret_part secret expires)
unfolding secret_part
secret_part-IsPlain none expires h = tt
secret_part-IsPlain (some []) expires h = tt
secret_part-IsPlain (some (c ∷ s)) expires h = slash-IsPlain (c ∷ s ++ expiry_part expires) (
    All-append (λ u. is_plain u ≡ true) (c ∷ s) (expiry_part expires)
      (part-IsPlain (c ∷ s) (secret-IsPart (c ∷ s) h)) (expiry_part-IsPlain expires))

-- What the platform documents of `decodeURIComponent`: it keeps a text without a percent sign.
abbrev pub KeepsUnescaped : (Text → Option Text) → Type 0
KeepsUnescaped decode_uri = (s : Text) → All (λ c. (c == b'%') ≡ false) s → decode_uri s ≡ some s

code-IsPart : (s : Text) → All (λ c. (in_code c || c == b'-') ≡ true) s → IsPart s
code-IsPart s h =
    All-imply (λ c. (in_code c || c == b'-') ≡ true) (λ c. is_part c ≡ true) s in_code-IsPart h

scheme-IsPlain : IsPlain (codes "p2p:")
unfolding is_plain is_space
scheme-IsPlain = (refl, (refl, (refl, (refl, tt))))

fragment_of-build : (base body : Text) → fragment_of (before_hash base ++ (b'#' ∷ body)) ≡ body
unfolding fragment_of
fragment_of-build base body =
    ap (λ o. elim o as (λ _. Text) [ none ↦ before_hash base ++ (b'#' ∷ body) | some s ↦ s ])
      (after_hash-build base body)

without_scheme-append : (s : Text) → without_scheme (codes "p2p:" ++ s) ≡ s
unfolding without_scheme after_prefix
without_scheme-append s = refl

decoded_kept :
    (decode_uri : Text → Option Text) (s : Text)
    → KeepsUnescaped decode_uri
    → IsPlain s
    → decoded decode_uri s ≡ s
unfolding decoded
decoded_kept decode_uri s law h =
    let kept : decode_uri s ≡ some s = law s (
      All-imply (λ c. is_plain c ≡ true) (λ c. (c == b'%') ≡ false) s
        (λ c e. unfold is_plain in ground arith) h) in
    ap (λ o. elim o as (λ _. Text) [ none ↦ s | some t ↦ t ]) kept

plain-IsSolid : (s : Text) → IsPlain s → IsSolid s
plain-IsSolid s h =
    All-imply (λ c. is_plain c ≡ true) (λ c. is_space c ≡ false) s
      (λ c e. unfold is_plain in ground arith) h

-- What stands behind the "#" of a link is read as it was written.
pub fragment_back :
    (decode_uri : Text → Option Text) (base_url body : Text)
    → KeepsUnescaped decode_uri
    → IsSolid base_url
    → IsPlain body
    → decoded decode_uri (fragment_of (trim (before_hash base_url ++ (b'#' ∷ body)))) ≡ body
fragment_back decode_uri base_url body law solid plain =
    let link = before_hash base_url ++ (b'#' ∷ body) in
    let whole : IsSolid link =
      All-append (λ c. is_space c ≡ false) (before_hash base_url) (b'#' ∷ body)
        (before_hash-IsSolid base_url solid) (unfold is_space in refl, plain-IsSolid body plain) in
    ap (λ s. decoded decode_uri (fragment_of s)) (trim_none link whole)
    ∙ ap (decoded decode_uri) (fragment_of-build base_url body)
    ∙ decoded_kept decode_uri body law plain

module _ (upper : Text → Text) (decode_uri : Text → Option Text) (p : Share) where
  body : Text
  body = codes "p2p:" ++ (p.code ++ secret_part p.secret p.expires)

  body-IsPlain : IsShareable upper p → IsPlain body
  unfolding body
  body-IsPlain h =
      All-append (λ u. is_plain u ≡ true) (codes "p2p:") (p.code ++ secret_part p.secret p.expires)
        scheme-IsPlain
        (All-append (λ u. is_plain u ≡ true) p.code (secret_part p.secret p.expires)
          (part-IsPlain p.code (code-IsPart p.code h.spelled))
          (secret_part-IsPlain p.secret p.expires h.secret))

  -- The link that is built for a share, on an address without white space, is read back as the same
  -- share: its code, its secret and its expiry. The code is in its normal form, the secret has its
  -- form, an expiry comes with a secret, is not 0 and has at most ten digits of base 36, and
  -- `decodeURIComponent` keeps a text without a percent sign.
  pub parse_share_input-build_share_link :
      (base_url : Text)
      → All (λ c. is_space c ≡ false) base_url
      → KeepsUnescaped decode_uri
      → IsShareable upper p
      → parse_share_input upper decode_uri (build_share_link base_url p) ≡ some p
  unfolding parse_share_input build_share_link body
  parse_share_input-build_share_link base_url solid law h =
      let parts = p.code ++ secret_part p.secret p.expires in
      ap (λ s. share_of upper decode_uri (without_scheme s))
        (fragment_back decode_uri base_url body law solid (body-IsPlain h))
      ∙ ap (share_of upper decode_uri) (without_scheme-append parts)
      ∙ share_of_parts upper decode_uri p.code p.secret p.expires (code-IsPart p.code h.spelled)
          h.normal h.secret h.expires h.kept
