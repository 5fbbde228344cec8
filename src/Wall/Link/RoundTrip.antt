-- ===== src/Wall/Link/RoundTrip.antt =====
-- The link that the host gives to its peers is read by them.
use filenymous.Prelude.{
  ℕ, ◌*◌, ◌/◌, ◌%◌, ◌^◌, ◌≤◌, ◌<◌, ◌≡◌, refl, sym, ap, ◌∙◌, Bool, Bool-cases, inl, inr, ==_iff,
  true, false, ◌&&◌, Option, none, some, [], ◌∷◌, ◌++◌, le→leb, ◌==◌, arith, Text, codes, text_eq,
  length, all, All-append, All-imply, All-all, all-All, is_space,
}
use filenymous.Prelude.Json.{max_safe_integer}
use filenymous.Prelude.Options.{◌>>=◌}
use filenymous.Wall.Collab.{after_prefix, is_digit, is_hex, is_word_unit}
use filenymous.P2p.Links.{to_base36, base36_digits, from_base36, in_base36}
use filenymous.P2p.Links.Numerals.{pow36, from_base36-to_base36, to_base36-All, length-to_base36}
use filenymous.P2p.Links.RoundTrip.{
  is_plain, is_part, IsSolid, IsPlain, IsPart, KeepsUnescaped, part-IsPlain, in_base36-IsPart,
  word_unit-IsPart, slash-IsPlain, fragment_back,
}
use filenymous.Wall.Link.{
  WallParams, flags, flags_of, tail, build_wall_link, is_key, is_wall_id, is_expiry, is_flags,
  starts_protected, has_unit, split_all, parse_tail, wall_of, parse_wall_link,
}

split_all-append :
    (s rest : Text)
    → IsPart s
    → split_all (s ++ (b'/' ∷ rest)) ≡ (s, (split_all rest).0 ∷ (split_all rest).1)
unfolding split_all is_part is_plain
split_all-append [] rest h = refl
split_all-append (c ∷ s) rest (p, h) = rw (split_all-append s rest h) (ground arith)

split_all_part : (s : Text) → IsPart s → split_all s ≡ (s, [])
unfolding split_all is_part is_plain
split_all_part [] h = refl
split_all_part (c ∷ s) (p, h) = rw (split_all_part s h) (ground arith)

-- What a link can carry: an id and a key of their form, and an expiry of whole seconds.
pub record IsLinkable (p : WallParams) : Type 0 where
  pub wall_id : is_wall_id p.wall_id ≡ true
  pub key : is_key p.key ≡ true
  pub whole : p.expires_at % 1000 ≡ 0
  pub safe : p.expires_at ≤ max_safe_integer

key-IsPart : (s : Text) → is_key s ≡ true → IsPart s
unfolding is_key
key-IsPart s h =
    All-imply (λ c. is_word_unit c ≡ true) (λ c. is_part c ≡ true) s word_unit-IsPart
      (All-all is_word_unit s (ground arith))

hex-IsPart : (c : ℕ) → is_hex c ≡ true → is_part c ≡ true
unfolding is_hex is_digit is_part is_plain is_space
hex-IsPart c h = ground arith

prefixed-IsPart :
    (p s : Text)
    → IsPart p
    → (elim (after_prefix p s) [
      | none ↦ false
      | some digits ↦ length digits == 24 && all is_hex digits
    ])
      ≡ true
    → IsPart s
unfolding after_prefix
prefixed-IsPart [] s q h =
    All-imply (λ c. is_hex c ≡ true) (λ c. is_part c ≡ true) s hex-IsPart
      (All-all is_hex s (ground arith))
prefixed-IsPart (c ∷ p) [] q h = tt
prefixed-IsPart (c ∷ p) (d ∷ s) (q, qs) h = elim (Bool-cases (c == d)) [
  | inl e ↦ (ap is_part (sym ((==_iff c d).0 e)) ∙ q, prefixed-IsPart p s qs (rw e at h))
  | inr e ↦ ground (arith, rw e at h)
]

wall_id-IsPart : (s : Text) → is_wall_id s ≡ true → IsPart s
unfolding is_wall_id is_part is_plain is_space
wall_id-IsPart s h = prefixed-IsPart (codes "wall-") s (refl, (refl, (refl, (refl, (refl, tt))))) h

flags-IsPart : (password burn host_leave : Bool) → IsPart (flags password burn host_leave)
unfolding flags is_part is_plain is_space
flags-IsPart true true true = (refl, (refl, (refl, tt)))
flags-IsPart true true false = (refl, (refl, tt))
flags-IsPart true false true = (refl, (refl, tt))
flags-IsPart true false false = (refl, tt)
flags-IsPart false true true = (refl, (refl, (refl, tt)))
flags-IsPart false true false = (refl, (refl, tt))
flags-IsPart false false true = (refl, (refl, tt))
flags-IsPart false false false = (refl, tt)

flags_back :
    (password burn host_leave : Bool)
    → (is_flags (flags password burn host_leave) ≡ true)
      × (starts_protected (flags password burn host_leave) ≡ password)
      × (has_unit b'1' (flags password burn host_leave) ≡ burn)
      × (has_unit b'h' (flags password burn host_leave) ≡ host_leave)
unfolding flags is_flags starts_protected has_unit text_eq
flags_back true true true = (refl, refl, refl, refl)
flags_back true true false = (refl, refl, refl, refl)
flags_back true false true = (refl, refl, refl, refl)
flags_back true false false = (refl, refl, refl, refl)
flags_back false true true = (refl, refl, refl, refl)
flags_back false true false = (refl, refl, refl, refl)
flags_back false false true = (refl, refl, refl, refl)
flags_back false false false = (refl, refl, refl, refl)

expiry_back :
    (n : ℕ)
    → n < 36 ^ 10
    → (is_expiry (to_base36 base36_digits n) ≡ true)
      × (from_base36 0 (to_base36 base36_digits n) ≡ n)
      × IsPart (to_base36 base36_digits n)
unfolding is_expiry
expiry_back n h =
    let sized = length-to_base36 base36_digits 9 n (unfold pow36 in h) (omega arith) in
    let digits = to_base36-All base36_digits n in
    (
      rw
          (
            all-All in_base36 (to_base36 base36_digits n) digits,
            le→leb 1 (length (to_base36 base36_digits n)) sized.0,
            le→leb (length (to_base36 base36_digits n)) 10 sized.1,
          )
          refl,
      from_base36-to_base36 base36_digits n (unfold pow36 in omega (arith, h)),
      All-imply (λ c. in_base36 c ≡ true) (λ c. is_part c ≡ true) (to_base36 base36_digits n)
          in_base36-IsPart digits,
    )

module _ (p : WallParams) (h : IsLinkable p) where
  exp : Text
  exp = to_base36 base36_digits (p.expires_at / 1000)

  tail_parts : split_all (p.wall_id ++ (b'/' ∷ tail p)) ≡ (p.wall_id, p.key ∷ exp ∷ flags_of p ∷ [])
  unfolding tail flags_of exp
  tail_parts =
      let seconds = expiry_back (p.expires_at / 1000) (omega (arith, h.safe)) in
      rw
        (
          split_all-append p.wall_id (tail p) (wall_id-IsPart p.wall_id h.wall_id),
          split_all-append p.key (exp ++ (b'/' ∷ flags_of p)) (key-IsPart p.key h.key),
          split_all-append exp (flags_of p) seconds.2,
          split_all_part (flags_of p) (flags-IsPart p.password p.burn p.host_leave),
        )
        refl

  tail_back : parse_tail p.wall_id (p.key ∷ exp ∷ flags_of p ∷ []) ≡ some p
  unfolding parse_tail flags_of exp
  tail_back =
      let seconds = expiry_back (p.expires_at / 1000) (omega (arith, h.safe)) in
      let marks = flags_back p.password p.burn p.host_leave in
      let all_of_it : p.expires_at / 1000 * 1000 ≡ p.expires_at = omega (arith, h.whole) in
      rw
        (
          h.key,
          seconds.0,
          seconds.1,
          marks.0,
          marks.1,
          marks.2,
          marks.3,
          all_of_it,
          le→leb p.expires_at max_safe_integer h.safe,
        )
        refl

  wall_body : Text
  wall_body = codes "wall:" ++ (p.wall_id ++ (b'/' ∷ tail p))

  wall_body-IsPlain : IsPlain wall_body
  unfolding wall_body tail flags_of exp is_plain is_space
  wall_body-IsPlain =
      let seconds = expiry_back (p.expires_at / 1000) (omega (arith, h.safe)) in
      let Q = λ (c : ℕ). is_plain c ≡ true in
      let marks =
        slash-IsPlain (flags_of p)
          (part-IsPlain (flags_of p) (flags-IsPart p.password p.burn p.host_leave)) in
      let timed =
        slash-IsPlain (exp ++ (b'/' ∷ flags_of p))
          (All-append Q exp (b'/' ∷ flags_of p) (part-IsPlain exp seconds.2) marks) in
      let keyed = slash-IsPlain (tail p) (
        All-append Q p.key (b'/' ∷ (exp ++ (b'/' ∷ flags_of p)))
          (part-IsPlain p.key (key-IsPart p.key h.key)) timed) in
      (
        refl,
        (
          refl,
          (
            refl,
            (
              refl,
              (
                refl,
                All-append Q p.wall_id (b'/' ∷ tail p)
                    (part-IsPlain p.wall_id (wall_id-IsPart p.wall_id h.wall_id)) keyed,
              ),
            ),
          ),
        ),
      )

  -- The link that the host builds for a wall, on an address without white space, is read by its peers
  -- as the same wall: its id, its key, its expiry and its flags. The id and the key have their form,
  -- the expiry is a number of whole seconds and a safe integer, and `decodeURIComponent` keeps a text
  -- without a percent sign.
  pub parse_wall_link-build_wall_link :
      (decode_uri : Text → Option Text) (base_url : Text)
      → KeepsUnescaped decode_uri
      → IsSolid base_url
      → parse_wall_link decode_uri (build_wall_link base_url p) ≡ some p
  unfolding parse_wall_link build_wall_link wall_of wall_body after_prefix
  parse_wall_link-build_wall_link decode_uri base_url law solid =
      ap (λ s. after_prefix (codes "wall:") s >>= λ parts. wall_of (split_all parts))
        (fragment_back decode_uri base_url wall_body law solid wall_body-IsPlain)
      ∙ ap wall_of tail_parts
      ∙ rw h.wall_id tail_back
