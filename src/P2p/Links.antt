-- ===== src/P2p/Links.antt =====
-- ui/src/p2p/protocol.ts: the code of a share, and the link that carries the code, the secret and the
-- expiry. `toUpperCase`, which reads the tables of Unicode, and `decodeURIComponent`, with none for its
-- exception, are arguments, and so are `btoa` and `atob`.
pub mod Numerals
pub mod RoundTrip
mod Tests
use filenymous.Prelude.{
  ℕ, zero, suc, ◌+◌, ◌-◌, ◌*◌, ◌/◌, ◌%◌, Bool, true, false, ◌&&◌, ◌||◌, not, Option, none, some,
  is_some, List, [], ◌∷◌, ◌++◌, reverse, map, leb, ltb, ◌==◌, if◌then◌else◌, Text, codes, text_eq,
  length, take, drop, get_elem?, all, trim, strip,
}
use filenymous.Prelude.Bytes.{Bytes}
use filenymous.Prelude.Options.{◌>>=◌, ◌>>◌, guard}
use filenymous.Wall.Collab.{after_prefix, is_digit, is_word_unit}

pub is_capital : ℕ → Bool
unfolding is_digit
is_capital c = leb b'A' c && leb c b'Z'

pub in_code : ℕ → Bool
unfolding is_digit is_capital
in_code c = is_digit c || is_capital c

-- `/^(\d{3})(\d{3})([A-Z]{3})$/`, with dashes between the groups
pub grouped : Text → Option Text
grouped (a ∷ b ∷ c ∷ d ∷ e ∷ f ∷ x ∷ y ∷ z ∷ []) =
    if all is_digit (a ∷ b ∷ c ∷ d ∷ e ∷ f ∷ []) && all is_capital (x ∷ y ∷ z ∷ [])
    then some (a ∷ b ∷ c ∷ b'-' ∷ d ∷ e ∷ f ∷ b'-' ∷ x ∷ y ∷ z ∷ [])
    else none
grouped _ = none

pub compact : Text → Text
compact s = strip (λ c. not (in_code c)) s

-- `normalizeShareCode`
pub normalize_share_code : (Text → Text) → Text → Option Text
normalize_share_code upper value = grouped (compact (upper value))

-- `String(n % 1_000_000).padStart(6, "0")`
pub six_digits : ℕ → Text
six_digits n =
    (48 + n / 100000 % 10)
    ∷ (48 + n / 10000 % 10)
    ∷ (48 + n / 1000 % 10)
    ∷ (48 + n / 100 % 10)
    ∷ (48 + n / 10 % 10)
    ∷ (48 + n % 10)
    ∷ []

abbrev pub letters : Text
letters = codes "ABCDEFGHJKLMNPQRSTUVWXYZ"

pub letter : ℕ → Text
letter n = elim (get_elem? letters (n % 24)) [ none ↦ [] | some c ↦ c ∷ [] ]

-- `createShareCode`, from four random numbers
pub create_share_code : ℕ → ℕ → ℕ → ℕ → Text
create_share_code a b c d =
    let digits = six_digits (a % 1000000) in
    take 3 digits ++ (b'-' ∷ drop 3 digits ++ (b'-' ∷ letter b ++ (letter c ++ letter d)))

pub record Share : Type 0 where
  pub code : Text
  pub secret : Option Text
  pub expires : Option ℕ

pub digit36 : ℕ → ℕ
digit36 n = if ltb n 10 then 48 + n else 87 + n

-- `n.toString(36)`, of at most so many digits
pub to_base36 : ℕ → ℕ → Text
to_base36 zero n = []
to_base36 (suc digits) n =
    let rest = to_base36 digits (n / 36) in
    if ltb n 36 then digit36 n ∷ [] else rest ++ (digit36 (n % 36) ∷ [])

-- A safe integer has at most eleven.
abbrev pub base36_digits : ℕ
base36_digits = 11

-- `replace(/\+/g, "-").replace(/\//g, "_")`
pub url_unit : ℕ → ℕ
url_unit c = if c == b'+' then b'-' else if c == b'/' then b'_' else c

pub base64_unit : ℕ → ℕ
base64_unit c = if c == b'-' then b'+' else if c == b'_' then b'/' else c

-- `replace(/=+$/, "")`, of the text read backwards.
pub drop_padding : Text → Text
drop_padding [] = []
drop_padding (c ∷ s) = let rest = drop_padding s in if c == b'=' then rest else c ∷ s

-- `b64urlEncode`, over the platform's `btoa`
pub b64url_encode : (Bytes → Text) → Bytes → Text
b64url_encode btoa bytes = reverse (drop_padding (reverse (map url_unit (btoa bytes))))

pub padding : ℕ → Text
padding zero = []
padding (suc n) = b'=' ∷ padding n

-- `b64urlDecode`, over the platform's `atob`, with none for its exception
pub b64url_decode : (Text → Option Bytes) → Text → Option Bytes
b64url_decode atob text =
    atob (map base64_unit text ++ padding ((length text + 3) / 4 * 4 - length text))

-- `s.split("#")[0]`
pub before_hash : Text → Text
before_hash [] = []
before_hash (c ∷ s) = let rest = before_hash s in if c == b'#' then [] else c ∷ rest

-- The part of the expiry: there is none of time 0, and none without a secret.
pub expiry_part : Option ℕ → Text
expiry_part none = []
expiry_part (some n) = if n == 0 then [] else b'/' ∷ b'e' ∷ to_base36 base36_digits n

pub secret_part : Option Text → Option ℕ → Text
secret_part none expires = []
secret_part (some []) expires = []
secret_part (some (c ∷ s)) expires = b'/' ∷ (c ∷ s ++ expiry_part expires)

pub build_share_link : Text → Share → Text
build_share_link base_url p =
    before_hash base_url ++ (codes "#p2p:" ++ (p.code ++ secret_part p.secret p.expires))

-- `shareFragment`
pub share_fragment : Share → Text
share_fragment p = drop 1 (build_share_link [] p)

-- What stands behind the first "#", or all.
pub after_hash : Text → Option Text
after_hash [] = none
after_hash (c ∷ s) = let rest = after_hash s in if c == b'#' then some s else rest

pub fragment_of : Text → Text
fragment_of raw = elim (after_hash raw) [ none ↦ raw | some s ↦ s ]

-- The part before the first "/", and what is behind it, if there is one.
pub split_slash : Text → Text × Option Text
split_slash [] = ([], none)
split_slash (c ∷ s) =
    let rest = split_slash s in if c == b'/' then ([], some s) else (c ∷ rest.0, rest.1)

pub next_part : Option Text → Text × Option Text
next_part none = ([], none)
next_part (some s) = split_slash s

pub value36 : ℕ → ℕ
unfolding is_digit
value36 c = if is_digit c then c - 48 else c - 87

-- `parseInt(s, 36)` of digits and small letters
pub from_base36 : ℕ → Text → ℕ
from_base36 n [] = n
from_base36 n (c ∷ s) = from_base36 (n * 36 + value36 c) s

pub in_base36 : ℕ → Bool
unfolding is_digit
in_base36 c = is_digit c || (leb b'a' c && leb c b'z')

-- `/^[A-Za-z0-9_-]{16,64}$/`
pub is_secret : Text → Bool
unfolding is_word_unit
is_secret s = leb 16 (length s) && leb (length s) 64 && all is_word_unit s

-- `/^e[0-9a-z]{1,10}$/`, with the number; 0 is none.
pub expiry_of : Text → Option ℕ
expiry_of (c ∷ s) =
    if c == b'e' && leb 1 (length s) && leb (length s) 10 && all in_base36 s
    then if from_base36 0 s == 0 then none else some (from_base36 0 s)
    else none
expiry_of [] = none

pub with_secret : Text → Text → Text → Share
with_secret code secret expiry =
    if is_secret secret
    then record { code = code; secret = some secret; expires = expiry_of expiry }
    else record { code = code; secret = none; expires = none }

pub without_scheme : Text → Text
unfolding after_prefix
without_scheme raw = elim (after_prefix (codes "p2p:") raw) [ none ↦ raw | some s ↦ s ]

-- `/^#p2p:/i`
pub has_scheme : Text → Bool
has_scheme (a ∷ b ∷ c ∷ d ∷ e ∷ s) =
    a == b'#' && (b == b'p' || b == b'P') && c == b'2' && (d == b'p' || d == b'P') && e == b':'
has_scheme _ = false

-- `try { raw = decodeURIComponent(raw) } catch { }`
pub decoded : (Text → Option Text) → Text → Text
decoded decode_uri raw = elim (decode_uri raw) [ none ↦ raw | some s ↦ s ]

module _ (upper : Text → Text) (decode_uri : Text → Option Text) where
  pub share_of : Text → Option Share
  share_of raw =
      let code = split_slash raw in
      let secret = next_part code.1 in
      let expiry = next_part secret.1 in
      do normal ← normalize_share_code upper code.0; some (with_secret normal secret.0 expiry.0)

  -- `parseShareInput`
  pub parse_share_input : Text → Option Share
  parse_share_input input =
      share_of (without_scheme (decoded decode_uri (fragment_of (trim input))))

  -- `isP2PHash`: the prefix in any case
  pub is_p2p_hash : Text → Bool
  is_p2p_hash hash = has_scheme hash && is_some (parse_share_input hash)
