-- ===== src/Wall/Link.antt =====
-- ui/src/wall/link.ts: the links of a wall. `decodeURIComponent`, with none for its exception, and the
-- id of a wall, which is a SHA-256, are arguments, and so are random texts, `btoa`, `atob` and the coding
-- of UTF-8.
pub mod RoundTrip
mod Tests
use filenymous.Prelude.{
  ℕ, zero, suc, ◌+◌, ◌-◌, ◌*◌, ◌/◌, ◌%◌, Bool, true, false, ◌&&◌, ◌||◌, not, Option, none, some,
  is_some, List, [], ◌∷◌, ◌++◌, map, leb, ltb, ◌==◌, if◌then◌else◌, Text, codes, text_eq, length,
  take, drop, get_elem?, all, any, trim, is_space,
}
use filenymous.Prelude.Json.{max_safe_integer}
use filenymous.Prelude.Options.{◌>>=◌, ◌>>◌, guard}
use filenymous.Prelude.Bytes.{Bytes}
use filenymous.Wall.Collab.{after_prefix, is_digit, is_hex, is_word_unit}
use filenymous.Wall.Updates.{sanitize_wall_title}
use filenymous.P2p.Links.{
  before_hash, to_base36, base36_digits, from_base36, in_base36, fragment_of, decoded,
  b64url_encode, b64url_decode,
}

pub record WallParams : Type 0 where
  pub wall_id : Text
  pub key : Text
  pub expires_at : ℕ
  pub password : Bool
  pub burn : Bool
  pub host_leave : Bool

pub record Choices : Type 0 where
  pub ttl : Option ℕ
  pub title : Text
  pub password : Bool
  pub burn : Bool
  pub host_leave : Bool

pub record HostWallParams : Type 0 where
  pub wall : WallParams
  pub host_secret : Text
  pub title : Text

pub expiry_from : Option ℕ → ℕ → ℕ
expiry_from none now = 0
expiry_from (some ttl) now = (now + ttl) / 1000 * 1000

pub create_wall : (Text → Text) → Text → Text → Choices → ℕ → HostWallParams
create_wall wall_id_for host_secret key choices now = record {
  wall = record {
    wall_id = wall_id_for host_secret;
    key = key;
    expires_at = expiry_from choices.ttl now;
    password = choices.password;
    burn = choices.burn;
    host_leave = choices.host_leave;
  };
  host_secret = host_secret;
  title = sanitize_wall_title choices.title;
}

pub flags : Bool → Bool → Bool → Text
flags password burn host_leave =
    (if password then b'p' else b'n')
    ∷ ((if burn then b'1' ∷ [] else []) ++ (if host_leave then b'h' ∷ [] else []))

pub flags_of : WallParams → Text
flags_of p = flags p.password p.burn p.host_leave

pub tail : WallParams → Text
tail p = p.key ++ (b'/' ∷ (to_base36 base36_digits (p.expires_at / 1000) ++ (b'/' ∷ flags_of p)))

pub build_wall_link : Text → WallParams → Text
build_wall_link base_url p =
    before_hash base_url ++ (codes "#wall:" ++ (p.wall_id ++ (b'/' ∷ tail p)))

-- The part of the title, in base64url of its UTF-8.
pub title_part : (Bytes → Text) → (Text → Bytes) → Text → Text
title_part btoa encode [] = []
title_part btoa encode (c ∷ title) = b'/' ∷ b64url_encode btoa (encode (c ∷ title))

pub build_host_link : (Bytes → Text) → (Text → Bytes) → Text → HostWallParams → Text
build_host_link btoa encode base_url p =
    before_hash base_url
    ++ (codes "#wall-host:"
        ++ (p.host_secret
            ++ (b'/' ∷ tail p.wall ++ title_part btoa encode (sanitize_wall_title p.title))))

-- `/^[A-Za-z0-9_-]{43}$/`
pub is_key : Text → Bool
is_key s = length s == 43 && all is_word_unit s

-- `/^wall-[a-f0-9]{24}$/`
pub is_wall_id : Text → Bool
is_wall_id s = elim (after_prefix (codes "wall-") s) [
  | none ↦ false
  | some digits ↦ length digits == 24 && all is_hex digits
]

-- `/^[0-9a-z]{1,10}$/`
pub is_expiry : Text → Bool
is_expiry s = leb 1 (length s) && leb (length s) 10 && all in_base36 s

-- `/^[pn]1?h?$/`
pub is_flags : Text → Bool
is_flags [] = false
is_flags (c ∷ s) =
    (c == b'p' || c == b'n')
    && (text_eq s [] || text_eq s (codes "1") || text_eq s (codes "h") || text_eq s (codes "1h"))

pub starts_protected : Text → Bool
starts_protected [] = false
starts_protected (c ∷ s) = c == b'p'

pub has_unit : ℕ → Text → Bool
has_unit u s = any (λ c. c == u) s

-- `s.split("/")`: the first part and the others.
pub split_all : Text → Text × List Text
split_all [] = ([], [])
split_all (c ∷ s) =
    let rest = split_all s in if c == b'/' then ([], rest.0 ∷ rest.1) else (c ∷ rest.0, rest.1)

-- `parseTail`, with the id that its callers add.
pub parse_tail : Text → List Text → Option WallParams
parse_tail wall_id (key ∷ exp ∷ marks ∷ []) = do
  guard (is_key key && is_expiry exp && is_flags marks)
  guard (leb (from_base36 0 exp * 1000) max_safe_integer)
  some (record {
    wall_id = wall_id;
    key = key;
    expires_at = from_base36 0 exp * 1000;
    password = starts_protected marks;
    burn = has_unit b'1' marks;
    host_leave = has_unit b'h' marks;
  })
parse_tail wall_id _ = none

pub wall_of : Text × List Text → Option WallParams
wall_of (wall_id, rest) = do guard (is_wall_id wall_id); parse_tail wall_id rest

pub parse_wall_link : (Text → Option Text) → Text → Option WallParams
parse_wall_link decode_uri input = do
  parts ← after_prefix (codes "wall:") (decoded decode_uri (fragment_of (trim input)))
  wall_of (split_all parts)

-- `/^[A-Za-z0-9_-]{22,64}$/`
pub is_host_secret : Text → Bool
is_host_secret s = leb 22 (length s) && leb (length s) 64 && all is_word_unit s

-- `/^[A-Za-z0-9_-]{1,512}$/`
pub is_title_code : Text → Bool
is_title_code s = leb 1 (length s) && leb (length s) 512 && all is_word_unit s

module _ (wall_id_for : Text → Text) (atob : Text → Option Bytes)
    (decode : Bytes → Option Text) where
  pub read_title : Text → Option Text
  read_title enc = do
    guard (is_title_code enc)
    bytes ← b64url_decode atob enc
    title ← decode bytes
    some (sanitize_wall_title title)

  -- The title, when there is a fourth part, and the parts before it.
  pub titled : List Text → Option (Text × List Text)
  titled (a ∷ b ∷ c ∷ enc ∷ []) = do title ← read_title enc; some (title, a ∷ b ∷ c ∷ [])
  titled rest = some ([], rest)

  pub host_wall_of : Text × List Text → Option HostWallParams
  host_wall_of (host_secret, parts) = do
    guard (is_host_secret host_secret)
    rest ← titled parts
    wall ← parse_tail (wall_id_for host_secret) rest.1
    some (record { wall = wall; host_secret = host_secret; title = rest.0 })

  pub parse_host_link : (Text → Option Text) → Text → Option HostWallParams
  parse_host_link decode_uri input = do
    parts ← after_prefix (codes "wall-host:") (decoded decode_uri (fragment_of (trim input)))
    host_wall_of (split_all parts)

-- `/^#wall:/`
pub is_wall_hash : Text → Bool
is_wall_hash hash = is_some (after_prefix (codes "#wall:") hash)

-- `/^#wall-(host:|new$)/`
pub is_wall_host_hash : Text → Bool
is_wall_host_hash hash =
    is_some (after_prefix (codes "#wall-host:") hash) || text_eq hash (codes "#wall-new")

pub is_expired : WallParams → ℕ → Bool
is_expired p now = ltb 0 p.expires_at && leb p.expires_at now

abbrev pub code_alphabet : Text
code_alphabet = codes "ABCDEFGHJKMNPQRSTVWXYZ23456789"

pub code_unit : ℕ → Text
code_unit b = elim (get_elem? code_alphabet (b % 30)) [ none ↦ [] | some c ↦ c ∷ [] ]

pub code_units : Bytes → Text
code_units [] = []
code_units (b ∷ digest) = code_unit b ++ code_units digest

-- `wallCode`, with the SHA-256 of a text.
pub wall_code : (Text → Bytes) → WallParams → Text
wall_code digest p =
    let named = codes "filenymous-wall-code|" ++ (p.wall_id ++ (b'|' ∷ p.key)) in
    let chars = code_units (take 8 (digest named)) in take 4 chars ++ (b'-' ∷ drop 4 chars)
