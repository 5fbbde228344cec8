-- ===== src/P2p/Control.antt =====
-- ui/src/p2p/protocol.ts: `parseControl`, what is accepted of a control message. What `JSON.parse`
-- returns is the argument; none is its exception.
pub mod Ranges
mod Tests
use filenymous.Prelude.{
  ℕ, ◌+◌, ◌-◌, Bool, true, false, ◌&&◌, ◌||◌, not, Option, none, some, List, [], ◌∷◌, leb, ltb,
  ◌==◌, if◌then◌else◌, is_some, Text, codes, text_eq, length, take, strip, all,
}
use filenymous.Prelude.Json.{
  ℤ, Json, undefined, null, boolean, number, string, array, object, Fields, end, with_field, find,
  int, safe_integer, as_string, as_object,
}
use filenymous.Prelude.Items.{as_array, optional}
use filenymous.Prelude.Options.{◌>>=◌, ◌>>◌, guard}
use filenymous.P2p.Stream.{max_range_chunks}

-- `typeof f?.name === "string" && Number.isSafeInteger(f.size) && f.size >= 0`
pub is_file : Json → Bool
is_file v =
    is_some
      (do f ← as_object v; name ← as_string (find (codes "name") f); int 0 (find (codes "size") f))

pub auth_of : Json → Option (Unit {0})
auth_of v = do
  a ← as_object v
  salt ← as_string (find (codes "salt") a)
  nonce ← as_string (find (codes "nonce") a)
  iter ← int 100000 (find (codes "iter") a)
  guard (leb iter 5000000)

pub checked_manifest : Fields → Option (Unit {0})
checked_manifest msg = do
  files ← as_array (find (codes "files") msg)
  guard (leb 1 (length files) && leb (length files) 1000)
  guard (all is_file files)
  wrapped_secret ← as_string (find (codes "wrappedSecret") msg)
  chunk_size ← safe_integer (find (codes "chunkSize") msg)
  expires ← optional (int 1) (find (codes "expires") msg)
  auth ← optional auth_of (find (codes "auth") msg)
  some tt

pub checked_range : Fields → Option (Unit {0})
checked_range msg = do
  index ← int 0 (find (codes "index") msg)
  from ← int 0 (find (codes "from") msg)
  to ← int 0 (find (codes "to") msg)
  guard (not (ltb to from) && ltb (to - from) max_range_chunks)

pub checked_kind : Text → Fields → Option (Unit {0})
checked_kind type msg =
    if text_eq type (codes "manifest")
    then checked_manifest msg
    else if text_eq type (codes "range")
    then checked_range msg
    else some tt

-- `msg[k] = v` for a key that is there.
pub replaced : Text → Json → Fields → Fields
replaced k v end = end
replaced k v (with_field j w fs) =
    let rest = replaced k v fs in if text_eq j k then with_field j v fs else with_field j w rest

is_control : ℕ → Bool
is_control c = leb c 0x1f || c == 0x7f

pub clean_device : Text → Text
clean_device s = take 80 (strip is_control s)

pub with_device : Fields → Json → Option Fields
with_device msg undefined = some msg
with_device msg (string s) = some (replaced (codes "device") (string (clean_device s)) msg)
with_device msg _ = none

pub control_of : Fields → Option Fields
control_of msg = do
  type ← as_string (find (codes "type") msg)
  checked_kind type msg
  with_device msg (find (codes "device") msg)

-- `parseControl`, with the properties of the message
pub parse_control : Option Json → Option Fields
parse_control parsed = do v ← parsed; msg ← as_object v; control_of msg
