-- ===== src/P2p/Control/Ranges.antt =====
-- The two ends of the streaming: every range that the receiver asks for is one that the sender takes.
use filenymous.Prelude.{
  ℕ, ◌+◌, ◌-◌, ◌≤◌, ◌≡◌, refl, Bool, true, false, ◌&&◌, not, some, List, [], ◌∷◌, ltb, arith, codes,
  text_eq, All, All-imply,
}
use filenymous.Prelude.Json.{
  undefined, boolean, number, string, integer, pos, object, Fields, end, with_field, find, int,
  as_string, as_object, max_safe_integer,
}
use filenymous.P2p.Stream.{
  max_range_chunks, Range, StreamReader, request, send_runs, missing_runs, has_chunk,
}
use filenymous.P2p.Stream.Runs.{IsRun, missing_runs_lem}
use filenymous.P2p.Control.{checked_range, checked_kind, with_device, control_of, parse_control}

-- `...(prefetch ? { prefetch: true } : {})`
unfoldable pub prefetch_fields : Bool → Fields
prefetch_fields true = with_field (codes "prefetch") (boolean true) end
prefetch_fields false = end

-- The object that is sent for a range: `{ type: "range", index: file, from: a, to: b, ... }`.
unfoldable pub range_fields : Range → Fields
range_fields r = with_field (codes "type") (string (codes "range")) (
    with_field (codes "index") (number (integer (pos r.index))) (
      with_field (codes "from") (number (integer (pos r.from)))
        (with_field (codes "to") (number (integer (pos r.to))) (prefetch_fields r.prefetch))))

int_back : (n : ℕ) → n ≤ max_safe_integer → int 0 (number (integer (pos n))) ≡ some n
unfolding int
int_back n h = ground arith

-- Within the numbers that a double holds, and of a length that the sender takes.
pub record IsSound (r : Range) : Type 0 where
  pub index : r.index ≤ max_safe_integer
  pub forward : r.from ≤ r.to
  pub last : r.to ≤ max_safe_integer
  pub short : r.to + 1 ≤ r.from + max_range_chunks

in_order :
    (r : Range) → IsSound r → (not (ltb r.to r.from) && ltb (r.to - r.from) max_range_chunks) ≡ true
in_order r h = ground (arith, h.forward, h.short)

-- The sender looks for no device in what is read ahead.
no_device : (b : Bool) → find (codes "device") (prefetch_fields b) ≡ undefined
unfolding find prefetch_fields text_eq
no_device true = refl
no_device false = refl

pub range_accepted :
    (r : Range) → IsSound r → parse_control (some (object (range_fields r))) ≡ some (range_fields r)
unfolding parse_control control_of checked_kind checked_range with_device range_fields find text_eq
    as_object as_string
range_accepted r h =
    rw
      (
        int_back r.index h.index,
        int_back r.from (omega (arith, h.forward, h.last)),
        int_back r.to h.last,
        in_order r h,
        no_device r.prefetch,
      )
      refl

sent_runs :
    (file to : ℕ) (prefetch : Bool) (from : ℕ) (runs : List (ℕ × ℕ)) (r : StreamReader)
    → file ≤ max_safe_integer
    → to ≤ max_safe_integer
    → All (IsRun from to) runs
    → All IsSound (send_runs file prefetch r runs).1
unfolding send_runs
sent_runs file to prefetch from [] r hf ht h = tt
sent_runs file to prefetch from ((a, b) ∷ runs) r hf ht (g, h) = (
  record { index = hf; forward = g.forward; last = omega (arith, g.before); short = g.short },
  sent_runs file to prefetch from runs _ hf ht h,
)

-- Every message that one request of the receiver sends, in any state of the receiver and for any
-- chunks whose numbers are safe integers, is accepted by the sender as it is.
pub request_accepted :
    (r : StreamReader) (file from to : ℕ) (prefetch : Bool)
    → file ≤ max_safe_integer
    → to ≤ max_safe_integer
    → All
        (λ m. parse_control (some (object (range_fields m))) ≡ some (range_fields m))
        (request r file from to prefetch).1
unfolding request
request_accepted r file from to prefetch hf ht =
    All-imply IsSound (λ m. parse_control (some (object (range_fields m))) ≡ some (range_fields m))
      (send_runs file prefetch r (missing_runs from to (has_chunk r file))).1 range_accepted
      (sent_runs file to prefetch from (missing_runs from to (has_chunk r file)) r hf ht
        (missing_runs_lem from to (has_chunk r file)).1)
