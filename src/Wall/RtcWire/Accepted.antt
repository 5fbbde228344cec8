-- ===== src/Wall/RtcWire/Accepted.antt =====
-- A message that sets up a live stream, when it is accepted, is well formed.
use filenymous.Prelude.{ℕ, ◌≤◌, ◌*◌, ◌≡◌, true, none, leb, leb→le, Text, codes, text_eq, length}
use filenymous.Prelude.Json.{Fields, find, int, as_string, as_object, max_safe_integer}
use filenymous.Prelude.Items.{
  text_of, fits, missing, missing-Each, text_of-fits, int-Each, Each-text, Each-fits, Each-then,
}
use filenymous.Prelude.Options.{Each, Each-bind, Each-guard, Each-if}
use filenymous.Wall.RtcWire.{
  Candidate, Signal, offer, answer, ice, RtcMessage, is_link, candidate_of, clean_candidate, sdp_of,
  signal_of, rtc_of,
}

abbrev pub AtMost : ℕ → Text → Type 0
AtMost max s = length s ≤ max

pub record IsCandidate (c : Candidate) : Type 0 where
  pub line : AtMost 2048 c.candidate
  pub mid : Each (AtMost 64) c.sdp_mid
  pub index : Each (λ n. (0 ≤ n) × (n ≤ max_safe_integer)) c.sdp_m_line_index
  pub fragment : Each (AtMost 256) c.username_fragment

pub IsSignal : Signal → Type 0
IsSignal (offer s) = (1 ≤ length s) × (length s ≤ 64 * 1024)
IsSignal (answer s) = (1 ≤ length s) × (length s ≤ 64 * 1024)
IsSignal (ice c) = IsCandidate c

abbrev pub IsRtc : RtcMessage → Type 0
IsRtc m = (is_link m.link ≡ true) × IsSignal m.signal

candidate_of-IsCandidate : (fs : Fields) → Each IsCandidate (candidate_of fs)
unfolding candidate_of
candidate_of-IsCandidate fs = Each-fits IsCandidate 2048 (find _ fs) _ λ line l.
    Each-then IsCandidate (Each (AtMost 64)) (missing (text_of (fits 64)) (find _ fs)) _
      (missing-Each (AtMost 64) (text_of (fits 64)) (text_of-fits 64) (find _ fs))
      λ mid m.
        Each-then IsCandidate (Each (λ n. (0 ≤ n) × (n ≤ max_safe_integer)))
          (missing (int 0) (find _ fs)) _
          (missing-Each (λ n. (0 ≤ n) × (n ≤ max_safe_integer)) (int 0) (int-Each 0) (find _ fs))
          λ index i.
            Each-then IsCandidate (Each (AtMost 256)) (missing (text_of (fits 256)) (find _ fs)) _
              (missing-Each (AtMost 256) (text_of (fits 256)) (text_of-fits 256) (find _ fs))
              λ fragment f. record { line = l; mid = m; index = i; fragment = f }

abbrev IsSdp : Text → Type 0
IsSdp s = (1 ≤ length s) × (length s ≤ 64 * 1024)

sdp_of-IsSdp : (fs : Fields) → Each IsSdp (sdp_of fs)
unfolding sdp_of
sdp_of-IsSdp fs =
    Each-fits IsSdp (64 * 1024) (find _ fs) _
      λ s few. Each-guard IsSdp (leb 1 (length s)) _ λ full. (leb→le 1 (length s) full, few)

signal_of-IsSignal : (kind : Text) (fs : Fields) → Each IsSignal (signal_of kind fs)
unfolding signal_of IsSignal clean_candidate
signal_of-IsSignal kind fs =
    Each-if IsSignal (text_eq kind (codes "offer")) _ _
      (Each-then IsSignal IsSdp (sdp_of fs) _ (sdp_of-IsSdp fs) λ s h. h)
      (Each-if IsSignal (text_eq kind (codes "answer")) _ _
        (Each-then IsSignal IsSdp (sdp_of fs) _ (sdp_of-IsSdp fs) λ s h. h)
        (Each-if IsSignal (text_eq kind (codes "ice")) _ none
          (Each-then IsSignal IsCandidate (clean_candidate (find _ fs)) _
            (Each-bind IsCandidate (as_object (find _ fs)) _ λ c _. candidate_of-IsCandidate c)
            λ c h. h)
          tt))

pub rtc_of-IsRtc : (fs : Fields) → Each IsRtc (rtc_of fs)
unfolding rtc_of
rtc_of-IsRtc fs = Each-text IsRtc is_link (find _ fs) _ λ link linked.
    Each-bind IsRtc (as_string (find _ fs)) _ λ kind _.
      Each-then IsRtc IsSignal (signal_of kind fs) _ (signal_of-IsSignal kind fs)
        λ signal h. (linked, h)
