-- ===== src/P2p/Media/Tests.antt =====
-- Ranges of bytes on concrete files.
use filenymous.Prelude.{some, codes, text_eq}
use filenymous.Wall.Collab.{after_prefix, is_digit}
use filenymous.P2p.Media
use filenymous.P2p.Media.{parse_range}
use filenymous.Prelude.{◌≡◌, refl}
use filenymous.Prelude.Json.{pos, negsuc}
use filenymous.P2p.Media.{chunks_for_range}

past_the_end : chunks_for_range (negsuc 4) (pos 999999) 131073 ≡ (0, 2)
unfolding chunks_for_range
past_the_end = refl

empty_file : chunks_for_range (pos 0) (pos 5) 0 ≡ (0, 0)
unfolding chunks_for_range
empty_file = refl

suffix_range :
    parse_range (some (codes "bytes=-100")) 1000 ≡ some (record { start = 900; end = pos 999 })
unfolding parse_range filenymous.P2p.Media.matched_range filenymous.P2p.Media.range_of
    filenymous.P2p.Media.in_file filenymous.P2p.Media.end_digits filenymous.P2p.Media.split_digits
    filenymous.P2p.Media.number_from after_prefix text_eq is_digit
suffix_range = refl
