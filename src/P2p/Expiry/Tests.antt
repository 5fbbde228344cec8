-- ===== src/P2p/Expiry/Tests.antt =====
-- Expiry on concrete inputs.
use filenymous.Prelude.{◌≡◌, refl, none, some}
use filenymous.P2p.Expiry.{remaining_parts, expiry_from_choice, custom, seven_days}

two_days_left : (remaining_parts 183600999).h ≡ 3
unfolding remaining_parts
two_days_left = refl

too_soon : expiry_from_choice custom (some 1030000) 1000000 ≡ none
unfolding expiry_from_choice filenymous.P2p.Expiry.chosen_time filenymous.P2p.Expiry.allowed_time
too_soon = refl
