-- ===== src/Wall/Link/Tests.antt =====
-- Wall links on concrete inputs.
use filenymous.Prelude.{◌≡◌, refl, true, false, Option, some, Text, codes, is_space, arith, text_eq}
use filenymous.Wall.Collab.{is_digit, is_hex, is_word_unit, after_prefix}
use filenymous.Wall.Link.{
  WallParams, build_wall_link, parse_wall_link, is_wall_id, is_key, is_flags,
}
use filenymous.Wall.Link.RoundTrip.{IsLinkable, parse_wall_link-build_wall_link}

abbrev unescaped : Text → Option Text
unescaped s = some s

abbrev wall : WallParams
wall = record {
  wall_id = codes "wall-0123456789abcdef01234567";
  key = codes "abcdefghijklmnopqrstuvwxyzABCDEFGHIJKLM-_01";
  expires_at = 1700000000000;
  password = true;
  burn = false;
  host_leave = true;
}

wall-IsLinkable : IsLinkable wall
unfolding is_wall_id is_key is_digit is_hex is_word_unit after_prefix
wall-IsLinkable = record { wall_id = refl; key = refl; whole = refl; safe = omega arith }

parse_wall_link-build_wall_link_example :
    parse_wall_link unescaped (build_wall_link (codes "https://x.org/#") wall) ≡ some wall
unfolding is_space
parse_wall_link-build_wall_link_example =
    parse_wall_link-build_wall_link wall wall-IsLinkable unescaped (codes "https://x.org/#")
      (λ s h. refl)
      (
        refl,
        (
          refl,
          (
            refl,
            (
              refl,
              (
                refl,
                (refl, (refl, (refl, (refl, (refl, (refl, (refl, (refl, (refl, (refl, tt)))))))))),
              ),
            ),
          ),
        ),
      )

flags_in_order : is_flags (codes "ph1") ≡ false
unfolding is_flags text_eq
flags_in_order = refl
