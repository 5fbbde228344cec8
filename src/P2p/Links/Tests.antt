-- ===== src/P2p/Links/Tests.antt =====
-- Share links on concrete inputs.
use filenymous.Prelude.{◌≡◌, refl, some, arith, Option, Text, codes, strip, is_space}
use filenymous.Wall.Collab.{is_digit, is_word_unit}
use filenymous.P2p.Links.{
  Share, build_share_link, parse_share_input, create_share_code, to_base36, base36_digits,
  is_secret,
}
use filenymous.P2p.Links
use filenymous.P2p.Links.RoundTrip.{IsShareable, parse_share_input-build_share_link}

abbrev as_is : Text → Text
as_is s = s

abbrev unescaped : Text → Option Text
unescaped s = some s

abbrev share : Share
share = record {
  code = codes "123-456-ABC";
  secret = some (codes "abcdefghijklmnop");
  expires = some 1700000000;
}

link_functions : Unit {0}
unfolding is_digit is_word_unit strip is_space filenymous.P2p.Links.is_capital
    filenymous.P2p.Links.in_code filenymous.P2p.Links.grouped filenymous.P2p.Links.compact
    filenymous.P2p.Links.normalize_share_code filenymous.P2p.Links.is_secret
    filenymous.P2p.Links.six_digits filenymous.P2p.Links.letter
    filenymous.P2p.Links.create_share_code filenymous.P2p.Links.to_base36
    filenymous.P2p.Links.digit36
link_functions = tt

share-IsShareable : IsShareable as_is share
unfolding link_functions
share-IsShareable = record {
  spelled =
      (refl, (refl, (refl, (refl, (refl, (refl, (refl, (refl, (refl, (refl, (refl, tt)))))))))));
  normal = refl;
  secret = refl;
  expires = (omega arith, omega arith);
  kept = λ e. ground (arith, e);
}

parse_share_input-build_share_link_example :
    parse_share_input as_is unescaped (build_share_link (codes "https://x.org/#old") share)
    ≡ some share
unfolding is_space
parse_share_input-build_share_link_example =
    parse_share_input-build_share_link as_is unescaped share (codes "https://x.org/#old")
      (
        refl,
        (
          refl,
          (
            refl,
            (
              refl,
              (
                refl,
                (
                  refl,
                  (
                    refl,
                    (
                      refl,
                      (
                        refl,
                        (refl, (refl, (refl, (refl, (refl, (refl, (refl, (refl, (refl, tt))))))))),
                      ),
                    ),
                  ),
                ),
              ),
            ),
          ),
        ),
      )
      (λ s h. refl) share-IsShareable

code_made : create_share_code 1000042 0 8 23 ≡ codes "000-042-AJZ"
unfolding link_functions
code_made = refl
