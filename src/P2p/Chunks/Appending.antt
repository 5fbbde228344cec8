-- ===== src/P2p/Chunks/Appending.antt =====
-- A cipher for the tests, which appends sixteen bytes and checks nothing else.
use filenymous.Prelude.{ℕ, ◌-◌, ap, ◌∙◌, some, [], ◌∷◌, ◌++◌, arith, length, length-append, take}
use filenymous.Prelude.Bytes.{Bytes, take-append}
use filenymous.P2p.Chunks.{AesGcm}
use filenymous.P2p.Chunks.Sealing.{IsAuthenticated}

abbrev tag : Bytes
tag = 0 ∷ 0 ∷ 0 ∷ 0 ∷ 0 ∷ 0 ∷ 0 ∷ 0 ∷ 0 ∷ 0 ∷ 0 ∷ 0 ∷ 0 ∷ 0 ∷ 0 ∷ 0 ∷ []

abbrev pub appending : AesGcm ℕ
appending = record {
  encrypt = λ key iv header plain. plain ++ tag;
  decrypt = λ key iv header sealed. some (take (length sealed - 16) sealed);
}

pub appending-IsAuthenticated : IsAuthenticated appending
appending-IsAuthenticated = record {
  decrypts = λ key iv header plain. ap some (
      ap (λ n. take n (plain ++ tag)) (omega (arith, length-append plain tag))
      ∙ take-append plain tag);
  tagged = λ key iv header plain. length-append plain tag;
}
