-- ===== src/Rdbm/Values/Timestamps.antt =====
-- Dates: the stored text has the parts of the LDAP time, and the third digit of a fraction is lost.
use Prim.Native.Char.{Char}
use community_edition_setup.Prelude.{String, ◌<>◌, ◌≡◌, ◌∙◌, Bool, sym, ◌=ℕ◌, if◌then◌else◌}
use community_edition_setup.Prelude.Text.{take, drop, strip}
use community_edition_setup.Rdbm.Values.{timestamp}

-- A text of digits, by its characters.
abbrev two : Char → Char → String
two a b = String.◌∷◌ a (String.◌∷◌ b "")

module _ (y1 y2 y3 y4 mo1 mo2 d1 d2 h1 h2 mi1 mi2 s1 s2 : Char) where
  -- `YYYYMMDDhhmmss` and what follows it.
  abbrev pub ldap_time : String → String
  ldap_time fraction = String.◌∷◌ y1 (
      String.◌∷◌ y2 (
        String.◌∷◌ y3 (
          String.◌∷◌ y4 (
            String.◌∷◌ mo1 (
              String.◌∷◌ mo2 (
                String.◌∷◌ d1 (
                  String.◌∷◌ d2 (
                    String.◌∷◌ h1 (
                      String.◌∷◌ h2 (
                        String.◌∷◌ mi1
                          (String.◌∷◌ mi2 (String.◌∷◌ s1 (String.◌∷◌ s2 fraction)))))))))))))

  abbrev pub sql_time : String → String → String → String
  sql_time sep fraction postfix =
      String.◌∷◌ y1 (String.◌∷◌ y2 (two y3 y4))
      <> ("-"
          <> (two mo1 mo2
              <> ("-"
                  <> (two d1 d2
                      <> (sep
                          <> (two h1 h2
                              <> (":"
                                  <> (two mi1 mi2
                                      <> (":" <> (two s1 s2 <> (fraction <> postfix)))))))))))

  -- What is, less any `Z` at its ends, `YYYYMMDDhhmmss` and a fraction is stored as `YYYY-MM-DD hh:mm:ss`, with `T` and `Z` for Spanner, and with
  -- the first three characters of the fraction, its point included.
  pub timestamp_lem :
      (spanner : Bool) (val fraction : String)
      → strip (λ c. c =ℕ b'Z') val ≡ ldap_time fraction
      → timestamp spanner val
        ≡ sql_time (if spanner then "T" else " ") (take 3 fraction) (if spanner then "Z" else "")
  unfolding timestamp take drop
  timestamp_lem spanner val fraction h = rw h

  -- The last digit of a fraction of three digits has no effect on what is stored.
  pub timestamp_drops_digit :
      (spanner : Bool) (val val' : String) (point f1 f2 f3 g3 : Char)
      → strip (λ c. c =ℕ b'Z') val ≡ ldap_time (String.◌∷◌ point (String.◌∷◌ f1 (two f2 f3)))
      → strip (λ c. c =ℕ b'Z') val' ≡ ldap_time (String.◌∷◌ point (String.◌∷◌ f1 (two f2 g3)))
      → timestamp spanner val ≡ timestamp spanner val'
  unfolding take
  timestamp_drops_digit spanner val val' point f1 f2 f3 g3 h k =
      timestamp_lem spanner val _ h ∙ sym (timestamp_lem spanner val' _ k)
