-- ===== src/Loading/Ldap/Tests.antt =====
-- A user that is added to a directory.
use mathlib.Core.Option
use community_edition_setup.Prelude.{◌≡◌, refl, [], ok}
use community_edition_setup.Prelude.Dict
use community_edition_setup.Prelude.Dict.{Dict}
use community_edition_setup.Loading.{Entry}
use community_edition_setup.Loading.Document.Samples.{
  parsers, types, parse, user_dn, user, document, user_document,
}
use community_edition_setup.Loading.Ldap.{Directory, ldap_entry}
use community_edition_setup.Loading.Ldap.Twice.{Finds, exists_in_ldap, ldap_entry-twice}

-- A directory that refuses changes of entries.
abbrev directory : Directory (Dict Entry)
directory = record {
  search = λ s dn. Option.map (λ entry. (dn, entry)) (Dict.get s dn);
  modify = λ s dn attr how vs. s;
  add = λ s dn entry. Dict.set s dn entry;
}

user_found : Finds parsers types parse directory [] user_dn user
unfolding Dict.get Dict.set
user_found = record { found = refl }

ldap_entry-twice_example :
    (ldap_entry directory (exists_in_ldap parsers types parse directory) user_dn user []
      ≡ ok (directory.add [] user_dn user))
    × (ldap_entry directory
          (exists_in_ldap parsers types parse directory)
          user_dn
          user
          (directory.add [] user_dn user)
        ≡ ok (directory.add [] user_dn user))
unfolding Dict.get
ldap_entry-twice_example =
    ldap_entry-twice parsers types parse directory user_dn user [] "people_60B7" document refl refl
      user_found user_document
