-- ===== src/Resolve/Tests.antt =====
-- The theorems of substitution on short texts.
use vrata.Common.{◌≡◌, refl, none, some, List, [], ◌∷◌, ◌==◌, if◌then◌else◌}
use vrata.Resolve.{value, Part, literal, pattern_, Lookup, escape_json, value_of, resolve_secrets}
use vrata.Resolve.Escaping.{inside, byte, step, read, read-escape_json}
use vrata.Resolve.Substituting.{is_document, Resolves, resolve_secrets-Resolves}

-- One secret with the value a", under the ID "1", and no variable or file.
abbrev one_secret : Lookup
one_secret = record {
  get_secret =
      λ ref. elim ref [ [] ↦ none | x ∷ r ↦ if x == 49 then some (97 ∷ 34 ∷ []) else none ];
  getenv = λ ref. [];
  read_file = λ ref. none;
}

-- The document {"k":"h\n{{secret:value:1}}","n":1}
abbrev parts : List Part
parts =
    literal (123 ∷ 34 ∷ 107 ∷ 34 ∷ 58 ∷ 34 ∷ 104 ∷ 92 ∷ 110 ∷ [])
    ∷ pattern_ value (49 ∷ []) (123 ∷ 123 ∷ [])
    ∷ literal (34 ∷ 44 ∷ 34 ∷ 110 ∷ 34 ∷ 58 ∷ 49 ∷ 125 ∷ [])
    ∷ []

read-escape_json_example :
    read inside (escape_json (97 ∷ 34 ∷ 10 ∷ 92 ∷ []))
    ≡ some (inside, byte 97 ∷ byte 34 ∷ byte 10 ∷ byte 92 ∷ [])
read-escape_json_example = read-escape_json (97 ∷ 34 ∷ 10 ∷ 92 ∷ [])

resolve_secrets-Resolves_example : Resolves one_secret parts (resolve_secrets one_secret parts)
unfolding read value_of step is_document
resolve_secrets-Resolves_example =
    resolve_secrets-Resolves one_secret parts refl (refl, (refl, (refl, tt)))
