-- ===== src/Json/Tests.antt =====
-- Tests and concrete instances for the JSON output (cli/json.h).
use forkfs.Common.{
  ℕ, ◌≡◌, refl, true, List, [], ◌∷◌, ◌++◌, leb, if◌then◌else◌, arith, some, none, All,
}
use forkfs.Common.Bytes.{Bytes, codes}
use forkfs.Common.Int.{negsuc}
use forkfs.Common.Result.{Result, ok}
use forkfs.Json.Strings.{json_string}
use forkfs.Json.Reader.{IsChar, read_string}
use forkfs.Json.RoundTrip.{read_string-json_string}
use forkfs.Json.Writer.{
  decimal, signed_decimal, Member, text, number, signed, id, write_members, open_json, close_json,
}
use forkfs.Json.Objects.{object_of, write_members-object_of}
use forkfs.Json.Lists.{json_read_list, json_read_list-Complete, json_read_list_settles, Returned}

-- a"\, a new line, é, and a byte that is no UTF-8.
abbrev awkward : Bytes
awkward = b'a' ∷ b'"' ∷ 92 ∷ 10 ∷ 195 ∷ 169 ∷ 255 ∷ []

awkward_chars : All IsChar awkward
awkward_chars = omega arith

-- An overlong form, and a control character that is not escaped, are no JSON string.
overlong_test : read_string (b'"' ∷ 0xe0 ∷ 0x80 ∷ 0x80 ∷ b'"' ∷ []) ≡ none
unfolding read_string
overlong_test = refl

control_test : read_string (b'"' ∷ 10 ∷ b'"' ∷ []) ≡ none
unfolding read_string
control_test = refl

read_string-json_string_example :
    read_string (json_string awkward ++ (b',' ∷ [])) ≡ some (awkward, b',' ∷ [])
read_string-json_string_example = read_string-json_string awkward (b',' ∷ []) awkward_chars

abbrev some_members : List Member
some_members =
    number "n" 120 ∷ text "kind" (codes "world") ∷ signed "t" (negsuc 4) ∷ id "id" b'W' 7 ∷ []

write_members-object_of_example :
    close_json (write_members (open_json []) some_members) ≡ [] ++ object_of some_members
write_members-object_of_example = write_members-object_of [] some_members

object_text_test :
    object_of some_members ≡ codes "{\"n\":120,\"kind\":\"world\",\"t\":-5,\"id\":\"W7\"}"
unfolding object_of json_string decimal signed_decimal
object_text_test = refl

-- The list has two records at first and three from the second call on.
abbrev growing : ℕ → ℕ → Result (ℕ × List ℕ)
growing k cap =
    if leb 1 k then ok (3, if leb 3 cap then 7 ∷ 8 ∷ 9 ∷ [] else 7 ∷ 8 ∷ []) else ok (2, [])

grown : json_read_list growing (λ n. true) ≡ ok (7 ∷ 8 ∷ 9 ∷ [])
unfolding json_read_list
grown = refl

json_read_list-Complete_at_input : Returned growing (λ n. true) (7 ∷ 8 ∷ 9 ∷ [])
json_read_list-Complete_at_input = json_read_list-Complete growing (λ n. true) grown

-- How many records there are at the k-th call, and which of them fit.
abbrev counts : ℕ → ℕ
counts k = if leb 1 k then 3 else 2

abbrev fitting : ℕ → ℕ → List ℕ
fitting k cap = if leb 3 cap then 7 ∷ 8 ∷ 9 ∷ [] else 7 ∷ 8 ∷ []

json_read_list_settles_example :
    (found : List ℕ) × (json_read_list (λ k cap. ok (counts k, fitting k cap)) (λ n. true)
      ≡ ok found)
json_read_list_settles_example =
    json_read_list_settles (λ k cap. ok (counts k, fitting k cap)) (λ n. true) counts fitting
      (λ n. refl) (λ k cap. refl) 1 (omega arith) (omega arith)
