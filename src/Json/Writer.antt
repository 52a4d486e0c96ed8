-- ===== src/Json/Writer.antt =====
-- struct Json (cli/json.h): the text written so far, and whether a comma is due. printf's "%llu" and "%lld"
-- are the decimal numerals.
use forkfs.Common.{
  ℕ, zero, suc, String, ◌+◌, ◌/◌, ◌%◌, Bool, true, false, List, [], ◌∷◌, ◌++◌, ltb, ◌==◌,
  if◌then◌else◌,
}
use forkfs.Common.Bytes.{Bytes, codes}
use forkfs.Common.Int.{ℤ, pos, negsuc}
use forkfs.Json.Strings.{json_string}

-- n rounds are enough for n itself, which has fewer digits.
unfoldable pub digits : ℕ → ℕ → Bytes → Bytes
digits zero n out = out
digits (suc fuel) n out =
    let longer = digits fuel (n / 10) ((b'0' + n % 10) ∷ out) in
    if ltb n 10 then (b'0' + n) ∷ out else longer

unfoldable pub decimal : ℕ → Bytes
unfolding digits
decimal n = digits (suc n) n []

unfoldable pub signed_decimal : ℤ → Bytes
unfolding decimal
signed_decimal (pos n) = decimal n
signed_decimal (negsuc n) = b'-' ∷ decimal (n + 1)

pub record Json : Type 0 where
  pub out : Bytes
  pub first : Bool

abbrev pub open_json : Bytes → Json
open_json out = record { out = out ++ (b'{' ∷ []); first = true }

abbrev pub close_json : Json → Bytes
close_json j = j.out ++ (b'}' ∷ [])

unfoldable pub key : Json → Bytes → Json
key j name =
    let comma = if j.first then [] else b',' ∷ [] in
    record { out = j.out ++ (comma ++ (json_string name ++ (b':' ∷ []))); first = false }

abbrev pub put_text : Json → Bytes → Json
put_text j text = record j { out = j.out ++ text }

unfoldable pub str : Json → Bytes → Bytes → Json
unfolding key
str j name value = put_text (key j name) (json_string value)

unfoldable pub num : Json → Bytes → ℕ → Json
unfolding key
num j name value = put_text (key j name) (decimal value)

unfoldable pub signed_num : Json → Bytes → ℤ → Json
unfolding key
signed_num j name value = put_text (key j name) (signed_decimal value)

unfoldable pub boolean : Json → Bytes → Bool → Json
unfolding key
boolean j name value = put_text (key j name) (if value then codes "true" else codes "false")

-- "%c%llu" in quotes, or null.
abbrev pub ref_text : ℕ → ℕ → Bytes
ref_text kind id = if id == 0 then codes "null" else b'"' ∷ kind ∷ (decimal id ++ (b'"' ∷ []))

unfoldable pub ref : Json → Bytes → ℕ → ℕ → Json
unfolding key
ref j name kind id = put_text (key j name) (ref_text kind id)

-- A member of an object, by the call that writes it; object_text is the text of an object within.
pub data Member : Type 0 where
  text : String → Bytes → Member
  number : String → ℕ → Member
  signed : String → ℤ → Member
  flag : String → Bool → Member
  id : String → ℕ → ℕ → Member
  object_text : String → Bytes → Member

unfoldable pub write : Json → Member → Json
unfolding str num signed_num boolean ref key
write j (text name value) = str j (codes name) value
write j (number name value) = num j (codes name) value
write j (signed name value) = signed_num j (codes name) value
write j (flag name value) = boolean j (codes name) value
write j (id name kind value) = ref j (codes name) kind value
write j (object_text name inner) = put_text (key j (codes name)) inner

unfoldable pub write_members : Json → List Member → Json
unfolding write
write_members j [] = j
write_members j (m ∷ ms) = write_members (write j m) ms
