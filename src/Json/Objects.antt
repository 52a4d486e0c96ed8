-- ===== src/Json/Objects.antt =====
-- The shape of what struct Json (cli/json.h) writes.
use forkfs.Common.{◌≡◌, sym, ap, ◌∙◌, Bool, false, List, [], ◌∷◌, ◌++◌, String, if◌then◌else◌}
use forkfs.Common.Bytes.{Bytes, codes}
use forkfs.Json.Strings.{json_string}
use forkfs.Json.Writer.{
  Json, open_json, close_json, decimal, signed_decimal, ref_text, Member, text, number, signed,
  flag, id, object_text, write, write_members,
}
use mathlib.Core.List.{append_assoc, append-nil}

abbrev pub name_of : Member → String
name_of (text name value) = name
name_of (number name value) = name
name_of (signed name value) = name
name_of (flag name value) = name
name_of (id name kind value) = name
name_of (object_text name inner) = name

abbrev pub value_text : Member → Bytes
value_text (text name value) = json_string value
value_text (number name value) = decimal value
value_text (signed name value) = signed_decimal value
value_text (flag name value) = if value then codes "true" else codes "false"
value_text (id name kind value) = ref_text kind value
value_text (object_text name inner) = inner

abbrev pub member_text : Member → Bytes
member_text m = json_string (codes (name_of m)) ++ (b':' ∷ value_text m)

unfoldable pub after_comma : List Member → Bytes
after_comma [] = []
after_comma (m ∷ ms) = b',' ∷ (member_text m ++ after_comma ms)

-- {"name":value,"name":value}
unfoldable pub object_of : List Member → Bytes
unfolding after_comma
object_of [] = codes "{}"
object_of (m ∷ ms) = b'{' ∷ (member_text m ++ (after_comma ms ++ (b'}' ∷ [])))

-- key and the value's text, joined as they are written.
join_text :
    (out comma name value : Bytes)
    → (out ++ (comma ++ (name ++ (b':' ∷ [])))) ++ value
      ≡ out ++ (comma ++ (name ++ (b':' ∷ value)))
join_text out comma name value = simp (append_assoc)

abbrev comma_of : Bool → Bytes
comma_of b = if b then [] else b',' ∷ []

written : (j : Json) (m : Member) → Json
written j m = record { out = j.out ++ (comma_of j.first ++ member_text m); first = false }

from_parts :
    (a b : Bytes)
    → a ≡ b
    → ◌≡◌ {A = Json} (record { out = a; first = false }) (record { out = b; first = false })
from_parts a b h = ap (λ (o : Bytes). record { out = o; first = false }) h

write-text : (j : Json) (m : Member) → write j m ≡ written j m
unfolding write written
write-text j (text name value) =
    from_parts _ _
      (join_text j.out (comma_of j.first) (json_string (codes name)) (json_string value))
write-text j (number name value) =
    from_parts _ _ (join_text j.out (comma_of j.first) (json_string (codes name)) (decimal value))
write-text j (signed name value) =
    from_parts _ _
      (join_text j.out (comma_of j.first) (json_string (codes name)) (signed_decimal value))
write-text j (flag name value) =
    from_parts _ _
      (join_text j.out (comma_of j.first) (json_string (codes name)) (value_text (flag name value)))
write-text j (id name kind value) =
    from_parts _ _
      (join_text j.out (comma_of j.first) (json_string (codes name)) (ref_text kind value))
write-text j (object_text name inner) =
    from_parts _ _ (join_text j.out (comma_of j.first) (json_string (codes name)) inner)

write_members-after_comma :
    (out : Bytes) (ms : List Member)
    → write_members (record { out = out; first = false }) ms
      ≡ record { out = out ++ after_comma ms; first = false }
unfolding write_members after_comma written
write_members-after_comma out [] = from_parts _ _ (sym (append-nil out))
write_members-after_comma out (m ∷ ms) = rw (write-text (record { out = out; first = false }) m) (
    write_members-after_comma (out ++ (b',' ∷ member_text m)) ms
    ∙ from_parts _ _ (append_assoc out (b',' ∷ member_text m) (after_comma ms)))

close_text :
    (out first rest : Bytes)
    → (((out ++ (b'{' ∷ [])) ++ first) ++ rest) ++ (b'}' ∷ [])
      ≡ out ++ (b'{' ∷ (first ++ (rest ++ (b'}' ∷ []))))
close_text out first rest = simp (append_assoc)

-- What the calls of struct Json write between its opening and its closing brace, for any members in any order,
-- is the text of the object: the members' names and values, with commas between them and nowhere else.
pub write_members-object_of :
    (out : Bytes) (ms : List Member)
    → close_json (write_members (open_json out) ms) ≡ out ++ object_of ms
unfolding object_of write_members written
write_members-object_of out [] = append_assoc out (b'{' ∷ []) (b'}' ∷ [])
write_members-object_of out (m ∷ ms) =
    ap (λ (j : Json). close_json (write_members j ms)) (write-text (open_json out) m)
    ∙ (ap close_json (write_members-after_comma ((out ++ (b'{' ∷ [])) ++ member_text m) ms)
        ∙ close_text out (member_text m) (after_comma ms))
