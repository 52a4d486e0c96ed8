-- ===== src/Json/Strings.antt =====
-- json_string (cli/json.h): a C string as a JSON string. A byte that the list no longer has is the NUL that
-- ends it.
use forkfs.Common.{
  ◌≡◌, refl, ℕ, zero, suc, ◌+◌, ◌/◌, ◌%◌, Bool, true, false, not, ◌&&◌, ◌||◌, [], ◌∷◌, ◌++◌, leb,
  ltb, ◌==◌, if◌then◌else◌,
}
use forkfs.Common.Bytes.{Bytes, codes}

-- n=c>=0xc2 && c<=0xdf ? 1 : ...: how many bytes follow c in UTF-8; 0 where c cannot lead.
unfoldable pub following : ℕ → ℕ
following c =
    if leb 0xc2 c && leb c 0xdf
    then 1
    else if leb 0xe0 c && leb c 0xef
    then 2
    else if leb 0xf0 c && leb c 0xf4
    then 3
    else 0

-- p[i]<0x80 || p[i]>0xbf for no i<n
unfoldable pub continues : ℕ → Bytes → Bool
continues zero p = true
continues (suc n) [] = false
continues (suc n) (c ∷ p) = (leb 0x80 c && leb c 0xbf) && continues n p

abbrev pub first : Bytes → ℕ
first [] = 0
first (c ∷ p) = c

-- Overlong forms, surrogates and code points beyond the last.
abbrev pub excluded : ℕ → ℕ → Bool
excluded c p0 =
    ((c == 0xe0) && ltb p0 0xa0)
    || (((c == 0xed) && leb 0xa0 p0)
        || (((c == 0xf0) && ltb p0 0x90) || ((c == 0xf4) && leb 0x90 p0)))

unfoldable pub valid : ℕ → Bytes → Bool
unfolding following continues
valid c p = not (following c == 0) && (continues (following c) p && not (excluded c (first p)))

abbrev pub hex_digit : ℕ → ℕ
hex_digit d = if ltb d 10 then b'0' + d else 87 + d

-- "%02x"
abbrev pub hex2 : ℕ → Bytes
hex2 c = hex_digit (c / 16) ∷ hex_digit (c % 16) ∷ []

-- What the loop writes for c before it looks at the bytes behind c again.
unfoldable pub escape : ℕ → Bytes → Bytes
escape c p =
    if (c == b'"') || (c == 92)
    then 92 ∷ c ∷ []
    else if ltb c 0x20
    then codes "\\u00" ++ hex2 c
    else if ltb c 0x80 || valid c p
    then c ∷ []
    else codes "\\udc" ++ hex2 c

-- How many bytes behind c are written as they are: fwrite(p,1,n,out);p+=n.
unfoldable pub raw : ℕ → Bytes → ℕ
raw c p = if not (ltb c 0x80) && valid c p then following c else 0

-- The loop, while(*p), with the number of bytes that are still to be written as they are.
unfoldable pub json_chars : ℕ → Bytes → Bytes
unfolding escape raw
json_chars k [] = []
json_chars (suc k) (c ∷ p) = c ∷ json_chars k p
json_chars zero (c ∷ p) =
    let more = json_chars (raw c p) p in if c == 0 then [] else escape c p ++ more

unfoldable pub json_string : Bytes → Bytes
unfolding json_chars
json_string value = b'"' ∷ (json_chars 0 value ++ (b'"' ∷ []))

plain_text : json_string (codes "a\"b") ≡ codes "\"a\\\"b\""
unfolding json_string
plain_text = refl
