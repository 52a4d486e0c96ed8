-- ===== src/Json/Reader.antt =====
-- A strict reader of JSON strings, for what json_string (cli/json.h) writes, and how it reads the escapes. It takes only
-- UTF-8 as Unicode defines it, no control characters, and of the escapes \", \\ and \uXXXX, where a lone
-- surrogate 0xdc80 to 0xdcff stands for an undecodable byte.
use forkfs.Common.{
  ℕ, zero, suc, ◌+◌, ◌-◌, ◌*◌, ◌/◌, ◌%◌, ◌≤◌, ◌<◌, ◌≡◌, refl, ap, ◌∙◌, Bool, true, false, not, ◌&&◌,
  ◌||◌, Option, none, some, [], ◌∷◌, ◌++◌, leb, ltb, ◌==◌, if◌then◌else◌, arith,
}
use forkfs.Common.Bytes.{Bytes, codes}
use forkfs.Json.Strings.{hex_digit, hex2}

-- A byte of a C string.
abbrev pub IsChar : ℕ → Type 0
IsChar c = (0 < c) × (c < 256)

-- Where the reader stands: at a character, behind a backslash, in the k-th digit of \uXXXX, or before a byte
-- between two bounds that continues a character, with some more behind it.
pub data Mode : Type 0 where
  plain slash : Mode
  hex : ℕ → ℕ → Mode
  tail : ℕ → ℕ → ℕ → Mode

-- Before `n` more bytes of a character.
abbrev pub before : ℕ → ℕ → ℕ → Mode
before lo hi zero = plain
before lo hi (suc n) = tail lo hi n

-- Well-formed UTF-8: the number of bytes behind the first, and the bounds of the second.
abbrev pub count : ℕ → ℕ
count c = if ltb c 0x80 then 0 else if ltb c 0xe0 then 1 else if ltb c 0xf0 then 2 else 3

abbrev pub low : ℕ → ℕ
low c = if c == 0xe0 then 0xa0 else if c == 0xf0 then 0x90 else 0x80

abbrev pub high : ℕ → ℕ
high c = if c == 0xed then 0x9f else if c == 0xf4 then 0x8f else 0xbf

abbrev digit : ℕ → ℕ
digit c = if ltb c 58 then c - 48 else c - 87

abbrev is_digit : ℕ → Bool
is_digit c = (leb b'0' c && leb c b'9') || (leb b'a' c && leb c b'f')

-- The byte of a code unit: a character of ASCII, or an escaped byte at 0xdc00 + b.
abbrev unit : ℕ → ℕ
unit v = if ltb v 0x80 then v else v - 0xdc00

abbrev is_unit : ℕ → Bool
is_unit v = ltb v 0x80 || (leb 0xdc80 v && leb v 0xdcff)

unfoldable pub next : Mode → ℕ → Mode
next plain c = if c == 92 then slash else before (low c) (high c) (count c)
next slash c = if c == b'u' then hex 0 0 else plain
next (hex k v) c = if k == 3 then plain else hex (k + 1) (v * 16 + digit c)
next (tail lo hi n) c = before 0x80 0xbf n

unfoldable pub closes : Mode → ℕ → Bool
closes plain c = c == b'"'
closes _ c = false

-- What the reader does not take.
unfoldable pub refuses : Mode → ℕ → Bool
refuses plain c = ltb c 0x20 || (leb 0x80 c && not (leb 0xc2 c && leb c 0xf4))
refuses slash c = not ((c == b'"') || ((c == 92) || (c == b'u')))
refuses (hex k v) c = not (is_digit c) || ((k == 3) && not (is_unit (v * 16 + digit c)))
refuses (tail lo hi n) c = not (leb lo c && leb c hi)

-- What the character adds to the value.
unfoldable pub adds : Mode → ℕ → Bytes
adds plain c = if c == 92 then [] else c ∷ []
adds slash c = if c == b'u' then [] else c ∷ []
adds (hex k v) c = if k == 3 then unit (v * 16 + digit c) ∷ [] else []
adds (tail lo hi n) c = c ∷ []

abbrev pub push : Bytes → Option (Bytes × Bytes) → Option (Bytes × Bytes)
push bs none = none
push bs (some (value, rest)) = some (bs ++ value, rest)

-- The value up to the closing quote, and what follows it.
unfoldable pub read_chars : Mode → Bytes → Option (Bytes × Bytes)
unfolding next closes refuses adds
read_chars m [] = none
read_chars m (c ∷ cs) =
    let more = read_chars (next m c) cs in
    if closes m c then some ([], cs) else if refuses m c then none else push (adds m c) more

unfoldable pub read_string : Bytes → Option (Bytes × Bytes)
unfolding read_chars
read_string [] = none
read_string (c ∷ cs) = if c == b'"' then read_chars plain cs else none

-- A character of ASCII, or the first byte of another.
pub read_first :
    (c : ℕ) (cs : Bytes)
    → (c == 92) ≡ false
    → (c == b'"') ≡ false
    → refuses plain c ≡ false
    → read_chars plain (c ∷ cs) ≡ push (c ∷ []) (read_chars (before (low c) (high c) (count c)) cs)
unfolding read_chars next closes refuses adds
read_first c cs h k taken = rw (h, k, taken) refl

pub read_tail :
    (lo hi n c : ℕ) (cs : Bytes)
    → (leb lo c && leb c hi) ≡ true
    → read_chars (tail lo hi n) (c ∷ cs) ≡ push (c ∷ []) (read_chars (before 0x80 0xbf n) cs)
unfolding read_chars next closes refuses adds
read_tail lo hi n c cs h = rw h refl

digit-hex_digit : (d : ℕ) → d < 16 → digit (hex_digit d) ≡ d
digit-hex_digit d h = ground arith

is_digit-hex_digit : (d : ℕ) → d < 16 → is_digit (hex_digit d) ≡ true
is_digit-hex_digit d h = ground arith

push-nil : (o : Option (Bytes × Bytes)) → push [] o ≡ o
push-nil none = refl
push-nil (some r) = refl

read_digit :
    (k v d : ℕ) (cs : Bytes)
    → d < 16
    → (k == 3) ≡ false
    → read_chars (hex k v) (hex_digit d ∷ cs) ≡ read_chars (hex (k + 1) (v * 16 + d)) cs
unfolding read_chars next closes refuses adds
read_digit k v d cs h n =
    rw (is_digit-hex_digit d h, digit-hex_digit d h, n)
      (push-nil (read_chars (hex (k + 1) (v * 16 + d)) cs))

read_last :
    (v d : ℕ) (cs : Bytes)
    → d < 16
    → is_unit (v * 16 + d) ≡ true
    → read_chars (hex 3 v) (hex_digit d ∷ cs) ≡ push (unit (v * 16 + d) ∷ []) (read_chars plain cs)
unfolding read_chars next closes refuses adds
read_last v d cs h u = rw (is_digit-hex_digit d h, digit-hex_digit d h, u) refl

-- The two digits of a byte, behind two digits that are read already.
read_hex2 :
    (w c : ℕ) (cs : Bytes)
    → c < 256
    → is_unit ((w * 16 + c / 16) * 16 + c % 16) ≡ true
    → read_chars (hex 2 w) (hex2 c ++ cs)
      ≡ push (unit ((w * 16 + c / 16) * 16 + c % 16) ∷ []) (read_chars plain cs)
read_hex2 w c cs h u =
    read_digit 2 w (c / 16) (hex_digit (c % 16) ∷ cs) (omega arith) refl
    ∙ read_last (w * 16 + c / 16) (c % 16) cs (omega arith) u

unit_low :
    (c : ℕ)
    → c < 0x20
    → (is_unit ((0 + c / 16) * 16 + c % 16) ≡ true) × (unit ((0 + c / 16) * 16 + c % 16) ≡ c)
unit_low c h = (ground arith, ground arith)

unit_high :
    (c : ℕ)
    → 0x80 ≤ c
    → c < 256
    → (is_unit ((3520 + c / 16) * 16 + c % 16) ≡ true) × (unit ((3520 + c / 16) * 16 + c % 16) ≡ c)
unit_high c g h = (ground arith, ground arith)

-- The prefixes of the two escapes.
read_u00 : (cs : Bytes) → read_chars plain (codes "\\u00" ++ cs) ≡ read_chars (hex 2 0) cs
unfolding read_chars next closes refuses adds
read_u00 cs = simp push-nil

read_udc : (cs : Bytes) → read_chars plain (codes "\\udc" ++ cs) ≡ read_chars (hex 2 220) cs
unfolding read_chars next closes refuses adds
read_udc cs = simp push-nil

pub read_control :
    (c : ℕ) (cs : Bytes)
    → c < 0x20
    → read_chars plain (codes "\\u00" ++ (hex2 c ++ cs)) ≡ push (c ∷ []) (read_chars plain cs)
read_control c cs h =
    let (ascii, same) = unit_low c h in
    read_u00 (hex2 c ++ cs)
    ∙ (read_hex2 0 c cs (omega arith) ascii ∙ ap (λ x. push (x ∷ []) (read_chars plain cs)) same)

pub read_undecodable :
    (c : ℕ) (cs : Bytes)
    → 0x80 ≤ c
    → c < 256
    → read_chars plain (codes "\\udc" ++ (hex2 c ++ cs)) ≡ push (c ∷ []) (read_chars plain cs)
read_undecodable c cs g h =
    let (escaped, same) = unit_high c g h in
    read_udc (hex2 c ++ cs)
    ∙ (read_hex2 220 c cs h escaped ∙ ap (λ x. push (x ∷ []) (read_chars plain cs)) same)

pub read_special :
    (c : ℕ) (cs : Bytes)
    → ((c == b'"') || (c == 92)) ≡ true
    → read_chars plain (92 ∷ c ∷ cs) ≡ push (c ∷ []) (read_chars plain cs)
unfolding read_chars next closes refuses adds
read_special c cs h =
    let other : (c == b'u') ≡ false = ground arith in
    let taken : ((c == b'"') || ((c == 92) || false)) ≡ true = ground arith in
    rw (other, taken) (simp push-nil)
