-- ===== src/Bytes.antt =====
-- The byte layer below rust/mcap/src/records.rs: little-endian integers, length-prefixed strings and
-- a cursor over the bytes that are left.
pub mod RoundTrip
pub mod Total
use mcap.Prelude.{
  ℕ, zero, suc, ◌+◌, ◌*◌, ◌/◌, ◌%◌, ◌^◌, ◌&&◌, Bool, true, false, Option, none, some, List, [], ◌∷◌,
  ◌++◌, length, take, drop, ltb, leb, ◌==◌, if◌then◌else◌,
}
use mcap.Error
use mcap.Error.{Bytes, Result, ok, err, parse, eof, utf8}

-- A reader over a `Cursor`: the state is the bytes from the cursor on.
abbrev pub Parser {ℓ} : Type ℓ → Type ℓ
Parser A = Bytes → Result (A × Bytes)

module _ {ℓ} {A : Type ℓ} where
  unfoldable pub pure : A → Parser A
  pure a bs = ok (a, bs)

module _ {ℓ κ} {A : Type ℓ} {B : Type κ} where
  infixl 5 ◌>>=◌
  unfoldable pub ◌>>=◌ : Parser A → (A → Parser B) → Parser B
  ◌>>=◌ p f bs = Error.◌>>=◌ (p bs) (λ r. f r.0 r.1)

-- The `k` bytes of an unsigned integer, lowest first, as `write_le` gives them.
unfoldable pub put_le : ℕ → ℕ → Bytes
put_le zero v = []
put_le (suc k) v = (v % 256) ∷ put_le k (v / 256)

-- `read_le` of an unsigned integer of `k` bytes.
unfoldable pub get_le : ℕ → Parser ℕ
get_le zero bs = ok (0, bs)
get_le (suc k) [] = err (parse eof)
get_le (suc k) (b ∷ bs) = Error.◌>>=◌ (get_le k bs) (λ r. ok (b + 256 * r.0, r.1))

-- A `Vec<u8>` of a given count.
unfoldable pub get_bytes : ℕ → Parser Bytes
get_bytes n bs = if leb n (length bs) then ok (take n bs, drop n bs) else err (parse eof)

-- How many continuation bytes a sequence still wants, and the range of the next one.
abbrev pub Utf8State : Type 0
Utf8State = ℕ × ℕ × ℕ

utf8_lead : ℕ → Option Utf8State
utf8_lead b =
    if ltb b 0x80
    then some (0, 0, 0)
    else if leb 0xc2 b && leb b 0xdf
    then some (1, 0x80, 0xbf)
    else if b == 0xe0
    then some (2, 0xa0, 0xbf)
    else if b == 0xed
    then some (2, 0x80, 0x9f)
    else if leb 0xe1 b && leb b 0xef
    then some (2, 0x80, 0xbf)
    else if b == 0xf0
    then some (3, 0x90, 0xbf)
    else if leb 0xf1 b && leb b 0xf3
    then some (3, 0x80, 0xbf)
    else if b == 0xf4
    then some (3, 0x80, 0x8f)
    else none

utf8_next : Option Utf8State → ℕ → Option Utf8State
utf8_next none b = none
utf8_next (some (zero, lo, hi)) b = utf8_lead b
utf8_next (some (suc n, lo, hi)) b = if leb lo b && leb b hi then some (n, 0x80, 0xbf) else none

utf8_run : Option Utf8State → Bytes → Bool
utf8_run none [] = false
utf8_run (some (n, lo, hi)) [] = n == 0
utf8_run s (b ∷ bs) = utf8_run (utf8_next s b) bs

-- Does `String::from_utf8` accept the bytes?
unfoldable pub is_utf8 : Bytes → Bool
unfolding utf8_run utf8_next utf8_lead
is_utf8 = utf8_run (some (0, 0, 0))

-- `McapString`: a u32 length and the bytes of the text, which must be UTF-8.
unfoldable pub get_string : Parser Bytes
get_string =
    get_le 4 >>= λ n. get_bytes n >>= λ s. if is_utf8 s then pure s else λ _. err (parse utf8)

-- `write_string`: `s.len() as u32` keeps the low 32 bits.
unfoldable pub put_string : Bytes → Bytes
put_string s = put_le 4 (length s % 2 ^ 32) ++ s
