-- ===== src/Utils/Hex.antt =====
-- utils/key.go, lines 36 to 62: the hex spelling of an address. A string is the list of its bytes.
-- `encode_hex` and `decode_hex` are EncodeToString and DecodeString of encoding/hex; the latter returns
-- what it has read before an error, which the source drops.
use mefs_go_settlement.Base.{
  ℕ, ◌+◌, ◌-◌, ◌*◌, ◌/◌, ◌%◌, ◌^◌, ◌<◌, ◌==◌, ltb, leb, ◌≡◌, refl, ap, ◌∙◌, arith, if◌then◌else◌,
  Bool, false, ◌&&◌, ◌||◌, List, [], ◌∷◌, length, drop, Option, none, some,
}
use mefs_go_settlement.Utils.Key.{Address, address_length, bytes, bytes_to_address}
use mefs_go_settlement.Utils.Bytes.{AreBytes, bytes-AreBytes, length-bytes, number-bytes}

unfoldable hex_digit : ℕ → ℕ
hex_digit d = if ltb d 10 then b'0' + d else b'a' - 10 + d

unfoldable pub encode_hex : List ℕ → List ℕ
unfolding hex_digit
encode_hex [] = []
encode_hex (b ∷ bs) = hex_digit (b / 16) ∷ hex_digit (b % 16) ∷ encode_hex bs

unfoldable hex_value : ℕ → Option ℕ
hex_value c =
    if leb b'0' c && leb c b'9'
    then some (c - b'0')
    else (if leb b'a' c && leb c b'f'
        then some (c - b'a' + 10)
        else (if leb b'A' c && leb c b'F' then some (c - b'A' + 10) else none))

-- The byte that two characters spell.
unfoldable byte_of : ℕ → ℕ → Option ℕ
unfolding hex_value
byte_of p q = elim (hex_value p) [
  | none ↦ none
  | some a ↦ elim (hex_value q) [ none ↦ none | some b ↦ some (a * 16 + b) ]
]

unfoldable pub decode_hex : List ℕ → List ℕ
unfolding byte_of
decode_hex [] = []
decode_hex (p ∷ []) = []
decode_hex (p ∷ q ∷ cs) = elim (byte_of p q) [ none ↦ [] | some b ↦ b ∷ decode_hex cs ]

-- `String`
unfoldable pub to_string : Address → List ℕ
unfolding encode_hex bytes
to_string a = b'0' ∷ b'x' ∷ encode_hex (bytes address_length a)

unfoldable pub has_0x_prefix : List ℕ → Bool
has_0x_prefix [] = false
has_0x_prefix (p ∷ []) = false
has_0x_prefix (p ∷ q ∷ cs) = (p == b'0') && ((q == b'x') || (q == b'X'))

unfoldable pub from_hex : List ℕ → List ℕ
unfolding has_0x_prefix decode_hex
from_hex s =
    let body = if has_0x_prefix s then drop 2 s else s in
    decode_hex (if length body % 2 == 1 then b'0' ∷ body else body)

unfoldable pub hex_to_address : List ℕ → Address
unfolding from_hex bytes_to_address
hex_to_address s = bytes_to_address (from_hex s)

-- ## What is spelled is read back

hex_value-hex_digit : (d : ℕ) → d < 16 → hex_value (hex_digit d) ≡ some d
unfolding hex_value hex_digit
hex_value-hex_digit d h = ground (arith, h)

byte_of_lem : (b : ℕ) → b < 256 → byte_of (hex_digit (b / 16)) (hex_digit (b % 16)) ≡ some b
unfolding byte_of
byte_of_lem b h =
    rw
      (
        hex_value-hex_digit (b / 16) (omega (arith, h)),
        hex_value-hex_digit (b % 16) (omega arith),
        byte_of,
      )
      (ap some (omega arith))

decode_hex-encode_hex : (bs : List ℕ) → AreBytes bs → decode_hex (encode_hex bs) ≡ bs
unfolding encode_hex decode_hex
decode_hex-encode_hex [] h = refl
decode_hex-encode_hex (b ∷ bs) h =
    rw (byte_of_lem b h.0, decode_hex) (ap (λ x. b ∷ x) (decode_hex-encode_hex bs h.1))

-- Twice as many characters as bytes.
length-encode_hex : (bs : List ℕ) → length (encode_hex bs) ≡ length bs + length bs
unfolding encode_hex
length-encode_hex [] = refl
length-encode_hex (b ∷ bs) = omega (arith, length-encode_hex bs)

even_length : (bs : List ℕ) → (length (encode_hex bs) % 2 == 1) ≡ false
even_length bs = ground (arith, length-encode_hex bs)

-- No spelling without the prefix looks like one with it.
no_prefix : (bs : List ℕ) → has_0x_prefix (encode_hex bs) ≡ false
unfolding encode_hex has_0x_prefix hex_digit
no_prefix [] = refl
no_prefix (b ∷ bs) = ground arith

from_hex-encode_hex : (bs : List ℕ) → AreBytes bs → from_hex (encode_hex bs) ≡ bs
unfolding from_hex
from_hex-encode_hex bs h = rw (no_prefix bs, even_length bs) (decode_hex-encode_hex bs h)

from_hex-prefix : (bs : List ℕ) → AreBytes bs → from_hex (b'0' ∷ b'x' ∷ encode_hex bs) ≡ bs
unfolding from_hex has_0x_prefix
from_hex-prefix bs h = rw (even_length bs) (decode_hex-encode_hex bs h)

read_address : (a : Address) → a < 256 ^ 20 → bytes_to_address (bytes address_length a) ≡ a
unfolding bytes_to_address
read_address a h = rw (length-bytes 20 a) (number-bytes 20 a h)

-- The hex spelling of an address, which has 20 bytes, reads back as the address, with its prefix and
-- without it.
pub hex_to_address-to_string :
    (a : Address)
    → a < 256 ^ 20
    → (hex_to_address (to_string a) ≡ a) × (hex_to_address (drop 2 (to_string a)) ≡ a)
unfolding hex_to_address to_string
hex_to_address-to_string a h = (
  ap bytes_to_address (from_hex-prefix (bytes 20 a) (bytes-AreBytes 20 a)) ∙ read_address a h,
  ap bytes_to_address (from_hex-encode_hex (bytes 20 a) (bytes-AreBytes 20 a)) ∙ read_address a h,
)
