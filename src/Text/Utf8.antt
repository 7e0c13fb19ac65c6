-- ===== src/Text/Utf8.antt =====
-- UTF-8, as `str::as_bytes` and `std::str::from_utf8` of the standard library have it.
pub mod RoundTrip
use turbocable_server.Prelude.{
  ℕ, ◌+◌, ◌-◌, ◌*◌, ◌/◌, ◌%◌, true, false, ◌&&◌, Option, none, some, [], ◌∷◌, ◌++◌, Text, Bytes,
  if◌then◌else◌, ltb, leb, nat_beq,
}

unfoldable pub encode_char : ℕ → Bytes
encode_char c =
    if ltb c 128
    then c ∷ []
    else if ltb c 2048
    then (192 + c / 64) ∷ (128 + c % 64) ∷ []
    else if ltb c 65_536
    then (224 + c / 4096) ∷ (128 + c / 64 % 64) ∷ (128 + c % 64) ∷ []
    else (240 + c / 262_144) ∷ (128 + c / 4096 % 64) ∷ (128 + c / 64 % 64) ∷ (128 + c % 64) ∷ []

unfoldable pub as_bytes : Text → Bytes
as_bytes [] = []
as_bytes (c ∷ text) = encode_char c ++ as_bytes text

-- What a first byte asks for: the number of bytes that follow, the least and the greatest value
-- that the next of them may have, and the bits it brings.
pub record Lead : Type 0 where
  pub needed : ℕ
  pub least : ℕ
  pub greatest : ℕ
  pub bits : ℕ

abbrev lead_of : ℕ → ℕ → ℕ → ℕ → Option Lead
lead_of needed least greatest bits =
    some (record { needed = needed; least = least; greatest = greatest; bits = bits })

unfoldable pub lead : ℕ → Option Lead
lead b =
    if ltb b 128
    then lead_of 0 128 191 b
    else if ltb b 194
    then none
    else if ltb b 224
    then lead_of 1 128 191 (b - 192)
    else if nat_beq b 224
    then lead_of 2 160 191 0
    else if nat_beq b 237
    then lead_of 2 128 159 13
    else if ltb b 240
    then lead_of 2 128 191 (b - 224)
    else if nat_beq b 240
    then lead_of 3 144 191 0
    else if ltb b 244
    then lead_of 3 128 191 (b - 240)
    else if nat_beq b 244
    then lead_of 3 128 143 4
    else none

abbrev pub push : ℕ → Option Text → Option Text
push c none = none
push c (some text) = some (c ∷ text)

-- The rest of the bytes, inside a character that needs more of them or between two characters.
unfoldable pub decode_from : Lead → Bytes → Option Text
decode_from l [] = if nat_beq l.needed 0 then some [] else none
decode_from l (b ∷ bytes) = elim (nat_beq l.needed 0) [
  | true ↦ elim (lead b) [
    | none ↦ none
    | some l' ↦ elim (nat_beq l'.needed 0) [
      | true ↦ push l'.bits (decode_from l' bytes)
      | false ↦ decode_from l' bytes
    ]
  ]
  | false ↦ elim (leb l.least b && leb b l.greatest) [
    | false ↦ none
    | true ↦
        let bits = l.bits * 64 + (b - 128) in
        let l' : Lead = record {
          needed = l.needed - 1;
          least = 128;
          greatest = 191;
          bits = bits;
        } in
        elim (nat_beq (l.needed - 1) 0) [
          | true ↦ push bits (decode_from l' bytes)
          | false ↦ decode_from l' bytes
        ]
  ]
]

abbrev pub from_utf8 : Bytes → Option Text
from_utf8 bytes = decode_from (record { needed = 0; least = 128; greatest = 191; bits = 0 }) bytes
