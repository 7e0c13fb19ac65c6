-- ===== src/Text/Utf8/RoundTrip.antt =====
-- UTF-8: what `as_bytes` writes, `from_utf8` reads back.
use turbocable_server.Prelude.{
  ℕ, ◌+◌, ◌-◌, ◌*◌, ◌/◌, ◌%◌, ◌≤◌, ◌<◌, ◌≡◌, ◌⊎◌, inl, inr, refl, ap, ◌∙◌, true, false, ◌&&◌, some,
  [], ◌∷◌, ◌++◌, Text, Bytes, ltb, leb, nat_beq, arith, Bool-cases,
}
use turbocable_server.Text.Utf8.{encode_char, as_bytes, Lead, lead, decode_from, from_utf8, push}

-- A Unicode scalar value: what a `char` can be.
abbrev pub IsScalar : ℕ → Type 0
IsScalar c = (c < 1_114_112) × ((c < 55_296) ⊎ (57_343 < c))

abbrev pub AllScalar : Text → Type 0
AllScalar [] = Unit
AllScalar (c ∷ text) = IsScalar c × AllScalar text

-- Between two characters nothing of the last one is left.
idle_decode : (l : Lead) (bytes : Bytes) → l.needed ≡ 0 → decode_from l bytes ≡ from_utf8 bytes
unfolding decode_from
idle_decode l [] idle = ground arith
idle_decode l (b ∷ bytes) idle = rw idle refl

-- The steps of the decoder: a first byte, and a byte that follows.
first_last :
    (b : ℕ) (bytes : Bytes) (l : Lead)
    → lead b ≡ some l
    → l.needed ≡ 0
    → from_utf8 (b ∷ bytes) ≡ push l.bits (from_utf8 bytes)
unfolding decode_from
first_last b bytes l e idle =
    rw (e, decode_from) (rw idle (ap (push l.bits) (idle_decode l bytes idle)))

first_more :
    (b : ℕ) (bytes : Bytes) (l : Lead)
    → lead b ≡ some l
    → nat_beq l.needed 0 ≡ false
    → from_utf8 (b ∷ bytes) ≡ decode_from l bytes
unfolding decode_from
first_more b bytes l e more = rw (e, decode_from) (rw more refl)

abbrev next : Lead → ℕ → Lead
next l b = record {
  needed = l.needed - 1;
  least = 128;
  greatest = 191;
  bits = l.bits * 64 + (b - 128);
}

cont_more :
    (l : Lead) (b : ℕ) (bytes : Bytes)
    → nat_beq l.needed 0 ≡ false
    → (leb l.least b && leb b l.greatest) ≡ true
    → nat_beq (l.needed - 1) 0 ≡ false
    → decode_from l (b ∷ bytes) ≡ decode_from (next l b) bytes
unfolding decode_from
cont_more l b bytes inside fits more = rw (inside, fits, more, decode_from) refl

cont_last :
    (l : Lead) (b : ℕ) (bytes : Bytes)
    → nat_beq l.needed 0 ≡ false
    → (leb l.least b && leb b l.greatest) ≡ true
    → nat_beq (l.needed - 1) 0 ≡ true
    → decode_from l (b ∷ bytes) ≡ push (l.bits * 64 + (b - 128)) (from_utf8 bytes)
unfolding decode_from
cont_last l b bytes inside fits done =
    rw (inside, fits, done, decode_from)
      (ap (push (l.bits * 64 + (b - 128))) (idle_decode (next l b) bytes (ground arith)))

-- Two, three and four bytes, given what the first asks for.
two_bytes :
    (b b1 : ℕ) (bytes : Bytes) (l : Lead)
    → lead b ≡ some l
    → l.needed ≡ 1
    → (leb l.least b1 && leb b1 l.greatest) ≡ true
    → from_utf8 (b ∷ b1 ∷ bytes) ≡ push (l.bits * 64 + (b1 - 128)) (from_utf8 bytes)
two_bytes b b1 bytes l e one fits =
    first_more b (b1 ∷ bytes) l e (ground arith)
    ∙ cont_last l b1 bytes (ground arith) fits (ground arith)

three_bytes :
    (b b1 b2 : ℕ) (bytes : Bytes) (l : Lead)
    → lead b ≡ some l
    → l.needed ≡ 2
    → (leb l.least b1 && leb b1 l.greatest) ≡ true
    → (leb 128 b2 && leb b2 191) ≡ true
    → from_utf8 (b ∷ b1 ∷ b2 ∷ bytes)
      ≡ push ((l.bits * 64 + (b1 - 128)) * 64 + (b2 - 128)) (from_utf8 bytes)
three_bytes b b1 b2 bytes l e two fits fits2 =
    first_more b (b1 ∷ b2 ∷ bytes) l e (ground arith)
    ∙ cont_more l b1 (b2 ∷ bytes) (ground arith) fits (ground arith)
    ∙ cont_last (next l b1) b2 bytes (ground arith) fits2 (ground arith)

four_bytes :
    (b b1 b2 b3 : ℕ) (bytes : Bytes) (l : Lead)
    → lead b ≡ some l
    → l.needed ≡ 3
    → (leb l.least b1 && leb b1 l.greatest) ≡ true
    → (leb 128 b2 && leb b2 191) ≡ true
    → (leb 128 b3 && leb b3 191) ≡ true
    → from_utf8 (b ∷ b1 ∷ b2 ∷ b3 ∷ bytes)
      ≡ push (((l.bits * 64 + (b1 - 128)) * 64 + (b2 - 128)) * 64 + (b3 - 128)) (from_utf8 bytes)
four_bytes b b1 b2 b3 bytes l e three fits fits2 fits3 =
    first_more b (b1 ∷ b2 ∷ b3 ∷ bytes) l e (ground arith)
    ∙ cont_more l b1 (b2 ∷ b3 ∷ bytes) (ground arith) fits (ground arith)
    ∙ cont_more (next l b1) b2 (b3 ∷ bytes) (ground arith) fits2 (ground arith)
    ∙ cont_last (next (next l b1) b2) b3 bytes (ground arith) fits3 (ground arith)

-- What the first byte of each length asks for.
lead_two :
    (c : ℕ)
    → 128 ≤ c
    → c < 2048
    → lead (192 + c / 64) ≡ some (record { needed = 1; least = 128; greatest = 191; bits = c / 64 })
unfolding lead
lead_two c h k = ground arith

lead_three :
    (c : ℕ)
    → 2048 ≤ c
    → c < 65_536
    → ((c < 55_296) ⊎ (57_343 < c))
    → (l : Lead) × (lead (224 + c / 4096) ≡ some l)
      × (l.needed ≡ 2)
      × (l.bits ≡ c / 4096)
      × ((leb l.least (128 + c / 64 % 64) && leb (128 + c / 64 % 64) l.greatest) ≡ true)
unfolding lead
lead_three c h k scalar = elim (Bool-cases (nat_beq (c / 4096) 0)) [
  | inl low ↦ (
    record { needed = 2; least = 160; greatest = 191; bits = 0 },
    ground arith,
    refl,
    ground arith,
    ground arith,
  )
  | inr high ↦ elim (Bool-cases (nat_beq (c / 4096) 13)) [
    | inl near ↦ (
      record { needed = 2; least = 128; greatest = 159; bits = 13 },
      ground arith,
      refl,
      ground arith,
      ground arith,
    )
    | inr other ↦ (
      record { needed = 2; least = 128; greatest = 191; bits = c / 4096 },
      ground arith,
      refl,
      refl,
      ground arith,
    )
  ]
]

lead_four :
    (c : ℕ)
    → 65_536 ≤ c
    → c < 1_114_112
    → (l : Lead) × (lead (240 + c / 262_144) ≡ some l)
      × (l.needed ≡ 3)
      × (l.bits ≡ c / 262_144)
      × ((leb l.least (128 + c / 4096 % 64) && leb (128 + c / 4096 % 64) l.greatest) ≡ true)
unfolding lead
lead_four c h k = elim (Bool-cases (nat_beq (c / 262_144) 0)) [
  | inl low ↦ (
    record { needed = 3; least = 144; greatest = 191; bits = 0 },
    ground arith,
    refl,
    ground arith,
    ground arith,
  )
  | inr high ↦ elim (Bool-cases (nat_beq (c / 262_144) 4)) [
    | inl last ↦ (
      record { needed = 3; least = 128; greatest = 143; bits = 4 },
      ground arith,
      refl,
      ground arith,
      ground arith,
    )
    | inr other ↦ (
      record { needed = 3; least = 128; greatest = 191; bits = c / 262_144 },
      ground arith,
      refl,
      refl,
      ground arith,
    )
  ]
]

lead_one :
    (c : ℕ) → c < 128 → lead c ≡ some (record { needed = 0; least = 128; greatest = 191; bits = c })
unfolding lead
lead_one c h = ground arith

low_six : (v : ℕ) → (leb 128 (128 + v % 64) && leb (128 + v % 64) 191) ≡ true
low_six v = ground arith

-- A character of a text, with the bytes of the rest behind it.
char_read :
    (c : ℕ) (bytes : Bytes)
    → IsScalar c
    → from_utf8 (encode_char c ++ bytes) ≡ push c (from_utf8 bytes)
unfolding encode_char
char_read c bytes scalar = elim (Bool-cases (ltb c 128)) [
  | inl one ↦ rw one (first_last c bytes _ (lead_one c (ground arith)) refl)
  | inr past_one ↦ elim (Bool-cases (ltb c 2048)) [
    | inl two ↦
        let value : c / 64 * 64 + (128 + c % 64 - 128) ≡ c = omega arith in
        rw (past_one, two)
          (two_bytes (192 + c / 64) (128 + c % 64) bytes _
              (lead_two c (ground arith) (ground arith)) refl (low_six c)
            ∙ ap (λ v. push v (from_utf8 bytes)) value)
    | inr past_two ↦ elim (Bool-cases (ltb c 65_536)) [
      | inl three ↦
          let (l, e, needed, bits, fits) = lead_three c (ground arith) (ground arith) scalar.1 in
          let value : (l.bits * 64 + (128 + c / 64 % 64 - 128)) * 64 + (128 + c % 64 - 128) ≡ c =
            omega (arith, bits) in
          rw (past_one, past_two, three)
            (three_bytes (224 + c / 4096) (128 + c / 64 % 64) (128 + c % 64) bytes l e needed fits
                (low_six c)
              ∙ ap (λ v. push v (from_utf8 bytes)) value)
      | inr past_three ↦
          let (l, e, needed, bits, fits) = lead_four c (ground arith) scalar.0 in
          let value : ((l.bits * 64 + (128 + c / 4096 % 64 - 128)) * 64 + (128 + c / 64 % 64 - 128))
                  * 64
                + (128 + c % 64 - 128)
              ≡ c =
            omega (arith, bits) in
          rw (past_one, past_two, past_three)
            (four_bytes (240 + c / 262_144) (128 + c / 4096 % 64) (128 + c / 64 % 64) (128 + c % 64)
                bytes l e needed fits (low_six (c / 64)) (low_six c)
              ∙ ap (λ v. push v (from_utf8 bytes)) value)
    ]
  ]
]

-- The bytes of a text of scalar values are read back as that text.
pub from_utf8-as_bytes : (text : Text) → AllScalar text → from_utf8 (as_bytes text) ≡ some text
unfolding as_bytes decode_from
from_utf8-as_bytes [] _ = refl
from_utf8-as_bytes (c ∷ text) scalar =
    char_read c (as_bytes text) scalar.0 ∙ ap (push c) (from_utf8-as_bytes text scalar.1)
