-- ===== src/Windows/Utf16/RoundTrip.antt =====
-- `_utf16_code_units` of windows_injector.py against a decoder of UTF-16.
use nadikt.Base.{
  ℕ, ◌+◌, ◌-◌, ◌*◌, ◌<◌, Bool, true, false, ◌&&◌, none, some, List, [], ◌∷◌, ◌++◌, ◌≡◌, ◌≢◌, ◌↔◌,
  refl, arith, leb, ◌==◌, All, Option-cases, Bool-cases, inl, inr, any_of,
}
use nadikt.Windows.Utf16.{
  is_surrogate, units_of, bytes_of, encode_utf_16_le, little_pairs, replace_cr_lf,
  normalize_newlines, utf16_code_units,
}

abbrev is_high : ℕ → Bool
is_high u = leb 55296 u && leb u 56319

abbrev is_low : ℕ → Bool
is_low u = leb 56320 u && leb u 57343

-- What a reader of UTF-16 makes of code units.
unfoldable pub decode_utf16 : List ℕ → List ℕ
decode_utf16 [] = []
decode_utf16 (u ∷ []) = u ∷ []
decode_utf16 (u ∷ v ∷ rest) = elim (is_high u && is_low v) [
  | true ↦ (65536 + (u - 55296) * 1024 + (v - 56320)) ∷ decode_utf16 rest
  | false ↦ u ∷ decode_utf16 (v ∷ rest)
]

pairs-bytes : (us rest : List ℕ) → little_pairs (bytes_of us ++ rest) ≡ us ++ little_pairs rest
unfolding little_pairs bytes_of
pairs-bytes [] rest = refl
pairs-bytes (u ∷ us) rest = ground (arith, pairs-bytes us rest)

decode-units :
    (c : ℕ) (rest : List ℕ)
    → c < 1114112
    → is_surrogate c ≡ false
    → decode_utf16 (units_of c ++ rest) ≡ c ∷ decode_utf16 rest
unfolding decode_utf16 units_of is_surrogate
decode-units c [] h n = ground arith
decode-units c (v ∷ rest) h n = ground arith

decode-nil : decode_utf16 (little_pairs []) ≡ []
unfolding decode_utf16 little_pairs
decode-nil = refl

decode-encode :
    (text bytes : List ℕ)
    → All (λ c. c < 1114112) text
    → encode_utf_16_le text ≡ some bytes
    → decode_utf16 (little_pairs bytes) ≡ text
unfolding encode_utf_16_le
decode-encode [] bytes h e = ground (arith, decode-nil)
decode-encode (c ∷ cs) bytes h e = elim (Option-cases (encode_utf_16_le cs)) [
  | inl p ↦ absurd (ground arith)
  | inr (rest, p) ↦
      let ih = decode-encode cs rest h.1 p in
      ground (arith, ih, pairs-bytes (units_of c) rest, decode-units c (little_pairs rest) h.0)
]

units-bounds : (c : ℕ) → c < 1114112 → All (λ u. u < 65536) (units_of c)
unfolding units_of
units-bounds c h = ground arith

All-append :
    (xs ys : List ℕ)
    → All (λ u. u < 65536) xs
    → All (λ u. u < 65536) ys
    → All (λ u. u < 65536) (xs ++ ys)
All-append [] ys h k = k
All-append (x ∷ xs) ys h k = (h.0, All-append xs ys h.1 k)

encode-bounds :
    (text bytes : List ℕ)
    → All (λ c. c < 1114112) text
    → encode_utf_16_le text ≡ some bytes
    → All (λ u. u < 65536) (little_pairs bytes)
unfolding encode_utf_16_le little_pairs
encode-bounds [] bytes h e = ground arith
encode-bounds (c ∷ cs) bytes h e = elim (Option-cases (encode_utf_16_le cs)) [
  | inl p ↦ absurd (ground arith)
  | inr (rest, p) ↦
      let q : little_pairs bytes ≡ units_of c ++ little_pairs rest =
        ground (arith, pairs-bytes (units_of c) rest) in
      rw q (
        All-append (units_of c) (little_pairs rest) (units-bounds c h.0)
          (encode-bounds cs rest h.1 p))
]

-- Line breaks of the three kinds as `\n`, in one pass; `after` tells that a `\r` came last.
unfoldable pub line_feeds : (after : Bool) → List ℕ → List ℕ
line_feeds after [] = []
line_feeds after (c ∷ cs) = elim (c == b'\n' && after) [
  | true ↦ line_feeds false cs
  | false ↦ elim (c == b'\r') [
    | true ↦ b'\n' ∷ line_feeds true cs
    | false ↦ c ∷ line_feeds false cs
  ]
]

-- Two calls of `str.replace` are the one pass.
normalize-line_feeds : (text : List ℕ) → normalize_newlines text ≡ line_feeds false text
unfolding normalize_newlines replace_cr_lf line_feeds
normalize-line_feeds [] = refl
normalize-line_feeds (c ∷ []) = ground arith
normalize-line_feeds (c ∷ d ∷ rest) =
    ground (arith, normalize-line_feeds rest, normalize-line_feeds (d ∷ rest))

line_feeds-bounds :
    (after : Bool) (text : List ℕ)
    → All (λ c. c < 1114112) text
    → All (λ c. c < 1114112) (line_feeds after text)
unfolding line_feeds
line_feeds-bounds after [] h = tt
line_feeds-bounds after (c ∷ cs) h =
    ground (arith, line_feeds-bounds true cs h.1, line_feeds-bounds false cs h.1)

line_feeds-surrogate :
    (after : Bool) (text : List ℕ)
    → any_of is_surrogate (line_feeds after text) ≡ any_of is_surrogate text
unfolding line_feeds is_surrogate
line_feeds-surrogate after [] = refl
line_feeds-surrogate after (c ∷ cs) =
    ground (arith, line_feeds-surrogate true cs, line_feeds-surrogate false cs)

encode-IsSome : (text : List ℕ) → any_of is_surrogate text ≡ false → encode_utf_16_le text ≢ none
unfolding encode_utf_16_le
encode-IsSome [] h = ground arith
encode-IsSome (c ∷ cs) h = ground (arith, encode-IsSome cs)

pub encode-IsNone : (text : List ℕ) → any_of is_surrogate text ≡ true → encode_utf_16_le text ≡ none
unfolding encode_utf_16_le
encode-IsNone [] h = ground arith
encode-IsNone (c ∷ cs) h = ground (arith, encode-IsNone cs)

encode_iff : (text : List ℕ) → (any_of is_surrogate text ≡ false) ↔ (encode_utf_16_le text ≢ none)
encode_iff text = (
  encode-IsSome text,
  λ f. elim (Bool-cases (any_of is_surrogate text)) [
    | inl p ↦ absurd (f (encode-IsNone text p))
    | inr p ↦ p
  ],
)

units_iff :
    (text : List ℕ)
    → (encode_utf_16_le (normalize_newlines text) ≢ none) ↔ (utf16_code_units text ≢ none)
unfolding utf16_code_units
units_iff text = elim (Option-cases (encode_utf_16_le (normalize_newlines text))) [
  | inl p ↦ ground arith
  | inr (bytes, p) ↦ ground arith
]

-- For a text of code points, `_utf16_code_units` succeeds exactly when none is a surrogate; what it
-- gives are 16-bit units, which a reader of UTF-16 decodes to the text with its line breaks of the
-- three kinds made `\n`.
pub utf16_code_units-decode :
    (text : List ℕ)
    → All (λ c. c < 1114112) text
    → ((any_of is_surrogate text ≡ false) ↔ (utf16_code_units text ≢ none))
      × ((units : List ℕ)
          → utf16_code_units text ≡ some units
          → All (λ u. u < 65536) units × (decode_utf16 units ≡ line_feeds false text))
unfolding utf16_code_units
utf16_code_units-decode text h =
    let n = normalize-line_feeds text in
    let m = normalize_newlines text in
    let bounded : All (λ c. c < 1114112) m = rw n (line_feeds-bounds false text h) in
    let same = line_feeds-surrogate false text in
    (
      (
        λ f. (units_iff text).0 ((encode_iff m).0 (rw (n, same, f))),
        λ f. rw (← same, ← n) ((encode_iff m).1 ((units_iff text).1 f)),
      ),
      λ units e. elim (Option-cases (encode_utf_16_le m)) [
        | inl p ↦ absurd (ground arith)
        | inr (bytes, p) ↦
            let q : units ≡ little_pairs bytes = ground arith in
            (rw q (encode-bounds m bytes bounded p), rw (q, ← n) (decode-encode m bytes bounded p))
      ],
    )
