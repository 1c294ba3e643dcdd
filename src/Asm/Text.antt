-- ===== src/Asm/Text.antt =====
-- The text helpers of asm.c. A string is the list of its bytes before the terminator. A pointer
-- into a string is the part from it on.
use oxalyn.Base.{
  ℕ, ◌+◌, ◌-◌, ◌*◌, ◌%◌, ◌^◌, Bool, true, false, ◌&&◌, ◌||◌, Option, none, some, List, [], ◌∷◌,
  ◌==◌, leb, if◌then◌else◌, take, map, u32, u64,
}
use oxalyn.Base.Int.{ℤ, signed64}

abbrev pub Text : Type 0
Text = List ℕ

abbrev pub max_label_len : ℕ
max_label_len = 64

abbrev pub is_blank : ℕ → Bool
is_blank c = c == b' ' || c == 9

abbrev pub between : ℕ → ℕ → ℕ → Bool
between low c high = leb low c && leb c high

unfoldable pub skip_ws : Text → Text
skip_ws [] = []
skip_ws (c ∷ cs) = let rest = skip_ws cs in if is_blank c then rest else c ∷ cs

-- The text before the first `;` or end of line.
unfoldable pub cut_comment : Text → Text
cut_comment [] = []
cut_comment (c ∷ cs) =
    let rest = cut_comment cs in if c == b';' || c == 10 || c == 13 then [] else c ∷ rest

-- Without the blanks at the end: a blank is kept where something stands behind it.
unfoldable pub cut_blanks : Text → Text
cut_blanks [] = []
cut_blanks (c ∷ cs) = elim (cut_blanks cs) [
  | [] ↦ if is_blank c then [] else c ∷ []
  | d ∷ ds ↦ c ∷ d ∷ ds
]

unfoldable pub trim_line : Text → Text
unfolding cut_comment cut_blanks
trim_line buf = cut_blanks (cut_comment buf)

-- The characters of a token and the text behind them.
unfoldable pub token_span : Text → Text × Text
token_span [] = ([], [])
token_span (c ∷ cs) =
    let (token, rest) = token_span cs in
    if is_blank c || c == b',' || c == b';' then ([], c ∷ cs) else (c ∷ token, rest)

-- `if (*p == ',') p++;`
unfoldable pub skip_comma : Text → Text
skip_comma [] = []
skip_comma (c ∷ cs) = if c == b',' then cs else c ∷ cs

unfoldable pub token_or_none : Text → Text → Option (Text × Text)
token_or_none [] rest = none
token_or_none (c ∷ cs) rest = some (c ∷ cs, rest)

-- A token, of which `max - 1` bytes are kept, and the text behind it and its comma.
unfoldable pub next_token : Text → ℕ → Option (Text × Text)
unfolding skip_ws token_span skip_comma token_or_none
next_token p max =
    let (token, rest) = token_span (skip_ws p) in
    token_or_none (take (max - 1) token) (skip_comma (skip_ws rest))

unfoldable pub upper : ℕ → ℕ
upper c = if between b'a' c b'z' then c - 32 else c

unfoldable pub to_upper : Text → Text
unfolding upper
to_upper s = map upper s

-- `n <= 31`, with -1 for what is no register.
abbrev pub register : ℕ → Option ℕ
register n = if leb n 31 then some n else none

unfoldable pub register_of : Text → Option ℕ
register_of (r ∷ d ∷ []) = if r == b'R' && between b'0' d b'9' then register (d - b'0') else none
register_of (r ∷ d ∷ e ∷ []) =
    if r == b'R' && between b'1' d b'3' && between b'0' e b'9'
    then register ((d - b'0') * 10 + (e - b'0'))
    else none
register_of _ = none

unfoldable pub parse_reg : Text → Option ℕ
unfolding register_of upper
parse_reg s = register_of (map upper (take 7 s))

-- The sign of a number, and the digits behind it.
unfoldable pub sign_of : Text → Bool × Text
sign_of [] = (false, [])
sign_of (c ∷ cs) =
    if c == b'-' then (true, cs) else if c == b'+' then (false, cs) else (false, c ∷ cs)

abbrev pub digit_value : ℕ → Option ℕ
digit_value c =
    if between b'0' c b'9'
    then some (c - b'0')
    else if between b'a' c b'f'
    then some (c - b'a' + 10)
    else if between b'A' c b'F'
    then some (c - b'A' + 10)
    else none

-- The loop over the digits of an `int32_t`, as its 32-bit pattern. The source leaves the overflow
-- of `val * base + d` undefined; the pattern wraps around.
unfoldable pub digits32 : ℕ → ℕ → Text → Option ℕ
digits32 base value [] = some value
digits32 base value (c ∷ cs) = elim (digit_value c) [
  | none ↦ none
  | some d ↦
      let rest = digits32 base (u32 (value * base + d)) cs in if leb base d then none else rest
]

-- A number without any digit is none.
abbrev pub some_digits : (Text → Option ℕ) → Text → Option ℕ
some_digits f [] = none
some_digits f (c ∷ cs) = f (c ∷ cs)

unfoldable pub parse_unsigned : Text → Option ℕ
unfolding digits32
parse_unsigned (z ∷ x ∷ cs) =
    if z == b'0' && (x == b'x' || x == b'X')
    then some_digits (digits32 16 0) cs
    else if z == b'0' && (x == b'b' || x == b'B')
    then some_digits (digits32 2 0) cs
    else digits32 10 0 (z ∷ x ∷ cs)
parse_unsigned s = some_digits (digits32 10 0) s

-- `sign * value` as a pattern of `w` bits.
abbrev pub signed_pattern : Bool → ℕ → ℕ → ℕ
signed_pattern negative w x = if negative then (2 ^ w - x) % 2 ^ w else x

unfoldable pub parse_number : Text → Option ℕ
unfolding sign_of parse_unsigned
parse_number s =
    let (negative, digits) = sign_of s in
    elim (parse_unsigned digits) [ none ↦ none | some x ↦ some (signed_pattern negative 32 x) ]

-- The 64-bit loops stop in front of the first byte that is no digit; a digit of a larger base, and
-- anything that is left, is refused.
unfoldable pub digits64 : ℕ → ℕ → Text → Option ℕ
digits64 base value [] = some value
digits64 base value (c ∷ cs) = elim (digit_value c) [
  | none ↦ none
  | some d ↦
      let rest = digits64 base (u64 (value * base + d)) cs in if leb base d then none else rest
]

unfoldable pub parse_unsigned64 : Text → Option ℕ
unfolding digits64
parse_unsigned64 (z ∷ x ∷ cs) =
    if z == b'0' && (x == b'b' || x == b'B')
    then some_digits (digits64 2 0) cs
    else if z == b'0' && (x == b'x' || x == b'X')
    then some_digits (digits64 16 0) cs
    else digits64 10 0 (z ∷ x ∷ cs)
parse_unsigned64 s = some_digits (digits64 10 0) s

unfoldable pub parse_number64 : Text → Option ℤ
unfolding sign_of parse_unsigned64
parse_number64 s =
    let (negative, digits) = sign_of s in
    elim (parse_unsigned64 digits) [
      | none ↦ none
      | some x ↦ some (signed64 (signed_pattern negative 64 x))
    ]
