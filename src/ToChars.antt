-- ===== src/ToChars.antt =====
-- include/jsonifier-incl/utilities/i_to_str.hpp: the decimal text of an unsigned 64-bit number,
-- `to_chars<uint64_t>::impl`, with one function for each `to_chars_internal<v_type, N>::impl`.
-- A function returns the bytes that the source writes at `buf`; the pointer that the source
-- returns is `buf` plus their number. The digit tables are functions of their index, and the
-- chosen byte order of the tables is that of a little-endian machine.
pub mod Chunks
pub mod Exact
pub mod Signed
use jsonifier.Prelude.{
  ℕ, ◌+◌, ◌*◌, ◌/◌, ◌%◌, ◌^◌, [], ◌∷◌, ◌++◌, ltb, if◌then◌else◌, Bytes, sub64, mul64,
}

-- `static_cast<char>(a) + zero`, stored in a `char`
abbrev pub digit_char : ℕ → ℕ
digit_char a = (a % 256 + 48) % 256

-- The bytes of an entry of each table, as `memcpy` reads them.
unfoldable pub gen_2 : ℕ → Bytes
gen_2 i = (48 + i / 10) ∷ (48 + i % 10) ∷ []

unfoldable pub gen_3 : ℕ → Bytes
gen_3 i = (48 + i / 100) ∷ (48 + i / 10 % 10) ∷ (48 + i % 10) ∷ []

unfoldable pub gen_4 : ℕ → Bytes
gen_4 i = (48 + i / 1000) ∷ (48 + i / 100 % 10) ∷ (48 + i / 10 % 10) ∷ (48 + i % 10) ∷ []

-- `value * 3518437209ULL >> 45`
unfoldable pub shift_45 : ℕ → ℕ
shift_45 v = mul64 v 3518437209 / 2 ^ 45

-- `static_cast<__uint128_t>(value) * 12379400392853802749ULL >> 90`
unfoldable pub multiply_and_shift : ℕ → ℕ
multiply_and_shift v = v * 12379400392853802749 % 2 ^ 128 / 2 ^ 90 % 2 ^ 64

-- `x - (q * 10000U)`
abbrev pub less_10000 : ℕ → ℕ → ℕ
less_10000 x q = sub64 x (mul64 q 10000)

-- `x - q * 100000000ULL`
abbrev pub less_100000000 : ℕ → ℕ → ℕ
less_100000000 x q = sub64 x (mul64 q 100000000)

unfoldable pub to_chars_5 : ℕ → Bytes
to_chars_5 v = let a = shift_45 v in digit_char a ∷ gen_4 (less_10000 v a)

unfoldable pub to_chars_6 : ℕ → Bytes
to_chars_6 v = let ab = shift_45 v in gen_2 ab ++ gen_4 (less_10000 v ab)

unfoldable pub to_chars_7 : ℕ → Bytes
to_chars_7 v = let abc = shift_45 v in gen_3 abc ++ gen_4 (less_10000 v abc)

unfoldable pub to_chars_8 : ℕ → Bytes
to_chars_8 v = let abcd = shift_45 v in gen_4 abcd ++ gen_4 (less_10000 v abcd)

unfoldable pub to_chars_9 : ℕ → Bytes
to_chars_9 v =
    let a = multiply_and_shift v in
    let bcdefghi = less_100000000 v a in
    let bcde = shift_45 bcdefghi in
    let fghi = less_10000 bcdefghi bcde in digit_char a ∷ (gen_4 bcde ++ gen_4 fghi)

unfoldable pub to_chars_10 : ℕ → Bytes
to_chars_10 v =
    let ab = multiply_and_shift v in
    let cdefghij = less_100000000 v ab in
    let cdef = shift_45 cdefghij in
    let ghij = less_10000 cdefghij cdef in gen_2 ab ++ (gen_4 cdef ++ gen_4 ghij)

unfoldable pub to_chars_11 : ℕ → Bytes
to_chars_11 v =
    let abc = multiply_and_shift v in
    let defghijk = less_100000000 v abc in
    let defg = shift_45 defghijk in
    let hijk = less_10000 defghijk defg in gen_3 abc ++ (gen_4 defg ++ gen_4 hijk)

unfoldable pub to_chars_12 : ℕ → Bytes
to_chars_12 v =
    let abcd = multiply_and_shift v in
    let efghijkl = less_100000000 v abcd in
    let efgh = shift_45 efghijkl in
    let ijkl = less_10000 efghijkl efgh in gen_4 abcd ++ (gen_4 efgh ++ gen_4 ijkl)

unfoldable pub to_chars_13 : ℕ → Bytes
to_chars_13 v =
    let abcde = multiply_and_shift v in
    let fghijklm = less_100000000 v abcde in
    let a = shift_45 abcde in
    let bcde = less_10000 abcde a in
    let fghi = shift_45 fghijklm in
    let jklm = less_10000 fghijklm fghi in digit_char a ∷ (gen_4 bcde ++ (gen_4 fghi ++ gen_4 jklm))

unfoldable pub to_chars_14 : ℕ → Bytes
to_chars_14 v =
    let abcdef = multiply_and_shift v in
    let ghijklmn = less_100000000 v abcdef in
    let ab = shift_45 abcdef in
    let cdef = less_10000 abcdef ab in
    let ghij = shift_45 ghijklmn in
    let klmn = less_10000 ghijklmn ghij in gen_2 ab ++ (gen_4 cdef ++ (gen_4 ghij ++ gen_4 klmn))

unfoldable pub to_chars_15 : ℕ → Bytes
to_chars_15 v =
    let abcdefg = multiply_and_shift v in
    let hijklmno = less_100000000 v abcdefg in
    let abc = shift_45 abcdefg in
    let defg = less_10000 abcdefg abc in
    let hijk = shift_45 hijklmno in
    let lmno = less_10000 hijklmno hijk in gen_3 abc ++ (gen_4 defg ++ (gen_4 hijk ++ gen_4 lmno))

unfoldable pub to_chars_16 : ℕ → Bytes
to_chars_16 v =
    let abcdefgh = multiply_and_shift v in
    let ijklmnop = less_100000000 v abcdefgh in
    let abcd = shift_45 abcdefgh in
    let efgh = less_10000 abcdefgh abcd in
    let ijkl = shift_45 ijklmnop in
    let mnop = less_10000 ijklmnop ijkl in gen_4 abcd ++ (gen_4 efgh ++ (gen_4 ijkl ++ gen_4 mnop))

unfoldable pub to_chars_17 : ℕ → Bytes
to_chars_17 v =
    let abcdefghi = multiply_and_shift v in
    let jklmnopq = less_100000000 v abcdefghi in
    let a = multiply_and_shift abcdefghi in
    let bcdefghi = less_100000000 abcdefghi a in
    let bcde = shift_45 bcdefghi in
    let fghi = less_10000 bcdefghi bcde in
    let jklm = shift_45 jklmnopq in
    let nopq = less_10000 jklmnopq jklm in
    digit_char a ∷ (gen_4 bcde ++ (gen_4 fghi ++ (gen_4 jklm ++ gen_4 nopq)))

unfoldable pub to_chars_18 : ℕ → Bytes
to_chars_18 v =
    let abcdefghij = multiply_and_shift v in
    let klmnopqr = less_100000000 v abcdefghij in
    let ab = multiply_and_shift abcdefghij in
    let cdefghij = less_100000000 abcdefghij ab in
    let cdef = shift_45 cdefghij in
    let ghij = less_10000 cdefghij cdef in
    let klmn = shift_45 klmnopqr in
    let opqr = less_10000 klmnopqr klmn in
    gen_2 ab ++ (gen_4 cdef ++ (gen_4 ghij ++ (gen_4 klmn ++ gen_4 opqr)))

unfoldable pub to_chars_19 : ℕ → Bytes
to_chars_19 v =
    let abcdefghijk = multiply_and_shift v in
    let lmnopqrs = less_100000000 v abcdefghijk in
    let abc = multiply_and_shift abcdefghijk in
    let defghijk = less_100000000 abcdefghijk abc in
    let defg = shift_45 defghijk in
    let hijk = less_10000 defghijk defg in
    let lmno = shift_45 lmnopqrs in
    let pqrs = less_10000 lmnopqrs lmno in
    gen_3 abc ++ (gen_4 defg ++ (gen_4 hijk ++ (gen_4 lmno ++ gen_4 pqrs)))

unfoldable pub to_chars_20 : ℕ → Bytes
to_chars_20 v =
    let abcdefghijkl = multiply_and_shift v in
    let mnopqrst = less_100000000 v abcdefghijkl in
    let abcd = multiply_and_shift abcdefghijkl in
    let efghijkl = less_100000000 abcdefghijkl abcd in
    let efgh = shift_45 efghijkl in
    let ijkl = less_10000 efghijkl efgh in
    let mnop = shift_45 mnopqrst in
    let qrst = less_10000 mnopqrst mnop in
    gen_4 abcd ++ (gen_4 efgh ++ (gen_4 ijkl ++ (gen_4 mnop ++ gen_4 qrst)))

-- the first half of the ladder: values below 100000000
to_chars_short : ℕ → Bytes
to_chars_short v =
    if ltb v 10000
    then if ltb v 100
      then if ltb v 10 then digit_char v ∷ [] else gen_2 v
      else if ltb v 1000
      then gen_3 v
      else gen_4 v
    else if ltb v 1000000
    then if ltb v 100000 then to_chars_5 v else to_chars_6 v
    else if ltb v 10000000
    then to_chars_7 v
    else to_chars_8 v

-- values from 100000000 to below 10 ^ 16
to_chars_middle : ℕ → Bytes
to_chars_middle v =
    if ltb v 1000000000000
    then if ltb v 10000000000
      then if ltb v 1000000000 then to_chars_9 v else to_chars_10 v
      else if ltb v 100000000000
      then to_chars_11 v
      else to_chars_12 v
    else if ltb v 100000000000000
    then if ltb v 10000000000000 then to_chars_13 v else to_chars_14 v
    else if ltb v 1000000000000000
    then to_chars_15 v
    else to_chars_16 v

-- `to_chars<uint64_t>::impl`
unfoldable pub to_chars : ℕ → Bytes
unfolding to_chars_short to_chars_middle
to_chars v =
    if ltb v 100000000
    then to_chars_short v
    else if ltb v 10000000000000000
    then to_chars_middle v
    else if ltb v 1000000000000000000
    then if ltb v 100000000000000000 then to_chars_17 v else to_chars_18 v
    else if ltb v 10000000000000000000
    then to_chars_19 v
    else to_chars_20 v
