-- ===== src/Text/Paths.antt =====
-- common/utils.cpp: paths, links and quoted texts; and a test of common/sysutils.cpp.
pub mod Whole
use o2chat.Prelude.{
  ℕ, ◌+◌, ◌-◌, ◌/◌, ◌%◌, ◌^◌, ltb, leb, Bool, true, false, not, ◌&&◌, ◌||◌, List, [], ◌∷◌, ◌++◌,
  Bytes, codes, c_str, is_empty, all, ◌==◌, if◌then◌else◌, Option, none, some, u32_mod, ◌≡◌, refl,
}
use o2chat.Text.Strings.{cut, split, ends_with, ltrim}
use o2chat.Text.Decimal.{to_string}
use o2chat.Text.Number.{stoi}

-- `int2ipv4`
unfoldable pub int2ipv4 : ℕ → Bytes
int2ipv4 ip =
    to_string (ip % 256)
    ++ codes "."
    ++ to_string (ip / 2 ^ 8 % 256)
    ++ codes "."
    ++ to_string (ip / 2 ^ 16 % 256)
    ++ codes "."
    ++ to_string (ip / 2 ^ 24 % 256)

-- The pair of `host_from_link`: the host, and the port as the bit pattern of an `int`.
abbrev pub no_port : ℕ
no_port = u32_mod - 1

unfoldable pub host_parts : Bytes → List Bytes → Bytes × ℕ
host_parts host [] = ([], no_port)
host_parts host (one ∷ []) = (host, no_port)
host_parts host (first ∷ second ∷ []) = elim (stoi second) [
  | none ↦ ([], no_port)
  | some port ↦ (first, port)
]
host_parts host (first ∷ second ∷ third ∷ rest) = ([], no_port)

-- The text up to the first slash.
unfoldable pub up_to_slash : Bytes → Bytes
up_to_slash s = elim (cut (codes "/") s) [ none ↦ s | some (host, path) ↦ host ]

-- `host_from_link`
unfoldable pub host_from_link : Bytes → Bytes × ℕ
unfolding host_parts up_to_slash
host_from_link link = elim (cut (codes "//") link) [
  | none ↦ ([], no_port)
  | some (shema, rest) ↦ let host = up_to_slash rest in host_parts host (split host (codes ":"))
]

-- The loop of `dequoted` over the text between the quotes. The Boolean is true behind a backslash that is
-- not yet written.
unfoldable pub dequoted_loop : Bytes → Bool → Bytes
dequoted_loop [] false = []
dequoted_loop [] true = codes "\\"
dequoted_loop (c ∷ s) false =
    let rest = dequoted_loop s in if c == b'\\' then rest true else c ∷ rest false
dequoted_loop (c ∷ s) true =
    let rest = dequoted_loop s in
    if c == b'\\' || c == b'"' then c ∷ rest false else b'\\' ∷ c ∷ rest false

-- The text without its last byte.
unfoldable pub but_last : Bytes → Bytes
but_last [] = []
but_last (c ∷ []) = []
but_last (c ∷ d ∷ s) = c ∷ but_last (d ∷ s)

-- `dequoted`
unfoldable pub dequoted : Bytes → Bytes
unfolding dequoted_loop but_last
dequoted [] = []
dequoted (c ∷ s) =
    if not (c == b'"')
    then dequoted_loop (c ∷ s) false
    else if is_empty s || not (ends_with s (codes "\""))
    then c ∷ s
    else dequoted_loop (but_last s) false

-- `rfind("/")`: what stands in front of the last slash and what stands behind it.
unfoldable pub cut_last : Bytes → Option (Bytes × Bytes)
cut_last [] = none
cut_last (c ∷ s) = elim (cut_last s) [
  | none ↦ if c == b'/' then some ([], s) else none
  | some (front, back) ↦ some (c ∷ front, back)
]

-- `filename`
unfoldable pub filename : Bytes → Bytes
unfolding cut_last
filename path = elim (cut_last path) [ none ↦ path | some (front, back) ↦ back ]

-- `filepath`
unfoldable pub filepath : Bytes → Bytes
unfolding cut_last
filepath filename = elim (cut_last filename) [ none ↦ filename | some (front, back) ↦ front ]

-- `concat_dir_file`; `back` of an empty string is undefined behaviour, which is `none`.
unfoldable pub concat_dir_file : Bytes → Bytes → Option Bytes
concat_dir_file [] file = none
concat_dir_file (c ∷ dir) file =
    if ends_with (c ∷ dir) (codes "/")
    then some ((c ∷ dir) ++ file)
    else some ((c ∷ dir) ++ (b'/' ∷ file))

-- `contains_only_numbers`
unfoldable pub contains_only_numbers : Bytes → Bool
contains_only_numbers item = all (λ c. not (ltb c b'0' || ltb b'9' c)) (c_str item)

test_int2ipv4 : int2ipv4 16777343 ≡ codes "127.0.0.1"
unfolding int2ipv4 to_string
test_int2ipv4 = refl

test_host_from_link : host_from_link (codes "http://localhost:7788/v1") ≡ (codes "localhost", 7788)
unfolding host_from_link cut split stoi ltrim
test_host_from_link = refl

test_dequoted : dequoted (codes "\"a\\\"b\\n\"") ≡ codes "a\"b\\n"
unfolding dequoted ends_with
test_dequoted = refl
