-- ===== src/Gateway/Address.antt =====
-- `resolveClientIp` of gateway/src/main/java/com/aisecfirewall/gateway/filter/ZeroTrustFilter.java.
use Prim.Native.Char.{Char, code}
use package.text.Mathlib.TextBridge.{to_list, of_list}
use d_ai_api_sec.Prelude.{
  ℕ, Bool, true, not, ◌&&◌, ◌||◌, leb, ◌==◌, String, Option, none, some, List, [], ◌∷◌,
  if◌then◌else◌,
}
use d_ai_api_sec.Errors.{Result, ok, err, value_error}

-- `Character.isWhitespace`
abbrev pub is_whitespace : ℕ → Bool
is_whitespace c =
    (leb 9 c && leb c 13)
    || ((leb 28 c && leb c 32)
        || ((c == 0x1680)
            || ((leb 0x2000 c && leb c 0x200a && not (c == 0x2007))
                || ((c == 0x2028) || ((c == 0x2029) || ((c == 0x205f) || (c == 0x3000)))))))

abbrev pub is_blank : List Char → Bool
is_blank [] = true
is_blank (c ∷ cs) = is_whitespace (code c) && is_blank cs

abbrev pub is_comma : Char → Bool
is_comma c = code c == b','

abbrev pub up_to_comma : List Char → List Char
up_to_comma [] = []
up_to_comma (c ∷ cs) = let rest = up_to_comma cs in if is_comma c then [] else c ∷ rest

abbrev pub all_commas : List Char → Bool
all_commas [] = true
all_commas (c ∷ cs) = is_comma c && all_commas cs

-- `split(",")[0]`: Java drops the empty parts at the end, so a text of commas has no part at all.
abbrev pub first_part : List Char → Result (List Char)
first_part cs = if all_commas cs then err value_error else ok (up_to_comma cs)

abbrev pub trim_start : List Char → List Char
trim_start [] = []
trim_start (c ∷ cs) = let rest = trim_start cs in if leb (code c) 32 then rest else c ∷ cs

abbrev pub keep_unless_last : Char → List Char → List Char
keep_unless_last c [] = if leb (code c) 32 then [] else c ∷ []
keep_unless_last c cs = c ∷ cs

abbrev pub trim_end : List Char → List Char
trim_end [] = []
trim_end (c ∷ cs) = keep_unless_last c (trim_end cs)

abbrev pub or_unknown : Option String → String
or_unknown none = "unknown"
or_unknown (some address) = address

abbrev pub forwarded_ip : List Char → Option String → Result String
forwarded_ip cs remote = if is_blank cs then ok (or_unknown remote) else elim (first_part cs) [
  | ok part ↦ ok (of_list (trim_end (trim_start part)))
  | err e ↦ err e
]

unfoldable pub resolve_client_ip : Option String → Option String → Result String
resolve_client_ip none remote = ok (or_unknown remote)
resolve_client_ip (some header) remote = forwarded_ip (to_list header) remote
