-- ===== src/Http/Net.antt =====
-- internal/handler/ip.go, and net.SplitHostPort by its rules.
pub mod Origin
use Prim.Native.Char.{Char, code}
use Prim.Native.String.{[] as empty, ◌∷◌ as cons_char}
use waitinglist.Prelude.{
  ℕ, ◌≡◌, refl, String, Bool, false, not, ◌&&◌, ◌||◌, Option, none, some, List, [], ◌∷◌, ◌==◌,
  if◌then◌else◌,
}
use waitinglist.Prelude.Text.{str_eq, trim_space, contains_code}
use waitinglist.Http.Types.{Request}

-- what stands before the first character `k`
pub before : ℕ → String → String
before k empty = empty
before k (cons_char c s) = if code c == k then empty else cons_char c (before k s)

-- what stands behind the first character `k`
pub behind : ℕ → String → String
behind k empty = empty
behind k (cons_char c s) = if code c == k then s else behind k s

has_bracket : String → Bool
unfolding contains_code
has_bracket s = contains_code b'[' s || contains_code b']' s

-- host:port, with one colon and no bracket
plain_host : String → Option String
unfolding before behind has_bracket
plain_host s =
    if contains_code b':' s && not (contains_code b':' (behind b':' s)) && not (has_bracket s)
    then some (before b':' s)
    else none

-- `:port` behind the closing bracket, with one colon and no bracket
is_port : String → Bool
unfolding has_bracket
is_port empty = false
is_port (cons_char c s) = code c == b':' && not (contains_code b':' s) && not (has_bracket s)

-- [host]:port, where `s` begins behind the opening bracket
bracket_host : String → Option String
unfolding before behind is_port
bracket_host s =
    if contains_code b']' s && is_port (behind b']' s) && not (contains_code b'[' s)
    then some (before b']' s)
    else none

-- The host of net.SplitHostPort, or an error.
unfoldable pub split_host : String → Option String
unfolding plain_host bracket_host
split_host empty = none
split_host (cons_char c s) = if code c == b'[' then bracket_host s else plain_host (cons_char c s)

abbrev or_whole : String → Option String → String
or_whole s none = s
or_whole s (some h) = h

-- `stripPort` of tenant.go, and the end of `ClientIP`
unfoldable pub strip_port : String → String
unfolding split_host
strip_port s = or_whole s (split_host s)

-- a character in front of the first part
pub first_part_gets : Char → List String → List String
first_part_gets c [] = cons_char c empty ∷ []
first_part_gets c (p ∷ ps) = cons_char c p ∷ ps

-- strings.SplitSeq(s, ",")
pub split_commas : String → List String
unfolding first_part_gets
split_commas empty = empty ∷ []
split_commas (cons_char c s) =
    if code c == b',' then empty ∷ split_commas s else first_part_gets c (split_commas s)

-- the loop over the parts of X-Forwarded-For: the first that is not blank
pub first_part : List String → Option String
first_part [] = none
first_part (p ∷ ps) = if str_eq (trim_space p) "" then first_part ps else some (trim_space p)

pub forwarded : String → Option String
unfolding split_commas first_part
forwarded xff = if str_eq xff "" then none else first_part (split_commas xff)

pub real_ip_or : String → String → String
real_ip_or xri addr = if str_eq xri "" then strip_port addr else xri

abbrev pub or_else : Option String → String → String
or_else none d = d
or_else (some ip) d = ip

-- `ClientIP`
unfoldable pub client_ip : Request → String
unfolding forwarded real_ip_or
client_ip r =
    or_else (forwarded (r.header "X-Forwarded-For"))
      (real_ip_or (trim_space (r.header "X-Real-Ip")) r.remote_addr)

split_host_forms :
    (split_host "192.0.2.1:12345" ≡ some "192.0.2.1")
    × (split_host "[::1]:80" ≡ some "::1")
    × (split_host "::1" ≡ none)
    × (split_host "host" ≡ none)
unfolding split_host
split_host_forms = (refl, refl, refl, refl)
