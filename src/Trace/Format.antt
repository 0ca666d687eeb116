-- ===== src/Trace/Format.antt =====
-- thirdpart/TraceMsg/TraceMsg.h and Framework/game_tracemsg/TraceMsg.cc: the text of a message's
-- names, which is passed as a format.
use Prim.Native.String.{◌++◌ as str_append, String}
use Prim.Native.Char.{code}
use text.Mathlib.TextLemmas.{cons-append, nil-append}
use cppserver.Prelude.{
  ℕ, zero, suc, ◌≡◌, refl, ap, ◌∙◌, ◌==◌, ltb, ◌/◌, ◌%◌, Bool, true, false, not, ◌&&◌, ◌||◌, List,
  [], ◌∷◌, Option, none, some, get_elem?, if◌then◌else◌, Bool-cases, inl, inr, arith,
}
use cppserver.Prelude.Maps.{is_empty}
use cppserver.Trace.{
  Row, mainid, find, client_to_server, client_to_proxy, client_to_hall, client_to_game_server,
  proxy_to_hall, proxy_to_game_server, decimal, digits, digit, decimal_within, fmt_message_id,
}
use cppserver.Trace.Search.{searched, all_rows, found_row, searched_all}
use cppserver.Trace.Lookup.{
  is_quiet, name_of, desc_of, tagged, line, str_message_id-eq, fmt_message_id-eq,
}

unfoldable pub has_percent : String → Bool
has_percent String.[] = false
has_percent (String.◌∷◌ c s) = code c == b'%' || has_percent s

has_percent-append :
    (s t : String) → has_percent (str_append s t) ≡ (has_percent s || has_percent t)
unfolding has_percent
has_percent-append String.[] t = ap has_percent (nil-append t)
has_percent-append (String.◌∷◌ c s) t =
    ap has_percent (cons-append c s t) ∙ ground (arith, has_percent-append s t)

both :
    (s t : String)
    → has_percent s ≡ false
    → has_percent t ≡ false
    → has_percent (str_append s t) ≡ false
both s t h k = rw (has_percent-append s t, h) k

digit_plain : (n : ℕ) → has_percent (digit n) ≡ false
unfolding has_percent
digit_plain n = at_index digits n refl
  where
    all_plain : List String → Bool
    all_plain [] = true
    all_plain (s ∷ rest) = not (has_percent s) && all_plain rest

    at_index :
        (texts : List String) (i : ℕ)
        → all_plain texts ≡ true
        → has_percent (elim (get_elem? texts i) [ none ↦ "" | some s ↦ s ]) ≡ false
    at_index [] i h = refl
    at_index (s ∷ rest) zero h = ground arith
    at_index (s ∷ rest) (suc i) h = at_index rest i (ground arith)

decimal_within_plain : (fuel n : ℕ) → has_percent (decimal_within fuel n) ≡ false
unfolding has_percent
decimal_within_plain zero n = refl
decimal_within_plain (suc fuel) n = elim (Bool-cases (ltb n 10)) [
  | inl small ↦ rw small (digit_plain n)
  | inr large ↦ rw large (
      both (decimal_within fuel (n / 10)) (digit (n % 10)) (decimal_within_plain fuel (n / 10))
        (digit_plain (n % 10)))
]

abbrev plain_row : Row → Bool
plain_row r = not (has_percent r.name) && not (has_percent r.desc)

main_rows : (ids : String → ℕ) → all_rows ids plain_row mainid ≡ true
unfolding has_percent mainid
main_rows ids = refl

sub_rows :
    (ids : String → ℕ) (hall game : Bool) (main : ℕ)
    → all_rows ids plain_row (searched ids hall game main) ≡ true
unfolding has_percent client_to_server client_to_proxy client_to_hall client_to_game_server
    proxy_to_hall proxy_to_game_server
sub_rows ids hall game main =
    searched_all ids plain_row hall game main refl refl refl refl refl refl

-- The name and the description of the row that is found, if one is.
found_plain :
    (ids : String → ℕ) (id : ℕ) (rows : List Row) (r : Option Row)
    → all_rows ids plain_row rows ≡ true
    → find ids id rows ≡ r
    → (has_percent (name_of r) ≡ false) × (has_percent (desc_of r) ≡ false)
unfolding has_percent
found_plain ids id rows none all e = (refl, refl)
found_plain ids id rows (some r) all e =
    let h = found_row ids plain_row id rows r all e in ground arith

tagged_plain :
    (quiet : Bool) (name : String) (id : ℕ)
    → has_percent name ≡ false
    → has_percent (tagged quiet name id) ≡ false
unfolding has_percent decimal
tagged_plain true name id h = h
tagged_plain false name id h =
    both name _ h (both ":" (decimal id) refl (decimal_within_plain 3 id))

line_plain :
    (id desc : String)
    → has_percent id ≡ false
    → has_percent desc ≡ false
    → has_percent (line id desc) ≡ false
unfolding has_percent
line_plain id desc h k = elim (Bool-cases (is_empty desc)) [
  | inl empty ↦ rw empty h
  | inr full ↦ rw full (both id _ h (both " - " desc refl k))
]

lines_plain :
    (quiet : Bool) (first second : String)
    → has_percent first ≡ false
    → has_percent second ≡ false
    → has_percent
        (if quiet then "" else str_append "\n" (str_append first (str_append "\n" second)))
      ≡ false
unfolding has_percent
lines_plain true first second h k = refl
lines_plain false first second h k =
    both "\n" (str_append first (str_append "\n" second)) refl
      (both first (str_append "\n" second) h (both "\n" second refl k))

-- The text that fmtMessageId gives for an empty one, which TraceMessageId passes to the Logger as
-- a format, has no percent sign: it is printed as it is.
pub fmt_message_id-lacks-percent :
    (ids : String → ℕ) (hall game : Bool) (main sub : ℕ)
    → has_percent (fmt_message_id ids "" hall game main sub).0 ≡ false
fmt_message_id-lacks-percent ids hall game main sub =
    let q = is_quiet ids hall game main sub in
    let r = find ids main mainid in
    let s = find ids sub (searched ids hall game main) in
    let first = tagged q (name_of r) main in
    let second = tagged q (name_of s) sub in
    let p = found_plain ids main mainid r (main_rows ids) refl in
    let o =
      found_plain ids sub (searched ids hall game main) s (sub_rows ids hall game main) refl in
    rw (fmt_message_id-eq ids "" hall game main sub, str_message_id-eq ids hall game main sub)
      (lines_plain q (line first (desc_of r)) (line second (desc_of s))
        (line_plain first (desc_of r) (tagged_plain q (name_of r) main p.0) p.1)
        (line_plain second (desc_of s) (tagged_plain q (name_of s) sub o.0) o.1))
