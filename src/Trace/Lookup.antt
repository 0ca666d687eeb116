-- ===== src/Trace/Lookup.antt =====
-- Framework/game_tracemsg/TraceMsg.cc: what `strMessageId` and `fmtMessageId` give.
use Prim.Native.String.{◌++◌ as str_append, ◌∷◌ as str_cons}
use mathlib.Core.Option
use text.Mathlib.TextEquality.{eq_iff}
use text.Mathlib.TextLemmas.{append-ne-nil_of_right_ne-nil, cons-ne-nil, cons-append, nil-append}
use cppserver.Prelude.{
  is_some, ℕ, ◌≡◌, refl, ◌==◌, Bool, true, false, not, ◌&&◌, ◌||◌, List, Option, none, some, String,
  if◌then◌else◌, sym, ◌∙◌, ap, arith, inl, inr, Bool-cases,
}
use cppserver.Prelude.Maps.{is_empty, string_key}
use cppserver.Trace.{
  Row, Level, Message, mainid, find, describe_main, describe_sub, decimal, to_hall, to_game_server,
  describe_case, is_hidden, str_message_id, no_message, fmt_message_id,
}
use cppserver.Trace.Search.{searched, all_named, named_row, searched_named, describe_case-searched}

abbrev pub name_of : Option Row → String
name_of none = ""
name_of (some r) = r.name

abbrev pub desc_of : Option Row → String
desc_of none = ""
desc_of (some r) = r.desc

abbrev pub level_of : Option Row → Option Row → Option Level
level_of main none = Option.map (λ r. r.level) main
level_of main (some r) = some r.level

abbrev pub tagged : Bool → String → ℕ → String
tagged quiet name id = if quiet then name else str_append name (str_append ":" (decimal id))

abbrev pub line : String → String → String
line id desc = if is_empty desc then id else str_append id (str_append " - " desc)

module _ (ids : String → ℕ) where
  -- A client's message to the hall or the game server that no table knows.
  unfoldable pub is_quiet : Bool → Bool → ℕ → ℕ → Bool
  is_quiet hall game main sub =
      (main == ids to_hall || main == ids to_game_server)
      && not (is_some (find ids sub (searched ids hall game main)))

  main_found :
      (main : ℕ) (r : Option Row)
      → find ids main mainid ≡ r
      → describe_main ids main mainid no_message ≡ record {
        main_id = name_of r;
        main_desc = desc_of r;
        sub_id = "";
        sub_desc = "";
        level = level_of r none;
      }
  unfolding describe_main
  main_found main none e = rw (e, describe_main) refl
  main_found main (some r) e = rw (e, describe_main) refl

  both_found :
      (sub : ℕ) (rows : List Row) (r s : Option Row)
      → find ids sub rows ≡ s
      → describe_sub ids sub rows (record {
        main_id = name_of r;
        main_desc = desc_of r;
        sub_id = "";
        sub_desc = "";
        level = level_of r none;
      })
        ≡ record {
          main_id = name_of r;
          main_desc = desc_of r;
          sub_id = name_of s;
          sub_desc = desc_of s;
          level = level_of r s;
        }
  unfolding describe_sub
  both_found sub rows r none e = rw (e, describe_sub) refl
  both_found sub rows r (some s) e = rw (e, describe_sub) refl

  unnamed :
      (sub : ℕ) (rows : List Row) (s : Option Row)
      → all_named ids rows ≡ true
      → find ids sub rows ≡ s
      → is_empty (name_of s) ≡ not (is_some s)
  unnamed sub rows none h e = refl
  unnamed sub rows (some s) h e = named_row ids sub rows s h e

  -- The numbers are appended to the names of a message that is not quiet.
  numbered :
      (hall game : Bool) (main sub : ℕ) (m : Message)
      → is_empty m.sub_id ≡ not (is_some (find ids sub (searched ids hall game main)))
      → describe_case ids hall game main sub (describe_main ids main mainid no_message) ≡ m
      → str_message_id ids hall game main sub no_message ≡ record m {
        main_id = tagged (is_quiet hall game main sub) m.main_id main;
        sub_id = tagged (is_quiet hall game main sub) m.sub_id sub;
      }
  unfolding str_message_id is_quiet is_hidden
  numbered hall game main sub m h e = elim (Bool-cases (is_quiet hall game main sub)) [
    | inl quiet ↦ rw (e, h, quiet) refl
    | inr loud ↦ rw (e, h, loud) refl
  ]

  -- On empty output strings: the names and descriptions are those of the first rows with the
  -- numbers, of the main ids' table and of the tables that are searched for the sub id taken as
  -- one; the level is that of the sub id's row, or else of the main id's, and is never set where
  -- both are missing; and both names get their numbers, save in a client's message to the hall or
  -- the game server whose sub id has no row.
  pub str_message_id-eq :
      (hall game : Bool) (main sub : ℕ)
      → let r = find ids main mainid in
        let s = find ids sub (searched ids hall game main) in
        let quiet = is_quiet hall game main sub in
        str_message_id ids hall game main sub no_message ≡ record {
          main_id = tagged quiet (name_of r) main;
          main_desc = desc_of r;
          sub_id = tagged quiet (name_of s) sub;
          sub_desc = desc_of s;
          level = level_of r s;
        }
  str_message_id-eq hall game main sub =
      let r = find ids main mainid in
      let s = find ids sub (searched ids hall game main) in
      numbered hall game main sub
        (record {
          main_id = name_of r;
          main_desc = desc_of r;
          sub_id = name_of s;
          sub_desc = desc_of s;
          level = level_of r s;
        })
        (unnamed sub (searched ids hall game main) s (searched_named ids hall game main) refl)
        (rw (main_found main r refl) (
          describe_case-searched ids hall game main sub _ refl
          ∙ both_found sub (searched ids hall game main) r s refl))

  -- A tagged name is never empty.
  tagged_name : (name : String) (id : ℕ) → is_empty (tagged false name id) ≡ false
  tagged_name name id = elim (Bool-cases (is_empty (tagged false name id))) [
    | inl empty ↦ absurd (
        append-ne-nil_of_right_ne-nil name (cons-ne-nil ":" (decimal id))
          (ap (str_append name) (sym colon) ∙ (eq_iff (tagged false name id) "").0 empty))
    | inr full ↦ full
  ]
    where
      colon : str_append ":" (decimal id) ≡ str_cons ":" (decimal id)
      colon = cons-append ":" "" (decimal id) ∙ ap (str_cons ":") (nil-append (decimal id))

  -- The second test of `fmtMessageId` is the one that `strMessageId` made.
  hidden-quiet :
      (hall game : Bool) (main sub : ℕ)
      → is_hidden ids main (str_message_id ids hall game main sub no_message)
        ≡ is_quiet hall game main sub
  unfolding is_hidden
  hidden-quiet hall game main sub = elim (Bool-cases (is_quiet hall game main sub)) [
    | inl quiet ↦
        rw (str_message_id-eq hall game main sub, quiet)
          (rw
            (unnamed sub (searched ids hall game main) (find ids sub (searched ids hall game main))
              (searched_named ids hall game main) refl)
            (unfold is_quiet in quiet))
    | inr loud ↦
        rw
          (
            str_message_id-eq hall game main sub,
            loud,
            tagged_name (name_of (find ids sub (searched ids hall game main))) sub,
          )
          (ground arith)
  ]

  -- fmtMessageId leaves its output string as it was exactly for a client's message to the hall or
  -- the game server whose sub id has no row, and else writes the two lines of names and
  -- descriptions; the level is that of strMessageId.
  pub fmt_message_id-eq :
      (str : String) (hall game : Bool) (main sub : ℕ)
      → let m = str_message_id ids hall game main sub no_message in
        fmt_message_id ids str hall game main sub ≡ (
          (if is_quiet hall game main sub
              then str
              else str_append "\n" (
                  str_append
                    (line m.main_id m.main_desc)
                    (str_append "\n" (line m.sub_id m.sub_desc)))),
          m.level,
        )
  unfolding fmt_message_id
  fmt_message_id-eq str hall game main sub = elim (Bool-cases (is_quiet hall game main sub)) [
    | inl quiet ↦ rw (fmt_message_id, hidden-quiet hall game main sub, quiet) refl
    | inr loud ↦ rw (fmt_message_id, hidden-quiet hall game main sub, loud) refl
  ]
