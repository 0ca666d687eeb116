-- ===== src/Trace/Search.antt =====
-- Framework/game_tracemsg/TraceMsg.cc: the tables that the `switch` of `strMessageId` searches.
use cppserver.Prelude.{
  ℕ, ◌≡◌, refl, ◌==◌, Bool, true, false, not, ◌&&◌, List, [], ◌∷◌, ◌++◌, none, some, String,
  if◌then◌else◌, sym, ◌∙◌, arith, Option-cases, Bool-cases, inl, inr,
}
use cppserver.Prelude.Maps.{is_empty, string_key}
use cppserver.Trace.{
  Row, Message, client_to_server, client_to_proxy, client_to_hall, client_to_game_server,
  proxy_to_hall, proxy_to_game_server, find, describe_sub, to_proxy, to_hall, to_game_server,
  proxy_to_hall_main, hall_to_proxy_main, proxy_to_game_server_main, with_heartbeat, describe_case,
}

module _ (ids : String → ℕ) where
  -- The rows that a message's sub id is searched in, in order.
  unfoldable pub searched : Bool → Bool → ℕ → List Row
  searched hall game main =
      if main == ids to_proxy
      then client_to_proxy
      else if main == ids to_hall
      then (if hall then client_to_server else []) ++ client_to_hall
      else if main == ids to_game_server
      then (if game then client_to_server else []) ++ client_to_game_server
      else if main == ids proxy_to_hall_main
      then proxy_to_hall
      else if main == ids hall_to_proxy_main
      then []
      else if main == ids proxy_to_game_server_main
      then proxy_to_game_server
      else []

  find-append :
      (id : ℕ) (xs ys : List Row)
      → find ids id (xs ++ ys) ≡ elim (find ids id xs) [ none ↦ find ids id ys | some r ↦ some r ]
  unfolding find
  find-append id [] ys = refl
  find-append id (x ∷ xs) ys = ground (arith, find-append id xs ys)

  abbrev pub all_rows : (Row → Bool) → List Row → Bool
  all_rows p [] = true
  all_rows p (r ∷ rows) = p r && all_rows p rows

  pub found_row :
      (p : Row → Bool) (id : ℕ) (rows : List Row) (r : Row)
      → all_rows p rows ≡ true
      → find ids id rows ≡ some r
      → p r ≡ true
  unfolding find
  found_row p id [] r all e = cc
  found_row p id (q ∷ rows) r all e = elim (Bool-cases (ids q.name == id)) [
    | inl here ↦ let same : q ≡ r = ground arith in rw (← same) (ground arith)
    | inr on ↦ found_row p id rows r (ground arith) (ground arith)
  ]

  if_all :
      (p : Row → Bool) (b : Bool) (xs ys : List Row)
      → all_rows p xs ≡ true
      → all_rows p ys ≡ true
      → all_rows p (if b then xs else ys) ≡ true
  if_all p true xs ys h k = h
  if_all p false xs ys h k = k

  append_all :
      (p : Row → Bool) (xs ys : List Row)
      → all_rows p xs ≡ true
      → all_rows p ys ≡ true
      → all_rows p (xs ++ ys) ≡ true
  append_all p [] ys h k = k
  append_all p (x ∷ xs) ys h k = ground (arith, append_all p xs ys)

  -- What holds of the rows of each table holds of those that are searched.
  pub searched_all :
      (p : Row → Bool) (hall game : Bool) (main : ℕ)
      → all_rows p client_to_server ≡ true
      → all_rows p client_to_proxy ≡ true
      → all_rows p client_to_hall ≡ true
      → all_rows p client_to_game_server ≡ true
      → all_rows p proxy_to_hall ≡ true
      → all_rows p proxy_to_game_server ≡ true
      → all_rows p (searched hall game main) ≡ true
  unfolding searched
  searched_all p hall game main beats proxy hall_rows game_rows to_hall_rows to_game =
      if_all p (main == ids to_proxy) _ _ proxy (
        if_all p (main == ids to_hall) _ _ (traced hall client_to_hall hall_rows) (
          if_all p (main == ids to_game_server) _ _ (traced game client_to_game_server game_rows) (
            if_all p (main == ids proxy_to_hall_main) _ _ to_hall_rows (
              if_all p (main == ids hall_to_proxy_main) _ _ refl
                (if_all p (main == ids proxy_to_game_server_main) _ _ to_game refl)))))
    where
      traced :
          (trace : Bool) (rows : List Row)
          → all_rows p rows ≡ true
          → all_rows p ((if trace then client_to_server else []) ++ rows) ≡ true
      traced trace rows h =
          append_all p (if trace then client_to_server else []) rows
            (if_all p trace client_to_server [] beats refl) h

  abbrev is_named : Row → Bool
  is_named r = not (is_empty r.name)

  abbrev pub all_named : List Row → Bool
  all_named rows = all_rows is_named rows

  pub named_row :
      (id : ℕ) (rows : List Row) (r : Row)
      → all_named rows ≡ true
      → find ids id rows ≡ some r
      → is_empty r.name ≡ false
  named_row id rows r all e = let h = found_row is_named id rows r all e in ground arith

  heartbeats_named : all_named client_to_server ≡ true
  unfolding client_to_server
  heartbeats_named = refl

  pub searched_named : (hall game : Bool) (main : ℕ) → all_named (searched hall game main) ≡ true
  unfolding client_to_server client_to_proxy client_to_hall client_to_game_server proxy_to_hall
      proxy_to_game_server
  searched_named hall game main = searched_all is_named hall game main refl refl refl refl refl refl

  sub_unmatched :
      (id : ℕ) (rows : List Row) (m : Message)
      → find ids id rows ≡ none
      → describe_sub ids id rows m ≡ m
  unfolding describe_sub
  sub_unmatched id rows m e = rw (e, describe_sub) refl

  sub_congr :
      (id : ℕ) (xs ys : List Row) (m : Message)
      → find ids id xs ≡ find ids id ys
      → describe_sub ids id xs m ≡ describe_sub ids id ys m
  unfolding describe_sub
  sub_congr id xs ys m e = rw (e, describe_sub) refl

  -- Searching the second table if the first gave nothing is searching the two as one.
  with_heartbeat-append :
      (trace : Bool) (sub : ℕ) (rows : List Row) (m : Message)
      → is_empty m.sub_id ≡ true
      → with_heartbeat ids trace sub rows m
        ≡ describe_sub ids sub ((if trace then client_to_server else []) ++ rows) m
  unfolding with_heartbeat describe_sub
  with_heartbeat-append false sub rows m e = rw e refl
  with_heartbeat-append true sub rows m e = elim (Option-cases (find ids sub client_to_server)) [
    | inl missed ↦
        rw (sub_unmatched sub client_to_server m missed, e)
          (sub_congr sub rows (client_to_server ++ rows) m
            (sym (find-append sub client_to_server rows ∙ rw missed refl)))
    | inr (r, found) ↦
        rw
          (
            find-append sub client_to_server rows,
            found,
            with_heartbeat,
            describe_sub,
            named_row sub client_to_server r heartbeats_named found,
          )
          refl
  ]

  pub describe_case-searched :
      (hall game : Bool) (main sub : ℕ) (m : Message)
      → is_empty m.sub_id ≡ true
      → describe_case ids hall game main sub m ≡ describe_sub ids sub (searched hall game main) m
  unfolding describe_case searched describe_sub find
  describe_case-searched hall game main sub m e = ground (
    arith,
    with_heartbeat-append hall sub client_to_hall m e,
    with_heartbeat-append game sub client_to_game_server m e,
  )
