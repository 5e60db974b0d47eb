-- ===== src/Pipeline/Enrich/Presence.antt =====
-- What the enriched rows say of the presence of their owners.
use node_monitor.Common.{
  ℕ, String, ◌≡◌, refl, sym, ap, ◌∙◌, Bool, true, false, not, ◌&&◌, ◌||◌, Option, none, some, List,
  [], ◌∷◌, ◌==◌, text_eq, any, All, leb, arith, Bool-cases, inl, inr, map,
}
use node_monitor.Common.Dict.{Dict, lookup, lookup-put}
use node_monitor.Pipeline.Enrich.{
  RawRow, LiveRow, or_empty, user_key, connect_if, with_session, add_session, or_absent,
  presence_of, enrich_row, enrich_rows, is_measured, enrich_census,
}

unfoldable pub is_interactive : Option String → Bool
is_interactive none = false
is_interactive (some tty) = not (tty == "notty")

unfoldable pub is_connected : Option String → Bool
is_connected none = false
is_connected (some tty) = tty == "notty"

-- The presence by whether a user has a session with a terminal, and one without.
unfoldable pub presence_by : Bool → Bool → Option String → Option String
presence_by true connected before = some "interactive"
presence_by false true none = some "connected"
presence_by false true (some known) = some known
presence_by false false before = before

connect_if_lem :
    (known : Option String) (user key : String) (presence : Dict String String)
    → lookup key presence ≡ known
    → lookup user (connect_if known key presence)
      ≡ presence_by ((key == user) && false) ((key == user) && true) (lookup user presence)
unfolding connect_if presence_by
connect_if_lem none user key presence h = elim (Bool-cases (key == user)) [
  | inl same ↦
      rw (lookup-put key user "connected" presence, same)
        (rw (sym (ap (λ k. lookup k presence) ((text_eq.equals_iff key user).0 same)) ∙ h) refl)
  | inr other ↦ rw (lookup-put key user "connected" presence, other) refl
]
connect_if_lem (some p) user key presence h = elim (Bool-cases (key == user)) [
  | inl same ↦
      rw same
        (rw (sym (ap (λ k. lookup k presence) ((text_eq.equals_iff key user).0 same)) ∙ h) refl)
  | inr other ↦ rw other refl
]

-- More sessions of the same user.
presence_by_twice :
    (i c a b : Bool) (o : Option String)
    → presence_by a b (presence_by i c o) ≡ presence_by (i || a) (c || b) o
unfolding presence_by
presence_by_twice true c true b o = refl
presence_by_twice true c false true o = refl
presence_by_twice true c false false o = refl
presence_by_twice false true true b none = refl
presence_by_twice false true true b (some p) = refl
presence_by_twice false true false true none = refl
presence_by_twice false true false true (some p) = refl
presence_by_twice false true false false none = refl
presence_by_twice false true false false (some p) = refl
presence_by_twice false false a b o = refl

add_session_lem :
    (tty : Option String) (user key : String) (presence : Dict String String)
    → lookup user (add_session tty key presence)
      ≡ presence_by
          ((key == user) && is_interactive tty)
          ((key == user) && is_connected tty)
          (lookup user presence)
unfolding add_session with_session presence_by is_interactive is_connected connect_if
add_session_lem none user key presence = elim (Bool-cases (key == user)) [
  | inl same ↦ rw same refl
  | inr other ↦ rw other refl
]
add_session_lem (some tty) user key presence = elim (Bool-cases (tty == "notty")) [
  | inr on_tty ↦ rw on_tty (ground (arith, lookup-put key user "interactive" presence))
  | inl without ↦ rw without (connect_if_lem (lookup key presence) user key presence refl)
]

module _ {F C : Type 0} (uid_name : ℕ → String) (session_tty : String → Option String) where
  -- Some row is a session of the user's, with a terminal or without.
  unfoldable pub has_interactive : String → List (RawRow F C) → Bool
  has_interactive user rows =
      any
        (λ row.
          (user_key uid_name session_tty row == user)
          && is_interactive (session_tty (or_empty row.cmdline)))
        rows

  unfoldable pub has_connected : String → List (RawRow F C) → Bool
  has_connected user rows =
      any
        (λ row.
          (user_key uid_name session_tty row == user)
          && is_connected (session_tty (or_empty row.cmdline)))
        rows

  presence_lem :
      (user : String) (rows : List (RawRow F C)) (presence : Dict String String)
      → lookup user (presence_of uid_name session_tty rows presence)
        ≡ presence_by (has_interactive user rows) (has_connected user rows) (lookup user presence)
  unfolding presence_of has_interactive has_connected presence_by
  presence_lem user [] presence = refl
  presence_lem user (row ∷ rows) presence =
      let tty = session_tty (or_empty row.cmdline) in
      let key = user_key uid_name session_tty row in
      presence_lem user rows (add_session tty key presence)
      ∙ ap (presence_by (has_interactive user rows) (has_connected user rows))
          (add_session_lem tty user key presence)
      ∙ presence_by_twice ((key == user) && is_interactive tty) ((key == user) && is_connected tty)
          (has_interactive user rows) (has_connected user rows) (lookup user presence)

  -- The presence of a user in a census.
  unfoldable pub presence_in : String → List (RawRow F C) → String
  presence_in user rows =
      or_absent (presence_by (has_interactive user rows) (has_connected user rows) none)

  module _ (search : String → String → Bool) (redact : String → String) (zero_float : F)
      (min_user_uid : ℕ) where
    -- A row of a user who is present as the sessions of the census say, and a user process only if
    -- its uid and its category are a user's.
    abbrev pub IsEnriched : List (RawRow F C) → LiveRow F C → Type 0
    IsEnriched rows r =
        (r.owner_presence ≡ presence_in r.username rows)
        × (r.is_user_process ≡ (leb min_user_uid r.uid && not (r.category == "system")))

    rows_lem :
        (rows : List (RawRow F C)) (gpu_measured : Bool) (some_rows : List (RawRow F C))
        → All (IsEnriched rows) (
            enrich_rows uid_name session_tty search redact zero_float min_user_uid gpu_measured
              (presence_of uid_name session_tty rows [])
              some_rows)
    unfolding enrich_rows enrich_row presence_in lookup
    rows_lem rows gpu_measured [] = tt
    rows_lem rows gpu_measured (row ∷ more) = (
      (ap or_absent (presence_lem (user_key uid_name session_tty row) rows []), refl),
      rows_lem rows gpu_measured more,
    )

    rows_of_lem :
        (gpu_measured : Bool) (presence : Dict String String) (rows : List (RawRow F C))
        → map
            (λ r. r.username)
            (enrich_rows uid_name session_tty search redact zero_float min_user_uid gpu_measured
              presence rows)
          ≡ map (user_key uid_name session_tty) rows
    unfolding enrich_rows enrich_row
    rows_of_lem gpu_measured presence [] = refl
    rows_of_lem gpu_measured presence (row ∷ rows) =
        ap (λ names. user_key uid_name session_tty row ∷ names)
          (rows_of_lem gpu_measured presence rows)

    -- Enriching a census keeps its rows, each with its user; a user is interactive in all rows if
    -- some row of the census is a session of the user's with a terminal, else connected if one is a
    -- session without, else absent; and a row is a user process if its uid is a user's and its
    -- category is not that of the system.
    pub enrich_census-IsEnriched :
        (rows : List (RawRow F C)) (gpu_status : Option String)
        → (map
              (λ r. r.username)
              (enrich_census uid_name session_tty search redact zero_float min_user_uid rows
                gpu_status)
            ≡ map (user_key uid_name session_tty) rows)
          × All (IsEnriched rows) (
              enrich_census uid_name session_tty search redact zero_float min_user_uid rows
                gpu_status)
    unfolding enrich_census
    enrich_census-IsEnriched rows gpu_status = (
      rows_of_lem (is_measured gpu_status) (presence_of uid_name session_tty rows []) rows,
      rows_lem rows (is_measured gpu_status) rows,
    )
