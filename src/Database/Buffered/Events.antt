-- ===== src/Database/Buffered/Events.antt =====
-- database/buffered.py: the events of one `submit`. The database drops an event whose (node, time,
-- type) it has seen, so two events of one submit must differ in type or in time.
use node_monitor.Common.{
  ℕ, ◌+◌, ◌<◌, String, ◌≡◌, refl, sym, ap, ◌∙◌, ◌≢◌, Option, none, some, List, [], ◌∷◌, ◌++◌,
  append-nil, append_assoc, map, All, All-append, arith, text_eq,
}
use mathlib.Core.Option
use text.Mathlib.TextEquality.{eq_iff}
use node_monitor.Common.Dict.{Dict, lookup, put, lookup-put}
use node_monitor.Values.{
  Fields, Value, text as text_value, time, later, DateTime, Record, require_aware,
}
use node_monitor.Database.Storage.{Exc, Storage}
use mathlib.Core.List.{map-append}
use node_monitor.Database.Buffered.Keeps.{Holds, submit_aware-keeps, finish-keeps}
use node_monitor.Database.Buffered.{
  Config, State, Submitted, events_of, write_error, naive_time, submit_at, nth, event_record,
  add_event, finish, begin, submit_aware, answer, submit,
}

-- An event by its type, its place among those of its type, and its detail.
abbrev pub Mark : Type 0
Mark = String × ℕ × Fields

abbrev pub AreSeparate : List Mark → Type 0
AreSeparate [] = Unit
AreSeparate (m ∷ ms) = All (λ n. m.0 ≡ n.0 → m.1 ≢ n.1) ms × AreSeparate ms

AreSeparate-append_one :
    (ms : List Mark) (n : Mark)
    → AreSeparate ms
    → All (λ m. m.0 ≡ n.0 → m.1 ≢ n.1) ms
    → AreSeparate (ms ++ n ∷ [])
AreSeparate-append_one [] n s h = (tt, tt)
AreSeparate-append_one (m ∷ ms) n s h = (
  All-append (λ k. m.0 ≡ k.0 → m.1 ≢ k.1) ms (n ∷ []) s.0 (h.0, tt),
  AreSeparate-append_one ms n s.1 h.1,
)

abbrev pub seen : String → Dict String ℕ → ℕ
seen t counts = Option.get_or (lookup t counts) 0

-- Every mark's place is below its type's count.
abbrev pub AreCounted : Dict String ℕ → List Mark → Type 0
AreCounted counts = All (λ m. m.1 < seen m.0 counts)

AreCounted-put :
    (t : String) (counts : Dict String ℕ) (ms : List Mark)
    → AreCounted counts ms
    → AreCounted (put t (seen t counts + 1) counts) ms
unfolding Option.get_or
AreCounted-put t counts [] h = tt
AreCounted-put t counts (m ∷ ms) h = (
  ground (arith, lookup-put t m.0 (seen t counts + 1) counts, eq_iff t m.0),
  AreCounted-put t counts ms h.1,
)

counted_below :
    (t : String) (counts : Dict String ℕ) (ms : List Mark)
    → AreCounted counts ms
    → All (λ m. m.0 ≡ t → m.1 ≢ seen t counts) ms
counted_below t counts [] h = tt
counted_below t counts (m ∷ ms) h =
    (λ same. rw (← same) (omega arith), counted_below t counts ms h.1)

counted_self : (t : String) (n : ℕ) (counts : Dict String ℕ) → n < seen t (put t (n + 1) counts)
unfolding Option.get_or
counted_self t n counts = ground (arith, lookup-put t t (n + 1) counts, eq_iff t t)

module _ (st : Storage) (config : Config) (now : DateTime) where
  abbrev pub stamp : Mark → Record
  stamp m = event_record st config now m.0 m.1 m.2

  -- The events are `base` and then new ones, pairwise different in type or in time.
  pub record Stamped (base events : List Record) (counts : Dict String ℕ) : Type 0 where
    pub marks : List Mark
    pub split : events ≡ base ++ map stamp marks
    pub separate : AreSeparate marks
    pub counted : AreCounted counts marks

  add_event-Stamped :
      (base : List Record) (t : String) (d : Fields) (s : State st)
      → Holds st config now (Stamped base) s
      → Holds st config now (Stamped base) (add_event st config now t d s)
  unfolding add_event nth
  add_event-Stamped base t d s h =
      let n = seen t s.event_counts in
      let marks = h.it.marks in
      record {
        it = record {
          marks = marks ++ (t, n, d) ∷ [];
          split = rw (h.it.split, map-append, append_assoc) refl;
          separate =
              AreSeparate-append_one marks (t, n, d) h.it.separate
                (counted_below t s.event_counts marks h.it.counted);
          counted =
              All-append (λ m. m.1 < seen m.0 (put t (n + 1) s.event_counts)) marks ((t, n, d) ∷ [])
                (AreCounted-put t s.event_counts marks h.it.counted)
                (counted_self t n s.event_counts, tt);
        };
      }

  -- What one `submit` leaves in its list of events.
  ended : List Record → State st → Option Exc × State st
  ended rs s =
      let (exc, s1) = submit_aware st config now rs (begin st config now s) in
      (exc, finish st config now s1)

  ended-Stamped :
      (rs : List Record) (s : State st) → Holds st config now (Stamped s.carried) (ended rs s).1
  unfolding ended begin
  ended-Stamped rs s =
      let keeps = add_event-Stamped s.carried in
      finish-keeps st config now (Stamped s.carried) keeps _
        (submit_aware-keeps st config now (Stamped s.carried) keeps rs _ (record {
          it = record {
            marks = [];
            split = sym (append-nil s.carried);
            separate = tt;
            counted = tt;
          };
        })).at

  -- The events that `submit` returns or, if it raises, keeps for the next call.
  abbrev pub events_after : Submitted × State st → List Record
  events_after (events_of es, s) = es
  events_after (write_error exc, s) = s.carried
  events_after (naive_time, s) = s.carried

  events_after-answer :
      (exc : Option Exc) (s : State st) → events_after (answer st config now exc s) ≡ s.events
  unfolding answer
  events_after-answer none s = refl
  events_after-answer (some exc) s = refl

  -- No two records agree in type and time.
  abbrev pub DifferFrom : Record → List Record → Type 0
  DifferFrom a = All (λ b.
      lookup "event_type" a.row ≡ lookup "event_type" b.row → lookup "ts" a.row ≢ lookup "ts" b.row)

  abbrev pub AreDistinguished : List Record → Type 0
  AreDistinguished [] = Unit
  AreDistinguished (r ∷ rs) = DifferFrom r rs × AreDistinguished rs

  text_of : Option Value → String
  text_of (some (text_value s)) = s
  text_of _ = ""

  micros_of : Option Value → ℕ
  micros_of (some (time t)) = t.micros
  micros_of _ = 0

  stamp-differs :
      (m n : Mark)
      → (m.0 ≡ n.0 → m.1 ≢ n.1)
      → lookup "event_type" (stamp m).row ≡ lookup "event_type" (stamp n).row
      → lookup "ts" (stamp m).row ≢ lookup "ts" (stamp n).row
  unfolding event_record lookup text_of micros_of later
  stamp-differs m n h same t =
      let micros : now.micros + m.1 ≡ now.micros + n.1 = ap micros_of t in
      h (ap text_of same) (omega (arith, micros))

  stamp-DifferFrom :
      (m : Mark) (ms : List Mark)
      → All (λ n. m.0 ≡ n.0 → m.1 ≢ n.1) ms
      → DifferFrom (stamp m) (map stamp ms)
  stamp-DifferFrom m [] h = tt
  stamp-DifferFrom m (n ∷ ms) h = (stamp-differs m n h.0, stamp-DifferFrom m ms h.1)

  stamp-AreDistinguished : (ms : List Mark) → AreSeparate ms → AreDistinguished (map stamp ms)
  stamp-AreDistinguished [] h = tt
  stamp-AreDistinguished (m ∷ ms) h = (stamp-DifferFrom m ms h.0, stamp-AreDistinguished ms h.1)

  submit_at-separate :
      (aware : Option DateTime) (rs : List Record) (s : State st)
      → (new : List Record) × (events_after (submit_at st config now aware rs s) ≡ s.carried ++ new)
        × AreDistinguished new
  unfolding submit_at ended
  submit_at-separate none rs s = ([], sym (append-nil s.carried), tt)
  submit_at-separate (some aware) rs s =
      let done = (ended-Stamped rs s).it in
      (
        map stamp done.marks,
        events_after-answer (ended rs s).0 (ended rs s).1 ∙ done.split,
        stamp-AreDistinguished done.marks done.separate,
      )

  -- Whatever a `submit` ends in, the events it returns (or carries over to the next call, if it
  -- raises) are those carried over from before and then new ones, no two of which agree in both
  -- their type and their time.
  pub submit-separates_events :
      (rs : List Record) (s : State st)
      → (new : List Record) × (events_after (submit st config now rs s) ≡ s.carried ++ new)
        × AreDistinguished new
  unfolding submit
  submit-separates_events rs s = submit_at-separate (require_aware now) rs s
