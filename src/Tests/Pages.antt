-- ===== src/Tests/Pages.antt =====
-- Runs of the page with the charts, and the theorems about it at concrete inputs.
use go_fire.Base.{
  ℕ, ◌≡◌, refl, Bool, not, Option, none, some, [], ◌∷◌, List, String, arith, false, true, All, any,
  str_eq, ◌∙◌, ◌++◌,
}
use go_fire.Text.{Text, codes, same}
use go_fire.Status.{
  JobStatus, queued, processing, succeeded, failed, retrying, dead, other, to_string, is,
  all_statuses,
}
use go_fire.Store.Counts.{Counts, lookup}
use go_fire.Store.Counts.Laws.{count}
use go_fire.Web.Base64.{decode}
use go_fire.Web.Auth.{generate_auth_token, is_valid_auth_token}
use go_fire.Web.Http.{value, Request}
use go_fire.Web.Server.{is_authenticated}
use go_fire.Web.Server.Routes.{serve}
use go_fire.Web.Scripts.Charts.{
  StatusMap, Answer, rejected, given, blank, update_charts, poll_all, color_of,
}
use go_fire.Web.Scripts.Charts.Laws.{IsWhole, latest, IsShowing, AcceptsFree, poll_all-IsShowing}
use go_fire.Web.Scripts.Charts.Served.{
  entry, bar, answer_of, enqueued_statuses, cron_statuses, charts-show_tables,
}
use go_fire.Tests.Web.{visit, token, server, tables, no_faults, nothing_found}

-- A canvas with a chart is refused.
abbrev accepts : List String → String → Bool
accepts used id = not (any (str_eq id) used)

accepts-free : AcceptsFree accepts
accepts-free used id h = rw h refl

abbrev answers : List Answer
answers =
    rejected
    ∷ given (some ((codes "queued", 2) ∷ [])) (some [])
    ∷ rejected
    ∷ given (some ((codes "failed", 1) ∷ [])) (some ((codes "Dead", 4) ∷ (codes "odd", 1) ∷ []))
    ∷ []

answers-AreWhole : All IsWhole answers
answers-AreWhole = (tt, (((_, refl), (_, refl)), (tt, (((_, refl), (_, refl)), tt))))

poll_all-IsShowing_example : IsShowing (latest none answers) (poll_all accepts answers blank)
poll_all-IsShowing_example =
    poll_all-IsShowing accepts answers none blank accepts-free answers-AreWhole (refl, refl, refl)

colors :
    (color_of (codes "Dead") ≡ "rgba(52, 58, 64, 0.7)")
    × (color_of (codes "odd") ≡ "rgba(248, 249, 250, 0.7)")
unfolding color_of
colors = (refl, refl)

abbrev put_entry : Text → Option ℕ → StatusMap → StatusMap
put_entry key none m = m
put_entry key (some n) m = (key, n) ∷ m

-- An object with the counts of the six statuses.
abbrev wire_from : List JobStatus → Counts → StatusMap
wire_from [] m = []
wire_from (s ∷ ss) m = put_entry (codes (to_string s)) (lookup s m) (wire_from ss m)

skip :
    (key k : Text) (o : Option ℕ) (rest : StatusMap)
    → same key k ≡ false
    → entry k (put_entry key o rest) ≡ entry k rest
skip key k none rest h = refl
skip key k (some n) rest h = rw h refl

hit :
    (key k : Text) (o : Option ℕ) (rest : StatusMap)
    → same key k ≡ true
    → entry k rest ≡ none
    → entry k (put_entry key o rest) ≡ o
hit key k none rest h end = end
hit key k (some n) rest h end = rw h refl

abbrev is_named : Text → List JobStatus → Bool
is_named k ss = any (λ t. same (codes (to_string t)) k) ss

absent :
    (k : Text) (ss : List JobStatus) (m : Counts)
    → is_named k ss ≡ false
    → entry k (wire_from ss m) ≡ none
absent k [] m h = refl
absent k (s ∷ ss) m h =
    skip (codes (to_string s)) k (lookup s m) (wire_from ss m) (ground arith)
    ∙ absent k ss m (ground arith)

present :
    (before : List JobStatus) (s : JobStatus) (after : List JobStatus) (m : Counts)
    → is_named (codes (to_string s)) before ≡ false
    → is_named (codes (to_string s)) after ≡ false
    → same (codes (to_string s)) (codes (to_string s)) ≡ true
    → entry (codes (to_string s)) (wire_from (before ++ s ∷ after) m) ≡ lookup s m
present [] s after m b a same' = hit _ _ (lookup s m) (wire_from after m) same' (absent _ after m a)
present (x ∷ before) s after m b a same' =
    skip (codes (to_string x)) _ (lookup x m) (wire_from (before ++ s ∷ after) m) (ground arith)
    ∙ present before s after m (ground arith) a same'

wire-keeps :
    (m : Counts) (s : JobStatus)
    → any (is s) all_statuses ≡ true
    → entry (codes (to_string s)) (wire_from all_statuses m) ≡ lookup s m
unfolding to_string
wire-keeps m queued h =
    present [] queued (processing ∷ succeeded ∷ failed ∷ retrying ∷ dead ∷ []) m refl refl refl
wire-keeps m processing h =
    present (queued ∷ []) processing (succeeded ∷ failed ∷ retrying ∷ dead ∷ []) m refl refl refl
wire-keeps m succeeded h =
    present (queued ∷ processing ∷ []) succeeded (failed ∷ retrying ∷ dead ∷ []) m refl refl refl
wire-keeps m failed h =
    present (queued ∷ processing ∷ succeeded ∷ []) failed (retrying ∷ dead ∷ []) m refl refl refl
wire-keeps m retrying h =
    present (queued ∷ processing ∷ succeeded ∷ failed ∷ []) retrying (dead ∷ []) m refl refl refl
wire-keeps m dead h =
    present (queued ∷ processing ∷ succeeded ∷ failed ∷ retrying ∷ []) dead [] m refl refl refl
wire-keeps m (other s) h = absurd (ground arith)

-- A request of the script, with the token of a login.
abbrev poll : Request
poll =
    visit (codes "/charts") ((codes "loadCharts", codes "true") ∷ []) ((codes "auth", token) ∷ [])

charts-show_tables_example :
    (bar
        (codes (to_string queued))
        (update_charts accepts
          (answer_of (wire_from all_statuses) (serve server nothing_found no_faults poll tables).1)
          (poll_all accepts answers blank)).enqueued_chart
      ≡ some (count queued (enqueued_statuses tables)))
    × (bar
          (codes (to_string queued))
          (update_charts accepts
            (answer_of
              (wire_from all_statuses)
              (serve server nothing_found no_faults poll tables).1)
            (poll_all accepts answers blank)).cron_chart
        ≡ some (count queued (cron_statuses tables)))
unfolding is_authenticated is_valid_auth_token generate_auth_token decode value
charts-show_tables_example =
    charts-show_tables server nothing_found no_faults poll tables (wire_from all_statuses) accepts
      answers queued (refl, refl, refl) refl refl wire-keeps accepts-free answers-AreWhole refl
