-- ===== src/Web/Scripts/Charts.antt =====
-- The script of the page with the charts (web/templates/charts.html): every three seconds it fetches the
-- counts, and draws them. Chart.js is a parameter: whether its constructor accepts a canvas, next to
-- those that have a chart. The console, the animation and the way a chart is painted are left out. A
-- status is looked up among the script's own colours, none of which has the name of a method of objects.
pub mod Laws
pub mod Served
use go_fire.Base.{
  ℕ, ◌+◌, Bool, ◌&&◌, List, [], ◌∷◌, ◌++◌, map, Option, none, some, String, if◌then◌else◌, leb,
}
use go_fire.Text.{Text, codes, same}

-- The entries of an object, in the order of Object.entries.
abbrev pub StatusMap : Type 0
StatusMap = List (Text × ℕ)

-- `toLowerCase`, for the letters that have an ASCII letter of the colours' names as their small letter.
abbrev pub to_lower : ℕ → ℕ
to_lower c = if leb b'A' c && leb c b'Z' then c + 32 else c

abbrev pub status_colors : List (String × String)
status_colors =
    ("queued", "rgba(23, 162, 184, 0.7)")
    ∷ ("processing", "rgba(0, 123, 255, 0.7)")
    ∷ ("succeeded", "rgba(40, 167, 69, 0.7)")
    ∷ ("failed", "rgba(220, 53, 69, 0.7)")
    ∷ ("retrying", "rgba(255, 193, 7, 0.7)")
    ∷ ("dead", "rgba(52, 58, 64, 0.7)")
    ∷ ("unknown", "rgba(248, 249, 250, 0.7)")
    ∷ []

abbrev unknown_color : String
unknown_color = "rgba(248, 249, 250, 0.7)"

-- `colors[name] || colors["unknown"]`.
abbrev pub color_among : List (String × String) → Text → String
color_among [] name = unknown_color
color_among ((key, color) ∷ colors) name =
    if same (codes key) name then color else color_among colors name

unfoldable pub color_of : Text → String
color_of status = color_among status_colors (map to_lower status)

pub record ChartData : Type 0 where
  pub labels : List Text
  pub values : List ℕ
  pub colors : List String

-- The loop over the entries, with the three arrays so far.
unfoldable pub push_entries : StatusMap → ChartData → ChartData
unfolding color_of
push_entries [] d = d
push_entries ((status, count) ∷ entries) d = push_entries entries (record {
  labels = d.labels ++ status ∷ [];
  values = d.values ++ count ∷ [];
  colors = d.colors ++ color_of status ∷ [];
})

-- None where Object.entries throws: the answer does not have the object.
unfoldable pub extract_chart_data : Option StatusMap → Option ChartData
unfolding push_entries
extract_chart_data none = none
extract_chart_data (some m) =
    some (push_entries m (record { labels = []; values = []; colors = [] }))

pub record Chart : Type 0 where
  pub canvas : String
  pub label : String
  pub content : ChartData

-- The two variables of the script, the canvases that have a chart, and the canvases in the order in which
-- they have pulsed.
pub record Page : Type 0 where
  pub cron_chart : Option Chart
  pub enqueued_chart : Option Chart
  pub canvases : List String
  pub pulses : List String

abbrev pub blank : Page
blank = record { cron_chart = none; enqueued_chart = none; canvases = []; pulses = [] }

-- What comes of a fetch: it or its JSON is rejected, or it has the two objects or lacks them.
pub data Answer : Type 0 where
  rejected : Answer
  given : Option StatusMap → Option StatusMap → Answer

abbrev pub pulse_charts : Page → Page
pulse_charts p = record p { pulses = p.pulses ++ "cronChart" ∷ "enqueuedChart" ∷ [] }

-- The branch in which both charts are there; it ends where Object.entries throws.
unfoldable pub update : Chart → Chart → Option StatusMap → Option StatusMap → Page → Page
unfolding extract_chart_data
update c e cron enqueued p = elim (extract_chart_data cron) [
  | none ↦ p
  | some d ↦
      let p' = record p { cron_chart = some (record c { content = d }) } in
      elim (extract_chart_data enqueued) [
        | none ↦ p'
        | some d' ↦ pulse_charts (record p' { enqueued_chart = some (record e { content = d' }) })
      ]
]

module _ (accepts : List String → String → Bool) where
  -- None where it throws.
  unfoldable pub create_chart : String → String → Option StatusMap → List String → Option Chart
  unfolding extract_chart_data
  create_chart ctx_id label status_map used = elim (extract_chart_data status_map) [
    | none ↦ none
    | some d ↦
        if accepts used ctx_id
        then some (record { canvas = ctx_id; label = label; content = d })
        else none
  ]

  -- The branch in which a chart is missing.
  unfoldable pub create : Option StatusMap → Option StatusMap → Page → Page
  unfolding create_chart
  create cron enqueued p = elim (create_chart "cronChart" "Cron Jobs" cron p.canvases) [
    | none ↦ p
    | some c ↦
        let p' = record p { cron_chart = some c; canvases = "cronChart" ∷ p.canvases } in
        elim (create_chart "enqueuedChart" "Enqueued Jobs" enqueued p'.canvases) [
          | none ↦ p'
          | some e ↦
              pulse_charts
                (record p' { enqueued_chart = some e; canvases = "enqueuedChart" ∷ p'.canvases })
        ]
  ]

  abbrev pub draw : Option Chart → Option Chart → Option StatusMap → Option StatusMap → Page → Page
  unfolding create update
  draw (some c) (some e) cron enqueued p = update c e cron enqueued p
  draw _ _ cron enqueued p = create cron enqueued p

  unfoldable pub update_charts : Answer → Page → Page
  unfolding draw
  update_charts rejected p = p
  update_charts (given cron enqueued) p = draw p.cron_chart p.enqueued_chart cron enqueued p

  -- The answers in the order in which they come.
  unfoldable pub poll_all : List Answer → Page → Page
  unfolding update_charts
  poll_all [] p = p
  poll_all (a ∷ answers) p = poll_all answers (update_charts a p)
