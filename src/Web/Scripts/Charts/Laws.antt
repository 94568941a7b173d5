-- ===== src/Web/Scripts/Charts/Laws.antt =====
-- What the page shows after the answers that have come.
use go_fire.Base.{
  ℕ, ◌≡◌, refl, ap, ◌∙◌, Bool, true, false, List, [], ◌∷◌, ◌++◌, map, Option, none, some, String,
  All, append_assoc, append-nil, any, str_eq,
}
use go_fire.Text.{Text}
use go_fire.Web.Scripts.Charts.{
  StatusMap, color_of, ChartData, push_entries, extract_chart_data, Chart, Page, Answer, rejected,
  given, update, create_chart, create, draw, update_charts, poll_all,
}

-- The three arrays, side by side.
abbrev pub columns_of : StatusMap → ChartData
columns_of m = record {
  labels = map (λ (e : Text × ℕ). e.0) m;
  values = map (λ (e : Text × ℕ). e.1) m;
  colors = map (λ (e : Text × ℕ). color_of e.0) m;
}

abbrev pub chart_of : String → String → StatusMap → Chart
chart_of canvas label m = record { canvas = canvas; label = label; content = columns_of m }

-- The answer has both objects, or there is none.
abbrev pub IsWhole : Answer → Type 0
IsWhole rejected = Unit
IsWhole (given cron enqueued) =
    ((m : StatusMap) × (cron ≡ some m)) × ((m : StatusMap) × (enqueued ≡ some m))

-- The last answer with both objects.
abbrev pub latest : Option (StatusMap × StatusMap) → List Answer → Option (StatusMap × StatusMap)
latest shown [] = shown
latest shown (given (some cron) (some enqueued) ∷ answers) = latest (some (cron, enqueued)) answers
latest shown (_ ∷ answers) = latest shown answers

-- The charts that show these counts, and the canvases that have one; there is none before any counts.
abbrev pub AreDrawn :
    Option (StatusMap × StatusMap) → Option Chart → Option Chart → List String → Type 0
AreDrawn none c e used = (c ≡ none) × (e ≡ none) × (used ≡ [])
AreDrawn (some (cron, enqueued)) c e used =
    (c ≡ some (chart_of "cronChart" "Cron Jobs" cron))
    × (e ≡ some (chart_of "enqueuedChart" "Enqueued Jobs" enqueued))
    × (used ≡ "enqueuedChart" ∷ "cronChart" ∷ [])

abbrev pub IsShowing : Option (StatusMap × StatusMap) → Page → Type 0
IsShowing o p = AreDrawn o p.cron_chart p.enqueued_chart p.canvases

abbrev push_to : ChartData → ChartData → ChartData
push_to d e = record {
  labels = d.labels ++ e.labels;
  values = d.values ++ e.values;
  colors = d.colors ++ e.colors;
}

abbrev empty : ChartData
empty = record { labels = []; values = []; colors = [] }

push_entries_lem : (m : StatusMap) (d : ChartData) → push_entries m d ≡ push_to d (columns_of m)
unfolding push_entries
push_entries_lem [] d = rw (append-nil d.labels, append-nil d.values, append-nil d.colors) refl
push_entries_lem ((s, n) ∷ m) d =
    push_entries_lem m (push_to d (columns_of ((s, n) ∷ [])))
    ∙ rw (append_assoc d.labels, append_assoc d.values, append_assoc d.colors) refl

pub extract_chart_data_lem : (m : StatusMap) → extract_chart_data (some m) ≡ some (columns_of m)
unfolding extract_chart_data
extract_chart_data_lem m = ap some (push_entries_lem m empty)

module _ (accepts : List String → String → Bool) where
  -- Chart.js accepts a canvas that has no chart.
  abbrev pub AcceptsFree : Type 0
  AcceptsFree =
      (used : List String) (id : String) → any (str_eq id) used ≡ false → accepts used id ≡ true

  create_chart_lem :
      (id label : String) (m : StatusMap) (used : List String)
      → AcceptsFree
      → any (str_eq id) used ≡ false
      → create_chart accepts id label (some m) used ≡ some (chart_of id label m)
  unfolding create_chart
  create_chart_lem id label m used free unused =
      rw (push_entries_lem m empty, free used id unused) refl

  create-shows :
      (cron enqueued : StatusMap) (p : Page)
      → AcceptsFree
      → p.canvases ≡ []
      → IsShowing (some (cron, enqueued)) (create accepts (some cron) (some enqueued) p)
  unfolding create
  create-shows cron enqueued p free clean =
      let first = create_chart_lem "cronChart" "Cron Jobs" cron p.canvases free (rw clean refl) in
      let second =
        create_chart_lem "enqueuedChart" "Enqueued Jobs" enqueued ("cronChart" ∷ p.canvases) free
          (rw clean refl) in
      rw (create, first, second) (refl, refl, ap (λ l. "enqueuedChart" ∷ "cronChart" ∷ l) clean)

  update-shows :
      (c e : Chart) (cron enqueued : StatusMap) (p : Page)
      → c.canvas ≡ "cronChart"
      → c.label ≡ "Cron Jobs"
      → e.canvas ≡ "enqueuedChart"
      → e.label ≡ "Enqueued Jobs"
      → p.canvases ≡ "enqueuedChart" ∷ "cronChart" ∷ []
      → IsShowing (some (cron, enqueued)) (update c e (some cron) (some enqueued) p)
  unfolding update
  update-shows c e cron enqueued p c1 c2 e1 e2 both =
      rw (push_entries_lem cron empty, push_entries_lem enqueued empty, c1, c2, e1, e2)
        (refl, refl, both)

  draw-shows :
      (o : Option (StatusMap × StatusMap)) (c e : Option Chart) (cron enqueued : StatusMap)
      (p : Page)
      → AcceptsFree
      → AreDrawn o c e p.canvases
      → IsShowing (some (cron, enqueued)) (draw accepts c e (some cron) (some enqueued) p)
  unfolding draw create
  draw-shows none c e cron enqueued p free (no_cron, no_enqueued, clean) =
      rw no_cron (create-shows cron enqueued p free clean)
  draw-shows (some (cron', enqueued')) c e cron enqueued p free (is_cron, is_enqueued, both) =
      rw (is_cron, is_enqueued)
        (update-shows (chart_of "cronChart" "Cron Jobs" cron')
          (chart_of "enqueuedChart" "Enqueued Jobs" enqueued') cron enqueued p refl refl refl refl
          both)

  pub shows-given :
      (o : Option (StatusMap × StatusMap)) (cron enqueued : StatusMap) (p : Page)
      → AcceptsFree
      → IsShowing o p
      → IsShowing
          (some (cron, enqueued))
          (update_charts accepts (given (some cron) (some enqueued)) p)
  unfolding update_charts
  shows-given o cron enqueued p free h =
      draw-shows o p.cron_chart p.enqueued_chart cron enqueued p free h

  -- Where Chart.js accepts a canvas that has no chart, and every answer that is not rejected has both
  -- objects: after any answers, in the order in which they have come, the page shows the last one that
  -- was not rejected, in two charts that were made once; before the first such answer it has none. A
  -- chart has the entries in their order, with the counts as its bars and the colours of the statuses.
  pub poll_all-IsShowing :
      (answers : List Answer) (o : Option (StatusMap × StatusMap)) (p : Page)
      → AcceptsFree
      → All IsWhole answers
      → IsShowing o p
      → IsShowing (latest o answers) (poll_all accepts answers p)
  unfolding poll_all update_charts
  poll_all-IsShowing [] o p free whole h = h
  poll_all-IsShowing (rejected ∷ answers) o p free whole h =
      poll_all-IsShowing answers o p free whole.1 h
  poll_all-IsShowing (given none enqueued ∷ answers) o p free whole h =
      absurd (let e = whole.0.0.1 in cc)
  poll_all-IsShowing (given (some cron) none ∷ answers) o p free whole h =
      absurd (let e = whole.0.1.1 in cc)
  poll_all-IsShowing (given (some cron) (some enqueued) ∷ answers) o p free whole h =
      poll_all-IsShowing answers (some (cron, enqueued))
        (update_charts accepts (given (some cron) (some enqueued)) p) free whole.1
        (shows-given o cron enqueued p free h)
