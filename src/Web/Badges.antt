-- ===== src/Web/Badges.antt =====
-- The classes and icons of the statuses in the templates (web/template_renderer.go).
use go_fire.Base.{◌≡◌, refl, String}
use Prim.Native.String.{◌++◌ as append}
use go_fire.Status.{JobStatus, queued, processing, succeeded, failed, retrying, dead, other}

unfoldable pub status_badge_class : JobStatus → String
status_badge_class queued = "badge bg-info"
status_badge_class processing = "badge bg-primary"
status_badge_class succeeded = "badge bg-success"
status_badge_class failed = "badge bg-danger"
status_badge_class retrying = "badge bg-warning"
status_badge_class dead = "badge bg-dark"
status_badge_class (other s) = "badge bg-light text-dark"

unfoldable pub status_bg_class : JobStatus → String
status_bg_class queued = " bg-info"
status_bg_class processing = " bg-primary"
status_bg_class succeeded = " bg-success"
status_bg_class failed = " bg-danger"
status_bg_class retrying = " bg-warning"
status_bg_class dead = " bg-dark"
status_bg_class (other s) = " bg-light text-dark"

unfoldable pub status_icon : JobStatus → String
status_icon queued = "📥"
status_icon processing = "⚙\u{fe0f}"
status_icon succeeded = "✅"
status_icon failed = "❌"
status_icon retrying = "🔁"
status_icon dead = "❓"
status_icon (other s) = "❓"

-- The two classes of a status have one colour.
status_badge_class_lem : (s : JobStatus) → status_badge_class s ≡ append "badge" (status_bg_class s)
unfolding status_badge_class status_bg_class
status_badge_class_lem queued = refl
status_badge_class_lem processing = refl
status_badge_class_lem succeeded = refl
status_badge_class_lem failed = refl
status_badge_class_lem retrying = refl
status_badge_class_lem dead = refl
status_badge_class_lem (other s) = refl
