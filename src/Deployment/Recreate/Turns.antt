-- ===== src/Deployment/Recreate/Turns.antt =====
-- What a run of Recreate shows on the API server is a turn.
use churnless.Base.{◌≡◌, Bool, false, String, List, any}
use churnless.Api.{Deployment}
use churnless.Action.{Result, ok, Action}
use churnless.Upstream.{Upstream}
use churnless.Client.{Client}
use churnless.Deployment.Actions.{is_old_running}
use churnless.Deployment.Recreate.Scene.{Scene, Shows}

module _ (up : Upstream) where
  module _ (api : Client up.Selector) (view : api.World → Scene) (shows : Shows api view) where
    -- What a check of the old Pods may show and answer, where it lists them by `uids`.
    abbrev Checked : List String → api.World → Result Bool × api.World → Type 0
    Checked uids w (r, w') =
        (view w' ≡ view w) × (r ≡ ok false → any (is_old_running up uids) (view w).pods ≡ false)
