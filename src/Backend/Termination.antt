-- ===== src/Backend/Termination.antt =====
-- packages/wmfs/wmfs/backends/isolated.py: what comes of `close` once it has begun.
use wmfs.Common.{nat_eq, ◌≡◌}
use wmfs.Common.Text.{text_eq}
use wmfs.Backend.{is_closed}
use wmfs.Backend.Steps.{World, Step}
use wmfs.Backend.Progress.{CanStep}
use wmfs.Backend.Counts.{total, in_close}

-- However the threads go on, after finitely many steps the backend is closed, or no call of `close` is
-- under way, since its wait has raised; until then some thread can go on.
pub data Ends : World → Type 0 where
  ends : {w : World} → w.backend.state ≡ is_closed → Ends w
  abandoned : {w : World} → total in_close w.tasks ≡ 0 → Ends w
  goes : {w : World} → CanStep w → ((u : World) → Step w u → Ends u) → Ends w
