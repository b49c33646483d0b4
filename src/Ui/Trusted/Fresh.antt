-- ===== src/Ui/Trusted/Fresh.antt =====
-- Which builds src/ui.rs installs once the list of finished builds was read anew: after a rebuild, or
-- after one was deleted.
use kernel_pop.Prelude.{List, Elem, ◌⊎◌, Result}
use kernel_pop.Text.{Text}
use kernel_pop.Source.Tarball.{Tarball}
use kernel_pop.Verify.Address.{Signer}
use kernel_pop.Ui.State.{AppState, Task, Finished}
use kernel_pop.Ui.Trusted.Noted.{Noted, IsFresh}

module _ (Checked : Tarball → Result Text Signer → Type 0) (Intact : Finished → Type 0) where
  -- an install that was started before this step, or one of a fresh build
  abbrev Installs : AppState → List Finished → Finished → Type 0
  Installs s log set = Elem (Task.install set) s.tasks ⊎ IsFresh Checked Intact log set
