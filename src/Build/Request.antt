-- ===== src/Build/Request.antt =====
-- What a build is asked for, in src/build.rs: `SourceTrust`, `BuildRequest`, and `ConfigSummary` with
-- its text.
use kernel_pop.Prelude.{ℕ, Option, List, [], ◌∷◌, ◌++◌}
use kernel_pop.Text.{Text, codes, decimal, trim_end}
use kernel_pop.Verify.Address.{Signer, grouped_fingerprint}
use kernel_pop.Source.Tarball.{FilePath, Tarball}
use kernel_pop.Build.Sets.{ConfigMode, label}

pub data SourceTrust : Type 0 where
  verified : Signer → SourceTrust
  unverified : Text → SourceTrust

unfoldable pub describe : SourceTrust → Text
unfolding grouped_fingerprint
describe (verified s) =
    codes "verified: signed by " ++ s.uid ++ codes " (" ++ grouped_fingerprint s ++ codes ")"
describe (unverified reason) =
    codes "UNVERIFIED — built without a valid kernel.org signature (" ++ reason ++ codes ")"

pub record BuildRequest : Type 0 where
  pub tarball : Tarball
  pub trust : SourceTrust
  pub mode : ConfigMode
  pub running_kernel : Text

pub record ConfigSummary : Type 0 where
  pub base_config : FilePath
  pub mode : ConfigMode
  pub localversion : Text
  pub kernelrelease : Text
  pub fixes : List Text
  pub notes : List Text
  pub modules : ℕ
  pub objects : Option ℕ

-- `display()` of a path
unfoldable pub display : FilePath → Text
display [] = []
display (p ∷ []) = p
display (p ∷ q ∷ ps) = p ++ (b'/' ∷ display (q ∷ ps))

-- the points of a list, each on a line
unfoldable pub bullets : List Text → Text
bullets [] = []
bullets (f ∷ fs) = codes "• " ++ f ++ (b'\n' ∷ bullets fs)

abbrev pub notes_text : List Text → Text
notes_text [] = []
notes_text (n ∷ ns) = codes "\nNotes:\n" ++ bullets (n ∷ ns)

unfoldable pub text : ConfigSummary → Text
unfolding label decimal display bullets trim_end
text c = trim_end (
    codes "Kernel: "
    ++ c.kernelrelease
    ++ codes "\nConfiguration: "
    ++ label c.mode
    ++ codes "\nBase config: "
    ++ display c.base_config
    ++ codes "\nLOCALVERSION: "
    ++ c.localversion
    ++ codes "\nModules: "
    ++ decimal c.modules
    ++ codes "\nccache: used\n\nFixes applied:\n"
    ++ bullets c.fixes
    ++ notes_text c.notes)

pub record Prepared : Type 0 where
  pub request : BuildRequest
  pub tree : FilePath
  pub summary : ConfigSummary
  pub log : FilePath
