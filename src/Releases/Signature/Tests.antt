-- ===== src/Releases/Signature/Tests.antt =====
-- `fetch_signature` of src/kernelorg.rs where no server answers, and the theorem at it.
use kernel_pop.Prelude.{true, false, none, ◌≡◌, refl}
use kernel_pop.Text.{codes}
use kernel_pop.Source.Version.{SourceVersion}
use kernel_pop.Download.{World, Store}
use kernel_pop.Download.Attempts.{Answer}
use kernel_pop.Releases.Signature.{signature_file, fetch_signature}
use kernel_pop.Releases.Signature.Named.{IsNamed, fetch_signature-IsNamed}

abbrev candidate : SourceVersion
candidate = record { version = 7; patchlevel = 4; sublevel = 0; extraversion = codes "-rc1" }

abbrev offline : World
offline = record {
  can_make_dir = true;
  can_make_client = true;
  attempts = λ url try. record { cancelled = false; answer = Answer.no_answer };
  can_set_mode = λ path. true;
  can_rename = λ name. true;
}

abbrev empty : Store
empty = λ name. none

named_file : signature_file candidate ≡ codes "linux-7.4-rc1.tar.sign"
unfolding signature_file
named_file = refl

fetch_signature-IsNamed_example : IsNamed candidate (fetch_signature offline candidate empty).0
fetch_signature-IsNamed_example = fetch_signature-IsNamed offline candidate empty refl
