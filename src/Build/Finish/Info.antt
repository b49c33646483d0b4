-- ===== src/Build/Finish/Info.antt =====
-- build-info.txt, which `publish` of src/build.rs writes and `built_sets_in` reads.
use kernel_pop.Prelude.{
  true, not, all, some, find_map, or_default, List, [], ◌∷◌, ◌++◌, ◌==◌, ◌≡◌, refl, arith,
  All-append, All-all, All-map, ◌&&◌, ap, ◌∙◌,
}
use kernel_pop.Text.{Text, codes, lines, strip_prefix, Lacks, lines-append}
use kernel_pop.Build.Sets.{source_of, label}
use kernel_pop.Build.Request.{Prepared, describe, display}
use kernel_pop.Build.Finish.{info_text}

-- a text on one line
abbrev pub OnOneLine : Text → Type 0
OnOneLine t = Lacks 10 t × Lacks 13 t

-- a line that begins with a fixed text
lines-head :
    (head t rest : Text)
    → all (λ c. not (c == 10) && not (c == 13)) head ≡ true
    → OnOneLine t
    → lines ((head ++ t) ++ 10 ∷ rest) ≡ (head ++ t) ∷ lines rest
lines-head head t rest h (no_lf, no_cr) =
    let plain = All-all (λ c. not (c == 10) && not (c == 13)) head h in
    lines-append (head ++ t) rest
      (All-append _ head t (All-map _ _ head (λ c k. ground arith) plain) no_lf)
      (All-append _ head t (All-map _ _ head (λ c k. ground arith) plain) no_cr)

source_of_lem :
    (t : Text)
    → source_of (some t) ≡ or_default [] (find_map (strip_prefix (codes "signature: ")) (lines t))
unfolding source_of
source_of_lem t = refl

signature_third :
    (krel origin trust rest : Text) (ls : List Text)
    → ls
      ≡ (codes "kernel: " ++ krel)
        ∷ (codes "source: " ++ origin)
        ∷ (codes "signature: " ++ trust)
        ∷ lines rest
    → or_default [] (find_map (strip_prefix (codes "signature: ")) ls) ≡ trust
unfolding find_map strip_prefix
signature_third krel origin trust rest ls e = rw e refl

abbrev behind_signature : Prepared → Text → Text
behind_signature p clock =
    codes "configuration: "
    ++ (label p.summary.mode
        ++ (codes "\nbase config: "
            ++ (display p.summary.base_config ++ (codes "\nbuilt: " ++ (clock ++ codes "\n")))))

-- The line of the signature is read back from build-info.txt as it was written, if the release of the
-- kernel, the path of the tarball and the line itself have no line break in them.
pub source_of-info_text :
    (p : Prepared) (clock : Text)
    → OnOneLine p.summary.kernelrelease
    → OnOneLine (display p.request.tarball.origin)
    → OnOneLine (describe p.request.trust)
    → source_of (some (info_text p clock)) ≡ describe p.request.trust
unfolding info_text
source_of-info_text p clock krel origin trust =
    let k = p.summary.kernelrelease in
    let o = display p.request.tarball.origin in
    let t = describe p.request.trust in
    let rest = behind_signature p clock in
    let from_signature = codes "signature: " ++ (t ++ 10 ∷ rest) in
    let from_source = codes "source: " ++ (o ++ 10 ∷ from_signature) in
    source_of_lem (info_text p clock)
    ∙ signature_third k o t rest (lines (info_text p clock)) (
        lines-head (codes "kernel: ") k from_source refl krel
        ∙ ap (λ ls. (codes "kernel: " ++ k) ∷ ls)
            (lines-head (codes "source: ") o from_signature refl origin
              ∙ ap (λ ls. (codes "source: " ++ o) ∷ ls)
                  (lines-head (codes "signature: ") t rest refl trust)))
