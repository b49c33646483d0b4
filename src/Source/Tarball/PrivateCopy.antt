-- ===== src/Source/Tarball/PrivateCopy.antt =====
-- What `private_copy_in` returns.
use kernel_pop.Prelude.{
  ok_injective, context-some, ◌≡◌, refl, sym, ap, ◌∙◌, true, false, not, ◌&&◌, ◌||◌, Option, some,
  Bool, ◌⊎◌, inl, inr, [], ◌∷◌, ◌++◌, ok, context, guard_passed, >>=-eq-ok, arith, ==_iff, &&_both,
}
use mathlib.Core.Path.{subst}
use kernel_pop.Text.{Text, text_eq, text_eq_sound}
use kernel_pop.Source.Version.{SourceVersion}
use kernel_pop.Source.Tarball.{
  FilePath, Tarball, TarFile, Disk, file_name, inspect, from_archive, from_makefile, from_inspect,
  is_inside, same_version, private_copy_in, not_opened, not_read, not_compressed, no_decompressor,
  no_name, changed, is_private_copy, not_cleared, not_created, not_restricted, not_copied,
}
use kernel_pop.Source.Version.{from_magic}
use kernel_pop.Source.Archive.{find_makefile}
use kernel_pop.Source.Makefile.{parse_makefile}

same_version_sound : (v w : SourceVersion) → same_version v w ≡ true → v ≡ w
unfolding same_version
same_version_sound v w h =
    let (a, b) = &&_both _ _ h in
    let (a0, a1) = &&_both _ _ a in
    let (b0, b1) = &&_both _ _ b in
    let e0 = (==_iff v.version w.version).0 a0 in
    let e1 = (==_iff v.patchlevel w.patchlevel).0 a1 in
    let e2 = (==_iff v.sublevel w.sublevel).0 b0 in
    let e3 = text_eq_sound v.extraversion w.extraversion b1 in
    λ i. record { version = e0 i; patchlevel = e1 i; sublevel = e2 i; extraversion = e3 i }

inspect-paths :
    (file : Option TarFile) (path : FilePath) {c : Tarball}
    → inspect file path ≡ ok c
    → (c.path ≡ path) × (c.origin ≡ path)
unfolding inspect
inspect-paths file path h =
    let (f, _, h1) = >>=-eq-ok (context not_opened file) _ h in
    let (head, _, h2) = >>=-eq-ok (context not_read f.head) _ h1 in
    let (compression, _, h3) = >>=-eq-ok (context not_compressed (from_magic head)) _ h2 in
    let (entries, _, h4) = >>=-eq-ok (context no_decompressor f.entries) _ h3 in
    let (found, _, h5) = >>=-eq-ok (from_archive (find_makefile entries)) _ h4 in
    let (version, _, h6) = >>=-eq-ok (from_makefile (parse_makefile found.1)) _ h5 in (cc, cc)

-- `c.origin = origin` behind an inspection
with_origin :
    (file : Option TarFile) (path origin : FilePath) (d : Tarball) {c : Tarball}
    → inspect file path ≡ ok d
    → record d { origin = origin } ≡ c
    → (c.version ≡ d.version)
      × (c.top_dir ≡ d.top_dir)
      × (c.origin ≡ origin)
      × (c.path ≡ path)
      × (inspect file c.path ≡ ok (record c { origin = c.path }))
with_origin file path origin d found is =
    let (at_path, at_origin) = inspect-paths file path found in
    let again : d ≡ record d { origin = d.path } =
      λ i. record d { origin = (at_origin ∙ sym at_path) i } in
    (
      sym (ap (λ t. t.version) is),
      sym (ap (λ t. t.top_dir) is),
      sym (ap (λ t. t.origin) is),
      sym (ap (λ t. t.path) is) ∙ at_path,
      subst (λ t. inspect file t.path ≡ ok (record t { origin = t.path })) is
          (ap (inspect file) at_path ∙ found ∙ ap (λ t. ok t) again),
    )

none_or_cleared : (a b : Bool) → (not a || b) ≡ true → (a ≡ false) ⊎ (b ≡ true)
none_or_cleared true b h = inr h
none_or_cleared false b h = inl refl

-- The private copy of a tarball has the kernel version and the top-level directory of the tarball
-- that was looked into, and remembers where that is. It is a file of the directory with the name of
-- the original, and it is what `inspect` finds in the copied file. The original was not found to be
-- inside the directory (which is not looked into where one of the two cannot be resolved), and the
-- directory was not there or could be deleted. It and the copy could be made private to the user.
pub private_copy_in-same :
    (disk : Disk) (t : Tarball) (dir : FilePath) {c : Tarball}
    → private_copy_in disk t dir ≡ ok c
    → (c.version ≡ t.version)
      × (c.top_dir ≡ t.top_dir)
      × (c.origin ≡ t.origin)
      × (is_inside disk.canonical_source disk.canonical_dir ≡ false)
      × ((disk.dir_exists ≡ false) ⊎ (disk.can_clear ≡ true))
      × (disk.can_restrict_dir ≡ true)
      × (disk.can_restrict_copy ≡ true)
      × ((name : Text) × (file_name t.origin ≡ some name) × (c.path ≡ dir ++ (name ∷ [])))
      × (inspect disk.copied c.path ≡ ok (record c { origin = c.path }))
unfolding private_copy_in
private_copy_in-same disk t dir h =
    let (outside, h1) =
      guard_passed (not (is_inside disk.canonical_source disk.canonical_dir)) is_private_copy h in
    let (cleared, h2) = guard_passed (not disk.dir_exists || disk.can_clear) not_cleared h1 in
    let (_, h3) = guard_passed disk.can_create not_created h2 in
    let (private_dir, h4) = guard_passed disk.can_restrict_dir not_restricted h3 in
    let (name, named, h5) = >>=-eq-ok (context no_name (file_name t.origin)) _ h4 in
    let (_, h6) = guard_passed disk.can_copy not_copied h5 in
    let (private_copy, h7) = guard_passed disk.can_restrict_copy not_restricted h6 in
    let (d, found, h8) = >>=-eq-ok (from_inspect (inspect disk.copied (dir ++ (name ∷ [])))) _ h7 in
    let (same, h9) =
      guard_passed (same_version d.version t.version && text_eq d.top_dir t.top_dir) changed h8 in
    let (v, top) = &&_both (same_version d.version t.version) (text_eq d.top_dir t.top_dir) same in
    let got : inspect disk.copied (dir ++ (name ∷ [])) ≡ ok d = ground arith in
    let (v1, top1, origin1, path1, again) =
      with_origin disk.copied (dir ++ (name ∷ [])) t.origin d got (ok_injective refl h9) in
    let ev = same_version_sound d.version t.version v in
    let et = text_eq_sound d.top_dir t.top_dir top in
    (
      v1 ∙ ev,
      top1 ∙ et,
      origin1,
      ground arith,
      none_or_cleared disk.dir_exists disk.can_clear cleared,
      private_dir,
      private_copy,
      (name, context-some no_name (file_name t.origin) named, path1),
      again,
    )
