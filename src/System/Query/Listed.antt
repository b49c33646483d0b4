-- ===== src/System/Query/Listed.antt =====
-- The list of installed kernels of `get_installed_kernels` in src/system.rs.
use kernel_pop.Prelude.{
  Bool, true, false, some, [], ◌++◌, List, ◌≡◌, refl, sym, ap, ◌∙◌, arith, inl, inr, Elem,
  if◌then◌else◌, filter_map, Elem-filter_map, Elem-filter_map-of, Option-cases, or_default,
}
use kernel_pop.Text.{Text, codes, text_eq, strip_prefix, append-strip_prefix}
use kernel_pop.System.Versions.{version_key}
use kernel_pop.System.Versions.Order.{lex_ge_trans, lex_ge_total}
use kernel_pop.System.Prune.{InstalledKernel, listed_first, sort_listed}
use kernel_pop.System.Prune.Newest.{Sorted, Sorted-sort, Elem-sort, Elem-sort-of}
use kernel_pop.System.BootPath.{Bootloader}
use kernel_pop.System.Query.{
  Observed, BootFile, kernel_of, installed_kernel, get_installed_kernels, distro_signed_kernels,
}

listed_total : (a b : InstalledKernel) → listed_first a b ≡ false → listed_first b a ≡ true
listed_total a b h = ground (arith, lex_ge_total (version_key a.version) (version_key b.version))

listed_trans :
    (a b c : InstalledKernel)
    → listed_first a b ≡ true
    → listed_first b c ≡ true
    → listed_first a c ≡ true
listed_trans a b c h k =
    ground
      (arith, lex_ge_trans (version_key a.version) (version_key b.version) (version_key c.version))

-- an installed kernel that is read from this entry of /boot
abbrev pub IsReadFrom : Text → BootFile → InstalledKernel → Type 0
IsReadFrom running f k =
    (f.name ≡ some (codes "vmlinuz-" ++ k.version)) × (k.running ≡ text_eq k.version running)

module _ (m : Observed) (running : Text) (bootloader : Bootloader) (has_key : Bool) where
  module _ (distro : List Text) where
    installed_kernel-IsReadFrom :
        (f : BootFile) (k : InstalledKernel)
        → installed_kernel m running bootloader has_key distro f ≡ some k
        → IsReadFrom running f k
    unfolding installed_kernel
    installed_kernel-IsReadFrom f k h = elim (Option-cases f.name) [
      | inl no_name ↦ cc (rw no_name at h)
      | inr (name, named) ↦ elim (Option-cases (strip_prefix (codes "vmlinuz-") name)) [
        | inl other ↦ cc (rw (named, other) at h)
        | inr (v, image) ↦
            let is : some _ ≡ some k = rw (named, image) at h in
            let spelled = append-strip_prefix (codes "vmlinuz-") name image in
            let of : v ≡ k.version = ap (λ o. (or_default k o).version) is in
            let runs : text_eq v running ≡ k.running = ap (λ o. (or_default k o).running) is in
            (
              named ∙ ap some (spelled ∙ ap (λ t. codes "vmlinuz-" ++ t) of),
              sym runs ∙ ap (λ t. text_eq t running) of,
            )
      ]
    ]

    installed_kernel-some :
        (f : BootFile) (v : Text)
        → f.name ≡ some (codes "vmlinuz-" ++ v)
        → (k : InstalledKernel) × (installed_kernel m running bootloader has_key distro f ≡ some k)
          × (k.version ≡ v)
    unfolding installed_kernel
    installed_kernel-some f v h =
        (kernel_of m running bootloader has_key distro v, rw (h, installed_kernel), refl)

  -- The list has the running kernel first and the others with the newest version first. Each kernel on
  -- it stands in /boot as "vmlinuz-" with its version, and counts as running exactly if that is the
  -- running version. Each such entry of /boot is on the list.
  pub get_installed_kernels-IsListed :
      (files : List BootFile)
      → m.boot_dir ≡ some files
      → let ks = get_installed_kernels m running bootloader has_key in
        Sorted listed_first ks
        × ((k : InstalledKernel)
            → Elem k ks
            → (f : BootFile) × Elem f files × IsReadFrom running f k)
        × ((f : BootFile) (v : Text)
            → Elem f files
            → f.name ≡ some (codes "vmlinuz-" ++ v)
            → (k : InstalledKernel) × Elem k ks × (k.version ≡ v))
  unfolding get_installed_kernels sort_listed
  get_installed_kernels-IsListed files h =
      let distro = if has_key then distro_signed_kernels m else [] in
      let read = installed_kernel m running bootloader has_key distro in
      rw h (
        Sorted-sort listed_first listed_total listed_trans (filter_map read files),
        (λ k e.
            let (f, at, is) =
              Elem-filter_map read k files (Elem-sort listed_first k (filter_map read files) e) in
            (f, at, installed_kernel-IsReadFrom distro f k is)),
        (λ f v at named.
            let (k, is, of) = installed_kernel-some distro f v named in
            (
              k,
              Elem-sort-of listed_first k (filter_map read files)
                  (Elem-filter_map-of read f files at is),
              of,
            )),
      )
