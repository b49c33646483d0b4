-- ===== src/System/Query/Room.antt =====
-- The space that `query_system` of src/system.rs asks for in /boot.
use kernel_pop.Prelude.{
  Bool, Bool-cases, ℕ, ◌+◌, ◌*◌, ◌^◌, ◌≤◌, ◌<◌, some, List, ◌++◌, ◌≡◌, refl, arith, Option-cases,
  inl, inr, All, Elem, Elem-All, All-Elem, Elem-filter_map, Elem-filter_map-of, filter_map,
}
use kernel_pop.Text.{Text, codes}
use kernel_pop.System.Gate.Bootable.{estimate_boot_needed-covers, estimate_boot_needed-some}
use kernel_pop.System.Query.{
  Observed, BootFile, size_of_kind, is_image, is_initrd, boot_needed_bytes,
}

small_sizes :
    (m : Observed) (kind : Text → Bool) (files : List BootFile)
    → All (λ f. (n : ℕ) → f.size ≡ some n → n < 2 ^ 62) files
    → All (λ n. n < 2 ^ 62) (filter_map (size_of_kind m kind) files)
small_sizes m kind files small = Elem-All _ (filter_map (size_of_kind m kind) files) λ n e.
    let (f, at, is) = Elem-filter_map (size_of_kind m kind) n files e in
    All-Elem _ f files small at n (sized f n is)
  where
    sized : (f : BootFile) (n : ℕ) → size_of_kind m kind f ≡ some n → f.size ≡ some n
    sized f n is = elim (Option-cases f.name) [
      | inl no_name ↦ ground (arith, no_name)
      | inr (name, named) ↦ elim (Bool-cases (kind name)) [
        | inl of ↦ ground (arith, named, of)
        | inr other ↦ ground (arith, named, other)
      ]
    ]

-- With files of less than 2^62 bytes in /boot, the space that a new kernel is said to need there is at
-- least the size of any installed image together with twice the size of any initramfs.
pub boot_needed_bytes-covers :
    (m : Observed) (files : List BootFile) (image initrd : BootFile) (v w : Text) (a b : ℕ)
    → m.boot_dir ≡ some files
    → All (λ f. (n : ℕ) → f.size ≡ some n → n < 2 ^ 62) files
    → Elem image files
    → image.name ≡ some (codes "vmlinuz-" ++ v)
    → image.size ≡ some a
    → Elem initrd files
    → initrd.name ≡ some (codes "initrd.img-" ++ w)
    → initrd.size ≡ some b
    → a + 2 * b ≤ boot_needed_bytes m
unfolding boot_needed_bytes
boot_needed_bytes-covers m files image initrd v w a b there small at_i name_i size_i at_r name_r
      size_r =
    let images = filter_map (size_of_kind m (is_image m)) files in
    let initrds = filter_map (size_of_kind m (is_initrd m)) files in
    let at_image : Elem a images =
      Elem-filter_map-of (size_of_kind m (is_image m)) image files at_i
        (rw (name_i, size_i) refl) in
    let at_initrd : Elem b initrds =
      Elem-filter_map-of (size_of_kind m (is_initrd m)) initrd files at_r
        (rw (name_r, size_r) refl) in
    let (needed, estimated) = estimate_boot_needed-some images initrds a b at_image at_initrd in
    let enough =
      estimate_boot_needed-covers images initrds (small_sizes m (is_image m) files small)
        (small_sizes m (is_initrd m) files small) estimated a b at_image at_initrd in
    rw (there, estimated) enough
