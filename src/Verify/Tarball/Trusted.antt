-- ===== src/Verify/Tarball/Trusted.antt =====
-- The results of `verify_tarball` in src/verify.rs.
use kernel_pop.Prelude.{
  ℕ, true, not, some, List, ◌≡◌, refl, arith, ok, context, guard, ◌>>◌, >>=-eq-ok, ◌∙◌, sym, ◌&&◌,
  Option, none, inl, inr, ◌⊎◌, [], ◌∷◌, ap, Bool-cases, ok_injective, context-some, or_default,
  if◌then◌else◌, err,
}
use kernel_pop.Text.{Text, codes}
use kernel_pop.Verify.Status.{GpgvVerdict, good, missing_key, bad, parse_gpgv_status}
use kernel_pop.Verify.Address.{uid_address, is_release_signer, Signer, signer_addresses}
use kernel_pop.Verify.Tarball.{
  Exit, success, exited, signalled, tarball_verdict, no_pipeline, no_export, no_home, no_keys,
  Programs, is_empty, export, fetch_other, gpgv_tarball, accept, verify_tarball, uid_of, uid_in,
  other_address, not_a_release_signer,
}

tarball_verdict-good :
    (dec : Exit) (v : GpgvVerdict) {f : Text}
    → tarball_verdict dec v ≡ good f
    → (dec ≡ success) × (v ≡ good f)
unfolding tarball_verdict
tarball_verdict-good success v h = (refl, h)
tarball_verdict-good (exited n) v h = cc
tarball_verdict-good (signalled n) (good g) h = ground arith
tarball_verdict-good (signalled n) (missing_key k) h = ground arith
tarball_verdict-good (signalled n) (bad r) h = ground arith

module _ {Home : Type 0} (p : Programs Home) where
  accept-ok :
      (home : Home) (v : GpgvVerdict) {s : Signer}
      → accept p home v ≡ ok s
      → (v ≡ good s.fingerprint)
        × (is_release_signer s.uid ≡ true)
        × (uid_of p home s.fingerprint ≡ some s.uid)
  unfolding accept is_release_signer uid_address
  accept-ok home (good f) {s} h = by_uid (uid_of p home f) refl h
    where
      by_uid :
          (uid : Option Text)
          → uid_of p home f ≡ uid
          → (let signer : Signer = record {
            uid = or_default (codes "unknown user ID") uid;
            fingerprint = f;
          } in
              if is_release_signer signer.uid then ok signer else err (not_a_release_signer signer))
            ≡ ok s
          → (good f ≡ good s.fingerprint)
            × (is_release_signer s.uid ≡ true)
            × (uid_of p home s.fingerprint ≡ some s.uid)
      by_uid none e k = cc
      by_uid (some uid) e k = elim (Bool-cases (is_release_signer uid)) [
        | inr refused ↦ cc (rw refused at k)
        | inl allowed ↦
            let is = ok_injective refl (rw allowed at k) in
            (
              ap (λ (g : Signer). good g.fingerprint) is,
              ap (λ (g : Signer). is_release_signer g.uid) (sym is) ∙ allowed,
              ap (λ (g : Signer). uid_of p home g.fingerprint) (sym is)
                  ∙ e
                  ∙ ap (λ (g : Signer). some g.uid) is,
            )
      ]
  accept-ok home (missing_key k) h = cc
  accept-ok home (bad r) h = cc

  gpgv_tarball-ok :
      (ring : List ℕ) {v : GpgvVerdict}
      → gpgv_tarball p ring ≡ ok v
      → (dec : Exit) × (status : Text) × (p.run_gpgv ring ≡ some (dec, status))
        × (v ≡ tarball_verdict dec (parse_gpgv_status p.to_uppercase status))
  unfolding gpgv_tarball
  gpgv_tarball-ok ring {v} h =
      let ((dec, status), ran, same) =
        >>=-eq-ok (context no_pipeline (p.run_gpgv ring))
          (λ (dec, status). ok (tarball_verdict dec (parse_gpgv_status p.to_uppercase status))) h in
      (dec, status, ground arith, ground arith)

  export-ok :
      (home : Home) {ring : List ℕ}
      → export p home ≡ ok ring
      → (p.gpg_export home ≡ some (true, ring)) × (p.can_write ring ≡ true)
  unfolding export
  export-ok home {ring} h =
      let ((succeeded, exported), ran, rest) =
        >>=-eq-ok (context no_export (p.gpg_export home))
          (λ (succeeded, r).
            guard (succeeded && not (is_empty r)) no_export
            >> (guard (p.can_write r) no_export >> ok r))
          h in
      (ground arith, ground arith)

  uid_of-some :
      (home : Home) (f : Text) {uid : Text}
      → uid_of p home f ≡ some uid
      → (listing : Text) × (p.list_keys home f ≡ some listing) × (uid_in listing ≡ some uid)
  unfolding uid_of
  uid_of-some home f {uid} h = of_listing (p.list_keys home f) refl h
    where
      of_listing :
          (found : Option Text)
          → p.list_keys home f ≡ found
          → elim found [ none ↦ none | some t ↦ uid_in t ] ≡ some uid
          → (listing : Text) × (p.list_keys home f ≡ some listing) × (uid_in listing ≡ some uid)
      of_listing none e k = cc
      of_listing (some listing) e k = (listing, e, k)

  fetch_other-ok :
      (fetched : Home) {keys : Home}
      → fetch_other p fetched ≡ ok keys
      → (keys ≡ fetched) ⊎ ((addr : Text) × (p.locate_keys (addr ∷ []) fetched ≡ some keys))
  unfolding fetch_other
  fetch_other-ok fetched {keys} h = of_address (other_address p fetched) h
    where
      of_address :
          (found : Option Text)
          → elim found [
            | none ↦ ok fetched
            | some addr ↦ context no_keys (p.locate_keys (addr ∷ []) fetched)
          ]
            ≡ ok keys
          → (keys ≡ fetched) ⊎ ((addr : Text) × (p.locate_keys (addr ∷ []) fetched ≡ some keys))
      of_address none k = inl (sym (ok_injective refl k))
      of_address (some addr) k =
          inr (addr, context-some no_keys (p.locate_keys (addr ∷ []) fetched) k)

  -- An accepted signer is a signer of releases: its user ID is the first that gpg lists for the very
  -- fingerprint, in the home that got the keys of the release signers and at most one other. gpgv gave a good verdict with that fingerprint, on
  -- the keyring that gpg exported successfully and that was written, and the decompressor succeeded.
  pub verify_tarball-trusted :
      {s : Signer}
      → verify_tarball p ≡ ok s
      → (empty fetched home : Home) × (ring : List ℕ) × (status listing : Text) × (is_release_signer
            s.uid
          ≡ true)
        × (p.new_home ≡ some empty)
        × (p.locate_keys signer_addresses empty ≡ some fetched)
        × ((home ≡ fetched) ⊎ ((addr : Text) × (p.locate_keys (addr ∷ []) fetched ≡ some home)))
        × (p.list_keys home s.fingerprint ≡ some listing)
        × (uid_in listing ≡ some s.uid)
        × (p.gpg_export home ≡ some (true, ring))
        × (p.can_write ring ≡ true)
        × (p.run_gpgv ring ≡ some (success, status))
        × (parse_gpgv_status p.to_uppercase status ≡ good s.fingerprint)
  unfolding verify_tarball
  verify_tarball-trusted {s} h =
      let (home, made, h1) = >>=-eq-ok (context no_home p.new_home) _ h in
      let (fetched, located, h2) =
        >>=-eq-ok (context no_keys (p.locate_keys signer_addresses home)) _ h1 in
      let (keys, other, h3) = >>=-eq-ok (fetch_other p fetched) _ h2 in
      let (ring, exported, h4) = >>=-eq-ok (export p keys) _ h3 in
      let (v, checked, h5) = >>=-eq-ok (gpgv_tarball p ring) _ h4 in
      let (is_good, signer, named) = accept-ok keys v h5 in
      let (listing, listed, uid) = uid_of-some keys s.fingerprint named in
      let (dec, status, ran, is_verdict) = gpgv_tarball-ok ring checked in
      let (done, reported) = tarball_verdict-good dec _ (sym is_verdict ∙ is_good) in
      let (out, written) = export-ok keys exported in
      (
        home,
        fetched,
        keys,
        ring,
        status,
        listing,
        signer,
        context-some no_home p.new_home made,
        context-some no_keys (p.locate_keys signer_addresses home) located,
        fetch_other-ok fetched other,
        listed,
        uid,
        out,
        written,
        rw (← done) ran,
        reported,
      )
