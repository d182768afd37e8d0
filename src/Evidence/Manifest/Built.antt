-- ===== src/Evidence/Manifest/Built.antt =====
-- When the builder returns a manifest, and what the manifest then carries.
use external_database_audit.Base.{
  ℕ, zero, suc, String, ◌≡◌, ◌↔◌, refl, sym, ap, ap₂, ◌∙◌, Bool, true, false, not, Option, none,
  some, List, [], ◌∷◌,
}
use external_database_audit.Base.Platform.{Platform}
use external_database_audit.Base.Result.{Result, ok, err, reject_if, ◌>>=◌, ◌>>◌}
use external_database_audit.Canonical.Json.{CanonicalError}
use external_database_audit.Evidence.{
  PreviousSegmentRef, ManifestCore, SegmentManifest, SegmentInput,
}
use external_database_audit.Evidence.Manifest.{
  ManifestProblem, cross_check, resolve_previous_segment, core_with, assemble_manifest_core,
  no_problems, lift, completed, inconsistent, invalid_manifest, ManifestError,
  compute_manifest_hash, build_segment_manifest,
}
use external_database_audit.Evidence.Manifest.Exact.{IsConsistent, cross_check-eq-nil_iff}

err≢ok {ℓ} :
    {A : Type ℓ} {x : ManifestError} {a : A} → ◌≡◌ {A = Result ManifestError A} (err x) (ok a) → ⊥
err≢ok e = cc

-- the link to the prior segment that a segment of this number must be given
abbrev pub IsLinkFor : ℕ → Option PreviousSegmentRef → Type 0
IsLinkFor zero none = Unit
IsLinkFor zero (some p) = ⊥
IsLinkFor (suc n) none = ⊥
IsLinkFor (suc n) (some p) = Unit

linked_iff :
    {A B : Type 0} (n : ℕ) (given : Option PreviousSegmentRef) (g : Option PreviousSegmentRef → A)
    (f : A → Result ManifestError B) (b : B)
    → (((resolve_previous_segment n given >>= λ p. ok (g p)) >>= f) ≡ ok b)
      ↔ (IsLinkFor n given × (f (g given) ≡ ok b))
unfolding resolve_previous_segment
linked_iff zero none g f b = (λ e. (tt, e), λ t. t.1)
linked_iff zero (some p) g f b = (λ e. absurd (err≢ok e), λ t. absurd t.0)
linked_iff (suc n) none g f b = (λ e. absurd (err≢ok e), λ t. absurd t.0)
linked_iff (suc n) (some p) g f b = (λ e. (tt, e), λ t. t.1)

checked_iff :
    (qs : List ManifestProblem) (r : Result ManifestError SegmentManifest) (m : SegmentManifest)
    → ((reject_if (not (no_problems qs)) (inconsistent qs) >> r) ≡ ok m) ↔ ((qs ≡ []) × (r ≡ ok m))
checked_iff [] r m = (λ e. (refl, e), λ t. t.1)
checked_iff (q ∷ qs) r m = (λ e. absurd (err≢ok e), λ t. cc)

ok_inj : {A : Type 0} {a b : A} → ◌≡◌ {A = Result ManifestError A} (ok a) (ok b) → a ≡ b
ok_inj e = cc

accepted_iff :
    (b : Bool) (made m : SegmentManifest)
    → ((reject_if (not b) invalid_manifest >> ok made) ≡ ok m) ↔ ((b ≡ true) × (made ≡ m))
accepted_iff true made m = (λ e. (refl, ok_inj e), λ t. ap ok t.1)
accepted_iff false made m = (λ e. absurd (err≢ok e), λ t. cc)

completed_iff :
    (validate : SegmentManifest → Bool) (core : ManifestCore) (r : Result CanonicalError String)
    (m : SegmentManifest)
    → ((lift r >>= completed validate core) ≡ ok m)
      ↔ ((m.core ≡ core) × (r ≡ ok m.manifest_hash) × (validate m ≡ true))
completed_iff validate core (err x) m = (λ e. absurd (err≢ok e), λ (same, hashed, valid). cc)
completed_iff validate core (ok hash) m =
    let made : SegmentManifest = record { core = core; manifest_hash = hash } in
    let (accept→, accept←) = accepted_iff (validate made) made m in
    (
      λ e.
          let (valid, same) = accept→ e in
          (
            ap (λ (q : SegmentManifest). q.core) (sym same),
            ap (λ (q : SegmentManifest). ok q.manifest_hash) same,
            ap validate (sym same) ∙ valid,
          ),
      λ (fields, hashed, valid).
          let digest : hash ≡ m.manifest_hash = cc in
          let same : made ≡ m =
            ap₂ (λ c (h : String). record { core = c; manifest_hash = h }) (sym fields) digest in
          accept← (ap validate same ∙ valid, same),
    )

-- The builder returns a manifest exactly when the segment is consistent, the link is given if and
-- only if the segment is not the first, the manifest has the fields of the segment, the seal time
-- and the link, its hash is the hash of those fields, and the schema accepts it.
pub build_segment_manifest-eq-ok_iff :
    (js : Platform) (validate : SegmentManifest → Bool) (seg : SegmentInput) (sealed_at : String)
    (given : Option PreviousSegmentRef) (m : SegmentManifest)
    → (build_segment_manifest js validate seg sealed_at given ≡ ok m) ↔ (
        IsConsistent seg
        × IsLinkFor seg.segment_sequence given
        × (m.core ≡ core_with seg sealed_at given)
        × (compute_manifest_hash js m.core ≡ ok m.manifest_hash)
        × (validate m ≡ true))
unfolding build_segment_manifest assemble_manifest_core
build_segment_manifest-eq-ok_iff js validate seg sealed_at given m =
    let fields : ManifestCore = core_with seg sealed_at given in
    let (check→, check←) =
      checked_iff (cross_check seg)
        (assemble_manifest_core seg sealed_at given >>= λ core.
          lift (compute_manifest_hash js core) >>= completed validate core)
        m in
    let (link→, link←) =
      linked_iff seg.segment_sequence given (core_with seg sealed_at)
        (λ core. lift (compute_manifest_hash js core) >>= completed validate core) m in
    let (done→, done←) = completed_iff validate fields (compute_manifest_hash js fields) m in
    let (sound→, sound←) = cross_check-eq-nil_iff seg in
    (
      λ e.
          let (clean, rest) = check→ e in
          let (linked, tail) = link→ rest in
          let (same, hashed, valid) = done→ tail in
          (sound→ clean, linked, same, ap (compute_manifest_hash js) same ∙ hashed, valid),
      λ (consistent, linked, same, hashed, valid). check← (
        sound← consistent,
        link← (linked, done← (same, sym (ap (compute_manifest_hash js) same) ∙ hashed, valid)),
      ),
    )
