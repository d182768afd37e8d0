-- ===== src/Audit/Served.antt =====
-- After any calls of the evidence writer's service, over services/evidence-writer/src/service.ts and
-- packages/verifier/src/checks.ts.
use external_database_audit.Base.{
  ◌≡◌, ◌∙◌, sym, ap, subst, true, Option, none, some, List, [], ◌∷◌, map, arith,
}
use external_database_audit.Base.Lists.{All}
use external_database_audit.Base.Result.{ok, err}
use external_database_audit.Cce.{Cce}
use external_database_audit.Verifier.Segments.{VerifierSegment, recompute_segment}
use external_database_audit.Verifier.Accepts.{all_pass}
use external_database_audit.Verifier.Complete.{recompute_no_missing_segment_iff}
use external_database_audit.Verifier.Continuity.{recompute_no_missing_segment}
use external_database_audit.Verifier.Crossing.{
  recompute_cross_segment, recompute_cross_segment-IsContinuedIn, passes,
}
use external_database_audit.Verifier.Verify.{numbered}
use external_database_audit.Writer.Seal.{PreviousSealed, Sealing}
use external_database_audit.Writer.Service.{
  ServiceDeps, Service, Done, count_rejected, count_ingested, ingest, sweep, start, ServiceCall,
  ingesting, sweeping, perform, run,
}
use external_database_audit.Audit.Chain.{IsChain, seq_of, chain-IsContinuedIn, chain-IsExactly}
use external_database_audit.Audit.Run.{IsAudited, HoldsSegment, Heads}
use external_database_audit.Audit.Evidence.{Audited, Audited-then_all, Audited-seal_called}

module _ (d : ServiceDeps) where
  IsAudited-count_rejected :
      (c : Cce) (s : Service) (vs : List VerifierSegment)
      → IsAudited d.sealer s.sealing s.previous vs
      → IsAudited d.sealer (count_rejected d c s).sealing (count_rejected d c s).previous vs
  IsAudited-count_rejected c s vs h =
      let same : (count_rejected d c s).sealing ≡ s.sealing = ground arith in
      let kept : (count_rejected d c s).previous ≡ s.previous = ground arith in
      subst (λ t. IsAudited d.sealer t (count_rejected d c s).previous vs) (sym same)
        (subst (λ p. IsAudited d.sealer s.sealing p vs) (sym kept) h)

  Audited-perform :
      (c : ServiceCall) (s : Service) (vs : List VerifierSegment)
      → IsAudited d.sealer s.sealing s.previous vs
      → Audited d (perform d c s)
  unfolding perform ingest sweep
  Audited-perform (ingesting c now closed turn) s vs h =
      Audited-seal_called d turn _ (count_rejected d c (count_ingested d c s)) vs
        (IsAudited-count_rejected c (count_ingested d c s) vs h)
  Audited-perform (sweeping now turn) s vs h = Audited-seal_called d turn _ s vs h

  Audited-run :
      (cs : List ServiceCall) (s : Service) (vs : List VerifierSegment)
      → IsAudited d.sealer s.sealing s.previous vs
      → Audited d (run d cs s)
  unfolding run
  Audited-run [] s vs h = (vs, h)
  Audited-run (c ∷ cs) s vs h =
      Audited-then_all d (run d cs) (perform d c s) (Audited-perform c s vs h)
        (λ t ws k. Audited-run cs t ws k)

  started :
      (sealing : Sealing) (s : Service)
      → start d sealing ≡ some s
      → sealing.heads ≡ []
      → IsAudited d.sealer s.sealing s.previous []
  unfolding start
  started sealing s e fresh =
      let same : s.sealing ≡ sealing = ground arith in
      let nothing : s.previous ≡ none = ground arith in
      record {
        chain = tt;
        remembered = nothing;
        accepted = tt;
        held = tt;
        heads = ap (λ (t : Sealing). t.heads) same ∙ fresh;
      }

  -- no number up to that of the newest segment is missing
  abbrev pub NoneMissing : List VerifierSegment → Type 0
  NoneMissing [] = Unit {0}
  NoneMissing (v ∷ older) =
      (recompute_no_missing_segment (map numbered (v ∷ older))
        (record { first_segment_sequence = 0; last_segment_sequence = seq_of v })).passed
      ≡ true

  -- segments that the verifier accepts, with what the service emitted and stored of them
  pub record IsEvidence (s : Sealing) (vs : List VerifierSegment) : Type 0 where
    pub accepted :
        All (λ v. recompute_segment d.sealer.js d.sealer.validate_manifest v ≡ ok all_pass) vs
    pub continuous : passes (recompute_cross_segment d.sealer.js vs) ≡ true
    pub complete : NoneMissing vs
    pub held : All (HoldsSegment d.sealer s.sinks.worm) vs
    pub heads : Heads d.sealer vs s.heads

  chain-NoneMissing : (vs : List VerifierSegment) → IsChain d.sealer.js vs → NoneMissing vs
  chain-NoneMissing [] h = tt
  chain-NoneMissing (v ∷ older) h =
      (recompute_no_missing_segment_iff (map numbered (v ∷ older)) _).1
        (chain-IsExactly d.sealer.js v older h)

  IsAudited-IsEvidence :
      (s : Sealing) (p : Option PreviousSealed) (vs : List VerifierSegment)
      → IsAudited d.sealer s p vs
      → IsEvidence s vs
  IsAudited-IsEvidence s p vs h = record {
    accepted = h.accepted;
    continuous =
        (recompute_cross_segment-IsContinuedIn d.sealer.js vs).1
          (chain-IsContinuedIn d.sealer.js vs h.chain);
    complete = chain-NoneMissing vs h.chain;
    held = h.held;
    heads = h.heads;
  }

  Audited-IsEvidence :
      (r : Done × Service) → Audited d r → (vs : List VerifierSegment) × IsEvidence r.1.sealing vs
  Audited-IsEvidence (ok u, s) (vs, h) = (vs, IsAudited-IsEvidence s.sealing s.previous vs h)
  Audited-IsEvidence (err e, s) (vs, p, h) = (vs, IsAudited-IsEvidence s.sealing p vs h)

  -- What the service seals is evidence that the verifier accepts. After any calls of a new service,
  -- over any store and queue and with no head emitted before, up to the first call that throws and with
  -- what that call did, there are segments, one for each emitted head and with that head, such that the
  -- recomputation of each passes every check, the check of their continuity passes, and the check for
  -- missing segments passes from 0 to the number of the newest; and the store holds the manifest of each
  -- segment and its objects, which are sound.
  pub run-IsEvidence :
      (sealing : Sealing) (s : Service) (cs : List ServiceCall)
      → start d sealing ≡ some s
      → sealing.heads ≡ []
      → (vs : List VerifierSegment) × IsEvidence (run d cs s).1.sealing vs
  run-IsEvidence sealing s cs starts fresh =
      Audited-IsEvidence (run d cs s) (Audited-run cs s [] (started sealing s starts fresh))
