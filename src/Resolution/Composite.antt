-- ===== src/Resolution/Composite.antt =====
-- `CompositeResolver.resolve` of oprow/resolution/composite.py.
use watermarks_po_c.Common.{
  Bool, true, false, List, [], ◌∷◌, ◌++◌, String, is_empty, if◌then◌else◌, Result, ok, ◌>>=◌,
}
use watermarks_po_c.Core.Hashes.{HashFunction}
use watermarks_po_c.Resolution.{
  ResolutionRequest, ResolutionResult, ResolutionStatus, ResolutionCandidate,
  ResolverDiagnosticEvent, found, not_found, error, deduplicate_candidates,
}

-- The `Resolver` protocol: a name and `resolve`, which may raise.
pub record Resolver : Type 0 where
  pub name : String
  pub resolve : ResolutionRequest → Result ResolutionResult

pub record CompositeResolver : Type 0 where
  pub resolvers : List Resolver
  pub stop_on_first_found : Bool
  pub name : String

-- The three lists that the loop extends.
pub record Collected : Type 0 where
  pub candidates : List ResolutionCandidate
  pub diagnostics : List ResolverDiagnosticEvent
  pub errors : List String

abbrev pub extend : Collected → ResolutionResult → Collected
extend c r = record {
  candidates = c.candidates ++ r.candidates;
  diagnostics = c.diagnostics ++ r.diagnostics;
  errors = c.errors ++ r.errors;
}

abbrev pub note : String → String → Collected → Collected
note name event c = record c {
  diagnostics = c.diagnostics ++ record { resolver = name; event = event; detail = "" } ∷ [];
}

module _ (composite : CompositeResolver) (request : ResolutionRequest) where
  -- The loop over the resolvers; the stop is its `break`.
  unfoldable pub resolve_loop : Collected → List Resolver → Result Collected
  resolve_loop c [] = ok c
  resolve_loop c (r ∷ rest) = do
    result ← r.resolve request
    let c' = extend c result
    let later = resolve_loop c' rest
    elim (is_empty result.candidates) [
      | true ↦ later
      | false ↦
          if composite.stop_on_first_found
          then ok (note composite.name "stop_on_first_found" c')
          else later
    ]

abbrev pub composite_status : List ResolutionCandidate → List String → ResolutionStatus
composite_status [] [] = not_found
composite_status [] (e ∷ errors) = error
composite_status (c ∷ rest) errors = found

unfoldable pub resolve_composite :
    HashFunction → CompositeResolver → ResolutionRequest → Result ResolutionResult
unfolding resolve_loop
resolve_composite sha composite request = do
  c ←
      resolve_loop composite request
        (note composite.name "start" (record { candidates = []; diagnostics = []; errors = [] }))
        composite.resolvers
  let deduped = deduplicate_candidates sha c.candidates
  ok (record {
    status = composite_status deduped c.errors;
    candidates = deduped;
    diagnostics = (note composite.name "done" c).diagnostics;
    errors = c.errors;
  })
