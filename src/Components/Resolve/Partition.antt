-- ===== src/Components/Resolve/Partition.antt =====
-- `resolve_all` of components/resolve.py leaves no part out and reports none twice.
use emi_analyzer.Base.{
  ◌+◌, Option, none, some, List, [], ◌∷◌, ◌++◌, ◌≡◌, refl, sym, ◌∙◌, length, append_assoc,
  append-nil, arith,
}
use emi_analyzer.Base.Results.{ok, map_results, Ensures, Ensures-bind, Ensures-eq-ok, Ensures-imp}
use emi_analyzer.Base.Json.{Floats}
use emi_analyzer.Components.Package.{Classes}
use emi_analyzer.Components.Python.{Texts}
use emi_analyzer.Components.Resolve.{
  Candidate, PartMatch, Resolved, resolve_part, Coverage, add_part, cover, resolve_all,
}

module _ (W : Classes) (X : Floats) (T : Texts X.Float) where
  -- The answers that are models, and the parts with no model, in order.
  abbrev pub models : List (Option (Resolved W X T)) → List (Resolved W X T)
  models [] = []
  models (none ∷ more) = models more
  models (some r ∷ more) = r ∷ models more

  abbrev pub left_out :
      List (PartMatch W X T) → List (Option (Resolved W X T)) → List (PartMatch W X T)
  left_out (p ∷ ps) (none ∷ more) = p ∷ left_out ps more
  left_out (p ∷ ps) (some r ∷ more) = left_out ps more
  left_out _ _ = []

  module _ (library candidates : List (Candidate W X T)) where
    -- The two lists of a coverage hold what the parts' answers say.
    abbrev pub Covers : List (PartMatch W X T) → Coverage W X T → Coverage W X T → Type 0
    Covers parts before after =
        (answers : List (Option (Resolved W X T))) × (map_results
            (λ p. resolve_part W X T library p candidates) parts
          ≡ ok answers)
        × (after.modelled ≡ before.modelled ++ models answers)
        × (after.unmatched ≡ before.unmatched ++ left_out parts answers)
        × (length (models answers) + length (left_out parts answers) ≡ length parts)

    Covers-cons :
        (part : PartMatch W X T) (parts : List (PartMatch W X T)) (got : Option (Resolved W X T))
        (before after : Coverage W X T)
        → resolve_part W X T library part candidates ≡ ok got
        → Covers parts (add_part W X T part got before) after
        → Covers (part ∷ parts) before after
    unfolding map_results
    Covers-cons part parts none before after e (answers, all, modelled, unmatched, count) = (
      none ∷ answers,
      rw (e, all) refl,
      modelled,
      unmatched ∙ append_assoc before.unmatched (part ∷ []) (left_out parts answers),
      ground (arith, count),
    )
    Covers-cons part parts (some r) before after e (answers, all, modelled, unmatched, count) = (
      some r ∷ answers,
      rw (e, all) refl,
      modelled ∙ append_assoc before.modelled (r ∷ []) (models answers),
      unmatched,
      ground (arith, count),
    )

    cover-Covers :
        (parts : List (PartMatch W X T)) (before : Coverage W X T)
        → Ensures (Covers parts before) (cover W X T library candidates parts before)
    unfolding cover map_results
    cover-Covers [] before =
        ([], refl, sym (append-nil before.modelled), sym (append-nil before.unmatched), omega arith)
    cover-Covers (part ∷ parts) before =
        Ensures-bind (Covers (part ∷ parts) before) (resolve_part W X T library part candidates) _
          (λ got e.
            Ensures-imp (Covers parts (add_part W X T part got before))
              (Covers (part ∷ parts) before)
              (cover W X T library candidates parts (add_part W X T part got before))
              (λ after h. Covers-cons part parts got before after e h)
              (cover-Covers parts (add_part W X T part got before)))

    -- `resolve_all` asks `resolve_part` once for each part. Its models are the answers that are models, its
    -- unmatched parts are the parts whose answer is none, both in the parts' order, and together they are as
    -- many as the parts.
    pub resolve_all-Covers :
        (parts : List (PartMatch W X T)) (c : Coverage W X T)
        → resolve_all W X T library parts candidates ≡ ok c
        → Covers parts (record { modelled = []; unmatched = [] }) c
    unfolding resolve_all
    resolve_all-Covers parts c e =
        Ensures-eq-ok (Covers parts (record { modelled = []; unmatched = [] }))
          (resolve_all W X T library parts candidates)
          (cover-Covers parts (record { modelled = []; unmatched = [] })) e
