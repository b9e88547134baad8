-- ===== src/Controller/Finishes/Admits.antt =====
-- The admission of a run by pkg/k8s/controllers/pipelinerun_controller.go while nothing fails.
use datuplet.Prelude.{
  All, List, Option, Text, [], any, ap, arith, bytes, eq_refl, false, get_elem?, get_or,
  if◌then◌else◌, is_empty, is_some, join, length, map, none, not, ok, refl, some, subst, suc, sym,
  text_eq, true, zero, ℕ, ◌&&◌, ◌*◌, ◌++◌, ◌==◌, ◌∙◌, ◌∷◌, ◌≡◌,
}
use datuplet.Pipeline.{ComponentSpec, Finding, Pipeline, PipelineSpec, ResolvedComponent, StageSpec}
use datuplet.Controller.{
  Answers, PipelineRunSpec, PipelineRunStatus, ResolvedComponentStatus, RunPhase, World,
}
use datuplet.Controller.Findings.{
  first_error_finding, first_transient_finding, non_resource_findings,
}
use datuplet.Controller.Admission.{
  Frozen, admit, find_pipeline, freeze, frozen_component, pending_stage, resolve_component,
  resolve_components, resolve_stages, start_run, validate_and_freeze, with_snapshot,
}
use datuplet.Controller.Secrets.{snapshot_run_secrets, update_secrets_resolved_condition}
use datuplet.Controller.Jobs.{resolved_of, stage_of}
use datuplet.Controller.Finishes.{Buildable, Live, Ready, total_weight}
use datuplet.Controller.Finishes.Done.{updated}

-- each component has its resolution
abbrev Covered : List ResolvedComponentStatus → List ComponentSpec → Type 0
Covered rcs comps = All (λ (c : ComponentSpec). is_some (resolved_of rcs c.name) ≡ true) comps

abbrev CoveredStages : List ResolvedComponentStatus → List StageSpec → Type 0
CoveredStages rcs gs = All (λ (g : StageSpec). Covered rcs g.components) gs

resolved_of-left :
    (xs ys : List ResolvedComponentStatus) (n : Text)
    → is_some (resolved_of xs n) ≡ true
    → is_some (resolved_of (xs ++ ys) n) ≡ true
unfolding resolved_of
resolved_of-left [] ys n h = cc
resolved_of-left (x ∷ xs) ys n h = ground (arith, h, resolved_of-left xs ys n)

resolved_of-right :
    (xs ys : List ResolvedComponentStatus) (n : Text)
    → is_some (resolved_of ys n) ≡ true
    → is_some (resolved_of (xs ++ ys) n) ≡ true
unfolding resolved_of
resolved_of-right [] ys n h = h
resolved_of-right (x ∷ xs) ys n h = ground (arith, resolved_of-right xs ys n h)

Covered-left :
    (xs ys : List ResolvedComponentStatus) (comps : List ComponentSpec)
    → Covered xs comps
    → Covered (xs ++ ys) comps
Covered-left xs ys [] h = tt
Covered-left xs ys (c ∷ comps) h = (resolved_of-left xs ys c.name h.0, Covered-left xs ys comps h.1)

Covered-right :
    (xs ys : List ResolvedComponentStatus) (comps : List ComponentSpec)
    → Covered ys comps
    → Covered (xs ++ ys) comps
Covered-right xs ys [] h = tt
Covered-right xs ys (c ∷ comps) h =
    (resolved_of-right xs ys c.name h.0, Covered-right xs ys comps h.1)

CoveredStages-right :
    (xs ys : List ResolvedComponentStatus) (gs : List StageSpec)
    → CoveredStages ys gs
    → CoveredStages (xs ++ ys) gs
CoveredStages-right xs ys [] h = tt
CoveredStages-right xs ys (g ∷ gs) h =
    (Covered-right xs ys g.components h.0, CoveredStages-right xs ys gs h.1)

Covered-at :
    (rcs : List ResolvedComponentStatus) (gs : List StageSpec) (j : ℕ) (g : StageSpec)
    → CoveredStages rcs gs
    → get_elem? gs j ≡ some g
    → Covered rcs g.components
Covered-at rcs [] j g h e = cc
Covered-at rcs (x ∷ gs) zero g h e = subst (λ o. Covered rcs (get_or o x).components) e h.0
Covered-at rcs (x ∷ gs) (suc j) g h e = Covered-at rcs gs j g h.1 e

stage_of-at :
    (gs : List StageSpec) (j : ℕ) (g : StageSpec) (n : Text)
    → get_elem? gs j ≡ some g
    → any (λ (c : ComponentSpec). c.name == n) g.components ≡ true
    → is_some (stage_of gs n) ≡ true
unfolding stage_of
stage_of-at [] j g n e h = cc
stage_of-at (x ∷ gs) zero g n e h =
    let here : any (λ (c : ComponentSpec). c.name == n) x.components ≡ true =
      subst (λ o. any (λ (c : ComponentSpec). c.name == n) (get_or o x).components ≡ true) (sym e)
        h in
    ground (arith, here)
stage_of-at (x ∷ gs) (suc j) g n e h = ground (arith, stage_of-at gs j g n e h)

-- what holds of every name of the components
All-named :
    (P : Text → Type 0) (comps : List ComponentSpec)
    → ((n : Text) → any (λ (c : ComponentSpec). c.name == n) comps ≡ true → P n)
    → All (λ (c : ComponentSpec). P c.name) comps
All-named P [] h = tt
All-named P (c ∷ comps) h =
    (h c.name (ground (arith, eq_refl c.name)), All-named P comps (λ n k. h n (ground (arith, k))))

both_of :
    (gs : List StageSpec) (rcs : List ResolvedComponentStatus) (comps : List ComponentSpec)
    → All (λ (c : ComponentSpec). is_some (stage_of gs c.name) ≡ true) comps
    → Covered rcs comps
    → Buildable gs rcs comps
both_of gs rcs [] h k = tt
both_of gs rcs (c ∷ comps) h k = ((h.0, k.0), both_of gs rcs comps h.1 k.1)

module _ (resolve : Text → Text → Option ResolvedComponent × List Finding)
    (resolves : (c v : Text) → (rc : ResolvedComponent) × ((resolve c v).0 ≡ some rc))
    (a : Answers) where
  resolve_component-ok :
      (c : ComponentSpec) (rc : ResolvedComponent)
      → (resolve c.component c.version).0 ≡ some rc
      → resolve_component resolve a c ≡ ok (frozen_component a c rc)
  unfolding resolve_component
  resolve_component-ok c rc e = rw (e, resolve_component) refl

  resolve_components-ok :
      (comps : List ComponentSpec)
      → (r : Frozen ComponentSpec) × (resolve_components resolve a comps ≡ ok r)
        × Covered r.resolved r.frozen
  unfolding resolve_components frozen_component resolved_of
  resolve_components-ok [] = (_, refl, tt)
  resolve_components-ok (c ∷ comps) =
      let (rc, e) = resolves c.component c.version in
      let (r, q, k) = resolve_components-ok comps in
      let x = frozen_component a c rc in
      (
        record {
          frozen = x.frozen ++ r.frozen;
          resolved = x.resolved ++ r.resolved;
          notes = x.notes ++ r.notes;
        },
        rw (resolve_component-ok c rc e, q, resolve_components) refl,
        (ground (arith, eq_refl c.name), Covered-right x.resolved r.resolved r.frozen k),
      )

  resolve_stages-ok :
      (gs : List StageSpec)
      → (r : Frozen StageSpec) × (resolve_stages resolve a gs ≡ ok r)
        × CoveredStages r.resolved r.frozen
        × (length r.frozen ≡ length gs)
  unfolding resolve_stages
  resolve_stages-ok [] = (_, refl, tt, refl)
  resolve_stages-ok (g ∷ gs) =
      let (x, e, h) = resolve_components-ok g.components in
      let (r, q, k, l) = resolve_stages-ok gs in
      (
        record {
          frozen = record g { components = x.frozen } ∷ r.frozen;
          resolved = x.resolved ++ r.resolved;
          notes = x.notes ++ r.notes;
        },
        rw (e, q, resolve_stages) refl,
        (
          Covered-left x.resolved r.resolved x.frozen h,
          CoveredStages-right x.resolved r.resolved r.frozen k,
        ),
        omega (arith, l),
      )

pending_stages-Live : (gs : List StageSpec) → Live gs (map pending_stage gs)
pending_stages-Live [] = tt
pending_stages-Live (g ∷ gs) = (tt, pending_stages-Live gs)

pending_stages-weight : (gs : List StageSpec) → total_weight (map pending_stage gs) ≡ 3 * length gs
pending_stages-weight [] = omega arith
pending_stages-weight (g ∷ gs) = omega (arith, pending_stages-weight gs)

-- a new run with an inline specification that admission lets pass
pub record Welcome (refs : Pipeline → List Text) (validated : Pipeline → List Finding)
    (resolve : Text → Text → Option ResolvedComponent × List Finding) (run : PipelineRunSpec)
    (spec : PipelineSpec) (a : Answers) : Type 0 where
  pub is_inline : run.pipeline_spec ≡ some spec
  pub has_id : (not (is_empty run.run_id) && not (a.is_uuid run.run_id)) ≡ false
  pub needs_no_secret : refs (record { name = run.name; generation = 0; spec = spec }) ≡ []
  pub has_no_transient :
      first_transient_finding (validated (record { name = run.name; generation = 0; spec = spec }))
      ≡ none
  pub has_no_error :
      first_error_finding (
        non_resource_findings (validated (record { name = run.name; generation = 0; spec = spec })))
      ≡ none
  pub resolves : (c v : Text) → (rc : ResolvedComponent) × ((resolve c v).0 ≡ some rc)

module _ (refs : Pipeline → List Text) (validated : Pipeline → List Finding)
    (resolve : Text → Text → Option ResolvedComponent × List Finding) (run : PipelineRunSpec)
    (spec : PipelineSpec) (a : Answers) (welcome : Welcome refs validated resolve run spec a)
    (updates : a.update_status ≡ none) where
  -- the status is ready, with nothing done
  abbrev pub Started : PipelineRunStatus → Type 0
  Started s =
      (f : PipelineSpec) × Ready f s × (total_weight s.stage_statuses ≡ 3 * length spec.stages)

  start_run-Started :
      (p : Pipeline) (w : World) (s : PipelineRunStatus)
      → refs p ≡ []
      → Started
          (freeze refs validated resolve a p w s (resolve_stages resolve a spec.stages)).0.status
  unfolding freeze start_run
  start_run-Started p w s no_refs =
      let (r, q, k, l) = resolve_stages-ok resolve welcome.resolves a spec.stages in
      let f = record p.spec { stages = r.frozen } in
      let s' = record s {
        resolved_spec = some f;
        pipeline_generation = p.generation;
        components = r.resolved;
        phase = RunPhase.running;
        start_time = some a.now;
        message = if is_empty r.notes then s.message else join (bytes "; ") r.notes;
        stage_statuses = map pending_stage r.frozen;
      } in
      let base : Started s' = (
        f,
        record {
          is_running = refl;
          is_frozen = refl;
          live = pending_stages-Live r.frozen;
          buildable = λ j g at.
              both_of r.frozen r.resolved g.components
                (All-named (λ n. is_some (stage_of r.frozen n) ≡ true) g.components
                  (λ n h. stage_of-at r.frozen j g n at h))
                (Covered-at r.resolved r.frozen j g k at);
        },
        pending_stages-weight r.frozen ∙ ap (λ n. 3 * n) l,
      ) in
      subst (λ x. Started (freeze refs validated resolve a p w s x).0.status) (sym q)
        (subst Started (sym (updated a _ _ _ updates)) (
          subst (λ names. Started (update_secrets_resolved_condition names s')) (sym no_refs) base))

  pub find_pipeline-Started :
      (w : World) (s : PipelineRunStatus)
      → Started (find_pipeline refs validated resolve a run w s (some spec)).0.status
  unfolding find_pipeline admit validate_and_freeze with_snapshot snapshot_run_secrets
  find_pipeline-Started w s =
      let p : Pipeline = record { name = run.name; generation = 0; spec = spec } in
      rw
        (
          welcome.has_id, welcome.needs_no_secret, welcome.has_no_transient, welcome.has_no_error,
          find_pipeline, admit, with_snapshot, snapshot_run_secrets, validate_and_freeze,
        )
        (start_run-Started p _ _ welcome.needs_no_secret)
