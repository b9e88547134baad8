-- ===== src/Controller/Collide.antt =====
-- The names of Jobs in pkg/k8s/controllers/pipelinerun_jobs.go keep ten bytes of a component's name; what
-- startStage makes of components that agree in them.
use datuplet.Prelude.{
  All, Bool, Bool-cases, List, Option, Option-cases, Text, [], any, ap, arith, inl, inr, length,
  map, none, ok, refl, some, subst, suc, sym, take, text_beq_iff, text_eq, true, ◌==◌, ◌∙◌, ◌∷◌,
  ◌≡◌, ◌≤◌,
}
use datuplet.Pipeline.{ComponentSpec, PipelineSpec, StageSpec}
use datuplet.Controller.{
  Answers, ComponentPhase, ComponentStatus, Job, PipelineRunSpec, PipelineRunStatus,
}
use datuplet.Controller.Splits.{start_components-split}
use datuplet.Controller.Jobs.{
  build_component_job, component_job_name, create_job, resolved_of, stage_of,
}
use datuplet.Controller.Stages.{Starting, start_components}

create_job-none :
    (e : Option Text) (job : Job) (jobs : List Job) {jobs' : List Job}
    → create_job e job jobs ≡ ok jobs'
    → create_job none job jobs ≡ ok jobs'
unfolding create_job
create_job-none none job jobs h = h
create_job-none (some x) job jobs h = cc

create_job-there :
    (e : Option Text) (job : Job) (jobs : List Job) {jobs' : List Job}
    → any (λ (j : Job). j.name == job.name) jobs ≡ true
    → create_job e job jobs ≡ ok jobs'
    → jobs' ≡ jobs
unfolding create_job
create_job-there none job jobs h e = ground (arith, h, e)
create_job-there (some x) job jobs h e = cc

module _ (run : PipelineRunSpec) (a : Answers) (s : PipelineRunStatus) (frozen : PipelineSpec)
    (g : StageSpec) (first : Text) where
  -- components of one stage whose names start with the ten bytes that `first` starts with
  abbrev pub Alike : List ComponentSpec → Type 0
  Alike comps =
      All
        (λ (c : ComponentSpec).
          (stage_of frozen.stages c.name ≡ some g) × (take 10 c.name ≡ take 10 first))
        comps

  abbrev named : List Job → Bool
  named jobs = any (λ (j : Job). j.name == component_job_name run.name g.name first s.run_id) jobs

  build-name :
      (c : ComponentSpec) {job : Job}
      → stage_of frozen.stages c.name ≡ some g
      → take 10 c.name ≡ take 10 first
      → build_component_job run a s frozen c ≡ ok job
      → job.name ≡ component_job_name run.name g.name first s.run_id
  unfolding build_component_job component_job_name
  build-name c h e b = elim (Option-cases (resolved_of s.components c.name)) [
    | inl q ↦ absurd (ground (arith, b, h, q))
    | inr (rc, q) ↦ ground (arith, b, h, q, e)
  ]

  start_components-Alike :
      (comps : List ComponentSpec) (jobs : List Job) (maps : List Text)
      → Alike comps
      → named jobs ≡ true
      → (start_components run a s frozen comps jobs maps).jobs ≡ jobs
  unfolding start_components create_job
  start_components-Alike [] jobs maps h n = refl
  start_components-Alike (c ∷ comps) jobs maps h n =
      start_components-split run a s frozen (λ r. r.jobs ≡ jobs) c comps jobs maps (λ e. refl)
        (λ maps' e. refl)
        (λ job jobs' maps' built made.
          let here = build-name c h.0.0 h.0.1 built in
          let there : any (λ (j : Job). j.name == job.name) jobs ≡ true =
            subst (λ t. any (λ (j : Job). j.name == t) jobs ≡ true) (sym here) n in
          let same = create_job-there (a.create_job c.name) job jobs there made in
          start_components-Alike comps jobs' maps' h.1 (subst (λ js. named js ≡ true) (sym same) n)
          ∙ same)

  after_first :
      (comps : List ComponentSpec) (job : Job) (jobs jobs' : List Job) (maps : List Text)
      → Alike comps
      → job.name ≡ component_job_name run.name g.name first s.run_id
      → create_job none job jobs ≡ ok jobs'
      → length (start_components run a s frozen comps jobs' maps).jobs ≤ suc (length jobs)
  unfolding create_job
  after_first comps job jobs jobs' maps h here made =
      elim (Bool-cases (any (λ (j : Job). j.name == job.name) jobs)) [
        | inl there ↦
            let same : jobs' ≡ jobs = ground (arith, made, there) in
            let n : named jobs' ≡ true =
              subst
                (λ js.
                  any (λ (j : Job). j.name == component_job_name run.name g.name first s.run_id) js
                  ≡ true)
                (sym same) (subst (λ t. any (λ (j : Job). j.name == t) jobs ≡ true) here there) in
            rw (start_components-Alike comps jobs' maps h n, same) (omega arith)
        | inr new ↦
            let more : jobs' ≡ job ∷ jobs = ground (arith, made, new) in
            let n : named jobs' ≡ true =
              subst
                (λ js.
                  any (λ (j : Job). j.name == component_job_name run.name g.name first s.run_id) js
                  ≡ true)
                (sym more)
                (ground (
                  arith,
                  text_beq_iff job.name (component_job_name run.name g.name first s.run_id),
                  here,
                )) in
            rw (start_components-Alike comps jobs' maps h n, more) (omega arith)
      ]

  start_components-few :
      (comps : List ComponentSpec) (jobs : List Job) (maps : List Text)
      → Alike comps
      → length (start_components run a s frozen comps jobs maps).jobs ≤ suc (length jobs)
  unfolding start_components
  start_components-few [] jobs maps h = omega arith
  start_components-few (c ∷ comps) jobs maps h =
      start_components-split run a s frozen (λ r. length r.jobs ≤ suc (length jobs)) c comps jobs
        maps (λ e. omega arith) (λ maps' e. omega arith)
        (λ job jobs' maps' built made.
          after_first comps job jobs jobs' maps' h.1 (build-name c h.0.0 h.0.1 built)
            (create_job-none (a.create_job c.name) job jobs made))

module _ (run : PipelineRunSpec) (a : Answers) (s : PipelineRunStatus) (frozen : PipelineSpec) where
  -- a start without an error: a running status for each component, under its name
  abbrev AllStarted : List ComponentSpec → Starting → Type 0
  AllStarted comps r =
      r.stop ≡ none
      → (map (λ (cs : ComponentStatus). cs.name) r.statuses
          ≡ map (λ (c : ComponentSpec). c.name) comps)
        × All (λ (cs : ComponentStatus). cs.phase ≡ ComponentPhase.running) r.statuses

  start_components-AllStarted :
      (comps : List ComponentSpec) (jobs : List Job) (maps : List Text)
      → AllStarted comps (start_components run a s frozen comps jobs maps)
  unfolding start_components
  start_components-AllStarted [] jobs maps = λ e. (refl, tt)
  start_components-AllStarted (c ∷ comps) jobs maps =
      start_components-split run a s frozen (AllStarted (c ∷ comps)) c comps jobs maps (λ e q. cc)
        (λ maps' e q. cc)
        (λ job jobs' maps' built made q.
          let r = start_components-AllStarted comps jobs' maps' q in
          (ap (λ names. c.name ∷ names) r.0, (refl, r.1)))

module _ (run : PipelineRunSpec) (a : Answers) (s : PipelineRunStatus) (frozen : PipelineSpec)
    (g : StageSpec) (first : Text) where
  -- Components of one stage whose names agree in their first ten bytes share one Job: a start of the
  -- stage that meets no error reports each of them as running, and makes at most one Job for all of them.
  pub start_components-collide :
      (comps : List ComponentSpec) (jobs : List Job) (maps : List Text)
      → Alike run a s frozen g first comps
      → (start_components run a s frozen comps jobs maps).stop ≡ none
      → let r = start_components run a s frozen comps jobs maps in
        (length r.jobs ≤ suc (length jobs))
        × (map (λ (cs : ComponentStatus). cs.name) r.statuses
            ≡ map (λ (c : ComponentSpec). c.name) comps)
        × All (λ (cs : ComponentStatus). cs.phase ≡ ComponentPhase.running) r.statuses
  start_components-collide comps jobs maps h e =
      let started = start_components-AllStarted run a s frozen comps jobs maps e in
      (start_components-few run a s frozen g first comps jobs maps h, started.0, started.1)
