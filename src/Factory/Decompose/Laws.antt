-- ===== src/Factory/Decompose/Laws.antt =====
-- What the verb `decompose` of src/intent_packages/factory/decompose.py submits, however it ends.
use intent_packages.Prelude.{
  ℕ, ◌≡◌, refl, ap, ◌∙◌, ◌⊎◌, inl, inr, Bool, true, false, Option, none, some, List, [], ◌∷◌, ◌++◌,
  ◌==◌, if◌then◌else◌, arith,
}
use intent_packages.Value.{Entries}
use intent_packages.Outcome.{Outcome, Exn, ok, decompose_error}
use intent_packages.Routing.{RoutingPolicy, RoutingRow}
use intent_packages.Profiles.Dependency.Pins.{Checkout, PinSite}
use intent_packages.Profiles.Dependency.Envelope.{allowed_commands}
use intent_packages.Factory.Session.{
  Role, Route, Request, Session, Backend, Answer, done, failed, resume, lift, lifted, pure, exit,
  give_up,
}
use intent_packages.Factory.Api.{writing, get_intake, propose_decomposition}
use intent_packages.Factory.Api.Quiet.{
  writes, Quiet, Quiet-if, Quiet-get_intake, bind-any, AtMost, AtMost-bind, request_dict-posts,
}
use intent_packages.Factory.Validations.{Shell, assert_checkout_current, assert_runner_honest}
use intent_packages.Factory.Decompose.Possible.{found, sites_of, prove_possible, routed}
use intent_packages.Factory.Decompose.Proposal.{Ask, Proposal, build_proposal, proposal_body}
use intent_packages.Factory.Decompose.Flow.{
  Desk, flags_refused, given, is_reported, reported, local_repo, settled_key, read_intake,
  annotated, write_out, submit, conclude, propose, attempt, decompose,
}

lift-fact : {A : Type 0} (m : Outcome A) (a : A) → lifted m ≡ done a → m ≡ ok a
unfolding lifted
lift-fact (Outcome.ok b) a h = cc h
lift-fact (Outcome.raised e) a h = absurd (cc)

module _ (B : Backend) (D : Desk) (a : Ask) where
  -- The post of a proposal.
  abbrev pub proposal_post : RoutingPolicy × RoutingRow → Proposal → Request
  proposal_post row p =
      writing B (Route.decomposition_proposals a.revision) Role.system
        (proposal_body (annotated B D a row p))

  -- The checkout is there and current, it pins the package, and the proposal was built for what it
  -- pins; the change class is routed; every command of the envelope is honest; and running the
  -- commands that are not deferred proved that the bump is possible.
  abbrev pub IsProven : Proposal → RoutingPolicy × RoutingRow → Type 0
  IsProven p row =
      (repo : Checkout) × (sites : List PinSite) × (intake conformance : Entries)
      × (enrichment : Option Entries) × (D.checkout (local_repo B D a) ≡ some repo)
      × (assert_checkout_current (D.shell (local_repo B D a)) ≡ ok tt)
      × (sites_of a.tooling repo a.bump.pkg ≡ ok sites)
      × (build_proposal a (settled_key B D a) intake conformance sites repo enrichment ≡ ok p)
      × (routed D.routing_policy "dependency-update" ≡ ok row)
      × (assert_runner_honest (D.shell (local_repo B D a)) (allowed_commands p.commands) ≡ ok tt)
      × (prove_possible (D.shell (local_repo B D a)) repo a.tooling (allowed_commands p.commands)
            sites
          ≡ ok tt)

  -- Just one proposal was posted, by a run that was to submit and that trusted nobody's word.
  abbrev pub Submitted : List Request → List Request → Type 0
  Submitted rs rs' =
      (p : Proposal) × (row : RoutingPolicy × RoutingRow) × IsProven p row
      × (a.submit ≡ true)
      × (a.no_execute ≡ false)
      × (a.assume_checkout_current ≡ false)
      × (writes rs' ≡ writes rs ++ proposal_post row p ∷ [])

  abbrev pub Guarded : List Request → List Request → Type 0
  Guarded rs rs' = (writes rs' ≡ writes rs) ⊎ Submitted rs rs'

  submit-AtMost :
      (row : RoutingPolicy × RoutingRow) (p : Proposal) (s : Session)
      → AtMost (proposal_post row p) s.requests (submit B D a (annotated B D a row p) s).1.requests
  unfolding submit propose_decomposition resume
  submit-AtMost row p s =
      let body = proposal_body (annotated B D a row p) in
      AtMost-bind (proposal_post row p) s.requests (propose_decomposition B a.revision body s) _
        (request_dict-posts B (Route.decomposition_proposals a.revision) Role.system body s)
        (λ _ x. refl)

  -- The flags let a run that submits through only if it executes and takes nothing for granted.
  flags-submit :
      flags_refused a ≡ false
      → a.submit ≡ true
      → (a.no_execute ≡ false) × (a.assume_checkout_current ≡ false)
  unfolding flags_refused
  flags-submit f h = (ground arith, ground arith)

  end-Guarded :
      (rs : List Request) (p : Proposal) (row : RoutingPolicy × RoutingRow) (s : Session) (b : Bool)
      → a.submit ≡ b
      → flags_refused a ≡ false
      → (b ≡ true → IsProven p row)
      → writes s.requests ≡ writes rs
      → Guarded rs ((if b then submit B D a (annotated B D a row p) else exit 0) s).1.requests
  end-Guarded rs p row s false e f proven w = inl w
  end-Guarded rs p row s true e f proven w = elim (submit-AtMost row p s) [
    | inl n ↦ inl (n ∙ w)
    | inr n ↦
        let (x, y) = flags-submit f e in
        inr (p, row, proven refl, e, x, y, n ∙ ap (λ ws. ws ++ proposal_post row p ∷ []) w)
  ]

  -- A check that is skipped under a flag.
  unless-fact :
      (b : Bool) (m : Outcome (Unit {0})) (s : Session)
      → ((if b then pure tt else lift m) s).0 ≡ done tt
      → b ≡ false
      → m ≡ ok tt
  unless-fact true m s h e = absurd (cc e)
  unless-fact false m s h e = lift-fact m tt h

  unless-same :
      (b : Bool) (m : Outcome (Unit {0})) (s : Session) → ((if b then pure tt else lift m) s).1 ≡ s
  unless-same true m s = refl
  unless-same false m s = refl

  -- What is known of a proposal before its own checks.
  abbrev Built : Shell → Checkout → List PinSite → Proposal → Type 0
  Built S repo sites p =
      (row : RoutingPolicy × RoutingRow)
      → routed D.routing_policy "dependency-update" ≡ ok row
      → assert_runner_honest S (allowed_commands p.commands) ≡ ok tt
      → prove_possible S repo a.tooling (allowed_commands p.commands) sites ≡ ok tt
      → a.assume_checkout_current ≡ false
      → IsProven p row

  conclude-Guarded :
      (rs : List Request) (S : Shell) (repo : Checkout) (sites : List PinSite) (p : Proposal)
      (s : Session)
      → flags_refused a ≡ false
      → Built S repo sites p
      → writes s.requests ≡ writes rs
      → Guarded rs (conclude B D a S repo sites p s).1.requests
  unfolding conclude write_out
  conclude-Guarded rs S repo sites p s f built w =
      let P = λ (x : Session). Guarded rs x.requests in
      let allowed = allowed_commands p.commands in
      let check =
        (if a.no_execute then pure tt else lift (prove_possible S repo a.tooling allowed sites))
          s in
      let same : writes check.1.requests ≡ writes rs =
        ap (λ x. writes x.requests) (unless-same a.no_execute _ s) ∙ w in
      bind-any P (lift (routed D.routing_policy "dependency-update") s) _ (inl w) λ row r.
        bind-any P (lift (assert_runner_honest S allowed) s) _ (inl w) λ _ h.
          bind-any P check _ (inl same) λ _ t.
            bind-any P (write_out B D (annotated B D a row p) check.1) _ (inl same) λ _ _.
              end-Guarded rs p row _ a.submit refl f
                (λ e.
                  let (x, y) = flags-submit f e in
                  built row (lift-fact _ row r) (lift-fact _ tt h)
                    (unless-fact a.no_execute _ s t x) y)
                same

  read_intake-Quiet : Quiet (read_intake B D a)
  unfolding read_intake
  read_intake-Quiet =
      Quiet-if (a.intake_file == "") (get_intake B a.revision) _ (Quiet-get_intake B a.revision)
        (λ s. refl)

  propose-Guarded :
      (repo : Checkout) (s : Session)
      → flags_refused a ≡ false
      → D.checkout (local_repo B D a) ≡ some repo
      → Guarded s.requests (propose B D a (D.shell (local_repo B D a)) repo s).1.requests
  unfolding propose
  propose-Guarded repo s f c =
      let P = λ (x : Session). Guarded s.requests x.requests in
      let S = D.shell (local_repo B D a) in
      let check =
        (if a.assume_checkout_current then pure tt else lift (assert_checkout_current S)) s in
      let same : writes check.1.requests ≡ writes s.requests =
        ap (λ x. writes x.requests) (unless-same a.assume_checkout_current _ s) in
      bind-any P check _ (inl same) λ _ current.
        bind-any P (lift (sites_of a.tooling repo a.bump.pkg) check.1) _ (inl same)
          λ sites found_sites.
            let read = read_intake B D a check.1 in
            let quiet = read_intake-Quiet check.1 ∙ same in
            bind-any P read _ (inl quiet) λ intake _.
              bind-any P (given (D.conformance_claim (local_repo B D a)) read.1) _ (inl quiet)
                λ conformance _.
                  bind-any P (given D.enrichment read.1) _ (inl quiet) λ enrichment _.
                    bind-any P
                      (lift
                        (build_proposal a (settled_key B D a) intake conformance sites repo
                          enrichment)
                        read.1)
                      _ (inl quiet)
                      λ p made.
                        conclude-Guarded s.requests S repo sites p read.1 f
                          (λ row r h t assumed. (
                            repo,
                            sites,
                            intake,
                            conformance,
                            enrichment,
                            c,
                            unless-fact a.assume_checkout_current _ s current assumed,
                            lift-fact _ sites found_sites,
                            lift-fact _ p made,
                            r,
                            h,
                            t,
                          ))
                          quiet

  found-some :
      (o : Option Checkout) (e : Exn) (repo : Checkout) → found o e ≡ ok repo → o ≡ some repo
  unfolding found
  found-some none e repo h = absurd (cc)
  found-some (some r) e repo h = cc h

  attempt-Guarded :
      (s : Session) → flags_refused a ≡ false → Guarded s.requests (attempt B D a s).1.requests
  unfolding attempt
  attempt-Guarded s f =
      let missing = decompose_error "target checkout not found" in
      bind-any (λ x. Guarded s.requests x.requests)
        (lift (found (D.checkout (local_repo B D a)) missing) s) _ (inl refl)
        λ repo c. propose-Guarded repo s f (found-some _ missing repo (lift-fact _ repo c))

  reported-Guarded :
      (rs : List Request) (r : Answer ℕ × Session)
      → Guarded rs r.1.requests
      → Guarded rs (reported r).1.requests
  unfolding reported resume
  reported-Guarded rs (done n, s) g = g
  reported-Guarded rs (failed e, s) g = by_kind (is_reported e)
    where
      by_kind :
          (b : Bool)
          → Guarded rs (if b then give_up "decompose failed" 1 s else (failed e, s)).1.requests
      by_kind true = g
      by_kind false = g

  -- However `decompose` ends, also when it raises: it has posted nothing; or it was asked to submit
  -- and to execute, took nobody's word for the checkout, and posted one proposal of the revision and
  -- nothing else, after the checkout proved current, the proposal was built, its class was routed,
  -- every command of its envelope proved honest, and the bump proved possible by running the
  -- commands that are not deferred.
  pub decompose-Guarded : (s : Session) → Guarded s.requests (decompose B D a s).1.requests
  unfolding decompose resume
  decompose-Guarded s = by_flags (flags_refused a) refl
    where
      by_flags :
          (b : Bool)
          → flags_refused a ≡ b
          → Guarded s.requests
              (if b then give_up "decompose failed" 1 s else reported (attempt B D a s)).1.requests
      by_flags true f = inl refl
      by_flags false f = reported-Guarded s.requests (attempt B D a s) (attempt-Guarded s f)
