-- ===== src/Jobs/Commands/Laws.antt =====
-- examples/advanced-jobs/main.go: the two adapters against each other, and against the manager.
use go_toolbelt.Base.{
  if◌then◌else◌, ◌≡◌, ◌↔◌, refl, sym, subst, ◌∙◌, true, false, eq_iff, arith, ◌||◌, String, List,
  [], ◌∷◌, Option, none, some, str_eq, Bool-cases, inl, inr,
}
use go_toolbelt.Base.Int.{ℤ, pos, negsuc}
use go_toolbelt.Base.Words.{fields, is_blank}
use go_toolbelt.Jobs.Manager.{cancel_job, System, call_start, call_cancel, Steps, here, next}
use go_toolbelt.Jobs.Commands.{
  is_quit, default_duration, cancel_result, call_start_job, call_cancel_job, Input, context_done,
  input_error, line, lines_closed, accepted, start_reply, start_command, cancel_reply,
  cancel_command, handle, run, start_response, start_handler, cancel_response, cancel_handler,
}

pub Steps-trans : (s t u : System) → Steps s t → Steps t u → Steps s u
Steps-trans s t _ r here = r
Steps-trans s t _ r (next {t = v} q st) = next (Steps-trans s t v r q) st

module _ (parse_duration atoi : String → Option ℤ) where
  pub call_cancel_job-Steps : (i : ℤ) (s : System) → Steps s (call_cancel_job i s).0
  unfolding call_cancel_job
  call_cancel_job-Steps (negsuc i) s = here
  call_cancel_job-Steps (pos i) s = next here (call_cancel i)

  start_reply-Steps : (d : Option ℤ) (s : System) → Steps s (start_reply parse_duration atoi d s).0
  unfolding start_reply call_start_job
  start_reply-Steps none s = here
  start_reply-Steps (some d) s = next here (call_start d)

  cancel_reply-Steps :
      (i : Option ℤ) (s : System) → Steps s (cancel_reply parse_duration atoi i s).0
  unfolding cancel_reply
  cancel_reply-Steps none s = here
  cancel_reply-Steps (some i) s = call_cancel_job-Steps i s

  start_command-Steps :
      (ws : List String) (s : System) → Steps s (start_command parse_duration atoi ws s).0
  unfolding start_command
  start_command-Steps [] s = start_reply-Steps (some default_duration) s
  start_command-Steps (w ∷ ws) s = start_reply-Steps (parse_duration w) s

  cancel_command-Steps :
      (ws : List String) (s : System) → Steps s (cancel_command parse_duration atoi ws s).0
  unfolding cancel_command
  cancel_command-Steps [] s = here
  cancel_command-Steps (w ∷ ws) s = cancel_reply-Steps (atoi w) s

  handle-Steps : (ws : List String) (s : System) → Steps s (handle parse_duration atoi ws s).0
  unfolding handle
  handle-Steps [] s = here
  handle-Steps (w ∷ ws) s = elim (Bool-cases (str_eq w "start")) [
    | inl e ↦ rw e (start_command-Steps ws s)
    | inr e ↦ rw e (elim (Bool-cases (str_eq w "list")) [
      | inl p ↦ rw p here
      | inr p ↦ rw p (elim (Bool-cases (str_eq w "cancel")) [
        | inl q ↦ rw q (cancel_command-Steps ws s)
        | inr q ↦ rw q (elim (Bool-cases (str_eq w "quit" || str_eq w "exit")) [
          | inl r ↦ rw r here
          | inr r ↦ rw r here
        ])
      ])
    ])
  ]

  -- Whatever is typed, the command line changes the manager only by calls of `StartJob` and
  -- `CancelJob`: its state behind any inputs is one that steps of the manager reach.
  run-Steps : (is : List Input) (s : System) → Steps s (run parse_duration atoi is s).0
  unfolding run
  run-Steps [] s = here
  run-Steps (context_done ∷ is) s = here
  run-Steps (input_error none ∷ is) s = here
  run-Steps (input_error (some e) ∷ is) s = here
  run-Steps (lines_closed ∷ is) s = here
  run-Steps (line l ∷ is) s =
      let first = handle-Steps (fields l) s in
      let s' = (handle parse_duration atoi (fields l) s).0 in
      elim (Bool-cases (handle parse_duration atoi (fields l) s).2) [
        | inl e ↦ rw e first
        | inr e ↦ rw e (Steps-trans s s' _ first (run-Steps is s'))
      ]

  cancels_alike :
      (i : Option ℤ) (s : System)
      → (cancel_reply parse_duration atoi i s).0 ≡ (cancel_response parse_duration atoi i s).0
  unfolding cancel_reply cancel_response call_cancel_job
  cancels_alike none s = refl
  cancels_alike (some (pos i)) s = refl
  cancels_alike (some (negsuc i)) s = refl

  starts_alike :
      (d : Option ℤ) (s : System)
      → (start_reply parse_duration atoi d s).0 ≡ (start_response parse_duration atoi d s).0
  unfolding start_reply start_response call_start_job
  starts_alike none s = refl
  starts_alike (some d) s = refl

  some-inj : (a b : ℤ) → some a ≡ some b → a ≡ b
  some-inj a b h = cc

  cancels_told :
      (o : Option ℤ) (s : System)
      → ((cancel_response parse_duration atoi o s).1 ≡ accepted) ↔ (
          (i : ℤ) × (o ≡ some i)
          × ((cancel_reply parse_duration atoi o s).1 ≡ cancel_result i true ∷ []))
  unfolding cancel_reply cancel_response call_cancel_job
  cancels_told none s = ((λ h. absurd cc), λ (i, p, h). absurd cc)
  cancels_told (some (negsuc i)) s = ((λ h. absurd cc), λ (j, p, h). absurd cc)
  cancels_told (some (pos i)) s = elim (Bool-cases (cancel_job i s.manager)) [
    | inl e ↦ rw e ((λ h. (pos i, refl, refl)), λ h. refl)
    | inr e ↦ rw e ((λ h. absurd cc), λ (j, p, h). absurd cc)
  ]

  -- The two adapters agree: `cancel` with a word and `DELETE` with it as the id lead to the same state,
  -- and the request is accepted exactly if the command line prints that the job was canceled; `start`
  -- with a word and `POST` with it as the duration lead to the same state, where it is not blank, and
  -- so do `start` alone and `POST` with a blank duration.
  adapters_agree :
      (w : String) (s : System)
      → ((handle parse_duration atoi ("cancel" ∷ w ∷ []) s).0
          ≡ (cancel_handler parse_duration atoi w s).0)
        × (((cancel_handler parse_duration atoi w s).1 ≡ accepted) ↔ (
            (i : ℤ) × (atoi w ≡ some i)
            × ((handle parse_duration atoi ("cancel" ∷ w ∷ []) s).1 ≡ cancel_result i true ∷ [])))
        × ((start_handler parse_duration atoi none w s).0
            ≡ (handle parse_duration atoi ("start" ∷ (if is_blank w then [] else w ∷ [])) s).0)
  unfolding handle cancel_handler start_handler cancel_command start_command
  adapters_agree w s = (
    cancels_alike (atoi w) s,
    cancels_told (atoi w) s,
    elim (Bool-cases (is_blank w)) [
      | inl e ↦ rw e (sym (starts_alike (some default_duration) s))
      | inr e ↦ rw e (sym (starts_alike (parse_duration w) s))
    ],
  )

  start_command-goes_on :
      (ws : List String) (s : System) → (start_command parse_duration atoi ws s).2 ≡ false
  unfolding start_command start_reply
  start_command-goes_on [] s = refl
  start_command-goes_on (w ∷ ws) s = ground (arith)

  cancel_command-goes_on :
      (ws : List String) (s : System) → (cancel_command parse_duration atoi ws s).2 ≡ false
  unfolding cancel_command cancel_reply
  cancel_command-goes_on [] s = refl
  cancel_command-goes_on (w ∷ ws) s = ground (arith)

  not_quit :
      (w v : String)
      → str_eq w v ≡ true
      → false ≡ is_quit (v ∷ [])
      → false ≡ (str_eq w "quit" || str_eq w "exit")
  not_quit w v h p = subst (λ x. false ≡ is_quit (x ∷ [])) (sym ((eq_iff w v).0 h)) p

  -- A line ends the loop exactly if its first word is `quit` or `exit`.
  handle-is_quit :
      (ws : List String) (s : System) → (handle parse_duration atoi ws s).2 ≡ is_quit ws
  unfolding handle
  handle-is_quit [] s = refl
  handle-is_quit (w ∷ ws) s = elim (Bool-cases (str_eq w "start")) [
    | inl p ↦ rw (p) (start_command-goes_on ws s ∙ not_quit w "start" p refl)
    | inr p ↦ rw (p) (elim (Bool-cases (str_eq w "list")) [
      | inl q ↦ rw (q) (not_quit w "list" q refl)
      | inr q ↦ rw (q) (elim (Bool-cases (str_eq w "cancel")) [
        | inl c ↦ rw (c) (cancel_command-goes_on ws s ∙ not_quit w "cancel" c refl)
        | inr c ↦ rw (c) (elim (Bool-cases (str_eq w "quit" || str_eq w "exit")) [
          | inl e ↦ rw (e) refl
          | inr e ↦ rw (e) refl
        ])
      ])
    ])
  ]
