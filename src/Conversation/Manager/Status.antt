-- ===== src/Conversation/Manager/Status.antt =====
-- What a turn does to the session's status, options and count of tokens.
use omni_forge.Base.{
  ◌≡◌, refl, sym, ◌∙◌, subst, true, false, eq_iff, not, ◌||◌, is_empty, Option, none, some, String,
  str_eq, List, [], ◌∷◌, ◌⊎◌, inl, inr, if_both, Bool-cases, ◌&&◌, false_true, if◌then◌else◌, ltb,
}
use omni_forge.Base.Text.{strip}
use omni_forge.Base.Words.{text_length, text_take}
use omni_forge.Values.{str, put, has_key}
use omni_forge.Conversation.Session.{
  SessionState, is_waiting, has_pending_options, has_unfilled_slots, resolve_option, start_waiting,
  resume, reset, fill_slot,
}
use omni_forge.Conversation.Turns.{
  Unicode, is_continue, is_self_contained, extract_options, is_asking_for_input,
}
use omni_forge.Conversation.Manager.{
  tracked, choose_option, filled_turn, fresh_task, last_steps, enriched, resolve_topic,
  resolve_waiting, by_option, resolve_question, end_turn, answer_tracked, finalize_turn, idle,
  enrich_with_context, tracking_on, unfilled, fill_first, first_empty,
}

module _ (unicode : Unicode) (show : SessionState → String) where
  -- No token is lost or gained, a session that waits was waiting, and the options are as they were
  -- or dropped by a session that waits no more.
  abbrev pub Follows : SessionState → SessionState → Type 0
  Follows s after =
      (after.token_usage ≡ s.token_usage)
      × (is_waiting after ≡ true → is_waiting s ≡ true)
      × ((after.pending_options ≡ s.pending_options)
          ⊎ (after.pending_options ≡ []) × (is_waiting after ≡ false))

  kept_or_dropped :
      (s after later : SessionState)
      → later.pending_options ≡ after.pending_options
      → is_waiting later ≡ false
      → (after.pending_options ≡ s.pending_options)
        ⊎ (after.pending_options ≡ []) × (is_waiting after ≡ false)
      → (later.pending_options ≡ s.pending_options)
        ⊎ (later.pending_options ≡ []) × (is_waiting later ≡ false)
  kept_or_dropped s after later e still (inl h) = inl (e ∙ h)
  kept_or_dropped s after later e still (inr h) = inr (e ∙ h.0, still)

  same : (s : SessionState) → Follows s s
  same s = (refl, (λ h. h), inl refl)

  -- A session that is resumed waits no more.
  resumed : (s after : SessionState) → Follows s after → Follows s (resume after)
  unfolding resume
  resumed s after h =
      (h.0, (λ w. false_true w), kept_or_dropped s after (resume after) refl refl h.2)

  idled : (s after : SessionState) → Follows s after → Follows s (idle unicode show after)
  unfolding resume
  idled s after h =
      (h.0, (λ w. false_true w), kept_or_dropped s after (idle unicode show after) refl refl h.2)

  tracked-Follows :
      (original : String) (s after : SessionState)
      → Follows s after
      → Follows s (tracked unicode show original after)
  tracked-Follows original s after h = h

  fill_slot-Follows : (slot value : String) (s : SessionState) → Follows s (fill_slot slot value s)
  unfolding fill_slot
  fill_slot-Follows slot value s =
      if_both (Follows s) (has_key slot s.slots)
        {yes = record s { slots = put slot (str value) s.slots }} {no = s} (same s) (same s)

  fill_first-Follows :
      (slot : Option String) (value : String) (s : SessionState)
      → Follows s (fill_first unicode show slot value s)
  fill_first-Follows none value s = same s
  fill_first-Follows (some slot) value s = fill_slot-Follows slot value s

  filled_turn-Follows :
      (original question : String) (s : SessionState)
      → Follows s (filled_turn unicode show original question s).1
  filled_turn-Follows original question s =
      let slot = first_empty unicode show (unfilled s.slots) in
      let after = fill_first unicode show slot question s in
      let kept = fill_first-Follows slot question s in
      let going = if has_unfilled_slots after then after else resume after in
      tracked-Follows original s going (
        if_both (Follows s) (has_unfilled_slots after) {yes = after} {no = resume after} kept
          (resumed s after kept))

  last_steps-Follows :
      (original question : String) (s : SessionState)
      → Follows s (last_steps unicode show original question s).1
  last_steps-Follows original question s =
      if_both (λ after. Follows s (tracked unicode show original after))
        (is_waiting s && is_self_contained unicode question) {yes = idle unicode show s} {no = s}
        (idled s s (same s)) (same s)

  enriched-Follows :
      (original text : String) (s : SessionState)
      → Follows s (enriched unicode show original text s).1
  enriched-Follows original text s =
      let after = tracked unicode show original s in
      if_both (Follows s) (is_waiting after) {yes = idle unicode show after} {no = after}
        (idled s after (same s)) (same s)

  fresh_task-Follows :
      (original question : String) (s : SessionState)
      → Follows s (fresh_task unicode show original question s).1
  unfolding reset
  fresh_task-Follows original question s = (refl, (λ w. false_true w), inr (refl, refl))

  -- What holds of a text and a session, whatever the text.
  abbrev Leads : SessionState → String × SessionState → Type 0
  Leads s result = Follows s result.1

  resolve_topic-Follows :
      (original question : String) (s : SessionState)
      → Leads s (resolve_topic unicode show original question s)
  resolve_topic-Follows original question s =
      let text = enrich_with_context unicode show question s in
      if_both (Leads s) _ {yes = fresh_task unicode show original question s}
        (fresh_task-Follows original question s)
        (if_both (Leads s) _ {yes = enriched unicode show original text s}
          {no = last_steps unicode show original question s} (enriched-Follows original text s)
          (last_steps-Follows original question s))

  resolve_waiting-Follows :
      (original question : String) (s : SessionState)
      → Leads s (resolve_waiting unicode show original question s)
  resolve_waiting-Follows original question s =
      if_both (Leads s) (is_waiting s && is_continue question)
        {yes = (s.waiting_for, tracked unicode show original (resume s))} (resumed s s (same s))
        (if_both (Leads s) (is_waiting s && has_unfilled_slots s)
          {yes = filled_turn unicode show original question s}
          {no = resolve_topic unicode show original question s}
          (filled_turn-Follows original question s) (resolve_topic-Follows original question s))

  choose_option-Follows :
      (original option : String) (s : SessionState)
      → Leads s (choose_option unicode show original option s)
  unfolding resume
  choose_option-Follows original option s = (refl, (λ w. false_true w), inr (refl, refl))

  by_option-Follows :
      (original question : String) (option : Option String) (s : SessionState)
      → Leads s (by_option unicode show original question option s)
  by_option-Follows original question none s = resolve_waiting-Follows original question s
  by_option-Follows original question (some option) s =
      if_both (Leads s) (str_eq option "") {yes = resolve_waiting unicode show original question s}
        {no = choose_option unicode show original option s}
        (resolve_waiting-Follows original question s) (choose_option-Follows original option s)

  -- The option is chosen: it is the text to go on with, the options are dropped, and the session waits
  -- for nothing.
  abbrev pub Chosen : String → String × SessionState → Type 0
  Chosen option result =
      (result.0 ≡ option)
      × (result.1.pending_options ≡ [])
      × (result.1.waiting_for ≡ "")
      × (is_waiting result.1 ≡ false)

  -- The pending option that the question names, if it names one.
  abbrev nonempty : Option String → Option String
  nonempty none = none
  nonempty (some option) = if str_eq option "" then none else some option

  abbrev pub named_option : String → SessionState → Option String
  named_option question s =
      nonempty (if has_pending_options s then resolve_option question s else none)

  abbrev pub IfChosen : Option String → String × SessionState → Type 0
  IfChosen none result = Unit {0}
  IfChosen (some option) result = Chosen option result

  choose_option-Chosen :
      (original option : String) (s : SessionState)
      → Chosen option (choose_option unicode show original option s)
  unfolding resume
  choose_option-Chosen original option s = (refl, refl, refl, refl)

  by_option-IfChosen :
      (original question : String) (o : Option String) (s : SessionState)
      → IfChosen (nonempty o) (by_option unicode show original question o s)
  by_option-IfChosen original question none s = tt
  by_option-IfChosen original question (some option) s = elim (Bool-cases (str_eq option "")) [
    | inl e ↦ rw e tt
    | inr e ↦ rw e (choose_option-Chosen original option s)
  ]

  -- Resolving a question never makes a session wait that did not, keeps its count of tokens, also
  -- when a new task resets it, and keeps its options, or drops them all and waits no more. When the
  -- question resolves to one of the pending options, that option is the text to go on with, the
  -- options are dropped, and the session waits for nothing.
  pub resolve_question-Follows :
      (original : String) (s : SessionState)
      → Follows s (resolve_question unicode show original s).1
        × IfChosen (named_option (strip original) s) (resolve_question unicode show original s)
  unfolding resolve_question resolve_option
  resolve_question-Follows original s =
      let question = strip original in
      let begun = record s { tracking = tracking_on unicode show question s.tracking } in
      let option = if has_pending_options begun then resolve_option question begun else none in
      (
        by_option-Follows original question option begun,
        by_option-IfChosen original question option begun,
      )

  -- What a turn leaves: the count of tokens; a session that waits exactly when the answer offers
  -- options, asks for input or the session waited; the options of the answer, where it offers some,
  -- and else those that there were; and a status that else is idle where it was processing, and else
  -- as it was.
  abbrev pub Settled : List (String × String) → String → SessionState → SessionState → Type 0
  Settled options answer s after =
      (after.token_usage ≡ s.token_usage)
      × (is_waiting after ≡ (not (is_empty options) || is_asking_for_input answer || is_waiting s))
      × (after.pending_options ≡ (if is_empty options then s.pending_options else options))
      × (after.status ≡ (
          if not (is_empty options) || is_asking_for_input answer
          then "waiting_user"
          else if str_eq s.status "processing"
          then "idle"
          else s.status))

  processing_not_waiting :
      (status : String) → str_eq status "processing" ≡ true → str_eq status "waiting_user" ≡ false
  processing_not_waiting status h =
      subst (λ t. str_eq t "waiting_user" ≡ false) (sym ((eq_iff status "processing").0 h)) refl

  end_turn-Settled :
      (options : List (String × String)) (answer : String) (s : SessionState)
      → Settled options answer s (end_turn unicode show options answer s)
  unfolding start_waiting resume
  end_turn-Settled [] answer s = elim (Bool-cases (is_asking_for_input answer)) [
    | inl asks ↦ rw asks (refl, refl, refl, refl)
    | inr tells ↦ elim (Bool-cases (str_eq s.status "processing")) [
      | inl busy ↦ rw (tells, busy) (refl, sym (processing_not_waiting s.status busy), refl, refl)
      | inr other ↦ rw (tells, other) (refl, refl, refl, refl)
    ]
  ]
  end_turn-Settled (option ∷ options) answer s = (refl, refl, refl, refl)

  -- After a turn the session has its count of tokens. It waits for the user exactly when the answer
  -- offers options, asks for input, or the session was waiting; its options are those that the answer
  -- offers, and else the old ones; and when it does not wait, it is idle if it was processing, and
  -- else has the status that it had.
  pub finalize_turn-settles :
      (question answer : String) (s : SessionState)
      → Settled
          (extract_options unicode answer)
          answer
          s
          (finalize_turn unicode show question answer s)
  unfolding finalize_turn
  finalize_turn-settles question answer s =
      let heard = answer_tracked unicode show answer s in
      let offered = extract_options unicode answer in
      if_both (λ named. Settled offered answer s (end_turn unicode show offered answer named))
        (str_eq heard.current_goal "" && ltb 4 (text_length question))
        {yes = record heard { current_goal = text_take 200 question }} {no = heard}
        (end_turn-Settled offered answer (record heard { current_goal = text_take 200 question }))
        (end_turn-Settled offered answer heard)
