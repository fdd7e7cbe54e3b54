-- ===== src/Conversation/Compression/Window.antt =====
-- What a compressed history keeps.
use omni_forge.Base.{
  ◌≡◌, refl, sym, ◌∙◌, ap, Bool, true, false, Option, String, List, [], ◌∷◌, ◌++◌, ℕ, zero, suc,
  ◌-◌, ◌≤◌, ◌<◌, ◌≢◌, subst, true_false, ◌⊎◌, inl, inr, length, take, is_empty, leb, arith,
  Bool-cases, ◌||◌, false_true, leb→le,
}
use mathlib.Core.List.{append_assoc}
use omni_forge.Results.{Call}
use omni_forge.Conversation.Compression.{
  HistoryMessage, count_tokens, drop, window_start, trim, compress_history,
}

abbrev Two : Type 0
Two = List HistoryMessage × List HistoryMessage

-- The two lists are the whole, and the second one fits the budget or has at most two messages.
abbrev IsTrimmed : ℕ → List HistoryMessage → Two → Type 0
IsTrimmed budget whole r = (r.0 ++ r.1 ≡ whole) × ((count_tokens r.1 ≤ budget) ⊎ (length r.1 ≤ 2))

within : (n tokens budget : ℕ) → (leb n 2 || leb tokens budget) ≡ true → (tokens ≤ budget) ⊎ (n ≤ 2)
within n tokens budget h = elim (Bool-cases (leb n 2)) [
  | inl e ↦ inr (leb→le n 2 e)
  | inr e ↦ inl (ground (arith, h, e))
]

trim-IsTrimmed :
    (budget : ℕ) (older recent : List HistoryMessage)
    → IsTrimmed budget (older ++ recent) (trim budget older recent)
unfolding trim
trim-IsTrimmed budget older [] = (refl, inr (omega arith))
trim-IsTrimmed budget older (m ∷ ms) =
    elim (Bool-cases (leb (length (m ∷ ms)) 2 || leb (count_tokens (m ∷ ms)) budget)) [
      | inl e ↦ rw e (refl, within _ (count_tokens (m ∷ ms)) budget e)
      | inr e ↦
          let (whole, fits) = trim-IsTrimmed budget (older ++ m ∷ []) ms in
          rw e (whole ∙ append_assoc older (m ∷ []) ms, fits)
    ]

-- The trimmed window is the whole one, or one message more would be over the budget, and two are left.
abbrev Stopped : ℕ → List HistoryMessage → List HistoryMessage → Two → Type 0
Stopped budget older recent r =
    (r ≡ (older, recent))
    ⊎ (before : List HistoryMessage) × (m : HistoryMessage) × (r.0 ≡ before ++ m ∷ [])
      × (budget < count_tokens (m ∷ r.1))
      × (2 ≤ length r.1)

beyond :
    (n tokens budget : ℕ)
    → (leb (suc n) 2 || leb tokens budget) ≡ false
    → (budget < tokens) × (2 ≤ n)
beyond n tokens budget h = ground (arith, h)

later_stop :
    (budget : ℕ) (older : List HistoryMessage) (m : HistoryMessage) (ms : List HistoryMessage)
    (r : Two)
    → (budget < count_tokens (m ∷ ms)) × (2 ≤ length ms)
    → Stopped budget (older ++ m ∷ []) ms r
    → Stopped budget older (m ∷ ms) r
later_stop budget older m ms r (over, left) (inl e) = inr (
  older,
  m,
  ap (λ (x : Two). x.0) e,
  subst (λ (x : List HistoryMessage). budget < count_tokens (m ∷ x)) (sym (ap (λ (x : Two). x.1) e))
      over,
  subst (λ (x : List HistoryMessage). 2 ≤ length x) (sym (ap (λ (x : Two). x.1) e)) left,
)
later_stop budget older m ms r h (inr stop) = inr stop

trim-Stopped :
    (budget : ℕ) (older recent : List HistoryMessage)
    → Stopped budget older recent (trim budget older recent)
unfolding trim
trim-Stopped budget older [] = inl refl
trim-Stopped budget older (m ∷ ms) =
    elim (Bool-cases (leb (length (m ∷ ms)) 2 || leb (count_tokens (m ∷ ms)) budget)) [
      | inl e ↦ rw e (inl refl)
      | inr e ↦ rw e (
          later_stop budget older m ms (trim budget (older ++ m ∷ []) ms)
            (beyond (length ms) (count_tokens (m ∷ ms)) budget e)
            (trim-Stopped budget (older ++ m ∷ []) ms))
    ]

length-trim :
    (budget : ℕ) (older recent : List HistoryMessage)
    → length (trim budget older recent).1 ≤ length recent
unfolding trim
length-trim budget older [] = omega arith
length-trim budget older (m ∷ ms) =
    elim (Bool-cases (leb (length (m ∷ ms)) 2 || leb (count_tokens (m ∷ ms)) budget)) [
      | inl e ↦ rw e (omega arith)
      | inr e ↦ rw e (omega (arith, length-trim budget (older ++ m ∷ []) ms))
    ]

both_false :
    (tokens budget : ℕ) (b : Bool)
    → (leb tokens budget || b) ≡ false
    → (budget < tokens) × (b ≡ false)
both_false tokens budget b h = ground (arith, h)

take-drop : (n : ℕ) (xs : List HistoryMessage) → take n xs ++ drop n xs ≡ xs
take-drop zero xs = refl
take-drop (suc n) [] = refl
take-drop (suc n) (x ∷ xs) = ap (λ ys. x ∷ ys) (take-drop n xs)

length-drop : (n : ℕ) (xs : List HistoryMessage) → length (drop n xs) ≡ length xs - n
length-drop zero xs = omega arith
length-drop (suc n) [] = omega arith
length-drop (suc n) (x ∷ xs) = omega (arith, length-drop n xs)

no_older :
    (n : ℕ) (xs : List HistoryMessage) → is_empty (take n xs) ≡ true → (n ≡ 0) ⊎ (length xs ≡ 0)
no_older zero xs h = inl refl
no_older (suc n) [] h = inr refl
no_older (suc n) (x ∷ xs) h = false_true h

short : (keep len : ℕ) → window_start keep len ≡ 0 → (keep ≡ 0) ⊎ (len ≤ keep)
short zero len h = inl refl
short (suc keep) len h = inr (omega arith)

all_kept :
    (keep : ℕ) (history : List HistoryMessage)
    → is_empty (take (window_start keep (length history)) history) ≡ true
    → (keep ≡ 0) ⊎ (length history ≤ keep)
all_kept keep history h = elim (no_older (window_start keep (length history)) history h) [
  | inl e ↦ short keep (length history) e
  | inr e ↦ inr (omega arith)
]

kept_length : (keep len : ℕ) → window_start keep len ≢ 0 → len - window_start keep len ≡ keep
kept_length zero len h = absurd (h refl)
kept_length (suc keep) len h = omega (arith, h)

some_older : (n : ℕ) (xs : List HistoryMessage) → is_empty (take n xs) ≡ false → n ≢ 0
some_older zero xs h = true_false h
some_older (suc n) xs h = omega arith

module _ (number : ℕ → String) (ask : Option (String → Call String)) (budget keep : ℕ)
    (history : List HistoryMessage) where
  -- The last messages, and how many: all of them, where they fit or where no more are to be kept, or
  -- where zero are; else as many as are to be kept; or fewer, at least two, with which the next older
  -- message would be over the budget. They fit, or are at most two, or are all.
  abbrev pub KeepsLast : List HistoryMessage → Type 0
  KeepsLast recent =
      (older : List HistoryMessage) × (older ++ recent ≡ history)
      × (((recent ≡ history)
            × ((count_tokens history ≤ budget) ⊎ (keep ≡ 0) ⊎ (length history ≤ keep)))
          ⊎ ((count_tokens recent ≤ budget) ⊎ (length recent ≤ 2))
            × (budget < count_tokens history)
            × ((length recent ≡ keep)
                ⊎ (length recent ≤ keep)
                  × (before : List HistoryMessage) × (m : HistoryMessage) × (older
                      ≡ before ++ m ∷ [])
                  × (budget < count_tokens (m ∷ recent))
                  × (2 ≤ length recent)))

  why_whole :
      (fits empty : Bool) (tokens : ℕ)
      → fits ≡ leb tokens budget
      → (empty ≡ true → (keep ≡ 0) ⊎ (length history ≤ keep))
      → (fits || empty) ≡ true
      → (tokens ≤ budget) ⊎ (keep ≡ 0) ⊎ (length history ≤ keep)
  why_whole true empty tokens same kept h = inl (leb→le tokens budget (sym same))
  why_whole false empty tokens same kept h = inr (kept h)

  windowed :
      (older recent : List HistoryMessage) (r : Two)
      → length recent ≡ keep
      → budget < count_tokens history
      → older ++ recent ≡ history
      → IsTrimmed budget (older ++ recent) r
      → Stopped budget older recent r
      → length r.1 ≤ length recent
      → KeepsLast r.1
  windowed older recent r size over all (whole, fits) (inl e) short =
      (r.0, whole ∙ all, inr (fits, over, inl (ap (λ (x : Two). length x.1) e ∙ size)))
  windowed older recent r size over all (whole, fits) (inr (before, m, e, more, two)) short = (
    r.0,
    whole ∙ all,
    inr (fits, over, inr (omega (arith, short, size), before, m, e, more, two)),
  )

  -- The messages that a compressed history keeps are the last ones, unchanged and in order: the whole
  -- history, where it fits the budget, is no longer than what is to be kept, or zero messages
  -- are to be kept; else as many as are to be kept, or fewer, at least two, and then no more of them
  -- fit the budget. A shortened history fits the budget or has at most two messages.
  pub compress_history-KeepsLast : KeepsLast (compress_history number ask budget keep history).0
  unfolding compress_history
  compress_history-KeepsLast =
      let start = window_start keep (length history) in
      let older = take start history in
      let recent = drop start history in
      elim (Bool-cases (leb (count_tokens history) budget || is_empty older)) [
        | inl e ↦ rw e (
          [],
          refl,
          inl (refl, why_whole _ _ (count_tokens history) refl (all_kept keep history) e),
        )
        | inr e ↦
            let (over, cut) = both_false (count_tokens history) budget _ e in
            rw e (
              windowed older recent (trim budget older recent)
                (length-drop start history
                  ∙ kept_length keep (length history) (some_older start history cut))
                over (take-drop start history) (trim-IsTrimmed budget older recent)
                (trim-Stopped budget older recent) (length-trim budget older recent))
      ]
