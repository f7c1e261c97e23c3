-- ===== src/Scheduler/Winner.antt =====
-- Of several callers that end one match (services/scheduler.py), one does.
use telegram_bot_new_version.Scheduler.Race.{ended, System, has_ended, Step, Reach, IsSettled}
use telegram_bot_new_version.Scheduler.Store.{
  Store, is_open, atomic_deactivate_match, is_open-deactivate, deactivate-row,
}
use telegram_bot_new_version.Prelude.{
  ◌==◌, is_some, Bool-cases, ℕ, ◌≡◌, refl, sym, ap, subst, ◌∙◌, ◌⊎◌, inl, inr, true, false, some,
  arith,
}
use telegram_bot_new_version.Models.Social.{MatchHistory}
use telegram_bot_new_version.Prelude.Table.{at}

module _ (job : ℕ → ℕ) where
  -- What leaves the matches alone and ends nothing.
  keeps-IsSettled :
      (s t : System)
      → t.store.matches ≡ s.store.matches
      → ((k : ℕ) → has_ended (t.pc k) ≡ true → has_ended (s.pc k) ≡ true)
      → IsSettled job s
      → IsSettled job t
  keeps-IsSettled s t same back h = record {
    closed = λ i e. subst (λ ms. is_open (job i) ms ≡ false) (sym same) (h.closed i (back i e));
    unique = λ i j e f. h.unique i j (back i e) (back j f);
  }

  win-closed :
      (s : System) (i : ℕ) (m : MatchHistory) (k : ℕ)
      → IsSettled job s
      → has_ended (at i (ended m) s.pc k) ≡ true
      → is_open (job k) (atomic_deactivate_match s.now (job i) s.store.matches).0 ≡ false
  win-closed s i m k h e =
      ground (arith, h.closed k, is_open-deactivate s.now (job i) (job k) s.store.matches)

  win_unique :
      (s : System) (i : ℕ) (m : MatchHistory) (a b : ℕ)
      → IsSettled job s
      → (atomic_deactivate_match s.now (job i) s.store.matches).1 ≡ some m
      → has_ended (at i (ended m) s.pc a) ≡ true
      → has_ended (at i (ended m) s.pc b) ≡ true
      → job a ≡ job b
      → a ≡ b
  win_unique s i m a b h w ea eb same =
      let open_before : is_open (job i) s.store.matches ≡ true =
        sym (deactivate-row s.now (job i) s.store.matches) ∙ ap is_some w in
      ground (
        arith,
        h.closed a,
        h.closed b,
        h.unique a b,
        ap (λ x. is_open x s.store.matches) same,
        open_before,
      )

  Step-IsSettled : {s t : System} → Step job s t → IsSettled job s → IsSettled job t
  Step-IsSettled (Step.tick n) h = keeps-IsSettled _ _ refl (λ k e. e) h
  Step-IsSettled (Step.acquire i p free) h = keeps-IsSettled _ _ refl (λ k e. ground arith) h
  Step-IsSettled (Step.give_up i p busy) h = keeps-IsSettled _ _ refl (λ k e. ground arith) h
  Step-IsSettled {s} (Step.win i m p w) h = record {
    closed = λ k e. win-closed s i m k h e;
    unique = λ a b ea eb same. win_unique s i m a b h w ea eb same;
  }
  Step-IsSettled (Step.lose i p n) h = keeps-IsSettled _ _ refl (λ k e. ground arith) h
  Step-IsSettled (Step.break_off i p) h = keeps-IsSettled _ _ refl (λ k e. ground arith) h
  Step-IsSettled (Step.tell i m p) h = keeps-IsSettled _ _ refl (λ k e. ground arith) h
  Step-IsSettled (Step.fail i m p) h = keeps-IsSettled _ _ refl (λ k e. ground arith) h
  Step-IsSettled (Step.release i o p) h = keeps-IsSettled _ _ refl (λ k e. ground arith) h

  Reach-IsSettled : {store : Store} {now : ℕ} {s : System} → Reach job store now s → IsSettled job s
  Reach-IsSettled Reach.start = record { closed = λ i e. cc; unique = λ i j e f. cc }
  Reach-IsSettled (Reach.later r st) = Step-IsSettled st (Reach-IsSettled r)

  -- However the callers interleave, whatever locks there are at the start, and also when locks expire
  -- under their holders or a call breaks off: two callers whose UPDATE wrote the row of the same match
  -- are one caller, and that match is no longer active.
  pub one_winner :
      {store : Store} {now : ℕ} {s : System}
      → Reach job store now s
      → (i j : ℕ) → has_ended (s.pc i) ≡ true
      → has_ended (s.pc j) ≡ true
      → job i ≡ job j
      → (i ≡ j) × (is_open (job i) s.store.matches ≡ false)
  one_winner r i j ei ej same =
      let h = Reach-IsSettled r in (h.unique i j ei ej same, h.closed i ei)

  -- A match is active still, or a caller of it has ended it.
  abbrev IsAccounted : ℕ → System → Type 0
  IsAccounted id s =
      (is_open id s.store.matches ≡ true) ⊎ ((i : ℕ) × (job i ≡ id) × (has_ended (s.pc i) ≡ true))

  keeps-IsAccounted :
      (id : ℕ) (s t : System)
      → t.store.matches ≡ s.store.matches
      → ((k : ℕ) → has_ended (s.pc k) ≡ true → has_ended (t.pc k) ≡ true)
      → IsAccounted id s
      → IsAccounted id t
  keeps-IsAccounted id s t same on (inl o) = inl (subst (λ ms. is_open id ms ≡ true) (sym same) o)
  keeps-IsAccounted id s t same on (inr (i, e, f)) = inr (i, e, on i f)

  win-IsAccounted :
      (id : ℕ) (s : System) (i : ℕ) (m : MatchHistory)
      → IsAccounted id s
      → IsAccounted id (record s {
        store = record s.store {
          matches = (atomic_deactivate_match s.now (job i) s.store.matches).0;
        };
        pc = at i (ended m) s.pc;
      })
  win-IsAccounted id s i m (inr (k, e, f)) = inr (k, e, ground arith)
  win-IsAccounted id s i m (inl o) = elim (Bool-cases (job i == id)) [
    | inl own ↦ inr (i, ground arith, ground arith)
    | inr other ↦ inl (is_open-deactivate s.now (job i) id s.store.matches ∙ rw other o)
  ]

  Step-IsAccounted : (id : ℕ) {s t : System} → Step job s t → IsAccounted id s → IsAccounted id t
  Step-IsAccounted id {s} {t} (Step.tick n) h = keeps-IsAccounted id s t refl (λ k e. e) h
  Step-IsAccounted id {s} {t} (Step.acquire i p free) h =
      keeps-IsAccounted id s t refl (λ k e. ground arith) h
  Step-IsAccounted id {s} {t} (Step.give_up i p busy) h =
      keeps-IsAccounted id s t refl (λ k e. ground arith) h
  Step-IsAccounted id {s} (Step.win i m p w) h = win-IsAccounted id s i m h
  Step-IsAccounted id {s} {t} (Step.lose i p n) h =
      keeps-IsAccounted id s t refl (λ k e. ground arith) h
  Step-IsAccounted id {s} {t} (Step.break_off i p) h =
      keeps-IsAccounted id s t refl (λ k e. ground arith) h
  Step-IsAccounted id {s} {t} (Step.tell i m p) h =
      keeps-IsAccounted id s t refl (λ k e. ground arith) h
  Step-IsAccounted id {s} {t} (Step.fail i m p) h =
      keeps-IsAccounted id s t refl (λ k e. ground arith) h
  Step-IsAccounted id {s} {t} (Step.release i o p) h =
      keeps-IsAccounted id s t refl (λ k e. ground arith) h

  Reach-IsAccounted :
      (id : ℕ) {store : Store} {now : ℕ} {s : System}
      → is_open id store.matches ≡ true
      → Reach job store now s
      → IsAccounted id s
  Reach-IsAccounted id o Reach.start = inl o
  Reach-IsAccounted id o (Reach.later r st) = Step-IsAccounted id st (Reach-IsAccounted id o r)

  -- Where only these callers end matches: one that was active at the start and is no longer was ended
  -- by the UPDATE of a caller that was to end it.
  pub ended_by_caller :
      (id : ℕ) {store : Store} {now : ℕ} {s : System}
      → is_open id store.matches ≡ true
      → Reach job store now s
      → is_open id s.store.matches ≡ false
      → (i : ℕ) × (job i ≡ id) × (has_ended (s.pc i) ≡ true)
  ended_by_caller id o r over = elim (Reach-IsAccounted id o r) [
    | inl still ↦ absurd (cc)
    | inr found ↦ found
  ]
