-- ===== src/Threads/Queue/Order.antt =====
-- The order and the bound of the queue.
use cx_framework.Base.{
  ℕ, ◌<◌, Bool, true, false, ◌≡◌, ◌⊎◌, inl, inr, refl, sym, ap, ◌∙◌, Option, none, some, List, [],
  ◌∷◌, length, ◌==◌, arith, Bool-cases,
}
use cx_framework.Threads.Queue.{
  TsQueue, Wait, timed_out, notified, is_full, put_last, push, take_first, pop,
}

module _ {ℓ} {A : Type ℓ} where
  -- The queue is one that a call found: at its start, or at the end of a wait.
  abbrev pub Found : TsQueue A → TsQueue A → List (Wait A) → Type ℓ
  Found q start [] = q ≡ start
  Found q start (timed_out q' ∷ waits) = (q ≡ start) ⊎ (q ≡ q')
  Found q start (notified q' ∷ waits) = (q ≡ start) ⊎ Found q q' waits

  -- What `push` may come to, for the queue that it found last.
  abbrev pub Pushed : A → TsQueue A → TsQueue A × Bool → Type ℓ
  Pushed item q (q', true) = (q' ≡ put_last item q) × (length q.items < q.max_items)
  Pushed item q (q', false) = q' ≡ q

  put_Pushed :
      (item : A) (q q' : TsQueue A) (ok : Bool)
      → is_full q ≡ false
      → ◌≡◌ {A = Option (TsQueue A × Bool)} (some (put_last item q, true)) (some (q', ok))
      → Pushed item q (q', ok)
  unfolding is_full
  put_Pushed item q q' true room h = (cc, ground arith)
  put_Pushed item q q' false room h = cc

  kept_Pushed :
      (item : A) (q q' : TsQueue A) (ok : Bool)
      → ◌≡◌ {A = Option (TsQueue A × Bool)} (some (q, false)) (some (q', ok))
      → Pushed item q (q', ok)
  kept_Pushed item q q' true h = cc
  kept_Pushed item q q' false h = cc

  -- `push` adds its item behind the others, if it returns true, to a queue that it found with fewer
  -- items than the bound, and leaves the queue as it found it otherwise.
  pub push-Pushed :
      (item : A) (t : ℕ) (waits : List (Wait A)) (q q' : TsQueue A) (ok : Bool)
      → push item t waits q ≡ some (q', ok)
      → (found : TsQueue A) × Found found q waits × Pushed item found (q', ok)
  unfolding push
  push-Pushed item t [] q q' ok h = elim (Bool-cases (is_full q)) [
    | inr room ↦ (q, refl, put_Pushed item q q' ok room (rw room at h))
    | inl full ↦ elim (Bool-cases (t == 0)) [
      | inl now ↦ (q, refl, kept_Pushed item q q' ok (rw (full, now) at h))
      | inr later ↦ cc (rw (full, later) at h)
    ]
  ]
  push-Pushed item t (timed_out q₁ ∷ waits) q q' ok h = elim (Bool-cases (is_full q)) [
    | inr room ↦ (q, inl refl, put_Pushed item q q' ok room (rw room at h))
    | inl full ↦ elim (Bool-cases (t == 0)) [
      | inl now ↦ (q, inl refl, kept_Pushed item q q' ok (rw (full, now) at h))
      | inr later ↦ (q₁, inr refl, kept_Pushed item q₁ q' ok (rw (full, later) at h))
    ]
  ]
  push-Pushed item t (notified q₁ ∷ waits) q q' ok h = elim (Bool-cases (is_full q)) [
    | inr room ↦ (q, inl refl, put_Pushed item q q' ok room (rw room at h))
    | inl full ↦ elim (Bool-cases (t == 0)) [
      | inl now ↦ (q, inl refl, kept_Pushed item q q' ok (rw (full, now) at h))
      | inr later ↦
          let (found, where_, what) = push-Pushed item t waits q₁ q' ok (rw (full, later) at h) in
          (found, inr where_, what)
    ]
  ]

  -- What `pop` may come to, for the queue that it found last.
  abbrev pub PoppedFrom : TsQueue A → TsQueue A × Option A → Type ℓ
  PoppedFrom q (q', some a) = (q.items ≡ a ∷ q'.items) × (q'.max_items ≡ q.max_items)
  PoppedFrom q (q', none) = q' ≡ q

  taken_PoppedFrom :
      (a : A) (rest : List A) (q q' : TsQueue A) (r : Option A)
      → q.items ≡ a ∷ rest
      → ◌≡◌ {A = Option (TsQueue A × Option A)}
          (some (record { items = rest; max_items = q.max_items }, some a))
          (some (q', r))
      → PoppedFrom q (q', r)
  taken_PoppedFrom a rest q q' none e h = cc
  taken_PoppedFrom a rest q q' (some b) e h =
      let same : ◌≡◌ {A = TsQueue A} (record { items = rest; max_items = q.max_items }) q' = cc in
      let front : a ≡ b = cc in
      (
        e ∙ ap (λ (x : A). x ∷ rest) front ∙ ap (λ (p : TsQueue A). b ∷ p.items) same,
        sym (ap (λ (p : TsQueue A). p.max_items) same),
      )

  nothing_PoppedFrom :
      (q q' : TsQueue A) (r : Option A)
      → ◌≡◌ {A = Option (TsQueue A × Option A)} (some (q, none)) (some (q', r))
      → PoppedFrom q (q', r)
  nothing_PoppedFrom q q' none h = cc
  nothing_PoppedFrom q q' (some b) h = cc

  items_cases :
      (q : TsQueue A) → (q.items ≡ []) ⊎ ((a : A) × (rest : List A) × (q.items ≡ a ∷ rest))
  items_cases q =
      elim q.items as (λ xs. (xs ≡ []) ⊎ ((a : A) × (rest : List A) × (xs ≡ a ∷ rest))) [
        | [] ↦ inl refl
        | a ∷ rest ↦ inr (a, rest, refl)
      ]

  take_nothing :
      (xs : List A) (n : ℕ) (w : Option (TsQueue A × Option A)) → xs ≡ [] → take_first xs n w ≡ w
  unfolding take_first
  take_nothing xs n w e = ap (λ (ys : List A). take_first ys n w) e

  -- `pop` returns the first item of a queue that it found, if it returns one, and takes it off, and
  -- leaves the queue as it found it if it returns the null pointer.
  pub pop-PoppedFrom :
      (t : ℕ) (waits : List (Wait A)) (q q' : TsQueue A) (r : Option A)
      → pop t waits q ≡ some (q', r)
      → (found : TsQueue A) × Found found q waits × PoppedFrom found (q', r)
  unfolding pop take_first
  pop-PoppedFrom t [] q q' r h = elim (items_cases q) [
    | inr (a, rest, e) ↦ (q, refl, taken_PoppedFrom a rest q q' r e (rw (e, take_first) at h))
    | inl e ↦ elim (Bool-cases (t == 0)) [
      | inl now ↦ (
        q,
        refl,
        nothing_PoppedFrom q q' r (rw now at (sym (take_nothing q.items q.max_items _ e) ∙ h)),
      )
      | inr later ↦ cc (rw later at (sym (take_nothing q.items q.max_items _ e) ∙ h))
    ]
  ]
  pop-PoppedFrom t (timed_out q₁ ∷ waits) q q' r h = elim (items_cases q) [
    | inr (a, rest, e) ↦ (q, inl refl, taken_PoppedFrom a rest q q' r e (rw (e, take_first) at h))
    | inl e ↦ elim (Bool-cases (t == 0)) [
      | inl now ↦ (
        q,
        inl refl,
        nothing_PoppedFrom q q' r (rw now at (sym (take_nothing q.items q.max_items _ e) ∙ h)),
      )
      | inr later ↦ (
        q₁,
        inr refl,
        nothing_PoppedFrom q₁ q' r (rw later at (sym (take_nothing q.items q.max_items _ e) ∙ h)),
      )
    ]
  ]
  pop-PoppedFrom t (notified q₁ ∷ waits) q q' r h = elim (items_cases q) [
    | inr (a, rest, e) ↦ (q, inl refl, taken_PoppedFrom a rest q q' r e (rw (e, take_first) at h))
    | inl e ↦ elim (Bool-cases (t == 0)) [
      | inl now ↦ (
        q,
        inl refl,
        nothing_PoppedFrom q q' r (rw now at (sym (take_nothing q.items q.max_items _ e) ∙ h)),
      )
      | inr later ↦
          let (found, where_, what) =
            pop-PoppedFrom t waits q₁ q' r
              (rw later at (sym (take_nothing q.items q.max_items _ e) ∙ h)) in
          (found, inr where_, what)
    ]
  ]
