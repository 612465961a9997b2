-- ===== src/Evidence/Last.antt =====
-- The last event, in order, that passes a test.
use actionwitness.Prelude.{
  ◌≡◌, ◌≤◌, refl, sym, inl, inr, Bool, true, List, [], ◌∷◌, Memᴰ, mem-cons, none, some, arith,
  Bool-cases, all_sound, all_complete, filter, get_last?, mem-filter, mem_of_mem-filter, Some,
}
use actionwitness.Prelude.Sort.{IsSorted}
use actionwitness.Evidence.{RunEvent, ordered, sequence_leb}
use actionwitness.Evidence.Order.{ordered-IsSorted, mem-ordered, mem_of_mem-ordered}

no_member : {e : RunEvent} → ¬ Memᴰ e []
no_member m = elim m [ ]

filter-IsSorted :
    (p : RunEvent → Bool) (events : List RunEvent)
    → IsSorted sequence_leb events
    → IsSorted sequence_leb (filter p events)
unfolding filter
filter-IsSorted p [] s = s
filter-IsSorted p (e ∷ es) (low, s) = elim (Bool-cases (p e)) [
  | inr h ↦ rw h (filter-IsSorted p es s)
  | inl h ↦ rw h (
    all_complete (sequence_leb e) (filter p es)
        (λ f m. all_sound (sequence_leb e) (mem_of_mem-filter p es m).0 low),
    filter-IsSorted p es s,
  )
]

-- an event that is not before any event of the list
abbrev IsLatest : List RunEvent → RunEvent → Type 0
IsLatest events e =
    Memᴰ e events × ((f : RunEvent) → Memᴰ f events → f.sequence_number ≤ e.sequence_number)

get_last?-IsLatest :
    (events : List RunEvent) (e : RunEvent)
    → IsSorted sequence_leb events
    → get_last? events ≡ some e
    → IsLatest events e
unfolding get_last?
get_last?-IsLatest [] e s h = absurd (cc h)
get_last?-IsLatest (x ∷ []) e s h =
    let same : x ≡ e = cc h in
    (
      Memᴰ.head (sym same),
      λ f m. elim (mem-cons m) [ inl k ↦ rw (k, same) (omega arith) | inr n ↦ elim n [ ] ],
    )
get_last?-IsLatest (x ∷ y ∷ ys) e (low, s) h =
    let (member, latest) = get_last?-IsLatest (y ∷ ys) e s h in
    let below = all_sound (sequence_leb x) member low in
    (
      Memᴰ.tail member,
      λ f m. elim (mem-cons m) [ inl k ↦ rw k (ground arith) | inr n ↦ latest f n ],
    )

get_last?-none : (events : List RunEvent) → get_last? events ≡ none → events ≡ []
unfolding get_last?
get_last?-none [] h = refl
get_last?-none (x ∷ []) h = absurd (cc h)
get_last?-none (x ∷ y ∷ ys) h = absurd (cc (get_last?-none (y ∷ ys) h))

-- the last event of the run that passes the test
abbrev pub IsLast : (RunEvent → Bool) → List RunEvent → RunEvent → Type 0
IsLast p events e =
    Memᴰ e events
    × (p e ≡ true)
    × ((f : RunEvent) → Memᴰ f events → p f ≡ true → f.sequence_number ≤ e.sequence_number)

module _ (p : RunEvent → Bool) (events : List RunEvent) where
  pub IsLast-passing :
      (e : RunEvent) → get_last? (filter p (ordered events)) ≡ some e → IsLast p events e
  IsLast-passing e h =
      let sorted = filter-IsSorted p (ordered events) (ordered-IsSorted events) in
      let (m, latest) = get_last?-IsLatest (filter p (ordered events)) e sorted h in
      let (n, q) = mem_of_mem-filter p (ordered events) m in
      (mem_of_mem-ordered events n, q, λ f k r. latest f (mem-filter p (mem-ordered events k) r))

  pub none_passing : get_last? (filter p (ordered events)) ≡ none → ¬ Some p events
  none_passing h (e, m, q) =
      no_member (
        rw (get_last?-none (filter p (ordered events)) h) at
          (mem-filter p (mem-ordered events m) q))
