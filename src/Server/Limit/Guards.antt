-- ===== src/Server/Limit/Guards.antt =====
-- The guards and waiting tasks of actix-server-alt/src/worker/limit.rs.
use actix_server_alt.Prelude.{
  ℕ, ◌+◌, ◌-◌, ◌≤◌, ◌<◌, ◌≡◌, ◌≢◌, refl, ap, sym, subst, List, [], ◌∷◌, All, ◌∙◌, true, false,
  Bool-cases, Option, none, some, ◌==◌, Poll, ready, pending, arith, ◌⊎◌, inl, inr,
}
use actix_server_alt.Server.Limit.{Limit, new, poll, drop_guard}

-- A state that a worker can reach, with the guards that are alive.
pub data Reach (limit : ℕ) : Limit → ℕ → Type 0 where
  start : Reach limit (new limit) 0
  acquire :
      (l : Limit) (g waker : ℕ)
      → Reach limit l g
      → (poll waker l).1 ≡ ready tt
      → Reach limit (poll waker l).0 (g + 1)
  wait :
      (l : Limit) (g waker : ℕ)
      → Reach limit l g
      → (poll waker l).1 ≡ pending
      → Reach limit (poll waker l).0 g
  release : (l : Limit) (g : ℕ) → Reach limit l (g + 1) → Reach limit (drop_guard l).0 g

-- The count is that of the guards and within the limit, and a waker is kept only at the limit.
pub record IsValid (limit : ℕ) (l : Limit) (g : ℕ) : Type 0 where
  pub same : l.limit ≡ limit
  pub counted : l.current ≡ g
  pub within : l.current ≤ l.limit
  pub waits : (l.waker ≡ none) ⊎ (l.current ≡ l.limit)

poll-IsValid :
    (limit : ℕ) (l : Limit) (g waker : ℕ)
    → IsValid limit l g
    → ((poll waker l).1 ≡ ready tt → IsValid limit (poll waker l).0 (g + 1))
      × ((poll waker l).1 ≡ pending → IsValid limit (poll waker l).0 g)
unfolding poll
poll-IsValid limit l g waker v = elim (Bool-cases (l.current == l.limit)) [
  | inl full ↦ rw full (
    λ e. absurd (let q = e in cc),
    λ e. record {
      same = v.same;
      counted = v.counted;
      within = v.within;
      waits = inr (ground arith);
    },
  )
  | inr room ↦ rw room (
    λ e. record {
      same = v.same;
      counted = omega (arith, v.counted);
      within = ground (arith, v.within);
      waits = inl (ground (arith, v.waits));
    },
    λ e. absurd (let q = e in cc),
  )
]

drop_guard-IsValid :
    (limit : ℕ) (l : Limit) (g : ℕ) → IsValid limit l (g + 1) → IsValid limit (drop_guard l).0 g
unfolding drop_guard
drop_guard-IsValid limit l g v = elim (Bool-cases (l.current == l.limit)) [
  | inl full ↦ rw full (record {
    same = v.same;
    counted = omega (arith, v.counted);
    within = omega (arith, v.within);
    waits = inl refl;
  })
  | inr room ↦ rw room (record {
    same = v.same;
    counted = omega (arith, v.counted);
    within = omega (arith, v.within);
    waits = inl (ground (arith, v.waits));
  })
]

-- However tasks take guards, wait for them and drop them, the count is that of the guards alive and
-- never passes the limit, and a waker is kept only while the limit is reached.
pub Reach-IsValid : (limit : ℕ) (l : Limit) (g : ℕ) → Reach limit l g → IsValid limit l g
unfolding new
Reach-IsValid limit _ _ start = record {
  same = refl;
  counted = refl;
  within = omega arith;
  waits = inl refl;
}
Reach-IsValid limit _ _ (acquire l g waker r e) =
    (poll-IsValid limit l g waker (Reach-IsValid limit l g r)).0 e
Reach-IsValid limit _ _ (wait l g waker r e) =
    (poll-IsValid limit l g waker (Reach-IsValid limit l g r)).1 e
Reach-IsValid limit _ _ (release l g r) =
    drop_guard-IsValid limit l g (Reach-IsValid limit l (g + 1) r)

full_poll :
    (l : Limit) (t : ℕ) → l.current ≡ l.limit → poll t l ≡ (record l { waker = some t }, pending)
unfolding poll
full_poll l t full = let test : (l.current == l.limit) ≡ true = ground arith in rw test

full_drop :
    (l : Limit)
    → l.current ≡ l.limit
    → drop_guard l ≡ (record l { current = l.current - 1; waker = none }, l.waker)
unfolding drop_guard
full_drop l full = let test : (l.current == l.limit) ≡ true = ground arith in rw test

room_poll : (l : Limit) (t : ℕ) → l.current < l.limit → (poll t l).1 ≡ ready tt
unfolding poll
room_poll l t room = let test : (l.current == l.limit) ≡ false = ground arith in rw test

-- What happens to the limit: a task polls, or a guard is dropped.
pub data Event : Type 0 where
  polled : ℕ → Event
  dropped : Event

abbrev add_woken : Option ℕ → List ℕ → List ℕ
add_woken none wakers = wakers
add_woken (some w) wakers = w ∷ wakers

-- The wakers that are woken, in order.
abbrev pub woken : List Event → Limit → List ℕ
woken [] l = []
woken (polled w ∷ events) l = woken events (poll w l).0
woken (dropped ∷ events) l = add_woken (drop_guard l).1 (woken events (drop_guard l).0)

some_inj : {m n : ℕ} → some m ≡ some n → m ≡ n
some_inj e = let q = e in cc

add_woken-All :
    (t : ℕ) (waker : Option ℕ) (wakers : List ℕ)
    → waker ≢ some t
    → All (λ (w : ℕ). w ≢ t) wakers
    → All (λ (w : ℕ). w ≢ t) (add_woken waker wakers)
add_woken-All t none wakers h rest = rest
add_woken-All t (some w) wakers h rest = (λ e. h (ap some e), rest)

-- A task whose waker is not kept, and which does not poll, is not woken.
never_woken :
    (t : ℕ) (events : List Event) (l : Limit)
    → l.waker ≢ some t
    → All (λ (e : Event). e ≢ polled t) events
    → All (λ (w : ℕ). w ≢ t) (woken events l)
unfolding poll drop_guard
never_woken t [] l h quiet = tt
never_woken t (polled w ∷ events) l h quiet = elim (Bool-cases (l.current == l.limit)) [
  | inl full ↦ rw full (
      never_woken t events (record l { waker = some w }) (λ e. quiet.0 (ap polled (some_inj e)))
        quiet.1)
  | inr room ↦ rw room (never_woken t events (record l { current = l.current + 1 }) h quiet.1)
]
never_woken t (dropped ∷ events) l h quiet = elim (Bool-cases (l.current == l.limit)) [
  | inl full ↦ rw full (
      add_woken-All t l.waker _ h (
        never_woken t events (record l { current = l.current - 1; waker = none })
          (λ e. absurd (let q = e in cc)) quiet.1))
  | inr room ↦ rw room (never_woken t events (record l { current = l.current - 1 }) h quiet.1)
]

-- At the limit, which is above zero, a task has to wait. The next guard that is dropped wakes it, and
-- then its poll takes a guard. But of two tasks that wait only the last is woken by the next guard that is dropped, and
-- the first by none, however guards are dropped and other tasks poll, unless it polls again.
pub poll-drop_guard :
    (l : Limit) (t u : ℕ) (events : List Event)
    → l.current ≡ l.limit
    → 0 < l.limit
    → u ≢ t
    → All (λ (e : Event). e ≢ polled t) events
    → ((poll t l).1 ≡ pending)
      × ((drop_guard (poll t l).0).1 ≡ some t)
      × ((poll t (drop_guard (poll t l).0).0).1 ≡ ready tt)
      × ((drop_guard (poll u (poll t l).0).0).1 ≡ some u)
      × All (λ (w : ℕ). w ≢ t) (woken events (poll u (poll t l).0).0)
poll-drop_guard l t u events full some_limit other quiet =
    let first : Limit = record l { waker = some t } in
    let second : Limit = record l { waker = some u } in
    let left : Limit = record l { current = l.current - 1; waker = none } in
    let one =
      ap (λ (r : Limit × Poll (Unit {0})). drop_guard r.0) (full_poll l t full)
      ∙ full_drop first full in
    let two =
      ap (λ (r : Limit × Poll (Unit {0})). (poll u r.0).0) (full_poll l t full)
      ∙ ap (λ (r : Limit × Poll (Unit {0})). r.0) (full_poll first u full) in
    (
      ap (λ (r : Limit × Poll (Unit {0})). r.1) (full_poll l t full),
      ap (λ (r : Limit × Option ℕ). r.1) one,
      ap (λ (r : Limit × Option ℕ). (poll t r.0).1) one ∙ room_poll left t (omega arith),
      ap (λ (r : Limit). (drop_guard r).1) two
          ∙ ap (λ (r : Limit × Option ℕ). r.1) (full_drop second full),
      subst (λ (r : Limit). All (λ (w : ℕ). w ≢ t) (woken events r)) (sym two)
          (never_woken t events second (λ e. other (some_inj e)) quiet),
    )
